-- ===== src/Endpoints/Explain.antt =====
-- apps/api/app/api/v1/ai.py. The results of the two limiters are arguments.
use crypto_intelligence_plat.Ai.Service.{explain_either}
use crypto_intelligence_plat.Ai.Stored.{Stored, explain_Keeps}
use crypto_intelligence_plat.Base.{Str, is_some, not, ℕ, ℤ, ◌&&◌}
use crypto_intelligence_plat.Config.{Settings}
use crypto_intelligence_plat.Endpoints.{after_request, request_session}
use crypto_intelligence_plat.Errors.{validation_error}
use crypto_intelligence_plat.Exec.{Exec, Result, err, lift, ok, pure, raise_if, ◌>>=◌, ◌>>◌}
use crypto_intelligence_plat.Exec.Keeps.{Keeps, Keeps-bind}
use crypto_intelligence_plat.Models.{AiAnalysis, Db}
use crypto_intelligence_plat.Schemas.{AiExplainRequest, AiExplanationOut}

abbrev pub explanation_out : AiAnalysis → AiExplanationOut
explanation_out row = record {
  explanation = row.explanation;
  model = row.model;
  is_cached = row.is_cached;
  input_summary = row.input_summary;
}

module _ (settings : Settings) (sha256 : Str → Str) (str_decimal : ℤ → Str) where
  unfoldable pub explain :
      Result (ℕ → Result Str)
      → Result (Unit {0})
      → Result (Unit {0})
      → ℕ
      → AiExplainRequest
      → Exec Db AiExplanationOut
  explain provider user_limiter global_limiter user_id payload = request_session (do
    raise_if (not (is_some payload.wallet_id) && not (is_some payload.tx_id))
        (validation_error "either wallet_id or tx_id must be provided")
    lift user_limiter
    lift global_limiter
    row ←
        explain_either settings sha256 str_decimal provider user_id payload.tx_id payload.wallet_id
    pure (explanation_out row))

  ended_Stored : {A : Type 0} (m : Exec Db A) → Keeps Stored m → Keeps Stored (request_session m)
  ended_Stored {A} m h = record { at = λ s k. of_result s (m s).0 (m s).1 k (h.at s k) }
    where
      of_result :
          (s : Db) (r : Result A) (t : Db) → Stored s → Stored t → Stored (after_request s r t)
      of_result s (ok a) t hs ht = ht
      of_result s (err e) t hs ht = hs

  Keeps-explain :
      (p : Result (ℕ → Result Str)) (user_limiter global_limiter : Result (Unit {0})) (user_id : ℕ)
      (payload : AiExplainRequest)
      → Keeps Stored (explain p user_limiter global_limiter user_id payload)
  unfolding explain
  Keeps-explain p user_limiter global_limiter user_id payload = ended_Stored _ (
      Keeps-bind
        (raise_if (not (is_some payload.wallet_id) && not (is_some payload.tx_id))
          (validation_error "either wallet_id or tx_id must be provided"))
        _ (record { at = λ s h. h })
        (λ _.
          Keeps-bind (lift user_limiter) _ (record { at = λ s h. h })
            (λ _.
              Keeps-bind (lift global_limiter) _ (record { at = λ s h. h })
                (λ _.
                  Keeps-bind
                    (explain_either settings sha256 str_decimal p user_id payload.tx_id
                      payload.wallet_id)
                    (λ row. pure (explanation_out row))
                    (explain_Keeps settings sha256 str_decimal p user_id payload.tx_id
                      payload.wallet_id)
                    (λ row. record { at = λ s h. h })))))

  -- Where every explanation in the database has at most 4000 characters and 250 words, is not blank and
  -- has no control character and no backtick in it, that is so after any request for an explanation
  -- too, whatever the model answers and whether the request is answered or refused.
  pub explain-keeps_clean :
      (p : Result (ℕ → Result Str)) (user_limiter global_limiter : Result (Unit {0})) (user_id : ℕ)
      (payload : AiExplainRequest) (s : Db)
      → Stored s
      → Stored (explain p user_limiter global_limiter user_id payload s).1
  explain-keeps_clean p user_limiter global_limiter user_id payload s h =
      (Keeps-explain p user_limiter global_limiter user_id payload).at s h
