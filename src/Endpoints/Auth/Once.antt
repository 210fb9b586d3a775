-- ===== src/Endpoints/Auth/Once.antt =====
-- One login for each init data, for as long as the replay key lives.
use crypto_intelligence_plat.Base.{
  Bool, List, Str, ap, false, inl, inr, not, refl, true, ℕ, ◌+◌, ◌<◌, ◌∙◌, ◌≡◌, ◌≤◌, ◌⊎◌,
}
use crypto_intelligence_plat.Config.{Settings}
use crypto_intelligence_plat.Endpoints.Auth.{
  AuthState, authentication_failed, claim_replay, db_restored, login, open_session, refused_data,
  replay_key, session_out, with_db,
}
use crypto_intelligence_plat.Errors.{
  Exn, app_error, decoding_error, init_data_error, integrity_error, multiple_results, runtime_error,
  token_error, value_error,
}
use crypto_intelligence_plat.Exec.{Exec, Result, bind_err, err, is_ok, lift, ok, raise_if, ◌>>=◌}
use crypto_intelligence_plat.Exec.Keeps.{Keeps, Keeps-bind}
use crypto_intelligence_plat.Models.{Db}
use crypto_intelligence_plat.Schemas.{InitDataLogin, SessionOut}
use crypto_intelligence_plat.Telegram.{
  InitCodec, TelegramUser, VerifiedInitData, claim_key, verify_init_data,
}
use crypto_intelligence_plat.Telegram.Replay.{claim_key-blocks, verify_later}
use crypto_intelligence_plat.Tokens.{TokenCodec}
use crypto_intelligence_plat.Users.{create_session, upsert_user_by_telegram}

module _ (c : TokenCodec) (ic : InitCodec) (settings : Settings) where
  -- A login behind the check of the address, given what the check of the data says.
  abbrev after_data : Bool → Result (Unit {0}) → Str → VerifiedInitData → Exec AuthState SessionOut
  after_data up user_limiter jti v = do
    claimed ← claim_replay up (replay_key c ic settings v)
    open_session c ic settings user_limiter jti v.user claimed

  abbrev behind_data :
      Bool → Result (Unit {0}) → Str → Result VerifiedInitData → Exec AuthState SessionOut
  behind_data up user_limiter jti r = lift (refused_data r) >>= after_data up user_limiter jti

  abbrev HasKeys : List (Str × ℕ) → AuthState → Type 0
  HasKeys keys s = s.replay_keys ≡ keys

  open_keys :
      (keys : List (Str × ℕ)) (user_limiter : Result (Unit {0})) (jti : Str) (u : TelegramUser)
      (claimed : Bool)
      → Keeps (HasKeys keys) (open_session c ic settings user_limiter jti u claimed)
  unfolding open_session
  open_keys keys user_limiter jti u claimed =
      Keeps-bind (raise_if (not claimed) authentication_failed) _ (record { at = λ s h. h })
        (λ _.
          Keeps-bind (lift user_limiter) _ (record { at = λ s h. h })
            (λ _.
              Keeps-bind (with_db (upsert_user_by_telegram u)) _ (record { at = λ s h. h })
                (λ user.
                  Keeps-bind (with_db (create_session c settings jti user)) session_out
                    (record { at = λ s h. h }) (λ issued. record { at = λ s h. h }))))

  refused_err : (e : Exn) → (x : Exn) × (refused_data {A = VerifiedInitData} (err e) ≡ err x)
  refused_err (app_error a) = (app_error a, refl)
  refused_err (token_error m) = (token_error m, refl)
  refused_err init_data_error = (authentication_failed, refl)
  refused_err value_error = (value_error, refl)
  refused_err integrity_error = (integrity_error, refl)
  refused_err multiple_results = (multiple_results, refl)
  refused_err runtime_error = (runtime_error, refl)
  refused_err decoding_error = (decoding_error, refl)

  not_ok :
      {p : Result SessionOut × AuthState} {x : Exn} {s : AuthState}
      → p ≡ (err x, s)
      → is_ok p.0 ≡ true
      → ⊥
  not_ok e h = cc (ap (λ (q : Result SessionOut × AuthState). is_ok q.0) e)

  -- A session is opened only with the key claimed.
  claimed_only :
      (user_limiter : Result (Unit {0})) (jti : Str) (u : TelegramUser) (b : Bool) (s : AuthState)
      → is_ok (open_session c ic settings user_limiter jti u b s).0 ≡ true
      → b ≡ true
  unfolding open_session
  claimed_only user_limiter jti u true s h = refl
  claimed_only user_limiter jti u false s h = cc

  -- What a successful login has found and done.
  abbrev Claims : VerifiedInitData → AuthState → AuthState → Type 0
  Claims v s t =
      ((claim_key s.db.clock (replay_key c ic settings v) s.replay_keys).0 ≡ true)
      × (t.replay_keys ≡ (claim_key s.db.clock (replay_key c ic settings v) s.replay_keys).1)

  behind_claims :
      (up : Bool) (user_limiter : Result (Unit {0})) (jti : Str) (r : Result VerifiedInitData)
      (s : AuthState)
      → is_ok (behind_data up user_limiter jti r s).0 ≡ true
      → (v : VerifiedInitData) × (r ≡ ok v) × Claims v s (behind_data up user_limiter jti r s).1
  unfolding claim_replay
  behind_claims up user_limiter jti (err e) s h =
      let (x, refusal) = refused_err e in
      absurd (
        not_ok
          (bind_err (lift (refused_data (err e))) (after_data up user_limiter jti) {s = s}
            (ap (λ r. (r, s)) refusal))
          h)
  behind_claims false user_limiter jti (ok v) s h = cc
  behind_claims true user_limiter jti (ok v) s h = (
    v,
    refl,
    (
      claimed_only user_limiter jti v.user _ _ h,
      (open_keys (claim_key s.db.clock (replay_key c ic settings v) s.replay_keys).1 user_limiter
            jti v.user _).at
          _ refl,
    ),
  )

  abbrev verified_at : ℕ → InitDataLogin → Result VerifiedInitData
  verified_at now payload =
      verify_init_data ic settings.initdata_max_age_seconds now settings.telegram_bot_token
        payload.init_data

  restored_keys :
      (d : Db) (r : Result SessionOut) (s : AuthState)
      → (db_restored d r s).replay_keys ≡ s.replay_keys
  restored_keys d (ok a) s = refl
  restored_keys d (err e) s = refl

  login_claims :
      (up : Bool) (ip_limiter user_limiter : Result (Unit {0})) (jti : Str)
      (payload : InitDataLogin) (s : AuthState)
      → is_ok (login c ic settings up ip_limiter user_limiter jti payload s).0 ≡ true
      → (v : VerifiedInitData) × (verified_at s.db.clock payload ≡ ok v)
        × Claims v s (login c ic settings up ip_limiter user_limiter jti payload s).1
  unfolding login
  login_claims up (err e) user_limiter jti payload s h = cc
  login_claims up (ok u) user_limiter jti payload s h =
      let (v, verified, (claimed, keys)) =
        behind_claims up user_limiter jti (verified_at s.db.clock payload) s h in
      (
        v,
        verified,
        (
          claimed,
          restored_keys s.db _
                (behind_data up user_limiter jti (verified_at s.db.clock payload) s).1
              ∙ keys,
        ),
      )

  blocked :
      (user_limiter : Result (Unit {0})) (jti : Str) (u : TelegramUser) (b : Bool) (s : AuthState)
      → b ≡ false
      → (open_session c ic settings user_limiter jti u b s).0 ≡ err authentication_failed
  unfolding open_session
  blocked user_limiter jti u true s h = absurd (cc h)
  blocked user_limiter jti u false s h = refl

  second_fails :
      (user_limiter : Result (Unit {0})) (jti : Str) (r : Result VerifiedInitData)
      (v : VerifiedInitData) (t : AuthState)
      → (r ≡ ok v) ⊎ (r ≡ err init_data_error)
      → (claim_key t.db.clock (replay_key c ic settings v) t.replay_keys).0 ≡ false
      → (behind_data true user_limiter jti r t).0 ≡ err authentication_failed
  unfolding claim_replay
  second_fails user_limiter jti r v t (inl e) dead = rw e (blocked user_limiter jti v.user _ _ dead)
  second_fails user_limiter jti r v t (inr e) dead = rw e refl

  -- Init data that has logged in is refused in any later login of the next 300 seconds that the
  -- limiter of the address lets in, whatever has happened to the database and whoever sends it, as
  -- long as Redis answers and the keys are as the first login left them.
  pub login_once :
      (up : Bool) (ip_limiter user_limiter user_limiter' : Result (Unit {0})) (jti jti' : Str)
      (payload : InitDataLogin) (s t : AuthState)
      → is_ok (login c ic settings up ip_limiter user_limiter jti payload s).0 ≡ true
      → t.replay_keys ≡ (login c ic settings up ip_limiter user_limiter jti payload s).1.replay_keys
      → s.db.clock ≤ t.db.clock
      → t.db.clock < s.db.clock + 300
      → (login c ic settings true (ok tt) user_limiter' jti' payload t).0
        ≡ err authentication_failed
  unfolding login
  login_once up ip_limiter user_limiter user_limiter' jti jti' payload s t first kept order soon =
      let (v, verified, (claimed, keys)) =
        login_claims up ip_limiter user_limiter jti payload s first in
      let key = replay_key c ic settings v in
      second_fails user_limiter' jti' (verified_at t.db.clock payload) v t
        (verify_later ic settings.initdata_max_age_seconds s.db.clock t.db.clock
          settings.telegram_bot_token payload.init_data v order verified)
        (ap (λ ks. (claim_key t.db.clock key ks).0) (kept ∙ keys)
          ∙ (claim_key-blocks s.db.clock t.db.clock key s.replay_keys order claimed).0 soon)
