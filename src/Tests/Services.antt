-- ===== src/Tests/Services.antt =====
-- The broker of the worker, the health of the service and the providers of the model.
use crypto_intelligence_plat.Ai.Providers.{AiCodec, mock_complete, mock_text, openai_complete}
use crypto_intelligence_plat.Base.{
  List, Str, [], codes, lower, none, refl, some, starts_with, str_eq, ℕ, ◌≡◌,
}
use crypto_intelligence_plat.Endpoints.Health.{readiness}
use crypto_intelligence_plat.Errors.{runtime_error}
use crypto_intelligence_plat.Exec.{Exec, err, ok, pure}
use crypto_intelligence_plat.Http.{assert_json_content_type}
use crypto_intelligence_plat.Tests.Sessions.{live_settings}
use crypto_intelligence_plat.Tokens.{array, field, item, no_fields, no_items, object, text}
use crypto_intelligence_plat.Worker.Broker.{Tasks, register, run_task, task_of}

abbrev answer_with : Str → List Str → Exec ℕ Str
answer_with s args = pure s

-- A name that is registered again runs the later function.
replaced :
    (run_task
      (register (codes "a") (answer_with (codes "2")) (
        register
          (codes "b")
          (answer_with (codes "3"))
          (register (codes "a") (answer_with (codes "1")) [])))
      (codes "a")
      []
      0).0
    ≡ ok (codes "2")
unfolding run_task task_of register str_eq
replaced = refl

unknown : (run_task (let ts : Tasks ℕ Str = [] in ts) (codes "a") [] 0).0 ≡ err runtime_error
unfolding run_task
unknown = refl

abbrev toy_ai : AiCodec
toy_ai = record {
  loads = λ s. some (
      object (
        field (codes "choices")
          (array (
            item
              (object (
                field (codes "message")
                  (object (field (codes "content") (text (codes "Fine.")) no_fields)) no_fields))
              no_items))
          no_fields));
  str_json = λ v. [];
}

model_answer :
    openai_complete toy_ai
      (ok (codes "application/json", record { status = 200; retry_after_ms = none; content = [] }))
    ≡ ok (codes "Fine.")
unfolding openai_complete assert_json_content_type starts_with lower str_eq
model_answer = refl

mock_said :
    mock_complete (record toy_ai { loads = λ s. none }) []
    ≡ ok (mock_text (codes "unknown") [] 0 (codes "(no label)"))
unfolding mock_complete
mock_said = refl

down :
    (readiness live_settings (some (codes "password=secret")) 3).db_error
    ≡ some (codes "unavailable")
unfolding readiness
down = refl
