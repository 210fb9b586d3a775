-- ===== src/Worker/Broker.antt =====
-- apps/worker/worker/tasks.py: the tasks by their names, and the task that sends a message.
use crypto_intelligence_plat.Base.{
  List, Option, Str, [], codes, if◌then◌else◌, none, some, str_eq, ◌∷◌,
}
use crypto_intelligence_plat.Errors.{runtime_error}
use crypto_intelligence_plat.Exec.{Exec, Result, err, ok, raise}

-- `_InMemoryBroker`: a task is what it does with its arguments.
abbrev pub Tasks : Type 0 → Type 0 → Type 0
Tasks S A = List (Str × (List Str → Exec S A))

module _ {S A : Type 0} where
  unfoldable pub register : Str → (List Str → Exec S A) → Tasks S A → Tasks S A
  register name fn [] = (name, fn) ∷ []
  register name fn (t ∷ ts) =
      let rest = register name fn ts in if str_eq t.0 name then (name, fn) ∷ ts else t ∷ rest

  unfoldable pub task_of : Str → Tasks S A → Option (List Str → Exec S A)
  task_of name [] = none
  task_of name (t ∷ ts) = let rest = task_of name ts in if str_eq t.0 name then some t.1 else rest

  abbrev pub run_found : Option (List Str → Exec S A) → List Str → Exec S A
  run_found none args = raise runtime_error
  run_found (some fn) args = fn args

  -- `run_task`, which is the broker's `call`.
  unfoldable pub run_task : Tasks S A → Str → List Str → Exec S A
  unfolding task_of
  run_task tasks name args = run_found (task_of name tasks) args

-- `send_telegram_notification_task`, given how sending went: the user and the status.
unfoldable pub send_telegram_notification_task : Str → Result (Unit {0}) → Str × Str
send_telegram_notification_task user_id (ok _) = (user_id, codes "sent")
send_telegram_notification_task user_id (err _) = (user_id, codes "send_failed")
