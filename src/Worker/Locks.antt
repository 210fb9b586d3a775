-- ===== src/Worker/Locks.antt =====
-- The lock of a wallet: what it excludes while it lasts, and what it does not.
use crypto_intelligence_plat.Base.{
  All, Bool, Bool-cases, List, Str, [], any, ap, arith, delete_where, false, if◌then◌else◌, inl,
  inr, leb, ltb, not, refl, some, true, ℕ, ◌&&◌, ◌+◌, ◌<◌, ◌==◌, ◌∙◌, ◌∷◌, ◌≡◌, ◌≢◌, ◌≤◌,
}
use crypto_intelligence_plat.Errors.{Exn}
use crypto_intelligence_plat.Exec.{Result, bind_ok, err, ok, pure, ◌>>=◌}
use crypto_intelligence_plat.Models.{Wallet}
use crypto_intelligence_plat.Provider.{Provider}
use crypto_intelligence_plat.Worker.{
  SyncOutcome, apply_sync, if_acquired, skipped, sync_found, sync_wallet_task,
}
use crypto_intelligence_plat.Worker.Defs.{
  WorkState, acquire_wallet_lock, finally, is_held, release_wallet_lock, rolled_back, session_scope,
}
use crypto_intelligence_plat.Worker.SameLocks.{apply_sync-SameLocks}

held-deleted :
    (now wid : ℕ) (ls : List (ℕ × ℕ))
    → any (is_held now wid) (delete_where (λ l. l.0 == wid) ls) ≡ false
unfolding delete_where
held-deleted now wid [] = refl
held-deleted now wid (l ∷ ls) = ground (arith, held-deleted now wid ls)

held-other :
    (now wid other : ℕ) (ls : List (ℕ × ℕ))
    → other ≢ wid
    → any (is_held now other) (delete_where (λ l. l.0 == wid) ls) ≡ any (is_held now other) ls
unfolding delete_where
held-other now wid other [] ne = refl
held-other now wid other (l ∷ ls) ne = ground (arith, held-other now wid other ls ne)

-- A lock of the wallet that holds until `until`.
abbrev lasts : ℕ → ℕ → ℕ × ℕ → Bool
lasts until wid l = (l.0 == wid) && leb until l.1

lasts-held :
    (until now wid : ℕ) (ls : List (ℕ × ℕ))
    → now < until
    → any (lasts until wid) ls ≡ true
    → any (is_held now wid) ls ≡ true
lasts-held until now wid [] soon h = ground arith
lasts-held until now wid (l ∷ ls) soon h = ground (arith, lasts-held until now wid ls soon)

lasts-other :
    (until wid other : ℕ) (ls : List (ℕ × ℕ))
    → other ≢ wid
    → any (lasts until wid) ls ≡ true
    → any (lasts until wid) (delete_where (λ l. l.0 == other) ls) ≡ true
unfolding delete_where
lasts-other until wid other [] ne h = h
lasts-other until wid other (l ∷ ls) ne h = ground (arith, lasts-other until wid other ls ne)

-- What the tasks of the worker do with the locks: an attempt at a time on a wallet, and a release,
-- each with whether Redis answers.
pub data LockStep : Type 0 where
  attempts : Bool → ℕ → ℕ → LockStep
  releases : Bool → ℕ → LockStep

unfoldable pub after_steps : List LockStep → WorkState → WorkState
after_steps [] s = s
after_steps (attempts up t wid ∷ steps) s = after_steps steps (acquire_wallet_lock up t wid s).1
after_steps (releases up wid ∷ steps) s = after_steps steps (release_wallet_lock up wid s)

-- The step is before `until`, and no release of the wallet.
abbrev pub Spares : ℕ → ℕ → LockStep → Type 0
Spares until wid (attempts up t other) = t < until
Spares until wid (releases up other) = other ≢ wid

attempts-lasts :
    (up : Bool) (until t wid other : ℕ) (s : WorkState)
    → t < until
    → any (lasts until wid) s.locks ≡ true
    → any (lasts until wid) (acquire_wallet_lock up t other s).1.locks ≡ true
unfolding acquire_wallet_lock
attempts-lasts up until t wid other s soon h = elim (Bool-cases (other == wid)) [
  | inl same ↦ ground (arith, lasts-held until t wid s.locks soon h)
  | inr apart ↦ ground (arith, lasts-other until wid other s.locks (λ e. ground arith) h)
]

steps-lasts :
    (until wid : ℕ) (steps : List LockStep) (s : WorkState)
    → All (Spares until wid) steps
    → any (lasts until wid) s.locks ≡ true
    → any (lasts until wid) (after_steps steps s).locks ≡ true
unfolding after_steps release_wallet_lock
steps-lasts until wid [] s spare h = h
steps-lasts until wid (attempts up t other ∷ steps) s spare h =
    steps-lasts until wid steps (acquire_wallet_lock up t other s).1 spare.1
      (attempts-lasts up until t wid other s spare.0 h)
steps-lasts until wid (releases up other ∷ steps) s spare h =
    steps-lasts until wid steps (release_wallet_lock up other s) spare.1 (of_release up)
  where
    of_release : (b : Bool) → any (lasts until wid) (release_wallet_lock b other s).locks ≡ true
    of_release true = lasts-other until wid other s.locks spare.0 h
    of_release false = h

got-lasts :
    (now wid : ℕ) (s : WorkState)
    → (acquire_wallet_lock true now wid s).0 ≡ ok true
    → any (lasts (now + 120) wid) (acquire_wallet_lock true now wid s).1.locks ≡ true
unfolding acquire_wallet_lock
got-lasts now wid s got = ground arith

-- Once an attempt has got the lock, every later attempt on the wallet within 120 seconds is turned
-- away while Redis answers it, after any attempts of other tasks in these seconds, on any wallets,
-- and any releases but of this wallet. Getting the lock affects no other wallet's.
pub acquire-excludes :
    (now later wid other : ℕ) (s : WorkState) (steps : List LockStep)
    → (acquire_wallet_lock true now wid s).0 ≡ ok true
    → All (Spares (now + 120) wid) steps
    → later < now + 120
    → ((acquire_wallet_lock true later wid
          (after_steps steps (acquire_wallet_lock true now wid s).1)).0
        ≡ ok false)
      × (other ≢ wid
          → any (is_held later other) (acquire_wallet_lock true now wid s).1.locks
            ≡ any (is_held later other) s.locks)
unfolding acquire_wallet_lock
acquire-excludes now later wid other s steps got spare soon = (
  refused (after_steps steps (acquire_wallet_lock true now wid s).1) (
      lasts-held (now + 120) later wid
        (after_steps steps (acquire_wallet_lock true now wid s).1).locks soon
        (steps-lasts (now + 120) wid steps (acquire_wallet_lock true now wid s).1 spare
          (got-lasts now wid s got))),
  λ ne. ground (arith, held-other later wid other s.locks ne),
)
  where
    refused :
        (t : WorkState)
        → any (is_held later wid) t.locks ≡ true
        → (acquire_wallet_lock true later wid t).0 ≡ ok false
    refused t held = ground arith

acquired_at :
    (now wid : ℕ) (s : WorkState)
    → any (is_held now wid) s.locks ≡ false
    → acquire_wallet_lock true now wid s
      ≡ (ok true, record s { locks = (wid, now + 120) ∷ delete_where (λ l. l.0 == wid) s.locks })
unfolding acquire_wallet_lock
acquired_at now wid s free = rw free

abbrev pub acquire : ℕ → ℕ → WorkState → WorkState
acquire now wid s = (acquire_wallet_lock true now wid s).1

-- The release does not ask whose lock it deletes. A task that outlives its lock by the time another
-- one holds it lets a third in while the second is still at work.
pub release-of_another :
    (t0 t1 t2 wid : ℕ) (s : WorkState)
    → t0 + 120 ≤ t1
    → t1 ≤ t2
    → any (is_held t0 wid) s.locks ≡ false
    → ((acquire_wallet_lock true t0 wid s).0 ≡ ok true)
      × ((acquire_wallet_lock true t1 wid (acquire t0 wid s)).0 ≡ ok true)
      × ((acquire_wallet_lock true t2 wid
            (release_wallet_lock true wid (acquire t1 wid (acquire t0 wid s)))).0
          ≡ ok true)
unfolding acquire_wallet_lock release_wallet_lock
release-of_another t0 t1 t2 wid s late order free =
    rw free (refl, ground (arith, held-deleted t1 wid s.locks), rw (held-deleted t2 wid _))

-- The state in which `sync_found` ends if it got the lock.
sync_found-locks :
    (sha256 : Str → Str) (up : Bool) (now wid : ℕ) (p : Provider) (w : Wallet) (s : WorkState)
    → w.is_active ≡ true
    → any (is_held now wid) s.locks ≡ false
    → (sync_found sha256 true up now p wid (some w) s).1
      ≡ release_wallet_lock up wid
          (apply_sync sha256 w
            (p.fetch_balance w.chain w.address)
            (p.fetch_recent_transactions w.chain w.address 50)
            (record s { locks = (wid, now + 120) ∷ delete_where (λ l. l.0 == wid) s.locks })).1
unfolding sync_found
sync_found-locks sha256 up now wid p w s active free =
    let run =
      finally
        (apply_sync sha256 w (p.fetch_balance w.chain w.address)
          (p.fetch_recent_transactions w.chain w.address 50))
        (release_wallet_lock up wid) in
    let state = λ (q : Result SyncOutcome × WorkState). q.1 in
    ap
      (λ (b : Bool). state (
        (if not b then pure skipped else (acquire_wallet_lock true now wid >>= if_acquired run)) s))
      active
    ∙ ap state
        (bind_ok (acquire_wallet_lock true now wid) (if_acquired run) (acquired_at now wid s free))

-- Whatever the provider answers and whatever is raised, a task that got the lock on an active wallet
-- leaves it unlocked if Redis answers the release; if Redis does not, the wallet is locked until 120
-- seconds after the lock was taken and not afterwards.
pub sync-releases :
    (sha256 : Str → Str) (now later wid : ℕ) (p : Provider) (w : Wallet) (s : WorkState)
    → w.is_active ≡ true
    → any (is_held now wid) s.locks ≡ false
    → (any (is_held later wid) (sync_found sha256 true true now p wid (some w) s).1.locks ≡ false)
      × (any (is_held later wid) (sync_found sha256 true false now p wid (some w) s).1.locks
          ≡ ltb later (now + 120))
unfolding release_wallet_lock
sync-releases sha256 now later wid p w s active free = (
  ap (λ (t : WorkState). any (is_held later wid) t.locks)
        (sync_found-locks sha256 true now wid p w s active free)
      ∙ held-deleted later wid _,
  ap (λ (t : WorkState). any (is_held later wid) t.locks)
        (sync_found-locks sha256 false now wid p w s active free)
      ∙ (ap (any (is_held later wid)) (
            (apply_sync-SameLocks sha256 _ w (p.fetch_balance w.chain w.address)
                (p.fetch_recent_transactions w.chain w.address 50)).at
              (record s { locks = (wid, now + 120) ∷ delete_where (λ l. l.0 == wid) s.locks }) refl)
          ∙ only_own),
)
  where
    only_own :
        any (is_held later wid) ((wid, now + 120) ∷ delete_where (λ l. l.0 == wid) s.locks)
        ≡ ltb later (now + 120)
    only_own = ground (arith, held-deleted later wid s.locks)

-- A task that raises leaves the database as it was, the locks and the messages apart.
pub sync-atomic :
    (sha256 : Str → Str) (up up' : Bool) (now wid : ℕ) (p : Provider) (s : WorkState) (e : Exn)
    → (sync_wallet_task sha256 up up' now p wid s).0 ≡ err e
    → (sync_wallet_task sha256 up up' now p wid s).1.db ≡ s.db
unfolding sync_wallet_task session_scope
sync-atomic sha256 up up' now wid p s e h = by_result _ _ h
  where
    by_result :
        (r : Result SyncOutcome) (t : WorkState) → r ≡ err e → (rolled_back s.db r t).db ≡ s.db
    by_result (ok x) t q = cc
    by_result (err x) t q = refl
