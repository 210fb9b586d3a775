-- ===== src/Http/Transient.antt =====
-- `with_retry` of apps/api/app/utils/http_retry.py on a call that fails for a while.
use crypto_intelligence_plat.Base.{
  arith, length, pos, pos_part, suc, true, zero, ℕ, ℤ, ◌+ℤ◌, ◌+◌, ◌≡◌, ◌≤ℤ◌, ◌≤◌,
}
use crypto_intelligence_plat.Errors.{Exn}
use crypto_intelligence_plat.Exec.{Result, err, ok}
use crypto_intelligence_plat.Http.{is_transient, with_retry, with_retry_from}

module _ {A : Type 0} (fn : ℕ → Result A) (max_retries : ℤ) (base_backoff : ℕ)
    (random : ℕ → ℕ) where
  -- From an attempt on, the call fails `k` times in a way that passes, and then succeeds.
  abbrev pub SucceedsAfter : ℕ → ℕ → A → Type 0
  SucceedsAfter zero i a = fn i ≡ ok a
  SucceedsAfter (suc k) i a =
      ((e : Exn) × (fn i ≡ err e) × (is_transient e ≡ true)) × SucceedsAfter k (suc i) a

  from_success :
      (k n i : ℕ) (a : A)
      → k ≤ n
      → pos (i + k) ≤ℤ max_retries
      → SucceedsAfter k i a
      → ((with_retry_from fn max_retries base_backoff random (suc n) i).0 ≡ ok a)
        × (length (with_retry_from fn max_retries base_backoff random (suc n) i).1 ≡ k)
  unfolding with_retry_from
  from_success zero n i a le room h = ground arith
  from_success (suc k) zero i a le room h = absurd (omega arith)
  from_success (suc k) (suc n) i a le room ((e, failed_by, passes), h) =
      let (value, len) = from_success k n (suc i) a (omega arith) (omega arith) h in ground arith

  rounds : (n : ℕ) → max_retries ≡ pos n → pos_part (max_retries +ℤ pos 1) ≡ suc n
  unfolding ◌+ℤ◌
  rounds n e = ground arith

  in_range : (k n : ℕ) → k ≤ n → max_retries ≡ pos n → pos (0 + k) ≤ℤ max_retries
  in_range k n le e = ground arith

  -- A call that fails at most `max_retries` times, each time in a way that passes, and then succeeds
  -- is a call that succeeds, after one delay for each failure.
  pub with_retry-succeeds :
      (k n : ℕ) (a : A)
      → max_retries ≡ pos n
      → k ≤ n
      → SucceedsAfter k 0 a
      → ((with_retry fn max_retries base_backoff random).0 ≡ ok a)
        × (length (with_retry fn max_retries base_backoff random).1 ≡ k)
  unfolding with_retry
  with_retry-succeeds k n a e le h = rw (rounds n e) (from_success k n 0 a le (in_range k n le e) h)
