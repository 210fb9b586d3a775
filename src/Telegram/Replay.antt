-- ===== src/Telegram/Replay.antt =====
-- Init data that is presented twice to the login of apps/api/app/api/v1/auth.py.
use crypto_intelligence_plat.Base.{
  Bool, Bool-cases, List, Option, Str, [], all, any, arith, codes, false, inl, inr, ltb, ltb_ℤ, pos,
  refl, str_eq, str_eq_refl, sym, true, ℕ, ℤ, ◌&&◌, ◌+◌, ◌-ℤ◌, ◌<◌, ◌∙◌, ◌∷◌, ◌≡◌, ◌≤ℤ◌, ◌≤◌, ◌⊎◌,
}
use crypto_intelligence_plat.Errors.{init_data_error}
use crypto_intelligence_plat.Exec.{Result, err, ok}
use crypto_intelligence_plat.Logging.Redaction.{plain}
use crypto_intelligence_plat.Telegram.{
  InitCodec, VerifiedInitData, check_fields, claim_key, data_check_string, extract_user, filled,
  get_field, init_data_replay_key, parse_fields, parsed_date, unsigned_fields, verify_fields,
  verify_init_data, with_fields, with_user,
}
use crypto_intelligence_plat.Telegram.Signature.{gate, parts_present, tests_passed, with_user_lem}
use crypto_intelligence_plat.Tokens.{is_ascii}

module _ (c : InitCodec) (max_age : ℤ) where
  still_near :
      (now later : ℕ) (d : ℤ) → now ≤ later → (d -ℤ pos now) ≤ℤ pos 60 → (d -ℤ pos later) ≤ℤ pos 60
  unfolding ◌-ℤ◌
  still_near now later d order near = ground arith

  passes :
      (later : ℕ) (bot_token received : Str) (rest : List (Str × Str)) (user : Str) (d : ℤ)
      → (pos later -ℤ d) ≤ℤ max_age
      → (d -ℤ pos later) ≤ℤ pos 60
      → all is_ascii received ≡ true
      → str_eq (c.check_hash bot_token (data_check_string rest)) received ≡ true
      → check_fields c max_age later bot_token received rest user d
        ≡ with_user c max_age d rest (extract_user (c.loads user))
  unfolding check_fields
  passes later bot_token received rest user d young near plain same = ground arith

  stable_tests :
      (now later : ℕ) (bot_token received : Str) (rest : List (Str × Str)) (user : Str) (d : ℤ)
      (v : VerifiedInitData)
      → now ≤ later
      → (pos later -ℤ v.auth_date) ≤ℤ max_age
      → check_fields c max_age now bot_token received rest user d ≡ ok v
      → check_fields c max_age later bot_token received rest user d ≡ ok v
  stable_tests now later bot_token received rest user d v order young e =
      let (fresh, plain, same, verified) =
        tests_passed c max_age now bot_token received rest user d v e in
      let (raw, date, positive) = with_user_lem c max_age d rest (c.loads user) v verified in
      passes later bot_token received rest user d (rw (sym date) young)
        (still_near now later d order fresh.1) plain same
      ∙ verified

  stable_parts :
      (now later : ℕ) (bot_token : Str) (rest : List (Str × Str)) (h u : Option Str) (d : Option ℤ)
      (v : VerifiedInitData)
      → now ≤ later
      → (pos later -ℤ v.auth_date) ≤ℤ max_age
      → with_fields c max_age now bot_token rest h u d ≡ ok v
      → with_fields c max_age later bot_token rest h u d ≡ ok v
  stable_parts now later bot_token rest h u d v order young e =
      let (received, user, date, eh, eu, ed, len, tested) =
        parts_present c max_age now bot_token rest h u d v e in
      let next = stable_tests now later bot_token received rest user date v order young tested in
      rw (eh, eu, ed) (ground arith)

  stable_fields :
      (now later : ℕ) (bot_token : Str) (r : Result (List (Str × Str))) (v : VerifiedInitData)
      → now ≤ later
      → (pos later -ℤ v.auth_date) ≤ℤ max_age
      → verify_fields c max_age now bot_token r ≡ ok v
      → verify_fields c max_age later bot_token r ≡ ok v
  stable_fields now later bot_token (err x) v order young e = ground arith
  stable_fields now later bot_token (ok fields) v order young e =
      stable_parts now later bot_token (unsigned_fields c max_age fields)
        (filled (get_field (codes "hash") fields))
        (get_field (codes "user") (unsigned_fields c max_age fields))
        (parsed_date c max_age
          (filled (get_field (codes "auth_date") (unsigned_fields c max_age fields))))
        v order young e

  verify_stable :
      (now later : ℕ) (bot_token init_data : Str) (v : VerifiedInitData)
      → now ≤ later
      → (pos later -ℤ v.auth_date) ≤ℤ max_age
      → verify_init_data c max_age now bot_token init_data ≡ ok v
      → verify_init_data c max_age later bot_token init_data ≡ ok v
  unfolding verify_init_data
  verify_stable now later bot_token init_data v order young e =
      let (size, token_there, verified) = gate c max_age now bot_token init_data v e in
      rw (size, token_there)
        (stable_fields now later bot_token (parse_fields (c.parse_qsl init_data)) v order young
          verified)

module _ (c : InitCodec) (max_age : ℤ) where
  too_old :
      (later : ℕ) (bot_token received : Str) (rest : List (Str × Str)) (user : Str) (d : ℤ)
      → ltb_ℤ max_age (pos later -ℤ d) ≡ true
      → check_fields c max_age later bot_token received rest user d ≡ err init_data_error
  unfolding check_fields
  too_old later bot_token received rest user d old = ground arith

  old_tests :
      (now later : ℕ) (bot_token received : Str) (rest : List (Str × Str)) (user : Str) (d : ℤ)
      (v : VerifiedInitData)
      → ltb_ℤ max_age (pos later -ℤ v.auth_date) ≡ true
      → check_fields c max_age now bot_token received rest user d ≡ ok v
      → check_fields c max_age later bot_token received rest user d ≡ err init_data_error
  old_tests now later bot_token received rest user d v old e =
      let (fresh, plain, same, verified) =
        tests_passed c max_age now bot_token received rest user d v e in
      let (raw, date, positive) = with_user_lem c max_age d rest (c.loads user) v verified in
      too_old later bot_token received rest user d (rw (sym date) old)

  old_parts :
      (now later : ℕ) (bot_token : Str) (rest : List (Str × Str)) (h u : Option Str) (d : Option ℤ)
      (v : VerifiedInitData)
      → ltb_ℤ max_age (pos later -ℤ v.auth_date) ≡ true
      → with_fields c max_age now bot_token rest h u d ≡ ok v
      → with_fields c max_age later bot_token rest h u d ≡ err init_data_error
  old_parts now later bot_token rest h u d v old e =
      let (received, user, date, eh, eu, ed, len, tested) =
        parts_present c max_age now bot_token rest h u d v e in
      let next = old_tests now later bot_token received rest user date v old tested in
      rw (eh, eu, ed) (ground arith)

  old_fields :
      (now later : ℕ) (bot_token : Str) (r : Result (List (Str × Str))) (v : VerifiedInitData)
      → ltb_ℤ max_age (pos later -ℤ v.auth_date) ≡ true
      → verify_fields c max_age now bot_token r ≡ ok v
      → verify_fields c max_age later bot_token r ≡ err init_data_error
  old_fields now later bot_token (err x) v old e = ground arith
  old_fields now later bot_token (ok fields) v old e =
      old_parts now later bot_token (unsigned_fields c max_age fields)
        (filled (get_field (codes "hash") fields))
        (get_field (codes "user") (unsigned_fields c max_age fields))
        (parsed_date c max_age
          (filled (get_field (codes "auth_date") (unsigned_fields c max_age fields))))
        v old e

  -- Init data that was accepted is accepted later with the same content, or refused as too old.
  pub verify_later :
      (now later : ℕ) (bot_token init_data : Str) (v : VerifiedInitData)
      → now ≤ later
      → verify_init_data c max_age now bot_token init_data ≡ ok v
      → (verify_init_data c max_age later bot_token init_data ≡ ok v)
        ⊎ (verify_init_data c max_age later bot_token init_data ≡ err init_data_error)
  unfolding verify_init_data
  verify_later now later bot_token init_data v order e =
      elim (Bool-cases (ltb_ℤ max_age (pos later -ℤ v.auth_date))) [
        | inl old ↦
            let (size, token_there, verified) = gate c max_age now bot_token init_data v e in
            inr (
              rw (size, token_there)
                (old_fields now later bot_token (parse_fields (c.parse_qsl init_data)) v old
                  verified))
        | inr young ↦
            inl (verify_stable c max_age now later bot_token init_data v order (ground arith) e)
      ]

abbrev pub is_live_key : ℕ → Str → Str × ℕ → Bool
is_live_key now key p = str_eq p.0 key && ltb now p.1

-- A key that is not there now does not appear by waiting.
fewer_live :
    (now later : ℕ) (key : Str) (keys : List (Str × ℕ))
    → now ≤ later
    → any (is_live_key now key) keys ≡ false
    → any (is_live_key later key) keys ≡ false
fewer_live now later key [] order h = refl
fewer_live now later key (p ∷ ps) order h = ground (arith, fewer_live now later key ps order)

claimed_keys :
    (now : ℕ) (key : Str) (keys : List (Str × ℕ))
    → (claim_key now key keys).0 ≡ true
    → (any (is_live_key now key) keys ≡ false)
      × ((claim_key now key keys).1 ≡ (key, now + 300) ∷ keys)
unfolding claim_key
claimed_keys now key keys h = ground arith

refused :
    (later until : ℕ) (key : Str) (keys : List (Str × ℕ))
    → later < until
    → (claim_key later key ((key, until) ∷ keys)).0 ≡ false
unfolding claim_key
refused later until key keys early = ground (arith, str_eq_refl key)

free :
    (later until : ℕ) (key : Str) (keys : List (Str × ℕ))
    → until ≤ later
    → any (is_live_key later key) keys ≡ false
    → (claim_key later key ((key, until) ∷ keys)).0 ≡ true
unfolding claim_key
free later until key keys late still = ground arith

-- Once a key is claimed, nobody claims it again for 300 seconds, and from then on it is free again.
pub claim_key-blocks :
    (now later : ℕ) (key : Str) (keys : List (Str × ℕ))
    → now ≤ later
    → (claim_key now key keys).0 ≡ true
    → (later < now + 300 → (claim_key later key (claim_key now key keys).1).0 ≡ false)
      × (now + 300 ≤ later → (claim_key later key (claim_key now key keys).1).0 ≡ true)
claim_key-blocks now later key keys order h =
    let (dead, left) = claimed_keys now key keys h in
    let still = fewer_live now later key keys order dead in
    rw left (
      λ early. refused later (now + 300) key keys early,
      λ late. free later (now + 300) key keys late still,
    )

module _ (c : InitCodec) (max_age : ℤ) where
  young_enough :
      (now : ℕ) (d : ℤ)
      → pos (now + 1) ≤ℤ d
      → pos 300 ≤ℤ max_age
      → (pos (now + 300) -ℤ d) ≤ℤ max_age
  unfolding ◌-ℤ◌
  young_enough now d ahead long = ground arith

  -- The key is kept for 300 seconds, but init data lives as long as `max_age` from a date that may
  -- be ahead of the clock: where it was, and `max_age` is 300 seconds or more, the same init data is
  -- accepted and its key claimed a second time.
  pub replay-after_expiry :
      (now : ℕ) (bot_token init_data : Str) (v : VerifiedInitData) (keys : List (Str × ℕ))
      → pos 300 ≤ℤ max_age
      → pos (now + 1) ≤ℤ v.auth_date
      → verify_init_data c max_age now bot_token init_data ≡ ok v
      → (claim_key now (init_data_replay_key c max_age v) keys).0 ≡ true
      → (verify_init_data c max_age (now + 300) bot_token init_data ≡ ok v)
        × ((claim_key
              (now + 300)
              (init_data_replay_key c max_age v)
              (claim_key now (init_data_replay_key c max_age v) keys).1).0
            ≡ true)
  replay-after_expiry now bot_token init_data v keys long ahead e first = (
    verify_stable c max_age now (now + 300) bot_token init_data v (omega arith)
        (young_enough now v.auth_date ahead long) e,
    (claim_key-blocks now (now + 300) (init_data_replay_key c max_age v) keys (omega arith) first).1
        (omega arith),
  )
