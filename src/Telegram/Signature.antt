-- ===== src/Telegram/Signature.antt =====
-- What init data of Telegram that apps/api/app/security/telegram.py accepts has in it.
use mathlib.Core.List.{append_assoc, append-nil}
use crypto_intelligence_plat.Base.{
  All, Bool, List, Option, Str, [], all, any, ap, arith, codes, false, is_empty, length, ltb, none,
  pos, refl, some, str_eq, str_eq_refl, str_eq_sound, sym, true, ℕ, ℤ, ◌++◌, ◌-ℤ◌, ◌||◌, ◌∙◌, ◌∷◌,
  ◌≡◌, ◌≢◌, ◌≤ℤ◌, ◌≤◌,
}
use crypto_intelligence_plat.Exec.{Result, err, ok}
use crypto_intelligence_plat.Logging.Redaction.{plain}
use crypto_intelligence_plat.Telegram.{
  InitCodec, TelegramUser, VerifiedInitData, check_fields, data_check_string, extract_user, filled,
  get_field, parse_fields, parsed_date, positive_id, same_key, unique_fields, unsigned_fields,
  user_with, verify_fields, verify_init_data, with_fields, with_user,
}
use crypto_intelligence_plat.Tokens.{
  Json, JsonFields, array, boolean, integer, is_ascii, lookup, null, object, parsed, real, text,
}

-- The fields of the query have different keys.
abbrev pub DistinctKeys : List (Str × Str) → Type 0
DistinctKeys [] = Unit
DistinctKeys (p ∷ ps) = All (λ (q : Str × Str). q.0 ≢ p.0) ps × DistinctKeys ps

any-append_left :
    (t : Str × Str → Bool) (xs ys : List (Str × Str)) → any t xs ≡ true → any t (xs ++ ys) ≡ true
any-append_left t [] ys e = ground arith
any-append_left t (x ∷ xs) ys e = ground (arith, any-append_left t xs ys)

any-append_last :
    (t : Str × Str → Bool) (xs : List (Str × Str)) (p : Str × Str)
    → t p ≡ true
    → any t (xs ++ p ∷ []) ≡ true
any-append_last t [] p e = ground arith
any-append_last t (x ∷ xs) p e = ground (arith, any-append_last t xs p)

-- A key that the loop has seen is none of those still to come.
seen_apart :
    (key : Str) (fields ps out : List (Str × Str))
    → any (same_key key) fields ≡ true
    → unique_fields fields ps ≡ ok out
    → All (λ (q : Str × Str). q.0 ≢ key) ps
unfolding unique_fields
seen_apart key fields [] out seen e = tt
seen_apart key fields (q ∷ qs) out seen e = (
  λ same. repeated (ap (λ k. any (same_key k) fields) same ∙ seen),
  seen_apart key (fields ++ q ∷ []) qs out (any-append_left (same_key key) fields (q ∷ []) seen)
      (ground arith),
)
  where
    repeated : any (same_key q.0) fields ≢ true
    repeated found = ground arith

ok_value : (a b : List (Str × Str)) → Result.ok a ≡ ok b → b ≡ a
ok_value a b e = ground (arith, e)

unique_fields-DistinctKeys :
    (fields ps out : List (Str × Str))
    → unique_fields fields ps ≡ ok out
    → (out ≡ fields ++ ps) × DistinctKeys ps
unfolding unique_fields
unique_fields-DistinctKeys fields [] out e = (ok_value fields out e ∙ sym (append-nil fields), tt)
unique_fields-DistinctKeys fields (p ∷ ps) out e =
    let rest : unique_fields (fields ++ p ∷ []) ps ≡ ok out = ground arith in
    let (all_kept, distinct) = unique_fields-DistinctKeys (fields ++ p ∷ []) ps out rest in
    (
      all_kept ∙ append_assoc fields (p ∷ []) ps,
      (
        seen_apart p.0 (fields ++ p ∷ []) ps out
            (any-append_last (same_key p.0) fields p (str_eq_refl p.0)) rest,
        distinct,
      ),
    )

parsed_lem :
    (o : Option (List (Str × Str))) (fields : List (Str × Str))
    → parse_fields o ≡ ok fields
    → (o ≡ some fields) × DistinctKeys fields
parsed_lem none fields e = absurd (ground arith)
parsed_lem (some pairs) fields e =
    let (same, distinct) = unique_fields-DistinctKeys [] pairs fields e in rw same (refl, distinct)

positive_lem : (o : Option Json) (n : ℕ) → positive_id o ≡ some n → 1 ≤ n
positive_lem none n e = ground arith
positive_lem (some null) n e = ground arith
positive_lem (some (boolean true)) n e = ground arith
positive_lem (some (boolean false)) n e = ground arith
positive_lem (some (integer z)) n e = ground arith
positive_lem (some (real z)) n e = ground arith
positive_lem (some (text s)) n e = ground arith
positive_lem (some (array xs)) n e = ground arith
positive_lem (some (object fs)) n e = ground arith

user_with_lem :
    (fs : JsonFields) (o : Option ℕ) (u : TelegramUser)
    → ((n : ℕ) → o ≡ some n → 1 ≤ n)
    → user_with fs o ≡ ok u
    → 1 ≤ u.id
user_with_lem fs none u h e = ground arith
user_with_lem fs (some n) u h e = ground (arith, h n refl)

user_lem : (o : Option Json) (u : TelegramUser) → extract_user o ≡ ok u → 1 ≤ u.id
unfolding extract_user
user_lem none u e = ground arith
user_lem (some null) u e = ground arith
user_lem (some (boolean b)) u e = ground arith
user_lem (some (integer z)) u e = ground arith
user_lem (some (real z)) u e = ground arith
user_lem (some (text s)) u e = ground arith
user_lem (some (array xs)) u e = ground arith
user_lem (some (object fs)) u e =
    user_with_lem fs (positive_id (lookup (codes "id") fs)) u
      (positive_lem (lookup (codes "id") fs)) e

module _ (c : InitCodec) (max_age : ℤ) where
  abbrev pub IsFresh : ℕ → ℤ → Type 0
  IsFresh now auth_date = ((pos now -ℤ auth_date) ≤ℤ max_age) × ((auth_date -ℤ pos now) ≤ℤ pos 60)

  pub with_user_lem :
      (auth_date : ℤ) (rest : List (Str × Str)) (o : Option Json) (v : VerifiedInitData)
      → with_user c max_age auth_date rest (extract_user o) ≡ ok v
      → (v.raw ≡ rest) × (v.auth_date ≡ auth_date) × (1 ≤ v.user.id)
  with_user_lem auth_date rest o v e = of_result (extract_user o) (user_lem o) e
    where
      of_result :
          (r : Result TelegramUser)
          → ((u : TelegramUser) → r ≡ ok u → 1 ≤ u.id)
          → with_user c max_age auth_date rest r ≡ ok v
          → (v.raw ≡ rest) × (v.auth_date ≡ auth_date) × (1 ≤ v.user.id)
      of_result (err x) h e = ground arith
      of_result (ok u) h e = ground (arith, h u refl)

  pub tests_passed :
      (now : ℕ) (bot_token received : Str) (rest : List (Str × Str)) (user : Str) (auth_date : ℤ)
      (v : VerifiedInitData)
      → check_fields c max_age now bot_token received rest user auth_date ≡ ok v
      → IsFresh now auth_date
        × (all is_ascii received ≡ true)
        × (str_eq (c.check_hash bot_token (data_check_string rest)) received ≡ true)
        × (with_user c max_age auth_date rest (extract_user (c.loads user)) ≡ ok v)
  unfolding check_fields
  tests_passed now bot_token received rest user auth_date v e = ground arith

  -- What stands behind an accepted result.
  abbrev pub IsGenuine : ℕ → Str → List (Str × Str) → Str → VerifiedInitData → Type 0
  IsGenuine now bot_token fields received v =
      (get_field (codes "hash") fields ≡ some received)
      × (length received ≡ 64)
      × (v.raw ≡ unsigned_fields c max_age fields)
      × (c.check_hash bot_token (data_check_string v.raw) ≡ received)
      × IsFresh now v.auth_date
      × (1 ≤ v.user.id)

  filled_lem : (o : Option Str) (s : Str) → filled o ≡ some s → o ≡ some s
  filled_lem none s e = ground arith
  filled_lem (some t) s e = ground arith

  checked :
      (now : ℕ) (bot_token received : Str) (rest : List (Str × Str)) (user : Str) (auth_date : ℤ)
      (v : VerifiedInitData)
      → check_fields c max_age now bot_token received rest user auth_date ≡ ok v
      → (v.raw ≡ rest)
        × (c.check_hash bot_token (data_check_string v.raw) ≡ received)
        × IsFresh now v.auth_date
        × (1 ≤ v.user.id)
  checked now bot_token received rest user auth_date v e =
      let (fresh, plain, same, accepted) =
        tests_passed now bot_token received rest user auth_date v e in
      let (raw, date, positive) = with_user_lem auth_date rest (c.loads user) v accepted in
      (
        raw,
        ap (λ r. c.check_hash bot_token (data_check_string r)) raw
            ∙ str_eq_sound (c.check_hash bot_token (data_check_string rest)) received same,
        rw date fresh,
        positive,
      )

  pub parts_present :
      (now : ℕ) (bot_token : Str) (rest : List (Str × Str)) (h u : Option Str) (d : Option ℤ)
      (v : VerifiedInitData)
      → with_fields c max_age now bot_token rest h u d ≡ ok v
      → (received user : Str) × (auth_date : ℤ) × (h ≡ some received)
        × (u ≡ some user)
        × (d ≡ some auth_date)
        × (length received ≡ 64)
        × (check_fields c max_age now bot_token received rest user auth_date ≡ ok v)
  parts_present now bot_token rest (some received) (some user) (some auth_date) v e =
      (received, user, auth_date, refl, refl, refl, ground arith, ground arith)
  parts_present now bot_token rest none u d v e = ground arith
  parts_present now bot_token rest (some h) none d v e = ground arith
  parts_present now bot_token rest (some h) (some u) none v e = ground arith

  fields_parsed :
      (now : ℕ) (bot_token : Str) (r : Result (List (Str × Str))) (v : VerifiedInitData)
      → verify_fields c max_age now bot_token r ≡ ok v
      → (fields : List (Str × Str)) × (r ≡ ok fields)
        × (received : Str) × IsGenuine now bot_token fields received v
  fields_parsed now bot_token (err x) v e = ground arith
  fields_parsed now bot_token (ok fields) v e =
      let rest = unsigned_fields c max_age fields in
      let (received, user, auth_date, has_hash, has_user, has_date, len, tested) =
        parts_present now bot_token rest (filled (get_field (codes "hash") fields))
          (get_field (codes "user") rest)
          (parsed_date c max_age (filled (get_field (codes "auth_date") rest))) v e in
      let (raw, same, fresh, positive) =
        checked now bot_token received rest user auth_date v tested in
      (
        fields,
        refl,
        received,
        (
          filled_lem (get_field (codes "hash") fields) received has_hash,
          len,
          raw,
          same,
          fresh,
          positive,
        ),
      )

  pub gate :
      (now : ℕ) (bot_token init_data : Str) (v : VerifiedInitData)
      → verify_init_data c max_age now bot_token init_data ≡ ok v
      → ((is_empty init_data || ltb 8192 (length init_data)) ≡ false)
        × (is_empty bot_token ≡ false)
        × (verify_fields c max_age now bot_token (parse_fields (c.parse_qsl init_data)) ≡ ok v)
  unfolding verify_init_data
  gate now bot_token init_data v e = ground arith

  -- Init data is accepted only if its fields have different keys, the hash of the others under the
  -- bot's token is the one it carries, of 64 characters, it is at most `max_age` seconds old and at
  -- most a minute ahead of the clock, and its user has a positive id.
  pub verify_init_data_sound :
      (now : ℕ) (bot_token init_data : Str) (v : VerifiedInitData)
      → verify_init_data c max_age now bot_token init_data ≡ ok v
      → (fields : List (Str × Str)) × (c.parse_qsl init_data ≡ some fields)
        × DistinctKeys fields
        × (received : Str) × IsGenuine now bot_token fields received v
  verify_init_data_sound now bot_token init_data v e =
      let (size, token_there, verified) = gate now bot_token init_data v e in
      let (fields, parsed, received, genuine) =
        fields_parsed now bot_token (parse_fields (c.parse_qsl init_data)) v verified in
      let (read, distinct) = parsed_lem (c.parse_qsl init_data) fields parsed in
      (fields, read, distinct, received, genuine)
