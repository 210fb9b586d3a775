-- ===== src/Telegram.antt =====
-- apps/api/app/security/telegram.py, and the key against replays of apps/api/app/api/v1/auth.py. The
-- keyed hash, the parser of queries and JSON come as a codec.
pub mod Signature
pub mod Replay
use crypto_intelligence_plat.Base.{
  Bool, List, Option, Str, [], all, any, codes, delete_where, false, if◌then◌else◌, is_empty, leb_ℤ,
  length, ltb, ltb_ℤ, none, not, pos, pos_part, some, str_eq, true, ℕ, ℤ, ◌&&◌, ◌++◌, ◌+◌, ◌-ℤ◌,
  ◌==◌, ◌||◌, ◌∷◌,
}
use crypto_intelligence_plat.Errors.{init_data_error, runtime_error, value_error}
use crypto_intelligence_plat.Exec.{Result, err, ok}
use crypto_intelligence_plat.RateLimit.Lua.{live}
use crypto_intelligence_plat.Tokens.{
  Json, JsonFields, array, boolean, field, integer, is_ascii, item, lookup, no_fields, no_items,
  null, object, real, text,
}

-- `data_check_string` hashed under the secret made of the bot's token, in hexadecimal; `parse_qsl`,
-- none for the `ValueError` of more than 32 fields; `json.loads`; `int(s)`; SHA-256.
pub record InitCodec : Type 0 where
  pub check_hash : Str → Str → Str
  pub parse_qsl : Str → Option (List (Str × Str))
  pub loads : Str → Option Json
  pub int_of_text : Str → Option ℤ
  pub sha256 : Str → Str

-- The names are what the JSON has there, if anything. `raw`, the JSON itself, is never read.
pub record TelegramUser : Type 0 where
  pub id : ℕ
  pub username : Option Json
  pub first_name : Option Json
  pub last_name : Option Json
  pub language_code : Option Json
  pub is_premium : Bool

pub record VerifiedInitData : Type 0 where
  pub user : TelegramUser
  pub auth_date : ℤ
  pub query_id : Option Str
  pub raw : List (Str × Str)

abbrev pub same_key : Str → Str × Str → Bool
same_key key p = str_eq p.0 key

-- `fields.get(key)` of a dict
abbrev pub get_field : Str → List (Str × Str) → Option Str
get_field key [] = none
get_field key (p ∷ ps) = let rest = get_field key ps in if same_key key p then some p.1 else rest

-- The loop of `_parse_fields`: a key that is there already is refused.
unfoldable pub unique_fields : List (Str × Str) → List (Str × Str) → Result (List (Str × Str))
unique_fields fields [] = ok fields
unique_fields fields (p ∷ ps) =
    let rest = unique_fields (fields ++ p ∷ []) ps in
    if any (same_key p.0) fields then err init_data_error else rest

abbrev pub parse_fields : Option (List (Str × Str)) → Result (List (Str × Str))
parse_fields none = err value_error
parse_fields (some pairs) = unique_fields [] pairs

-- Texts in the order of their code points.
unfoldable pub str_leb : Str → Str → Bool
str_leb [] t = true
str_leb (a ∷ s) [] = false
str_leb (a ∷ s) (b ∷ t) = let rest = str_leb s t in if a == b then rest else ltb a b

unfoldable pub insert_field : Str × Str → List (Str × Str) → List (Str × Str)
insert_field p [] = p ∷ []
insert_field p (q ∷ qs) =
    let rest = insert_field p qs in if str_leb p.0 q.0 then p ∷ q ∷ qs else q ∷ rest

-- By key: a dict has each key once.
unfoldable pub sort_fields : List (Str × Str) → List (Str × Str)
unfolding insert_field
sort_fields [] = []
sort_fields (p ∷ ps) = insert_field p (sort_fields ps)

-- `sep.join(f"{k}={v}" ...)`
unfoldable pub join_fields : Str → List (Str × Str) → Str
join_fields sep [] = []
join_fields sep (p ∷ []) = p.0 ++ 61 ∷ p.1
join_fields sep (p ∷ q ∷ qs) = (p.0 ++ 61 ∷ p.1) ++ (sep ++ join_fields sep (q ∷ qs))

unfoldable pub data_check_string : List (Str × Str) → Str
unfolding join_fields sort_fields
data_check_string fields = join_fields (10 ∷ []) (sort_fields fields)

-- `isinstance(uid, int) and uid > 0`; True is an int.
abbrev pub positive_id : Option Json → Option ℕ
positive_id (some (integer n)) = if leb_ℤ n (pos 0) then none else some (pos_part n)
positive_id (some (boolean true)) = some 1
positive_id _ = none

-- `bool(v)`
abbrev pub truthy : Option Json → Bool
truthy none = false
truthy (some null) = false
truthy (some (boolean b)) = b
truthy (some (integer n)) = not (leb_ℤ n (pos 0) && leb_ℤ (pos 0) n)
truthy (some (real n)) = true
truthy (some (text s)) = not (is_empty s)
truthy (some (array no_items)) = false
truthy (some (array (item _ _))) = true
truthy (some (object no_fields)) = false
truthy (some (object (field _ _ _))) = true

abbrev pub user_with : JsonFields → Option ℕ → Result TelegramUser
user_with fs none = err init_data_error
user_with fs (some uid) = ok (record {
  id = uid;
  username = lookup (codes "username") fs;
  first_name = lookup (codes "first_name") fs;
  last_name = lookup (codes "last_name") fs;
  language_code = lookup (codes "language_code") fs;
  is_premium = truthy (lookup (codes "is_premium") fs);
})

-- `_extract_user`, on what `json.loads` returned
unfoldable pub extract_user : Option Json → Result TelegramUser
extract_user (some (object fs)) = user_with fs (positive_id (lookup (codes "id") fs))
extract_user _ = err init_data_error

-- A value that is neither missing nor empty.
abbrev pub filled : Option Str → Option Str
filled none = none
filled (some s) = if is_empty s then none else some s

module _ (c : InitCodec) (max_age : ℤ) where
  abbrev pub with_user : ℤ → List (Str × Str) → Result TelegramUser → Result VerifiedInitData
  with_user auth_date rest (err e) = err e
  with_user auth_date rest (ok u) = ok (record {
    user = u;
    auth_date = auth_date;
    query_id = get_field (codes "query_id") rest;
    raw = rest;
  })

  -- The tests on the age, then the signature, then the user. `compare_digest` raises a `TypeError` of
  -- a text that is not ASCII.
  unfoldable pub check_fields : ℕ → Str → Str → List (Str × Str) → Str → ℤ → Result VerifiedInitData
  unfolding data_check_string extract_user
  check_fields now bot_token received rest user auth_date =
      if ltb_ℤ max_age (pos now -ℤ auth_date)
      then err init_data_error
      else if ltb_ℤ (pos 60) (auth_date -ℤ pos now)
      then err init_data_error
      else if not (all is_ascii received)
      then err runtime_error
      else if not (str_eq (c.check_hash bot_token (data_check_string rest)) received)
      then err init_data_error
      else with_user auth_date rest (extract_user (c.loads user))

  abbrev pub parsed_date : Option Str → Option ℤ
  parsed_date none = none
  parsed_date (some s) = c.int_of_text s

  abbrev pub with_fields :
      ℕ → Str → List (Str × Str) → Option Str → Option Str → Option ℤ → Result VerifiedInitData
  with_fields now bot_token rest (some received) (some user) (some auth_date) =
      if not (length received == 64)
      then err init_data_error
      else check_fields now bot_token received rest user auth_date
  with_fields now bot_token rest _ _ _ = err init_data_error

  -- What is left without the hash.
  abbrev pub unsigned_fields : List (Str × Str) → List (Str × Str)
  unsigned_fields fields = delete_where (same_key (codes "hash")) fields

  abbrev pub verify_fields : ℕ → Str → Result (List (Str × Str)) → Result VerifiedInitData
  verify_fields now bot_token (err e) = err e
  verify_fields now bot_token (ok fields) =
      with_fields now bot_token (unsigned_fields fields) (filled (get_field (codes "hash") fields))
        (get_field (codes "user") (unsigned_fields fields))
        (parsed_date (filled (get_field (codes "auth_date") (unsigned_fields fields))))

  unfoldable pub verify_init_data : ℕ → Str → Str → Result VerifiedInitData
  unfolding unique_fields check_fields
  verify_init_data now bot_token init_data =
      if is_empty init_data || ltb 8192 (length init_data)
      then err init_data_error
      else if is_empty bot_token
      then err init_data_error
      else verify_fields now bot_token (parse_fields (c.parse_qsl init_data))

  unfoldable pub init_data_replay_key : VerifiedInitData → Str
  init_data_replay_key v = c.sha256 (join_fields (38 ∷ []) (sort_fields v.raw))

-- `redis.set(replay_key, b"1", ex=300, nx=True)` on the keys and when they expire.
unfoldable pub claim_key : ℕ → Str → List (Str × ℕ) → Bool × List (Str × ℕ)
claim_key now key keys =
    let live = λ (p : Str × ℕ). str_eq p.0 key && ltb now p.1 in
    if any live keys then (false, keys) else (true, (key, now + 300) ∷ keys)
