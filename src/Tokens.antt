-- ===== src/Tokens.antt =====
-- apps/api/app/security/session.py. HMAC, base64 and JSON come as a codec; a parsed JSON value is
-- data, where a number with a fraction is its whole part, to which `int` cuts it.
pub mod Verification
pub mod RoundTrip
use crypto_intelligence_plat.Base.{
  Bool, List, Option, Str, [], all, codes, if◌then◌else◌, is_empty, is_some, leb, leb_ℤ, length,
  ltb, ltb_ℤ, none, not, pos, some, split_on, str_eq, str_uuid, ℕ, ℤ, ◌++◌, ◌+ℤ◌, ◌+◌, ◌-ℤ◌, ◌∷◌,
}
use crypto_intelligence_plat.Config.{Settings}
use crypto_intelligence_plat.Errors.{Exn, runtime_error, token_error, value_error}
use crypto_intelligence_plat.Exec.{Result, err, ok}

mutual
  pub data Json : Type 0 where
    null : Json
    boolean : Bool → Json
    integer : ℤ → Json
    real : ℤ → Json
    text : Str → Json
    array : JsonList → Json
    object : JsonFields → Json

  pub data JsonList : Type 0 where
    no_items : JsonList
    item : Json → JsonList → JsonList

  pub data JsonFields : Type 0 where
    no_fields : JsonFields
    field : Str → Json → JsonFields → JsonFields

-- What `json.dumps` is given.
pub record Claims : Type 0 where
  pub sub : Str
  pub iat : ℤ
  pub exp : ℤ
  pub jti : Str
  pub rot : ℤ

-- `int(s)` of a text, HMAC-SHA256 in hexadecimal under a key, base64 with the padding put off and on
-- again, JSON, SHA-256. What fails raises a `ValueError`, which is none here.
pub record TokenCodec : Type 0 where
  pub hmac : Str → Str → Str
  pub b64 : Str → Str
  pub unb64 : Str → Option Str
  pub dumps : Claims → Str
  pub loads : Str → Option Json
  pub int_of_text : Str → Option ℤ
  pub sha256 : Str → Str

-- `sub` is taken as it stands.
pub record TokenPayload : Type 0 where
  pub sub : Json
  pub iat : ℤ
  pub exp : ℤ
  pub jti : Str
  pub rot : ℤ

abbrev pub malformed : Exn
malformed = token_error "malformed"

abbrev pub expired : Exn
expired = token_error "expired"

-- The last field of that name counts.
abbrev pub lookup : Str → JsonFields → Option Json
lookup name no_fields = none
lookup name (field k v fs) =
    let later = lookup name fs in
    if is_some later then later else if str_eq k name then some v else none

abbrev pub claims_object : Claims → Json
claims_object c = object (
    field (codes "exp") (integer c.exp) (
      field (codes "iat") (integer c.iat) (
        field (codes "jti") (text c.jti)
          (field (codes "rot") (integer c.rot) (field (codes "sub") (text c.sub) no_fields)))))

abbrev pub min_ℤ : ℤ → ℤ → ℤ
min_ℤ a b = if ltb_ℤ b a then b else a

abbrev pub signed : TokenCodec → Str → Str → Str
signed c secret payload = payload ++ 46 ∷ c.hmac secret payload

-- The signed token, when it expires, and its hash.
unfoldable pub issue_token : TokenCodec → Settings → ℕ → Str → ℕ → ℤ → Result (Str × ℤ × Str)
issue_token c s now jti user_id rotation =
    let iat = pos now in
    let exp = min_ℤ (iat +ℤ s.session_ttl_seconds) (iat +ℤ s.session_max_lifetime_seconds) in
    let claims : Claims = record {
      sub = str_uuid user_id;
      iat = iat;
      exp = exp;
      jti = jti;
      rot = rotation;
    } in
    let token = signed c s.app_secret (c.b64 (c.dumps claims)) in
    if is_empty s.app_secret then err malformed else ok (token, exp, c.sha256 token)

-- Of a character that is not, `encode("ascii")` raises a `UnicodeEncodeError` and `compare_digest` a
-- `TypeError`.
abbrev pub is_ascii : ℕ → Bool
is_ascii n = leb n 127

module _ (c : TokenCodec) where
  -- `int(v)`: a `TypeError` of null and of containers, a `ValueError` of a text that is no number
  abbrev pub int_of : Json → Option ℤ
  int_of (boolean b) = some (if b then pos 1 else pos 0)
  int_of (integer n) = some n
  int_of (real n) = some n
  int_of (text s) = c.int_of_text s
  int_of _ = none

  abbrev pub int_field : Option Json → Option ℤ
  int_field none = none
  int_field (some v) = int_of v

  -- `int(payload.get("rot", 0))`
  abbrev pub rotation_field : Option Json → Option ℤ
  rotation_field none = some (pos 0)
  rotation_field (some v) = int_of v

  -- `isinstance(jti, str) and len(jti) >= 8`
  abbrev pub jti_field : Option Json → Option Str
  jti_field (some (text s)) = if ltb (length s) 8 then none else some s
  jti_field _ = none

  abbrev pub payload_of :
      Option Json → Option ℤ → Option ℤ → Option Str → Option ℤ → Option TokenPayload
  payload_of (some sub) (some iat) (some exp) (some jti) (some rot) =
      some (record { sub = sub; iat = iat; exp = exp; jti = jti; rot = rot })
  payload_of _ _ _ _ _ = none

  -- The fields of the payload; whatever is wrong with them, the token is malformed.
  abbrev pub read_payload : Json → Option TokenPayload
  read_payload (object fs) =
      payload_of (lookup (codes "sub") fs) (int_field (lookup (codes "iat") fs))
        (int_field (lookup (codes "exp") fs)) (jti_field (lookup (codes "jti") fs))
        (rotation_field (lookup (codes "rot") fs))
  read_payload _ = none

  -- The tests on the times, in order.
  unfoldable pub check_times : ℤ → ℕ → TokenPayload → Result TokenPayload
  check_times max_lifetime now p =
      if leb_ℤ p.exp (pos now)
      then err expired
      else if ltb_ℤ (pos (now + 60)) p.iat
      then err malformed
      else if ltb_ℤ (max_lifetime +ℤ pos 60) (p.exp -ℤ p.iat)
      then err malformed
      else if ltb_ℤ max_lifetime (pos now -ℤ p.iat)
      then err expired
      else ok p

  abbrev pub parsed : Option Str → Option Json
  parsed none = none
  parsed (some b) = c.loads b

  abbrev pub payload_in : Option Json → Option TokenPayload
  payload_in none = none
  payload_in (some j) = read_payload j

  abbrev pub check_payload : ℤ → ℕ → Option TokenPayload → Result TokenPayload
  check_payload max_lifetime now none = err malformed
  check_payload max_lifetime now (some p) = check_times max_lifetime now p

  -- The parts of the token around the dots: no dot, or more than one, is malformed.
  unfoldable pub verify_parts : Settings → ℕ → List Str → Result TokenPayload
  unfolding check_times
  verify_parts s now (payload ∷ sig ∷ []) =
      if is_empty s.app_secret
      then err malformed
      else if not (all is_ascii payload)
      then err value_error
      else if not (all is_ascii sig)
      then err runtime_error
      else if not (str_eq (c.hmac s.app_secret payload) sig)
      then err malformed
      else check_payload s.session_max_lifetime_seconds now (payload_in (parsed (c.unb64 payload)))
  verify_parts s now _ = err malformed

  unfoldable pub verify_token : Settings → ℕ → Str → Result TokenPayload
  unfolding verify_parts
  verify_token s now token = verify_parts s now (split_on 46 token)
