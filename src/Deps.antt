-- ===== src/Deps.antt =====
-- apps/api/app/api/deps.py: what every endpoint asks for first, the caller and the page.
pub mod Authentication
use crypto_intelligence_plat.Base.{
  Option, Str, [], codes, if◌then◌else◌, is_empty, lower, ltb_ℤ, map, none, not, pos, pos_part,
  select, some, str_eq, strip, true, ℕ, ℤ, ◌&&◌, ◌*◌, ◌-◌, ◌==◌, ◌||◌, ◌∷◌,
}
use crypto_intelligence_plat.Config.{Settings, is_dev}
use crypto_intelligence_plat.Errors.{auth_error, validation_error}
use crypto_intelligence_plat.Exec.{
  Exec, Result, err, gets, lift, ok, one_or_none, pure, required, ◌>>=◌, ◌>>◌,
}
use crypto_intelligence_plat.Models.{Db, User}
use crypto_intelligence_plat.Models.Tables.{add_user}
use crypto_intelligence_plat.Tokens.{TokenCodec}
use crypto_intelligence_plat.Users.{get_user_from_token}

-- `s.split(d, 1)` where d occurs in s
unfoldable pub split_once : ℕ → Str → Option (Str × Str)
split_once d [] = none
split_once d (c ∷ s) =
    let rest = split_once d s in
    if c == d then some ([], s) else elim rest [ none ↦ none | some p ↦ some (c ∷ p.0, p.1) ]

abbrev pub bearer_token : Option (Str × Str) → Result Str
bearer_token none = err (auth_error "invalid authorization scheme")
bearer_token (some p) =
    if not (str_eq (map lower p.0) (codes "bearer"))
    then err (auth_error "invalid authorization scheme")
    else if is_empty (strip p.1)
    then err (auth_error "empty token")
    else ok (strip p.1)

-- The Authorization header, none where it is missing.
unfoldable pub extract_token : Option Str → Result Str
unfolding split_once
extract_token none = err (auth_error "missing authorization header")
extract_token (some h) =
    if is_empty h
    then err (auth_error "missing authorization header")
    else bearer_token (split_once 32 h)

abbrev pub dev_user : ℕ → User
dev_user id = record {
  id = id;
  telegram_id = 999999999;
  telegram_username = some (codes "dev_user");
  telegram_first_name = some (codes "Dev");
  telegram_last_name = some (codes "User");
  telegram_language_code = none;
  is_active = true;
}

abbrev pub found_or_added : Option User → Exec Db User
found_or_added none = add_user dev_user
found_or_added (some u) = pure u

unfoldable pub bypass_user : Exec Db User
bypass_user = do
  rows ← gets (λ s. select (λ (u : User). u.telegram_id == 999999999) s.users)
  found ← one_or_none rows
  found_or_added found

module _ (c : TokenCodec) (settings : Settings) (parse_uuid : Str → Option ℕ) where
  unfoldable pub token_user : Option Str → Exec Db User
  token_user header = do
    t ← lift (extract_token header)
    found ← get_user_from_token c settings parse_uuid t
    required found (auth_error "invalid or expired session")

  unfoldable pub get_current_user : Option Str → Exec Db User
  unfolding token_user bypass_user
  get_current_user header =
      if settings.dev_bypass_auth && is_dev settings then bypass_user else token_user header

pub record Pagination : Type 0 where
  pub page : ℕ
  pub page_size : ℕ

unfoldable pub make_pagination : ℤ → ℤ → Result Pagination
make_pagination page page_size =
    if ltb_ℤ page (pos 1)
    then err (validation_error "page must be >= 1")
    else if ltb_ℤ page_size (pos 1) || ltb_ℤ (pos 100) page_size
    then err (validation_error "page_size must be 1..100")
    else ok (record { page = pos_part page; page_size = pos_part page_size })

abbrev pub offset : Pagination → ℕ
offset p = (p.page - 1) * p.page_size
