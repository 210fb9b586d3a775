-- ===== src/Deps/Authentication.antt =====
-- Whom apps/api/app/api/deps.py lets in, and what it answers to the others.
use Prim.Native.String.{String}
use crypto_intelligence_plat.Base.{
  Bool, Option, Str, ap, arith, false, if◌then◌else◌, none, refl, some, sym, true, ℕ, ◌&&◌, ◌∙◌,
  ◌≡◌, ◌≢◌,
}
use crypto_intelligence_plat.Config.{Settings, is_dev}
use crypto_intelligence_plat.Deps.{bypass_user, extract_token, get_current_user, token_user}
use crypto_intelligence_plat.Errors.{Exn, auth_error, respond, token_error}
use crypto_intelligence_plat.Exec.{Exec, Result, err, lift, ok, required, ◌>>=◌}
use crypto_intelligence_plat.Models.{Db, User}
use crypto_intelligence_plat.Tokens.{TokenCodec, TokenPayload, verify_token}
use crypto_intelligence_plat.Users.{get_user_from_token, subject_id, user_by_hash}
use crypto_intelligence_plat.Users.Lookup.{Opens, get_user_from_token_sound}

module _ (c : TokenCodec) (settings : Settings) (parse_uuid : Str → Option ℕ) where
  abbrev of_found : Result (Option User) → Result User
  of_found (ok none) = err (auth_error "invalid or expired session")
  of_found (ok (some u)) = ok u
  of_found (err e) = err e

  result_lem :
      (r : Result (Option User)) (s : Db)
      → ((lift r >>= (λ o. required o (auth_error "invalid or expired session"))) s).0 ≡ of_found r
  result_lem (ok none) s = refl
  result_lem (ok (some u)) s = refl
  result_lem (err e) s = refl

  found_lem : (r : Result (Option User)) (u : User) → of_found r ≡ ok u → r ≡ ok (some u)
  found_lem (ok none) u e = ground arith
  found_lem (ok (some v)) u e = ground arith
  found_lem (err x) u e = ground arith

  -- The steps behind the header, on the token that is in it.
  abbrev for_token : Str → Exec Db User
  for_token t = do
    found ← get_user_from_token c settings parse_uuid t
    required found (auth_error "invalid or expired session")

  for_token_lem :
      (t : Str) (s : Db)
      → (for_token t s).0 ≡ of_found (get_user_from_token c settings parse_uuid t s).0
  for_token_lem t s =
      result_lem (get_user_from_token c settings parse_uuid t s).0
        (get_user_from_token c settings parse_uuid t s).1

  of_header :
      (r : Result Str) (s : Db) (u : User)
      → ((lift r >>= for_token) s).0 ≡ ok u
      → (t : Str) × (r ≡ ok t) × ((get_user_from_token c settings parse_uuid t s).0 ≡ ok (some u))
  of_header (ok t) s u e = (
    t,
    refl,
    found_lem (get_user_from_token c settings parse_uuid t s).0 u (sym (for_token_lem t s) ∙ e),
  )
  of_header (err x) s u e = ground arith

  not_bypassed :
      (b : Bool) (header : Option Str) (s : Db)
      → b ≡ false
      → (if b then bypass_user else token_user c settings parse_uuid header) s
        ≡ token_user c settings parse_uuid header s
  not_bypassed true header s e = absurd (true_is_not e)
    where
      true_is_not : true ≢ false
      true_is_not e = ground arith
  not_bypassed false header s e = refl

  current_lem :
      (header : Option Str) (s : Db)
      → (settings.dev_bypass_auth && is_dev settings) ≡ false
      → get_current_user c settings parse_uuid header s
        ≡ (lift (extract_token header) >>= for_token) s
  unfolding get_current_user token_user
  current_lem header s off = not_bypassed (settings.dev_bypass_auth && is_dev settings) header s off

  -- Without the bypass, the caller of an endpoint is a user who has sent a bearer token that is
  -- valid now, that names the user, an active one, and that has a live session.
  pub get_current_user_sound :
      (header : Option Str) (s : Db) (u : User)
      → (settings.dev_bypass_auth && is_dev settings) ≡ false
      → (get_current_user c settings parse_uuid header s).0 ≡ ok u
      → (t : Str) × (extract_token header ≡ ok t)
        × (p : TokenPayload) × (verify_token c settings s.clock t ≡ ok p)
        × (uid : ℕ) × (subject_id c settings parse_uuid p.sub ≡ ok (some uid))
        × Opens c settings t s uid u
  get_current_user_sound header s u off e =
      let (t, sent, found) =
        of_header (extract_token header) s u (sym (ap (λ x. x.0) (current_lem header s off)) ∙ e) in
      let (p, valid, uid, named, opens) =
        get_user_from_token_sound c settings parse_uuid t s u found in
      (t, sent, p, valid, uid, named, opens)

  rejected :
      (t : Str) (r : Result TokenPayload) (x : Exn) (s : Db)
      → r ≡ err x
      → ((lift r >>= (λ payload.
            lift (subject_id c settings parse_uuid payload.sub)
            >>= user_by_hash c settings (c.sha256 t)))
          s).0
        ≡ err x
  rejected t (ok p) x s e = ground arith
  rejected t (err y) x s e = ground arith

  lookup_rejected :
      (t : Str) (x : Exn) (s : Db)
      → verify_token c settings s.clock t ≡ err x
      → (get_user_from_token c settings parse_uuid t s).0 ≡ err x
  unfolding get_user_from_token
  lookup_rejected t x s e = rejected t (verify_token c settings s.clock t) x s e

  -- A bearer token that is malformed or has expired is not answered with 401: nothing catches its
  -- `TokenError`, and the client gets the answer of an internal error.
  pub invalid_token-is_internal_error :
      (header : Option Str) (t : Str) (reason : String) (s : Db)
      → (settings.dev_bypass_auth && is_dev settings) ≡ false
      → extract_token header ≡ ok t
      → verify_token c settings s.clock t ≡ err (token_error reason)
      → ((get_current_user c settings parse_uuid header s).0 ≡ err (token_error reason))
        × ((respond (token_error reason)).status ≡ 500)
  unfolding respond
  invalid_token-is_internal_error header t reason s off sent e = (
    ap (λ x. x.0) (current_lem header s off)
        ∙ ap (λ (r : Result Str). ((lift r >>= for_token) s).0) sent
        ∙ for_token_lem t s
        ∙ ap of_found (lookup_rejected t (token_error reason) s e),
    refl,
  )
