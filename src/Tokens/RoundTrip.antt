-- ===== src/Tokens/RoundTrip.antt =====
-- A session token of apps/api/app/security/session.py from its issue to its check.
use crypto_intelligence_plat.Base.{
  Str, [], all, ap, arith, false, has_char, is_empty, length, ltb, pos, refl, some, split_on,
  split_on-pair, str_eq, str_eq_refl, sym, true, ℕ, ℤ, ◌+◌, ◌∙◌, ◌∷◌, ◌≡◌, ◌≤ℤ◌, ◌≤◌,
}
use crypto_intelligence_plat.Config.{Settings}
use crypto_intelligence_plat.Exec.{ok}
use crypto_intelligence_plat.Tokens.{
  Claims, TokenCodec, check_times, claims_object, is_ascii, issue_token, parsed, payload_in,
  read_payload, signed, verify_parts, verify_token,
}
use crypto_intelligence_plat.Tokens.Verification.{issued_claims, issued_passes, issued_payload}

-- What the codec does with the claims of one token: base64 and JSON read back what they wrote, and
-- base64 and a hexadecimal digest are ASCII without a dot.
pub record ReadsBack (c : TokenCodec) (secret : Str) (x : Claims) : Type 0 where
  pub payload-plain : has_char 46 (c.b64 (c.dumps x)) ≡ false
  pub digest-plain : has_char 46 (c.hmac secret (c.b64 (c.dumps x))) ≡ false
  pub payload-ascii : all is_ascii (c.b64 (c.dumps x)) ≡ true
  pub digest-ascii : all is_ascii (c.hmac secret (c.b64 (c.dumps x))) ≡ true
  pub unb64-b64 : c.unb64 (c.b64 (c.dumps x)) ≡ some (c.dumps x)
  pub loads-dumps : c.loads (c.dumps x) ≡ some (claims_object x)

module _ (c : TokenCodec) (s : Settings) where
  issued_parts :
      (x : Claims)
      → ReadsBack c s.app_secret x
      → split_on 46 (signed c s.app_secret (c.b64 (c.dumps x)))
        ≡ c.b64 (c.dumps x) ∷ c.hmac s.app_secret (c.b64 (c.dumps x)) ∷ []
  issued_parts x back =
      split_on-pair 46 (c.b64 (c.dumps x)) (c.hmac s.app_secret (c.b64 (c.dumps x)))
        back.payload-plain back.digest-plain

  read_claims :
      (x : Claims)
      → ltb (length x.jti) 8 ≡ false
      → read_payload c (claims_object x) ≡ some (issued_payload c s x)
  unfolding str_eq
  read_claims x h = ground arith

  read_issued :
      (x : Claims)
      → ReadsBack c s.app_secret x
      → ltb (length x.jti) 8 ≡ false
      → payload_in c (parsed c (c.unb64 (c.b64 (c.dumps x)))) ≡ some (issued_payload c s x)
  read_issued x back h = rw (back.unb64-b64, back.loads-dumps) (read_claims x h)

  verify_issued :
      (later : ℕ) (x : Claims)
      → ReadsBack c s.app_secret x
      → ltb (length x.jti) 8 ≡ false
      → is_empty s.app_secret ≡ false
      → verify_token c s later (signed c s.app_secret (c.b64 (c.dumps x)))
        ≡ check_times c s.session_max_lifetime_seconds later (issued_payload c s x)
  unfolding verify_token verify_parts
  verify_issued later x back h filled =
      rw
        (
          issued_parts x back,
          filled,
          back.payload-ascii,
          back.digest-ascii,
          str_eq_refl (c.hmac s.app_secret (c.b64 (c.dumps x))),
          read_issued x back h,
        )
        refl

  issue_lem :
      (now : ℕ) (jti : Str) (user_id : ℕ) (rotation : ℤ) (t h : Str) (exp : ℤ)
      → issue_token c s now jti user_id rotation ≡ ok (t, exp, h)
      → (is_empty s.app_secret ≡ false)
        × (t ≡ signed c s.app_secret (c.b64 (c.dumps (issued_claims c s now jti user_id rotation))))
        × (exp ≡ (issued_claims c s now jti user_id rotation).exp)
  unfolding issue_token
  issue_lem now jti user_id rotation t h exp e = ground arith

  -- A token that was issued is accepted from then until it expires, with the claims it was issued
  -- with, where the codec reads back what it writes and the identifier has its eight characters.
  pub verify-issue :
      (now later : ℕ) (jti : Str) (user_id : ℕ) (rotation : ℤ) (t h : Str) (exp : ℤ)
      → ReadsBack c s.app_secret (issued_claims c s now jti user_id rotation)
      → ltb (length jti) 8 ≡ false
      → issue_token c s now jti user_id rotation ≡ ok (t, exp, h)
      → now ≤ later
      → pos (later + 1) ≤ℤ exp
      → verify_token c s later t
        ≡ ok (issued_payload c s (issued_claims c s now jti user_id rotation))
  verify-issue now later jti user_id rotation t h exp back long issued order alive =
      let (filled, same, expires) = issue_lem now jti user_id rotation t h exp issued in
      ap (verify_token c s later) same
      ∙ verify_issued later (issued_claims c s now jti user_id rotation) back long filled
      ∙ issued_passes c s now later jti user_id rotation order (rw (sym expires) alive)
