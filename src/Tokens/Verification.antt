-- ===== src/Tokens/Verification.antt =====
-- What a session token of apps/api/app/security/session.py lets through.
use crypto_intelligence_plat.Base.{
  List, Option, Str, [], ap, arith, false, is_empty, none, pos, some, split_on, split_on-two,
  str_eq, str_eq_sound, str_uuid, sym, true, ℕ, ℤ, ◌+ℤ◌, ◌+◌, ◌-ℤ◌, ◌∷◌, ◌≡◌, ◌≤ℤ◌, ◌≤◌,
}
use crypto_intelligence_plat.Config.{Settings}
use crypto_intelligence_plat.Exec.{ok}
use crypto_intelligence_plat.Tokens.{
  Claims, TokenCodec, TokenPayload, check_payload, check_times, min_ℤ, parsed, payload_in, signed,
  text, verify_parts, verify_token,
}

module _ (c : TokenCodec) (s : Settings) where
  -- The times of a token that passes.
  abbrev pub IsCurrent : ℕ → TokenPayload → Type 0
  IsCurrent now p =
      (pos (now + 1) ≤ℤ p.exp)
      × (p.iat ≤ℤ pos (now + 60))
      × ((p.exp -ℤ p.iat) ≤ℤ (s.session_max_lifetime_seconds +ℤ pos 60))
      × ((pos now -ℤ p.iat) ≤ℤ s.session_max_lifetime_seconds)

  check_times_lem :
      (now : ℕ) (p q : TokenPayload)
      → check_times c s.session_max_lifetime_seconds now p ≡ ok q
      → IsCurrent now q
  unfolding check_times
  check_times_lem now p q h = ground arith

  check_payload_lem :
      (now : ℕ) (o : Option TokenPayload) (q : TokenPayload)
      → check_payload c s.session_max_lifetime_seconds now o ≡ ok q
      → IsCurrent now q
  check_payload_lem now none q h = ground arith
  check_payload_lem now (some p) q h = check_times_lem now p q h

  tests_passed :
      (now : ℕ) (a sig : Str) (q : TokenPayload)
      → verify_parts c s now (a ∷ sig ∷ []) ≡ ok q
      → (is_empty s.app_secret ≡ false)
        × (str_eq (c.hmac s.app_secret a) sig ≡ true)
        × (check_payload c s.session_max_lifetime_seconds now (payload_in c (parsed c (c.unb64 a)))
            ≡ ok q)
  unfolding verify_parts
  tests_passed now a sig q h = ground arith

  verify_parts_lem :
      (now : ℕ) (parts : List Str) (q : TokenPayload)
      → verify_parts c s now parts ≡ ok q
      → (payload : Str) × (parts ≡ payload ∷ c.hmac s.app_secret payload ∷ [])
        × (is_empty s.app_secret ≡ false)
        × IsCurrent now q
  unfolding verify_parts
  verify_parts_lem now [] q h = ground arith
  verify_parts_lem now (a ∷ []) q h = ground arith
  verify_parts_lem now (a ∷ sig ∷ []) q h =
      let (filled, same, checked) = tests_passed now a sig q h in
      (
        a,
        ap (λ x. a ∷ x ∷ []) (sym (str_eq_sound (c.hmac s.app_secret a) sig same)),
        filled,
        check_payload_lem now (payload_in c (parsed c (c.unb64 a))) q checked,
      )
  verify_parts_lem now (a ∷ b ∷ d ∷ r) q h = ground arith

  -- A token is accepted only if it is a payload with the signature of it under a secret that is
  -- there, before it expires, at most 60 seconds before it was issued, and at most the longest
  -- lifetime after that.
  pub verify_token_sound :
      (now : ℕ) (t : Str) (p : TokenPayload)
      → verify_token c s now t ≡ ok p
      → (payload : Str) × (t ≡ signed c s.app_secret payload)
        × (is_empty s.app_secret ≡ false)
        × IsCurrent now p
  unfolding verify_token
  verify_token_sound now t p h =
      let (payload, parts, filled, current) = verify_parts_lem now (split_on 46 t) p h in
      (payload, split_on-two 46 t payload (c.hmac s.app_secret payload) parts, filled, current)

  abbrev pub issued_claims : ℕ → Str → ℕ → ℤ → Claims
  issued_claims now jti user_id rotation = record {
    sub = str_uuid user_id;
    iat = pos now;
    exp = min_ℤ (pos now +ℤ s.session_ttl_seconds) (pos now +ℤ s.session_max_lifetime_seconds);
    jti = jti;
    rot = rotation;
  }

  abbrev pub issued_payload : Claims → TokenPayload
  issued_payload x = record { sub = text x.sub; iat = x.iat; exp = x.exp; jti = x.jti; rot = x.rot }

  pub issued_passes :
      (now later : ℕ) (jti : Str) (user_id : ℕ) (rotation : ℤ)
      → now ≤ later
      → pos (later + 1) ≤ℤ (issued_claims now jti user_id rotation).exp
      → check_times c s.session_max_lifetime_seconds later
          (issued_payload (issued_claims now jti user_id rotation))
        ≡ ok (issued_payload (issued_claims now jti user_id rotation))
  unfolding check_times ◌+ℤ◌ ◌-ℤ◌
  issued_passes now later jti user_id rotation order alive = ground arith
