-- ===== src/Users/Lookup.antt =====
-- Whom a token stands for in apps/api/app/services/users.py.
use crypto_intelligence_plat.Base.{
  Bool, List, Option, Str, [], arith, false, if◌then◌else◌, leb, none, refl, select, some, true, ℕ,
  ◌&&◌, ◌+◌, ◌==◌, ◌∷◌, ◌≡◌, ◌≢◌, ◌≤◌,
}
use crypto_intelligence_plat.Config.{Settings}
use crypto_intelligence_plat.Exec.{Result, err, lift, ok, one_or_none, pure, ◌>>=◌}
use crypto_intelligence_plat.Models.{Db, User, WalletSession}
use crypto_intelligence_plat.Tokens.{TokenCodec, TokenPayload, verify_token}
use crypto_intelligence_plat.Users.{
  active_user, get_user_from_token, has_hash, subject_id, user_by_hash, user_of_session,
}

module _ (c : TokenCodec) (settings : Settings) where
  -- The one unrevoked session with the token's hash is live, and the one active user with the id in
  -- the token is the user.
  abbrev pub Opens : Str → Db → ℕ → User → Type 0
  Opens t s uid u =
      ((w : WalletSession) × (select (has_hash c settings (c.sha256 t)) s.sessions ≡ w ∷ [])
        × (s.clock + 1 ≤ w.expires_at))
      × (select (λ (v : User). (v.id == uid) && v.is_active) s.users ≡ u ∷ [])

  one_row :
      {A : Type 0} (xs : List A) (s : Db) (a : A) → (one_or_none xs s).0 ≡ ok (some a) → xs ≡ a ∷ []
  one_row [] s a e = ground arith
  one_row (x ∷ []) s a e = ground arith
  one_row (x ∷ y ∷ ys) s a e = ground arith

  gate :
      (b : Bool) (uid : ℕ) (s : Db) (u : User)
      → ((if b then pure none else active_user c settings uid) s).0 ≡ ok (some u)
      → (b ≡ false) × (select (λ (v : User). (v.id == uid) && v.is_active) s.users ≡ u ∷ [])
  unfolding active_user
  gate true uid s u e = absurd (none_is_not u e)
    where
      none_is_not : (u : User) → ◌≢◌ {A = Result (Option User)} (ok none) (ok (some u))
      none_is_not u e = ground arith
  gate false uid s u e =
      (refl, one_row (select (λ (v : User). (v.id == uid) && v.is_active) s.users) s u e)

  of_rows :
      (rows : List WalletSession) (uid : ℕ) (s : Db) (u : User)
      → ((one_or_none rows >>= user_of_session c settings uid) s).0 ≡ ok (some u)
      → ((w : WalletSession) × (rows ≡ w ∷ []) × (s.clock + 1 ≤ w.expires_at))
        × (select (λ (v : User). (v.id == uid) && v.is_active) s.users ≡ u ∷ [])
  of_rows [] uid s u e = ground arith
  of_rows (w ∷ []) uid s u e =
      let (late, found) = gate (leb w.expires_at s.clock) uid s u e in
      ((w, refl, ground arith), found)
  of_rows (w ∷ x ∷ ws) uid s u e = ground arith

  of_subject :
      (t : Str) (o : Result (Option ℕ)) (s : Db) (u : User)
      → ((lift o >>= user_by_hash c settings (c.sha256 t)) s).0 ≡ ok (some u)
      → (uid : ℕ) × (o ≡ ok (some uid)) × Opens t s uid u
  unfolding user_by_hash
  of_subject t (ok none) s u e = ground arith
  of_subject t (ok (some uid)) s u e =
      (uid, refl, of_rows (select (has_hash c settings (c.sha256 t)) s.sessions) uid s u e)
  of_subject t (err x) s u e = ground arith

  of_payload :
      (parse_uuid : Str → Option ℕ) (t : Str) (r : Result TokenPayload) (s : Db) (u : User)
      → ((lift r >>= (λ payload.
            lift (subject_id c settings parse_uuid payload.sub)
            >>= user_by_hash c settings (c.sha256 t)))
          s).0
        ≡ ok (some u)
      → (p : TokenPayload) × (r ≡ ok p)
        × (uid : ℕ) × (subject_id c settings parse_uuid p.sub ≡ ok (some uid))
        × Opens t s uid u
  of_payload parse_uuid t (ok p) s u e =
      let (uid, named, opens) = of_subject t (subject_id c settings parse_uuid p.sub) s u e in
      (p, refl, uid, named, opens)
  of_payload parse_uuid t (err x) s u e = ground arith

  -- What a token that stands for a user satisfies: it is valid now, it names the user, the user is
  -- active, and there is a live session for it.
  pub get_user_from_token_sound :
      (parse_uuid : Str → Option ℕ) (t : Str) (s : Db) (u : User)
      → (get_user_from_token c settings parse_uuid t s).0 ≡ ok (some u)
      → (p : TokenPayload) × (verify_token c settings s.clock t ≡ ok p)
        × (uid : ℕ) × (subject_id c settings parse_uuid p.sub ≡ ok (some uid))
        × Opens t s uid u
  unfolding get_user_from_token
  get_user_from_token_sound parse_uuid t s u e =
      of_payload parse_uuid t (verify_token c settings s.clock t) s u e
