-- ===== src/Users/Revocation.antt =====
-- Tokens that no longer open a session of apps/api/app/services/users.py.
use crypto_intelligence_plat.Base.{
  List, Option, Str, [], arith, none, refl, select, some, update_where, ℕ, ◌∷◌, ◌≡◌, ◌≢◌,
}
use crypto_intelligence_plat.Config.{Settings}
use crypto_intelligence_plat.Exec.{Result, err, lift, ok, ◌>>=◌}
use crypto_intelligence_plat.Models.{Db, User, WalletSession}
use crypto_intelligence_plat.Tokens.{TokenCodec, TokenPayload, verify_token}
use crypto_intelligence_plat.Users.{
  get_user_from_token, has_hash, revoke_session, revoked, subject_id, user_by_hash,
}

module _ (c : TokenCodec) (settings : Settings) where
  none_left :
      (hash : Str) (now : ℕ) (ws : List WalletSession)
      → select (has_hash c settings hash) (update_where (has_hash c settings hash) (revoked now) ws)
        ≡ []
  unfolding select update_where
  none_left hash now [] = refl
  none_left hash now (w ∷ ws) = ground (arith, none_left hash now ws)

  -- No session of that hash, no user.
  gone_by_hash :
      (hash : Str) (o : Option ℕ) (s : Db)
      → select (has_hash c settings hash) s.sessions ≡ []
      → (user_by_hash c settings hash o s).0 ≡ ok none
  unfolding user_by_hash
  gone_by_hash hash none s h = refl
  gone_by_hash hash (some uid) s h = rw h refl

  -- The steps of `get_user_from_token` behind the check of the subject, and behind the token's.
  of_subject :
      (hash : Str) (r : Result (Option ℕ)) (s : Db) (u : User)
      → select (has_hash c settings hash) s.sessions ≡ []
      → ((lift r >>= user_by_hash c settings hash) s).0 ≢ ok (some u)
  of_subject hash (ok o) s u h e = let gone = gone_by_hash hash o s h in cc
  of_subject hash (err x) s u h e = cc

  of_payload :
      (parse_uuid : Str → Option ℕ) (hash : Str) (r : Result TokenPayload) (s : Db) (u : User)
      → select (has_hash c settings hash) s.sessions ≡ []
      → ((lift r >>= (λ payload.
            lift (subject_id c settings parse_uuid payload.sub) >>= user_by_hash c settings hash))
          s).0
        ≢ ok (some u)
  of_payload parse_uuid hash (ok p) s u h e =
      of_subject hash (subject_id c settings parse_uuid p.sub) s u h e
  of_payload parse_uuid hash (err x) s u h e = cc

  abbrev pub after_revoking : Str → ℕ → Db → Db
  after_revoking t later s = record (revoke_session c settings t s).1 { clock = later }

  -- A token that was revoked opens no session of anybody, at no later time.
  pub revoke_session-is_final :
      (parse_uuid : Str → Option ℕ) (t : Str) (later : ℕ) (s : Db) (u : User)
      → (get_user_from_token c settings parse_uuid t (after_revoking t later s)).0 ≢ ok (some u)
  unfolding get_user_from_token revoke_session
  revoke_session-is_final parse_uuid t later s u =
      of_payload parse_uuid (c.sha256 t) (verify_token c settings later t)
        (after_revoking t later s) u (none_left (c.sha256 t) s.clock s.sessions)
