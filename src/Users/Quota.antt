-- ===== src/Users/Quota.antt =====
-- How many sessions of apps/api/app/services/users.py a user can have at a time.
use crypto_intelligence_plat.Base.{
  Bool, List, Str, [], ap, arith, count_where, count_where-append, false, if◌then◌else◌, leb_ℤ, pos,
  refl, suc, true, update_where, ℕ, ℤ, ◌&&◌, ◌++◌, ◌==◌, ◌∙◌, ◌∷◌, ◌≡◌, ◌≢◌, ◌≤ℤ◌, ◌≤◌, ◌⊎◌,
}
use crypto_intelligence_plat.Config.{Settings}
use crypto_intelligence_plat.Errors.{integrity_error}
use crypto_intelligence_plat.Exec.{Exec, Result, err, is_ok, lift, ok, pure, ◌>>=◌, ◌>>◌}
use crypto_intelligence_plat.Models.{Db, User, WalletSession}
use crypto_intelligence_plat.Models.Tables.{add_session}
use crypto_intelligence_plat.Tokens.{TokenCodec, issue_token}
use crypto_intelligence_plat.Users.{
  create_session, is_live, is_unrevoked, make_room, quota, revoke_all_sessions, revoked,
  session_row,
}

-- What `create_session` leaves of the sessions before it adds the new one.
abbrev cleared : Bool → ℕ → Db → List WalletSession
cleared full uid s =
    if full
    then update_where (λ (w : WalletSession). (w.user_id == uid) && is_unrevoked w)
        (revoked s.clock) s.sessions
    else s.sessions

module _ (now : ℕ) where
  count-cleared :
      (clock uid : ℕ) (ws : List WalletSession)
      → count_where (is_live now uid) (
          update_where
            (λ (w : WalletSession). (w.user_id == uid) && is_unrevoked w)
            (revoked clock)
            ws)
        ≡ 0
  unfolding count_where update_where
  count-cleared clock uid [] = refl
  count-cleared clock uid (w ∷ ws) = ground (arith, count-cleared clock uid ws)

  count-other :
      (clock uid v : ℕ) (ws : List WalletSession)
      → v ≢ uid
      → count_where (is_live now v) (
          update_where
            (λ (w : WalletSession). (w.user_id == uid) && is_unrevoked w)
            (revoked clock)
            ws)
        ≡ count_where (is_live now v) ws
  unfolding count_where update_where
  count-other clock uid v [] h = refl
  count-other clock uid v (w ∷ ws) h = ground (arith, count-other clock uid v ws h)

  count-new :
      (v uid id : ℕ) (hash : Str) (exp : ℤ) (ws : List WalletSession)
      → count_where (is_live now v) (ws ++ session_row uid hash exp id ∷ []) ≤ (
          if v == uid then suc (count_where (is_live now v) ws) else count_where (is_live now v) ws)
  unfolding count_where
  count-new v uid id hash exp ws =
      ground (arith, count_where-append (is_live now v) ws (session_row uid hash exp id ∷ []))

  count_new_other :
      (v uid id : ℕ) (hash : Str) (exp : ℤ) (ws : List WalletSession)
      → v ≢ uid
      → count_where (is_live now v) (ws ++ session_row uid hash exp id ∷ [])
        ≡ count_where (is_live now v) ws
  unfolding count_where
  count_new_other v uid id hash exp ws h =
      ground (arith, count_where-append (is_live now v) ws (session_row uid hash exp id ∷ []))

-- The steps of `create_session` behind its two queries.
abbrev tail : Bool → Result (Str × ℤ × Str) → ℕ → Exec Db (Str × ℤ)
tail full r uid = do
  make_room full uid
  issued ← lift r
  add_session (session_row uid issued.2 issued.1)
  pure (issued.0, issued.1)

-- An insert that succeeded has put the row behind the others.
added :
    (b : Bool) (x : Str × ℤ) (w : WalletSession) (s t : Db)
    → is_ok
        (((λ (_ : Db). if b then (err integrity_error, s) else (ok w, t)) >>= (λ _. pure x)) s).0
      ≡ true
    → (((λ (_ : Db). if b then (err integrity_error, s) else (ok w, t)) >>= (λ _. pure x)) s).1 ≡ t
added true x w s t h = cc
added false x w s t h = refl

tail-sessions :
    (full : Bool) (r : Result (Str × ℤ × Str)) (uid : ℕ) (s : Db)
    → is_ok (tail full r uid s).0 ≡ true
    → (hash : Str) × (exp : ℤ) × ((tail full r uid s).1.sessions
        ≡ cleared full uid s ++ session_row uid hash exp s.next_id ∷ [])
unfolding revoke_all_sessions add_session
tail-sessions true (ok (t, exp, hash)) uid s h =
    (hash, exp, ap (λ x. x.sessions) (added _ (t, exp) _ _ _ h))
tail-sessions false (ok (t, exp, hash)) uid s h =
    (hash, exp, ap (λ x. x.sessions) (added _ (t, exp) _ _ _ h))
tail-sessions true (err e) uid s h = cc
tail-sessions false (err e) uid s h = cc

module _ (c : TokenCodec) (settings : Settings) where
  abbrev is_full : User → Db → Bool
  is_full user s = leb_ℤ (quota settings) (pos (count_where (is_live s.clock user.id) s.sessions))

  created_sessions :
      (jti : Str) (user : User) (s : Db)
      → is_ok (create_session c settings jti user s).0 ≡ true
      → (hash : Str) × (exp : ℤ) × ((create_session c settings jti user s).1.sessions
          ≡ cleared (is_full user s) user.id s ++ session_row user.id hash exp s.next_id ∷ [])
  unfolding create_session
  created_sessions jti user s h =
      tail-sessions (is_full user s) (issue_token c settings s.clock jti user.id (pos 0)) user.id s
        h

  -- The quota, or one where it is less than that.
  abbrev pub IsWithinQuota : ℕ → Type 0
  IsWithinQuota n = (n ≤ 1) ⊎ (pos n ≤ℤ quota settings)

  cleared_room :
      (user : User) (s : Db)
      → IsWithinQuota
          (suc (count_where (is_live s.clock user.id) (cleared (is_full user s) user.id s)))
  cleared_room user s = ground (arith, count-cleared s.clock s.clock user.id s.sessions)

  quota_mono : (m n : ℕ) → n ≤ m → IsWithinQuota m → IsWithinQuota n
  quota_mono m n le h = ground arith

  cleared_other :
      (full : Bool) (uid v : ℕ) (s : Db)
      → v ≢ uid
      → count_where (is_live s.clock v) (cleared full uid s)
        ≡ count_where (is_live s.clock v) s.sessions
  cleared_other true uid v s h = count-other s.clock s.clock uid v s.sessions h
  cleared_other false uid v s h = refl

  count_own :
      (uid id : ℕ) (hash : Str) (exp : ℤ) (now : ℕ) (ws : List WalletSession)
      → count_where (is_live now uid) (ws ++ session_row uid hash exp id ∷ [])
        ≤ suc (count_where (is_live now uid) ws)
  count_own uid id hash exp now ws = ground (arith, count-new now uid uid id hash exp ws)

  -- After a login, however many sessions there were, the user has no more live ones than the quota
  -- allows, or just the new one; everybody else has as many as before.
  pub create_session-IsWithinQuota :
      (jti : Str) (user : User) (s : Db)
      → is_ok (create_session c settings jti user s).0 ≡ true
      → IsWithinQuota
          (count_where (is_live s.clock user.id) (create_session c settings jti user s).1.sessions)
        × ((v : ℕ)
            → v ≢ user.id
            → count_where (is_live s.clock v) (create_session c settings jti user s).1.sessions
              ≡ count_where (is_live s.clock v) s.sessions)
  create_session-IsWithinQuota jti user s h =
      let (hash, exp, e) = created_sessions jti user s h in
      let rest = cleared (is_full user s) user.id s in
      (
        rw e (
            quota_mono (suc (count_where (is_live s.clock user.id) rest))
              (count_where (is_live s.clock user.id)
                (rest ++ session_row user.id hash exp s.next_id ∷ []))
              (count_own user.id s.next_id hash exp s.clock rest) (cleared_room user s)),
        λ v other.
            ap (λ ws. count_where (is_live s.clock v) ws) e
            ∙ count_new_other s.clock v user.id s.next_id hash exp rest other
            ∙ cleared_other (is_full user s) user.id v s other,
      )
