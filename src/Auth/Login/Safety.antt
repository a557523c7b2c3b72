-- ===== src/Auth/Login/Safety.antt =====
-- Who is signed in by `login`, and what a refusal tells; what `logout` ends.
use theft_detection_platform.Prelude.{
  ℕ, ◌+◌, ◌/◌, ◌≡◌, sym, subst, true, false, ◌⊎◌, inl, inr, Option, none, some, arith, bytes_eq, ok,
  err, Bool-cases, Option-cases, All-map, All-intro,
}
use theft_detection_platform.Prelude.Table.{Table, touch}
use theft_detection_platform.Auth.Records.{
  Text, User, Tables, AuthDb, HttpError, invalid_credentials, too_many_requests,
}
use theft_detection_platform.Auth.Repositories.{
  session_rows, get_by_username, live_session, revoked_session, revoke_session, enqueue,
}
use theft_detection_platform.Auth.Refresh.{Issued}
use theft_detection_platform.Auth.Rotation.Reuse.{IsRevokedSession}
use theft_detection_platform.Auth.Lockout.{FailureKey, LockoutSettings, check_login}
use theft_detection_platform.Auth.Login.{
  Crypto, LoginInput, Claims, is_empty, reject_login, accept_login, login, logout,
}

module _ (T : Tables) where
  module _ (crypto : Crypto) (settings : LockoutSettings) (refresh_ttl : ℕ)
      (input : LoginInput) where
    -- What a successful login rests on: the counter has not locked it, and the database has an
    -- active user with the name, whose password hash takes the password. The answer is for that
    -- user and the new session, and the counter is cleared.
    pub record IsAuthentic (failures : Option FailureKey) (db : AuthDb T) (issued : Issued)
        : Type 0 where
      pub user : User
      pub unlocked : (check_login settings failures).0 ≡ false
      pub known : get_by_username T db input.username ≡ some user
      pub verified : crypto.verify_password user.password_hash input.password ≡ true
      pub active : user.is_active ≡ true
      pub for_user : issued.user_id ≡ user.id
      pub for_session : issued.session_id ≡ input.session_id
      pub cleared : (login T crypto settings refresh_ttl input failures db).failures ≡ none

    -- A login that succeeds is authentic.
    pub login-IsAuthentic :
        (failures : Option FailureKey) (db : AuthDb T) {issued : Issued}
        → (login T crypto settings refresh_ttl input failures db).reply ≡ ok issued
        → IsAuthentic failures db issued
    unfolding login accept_login reject_login
    login-IsAuthentic failures db {issued} h =
        elim (Option-cases (get_by_username T db input.username)) [
          | inl missing ↦ absurd (ground arith)
          | inr (user, found) ↦ record {
            user = user;
            unlocked = ground arith;
            known = found;
            verified = ground arith;
            active = ground arith;
            for_user = ground arith;
            for_session = ground arith;
            cleared = ground arith;
          }
        ]

    -- A refused login does not tell why: where the counter has not locked it, every refusal is
    -- the same for an unknown name, a wrong password and a disabled account; where it has, the
    -- answer is the time to wait, whatever the database holds, and nothing changes.
    pub login_refused :
        (failures : Option FailureKey) (db : AuthDb T) {e : HttpError}
        → (login T crypto settings refresh_ttl input failures db).reply ≡ err e
        → (((check_login settings failures).0 ≡ false) × (e ≡ invalid_credentials))
          ⊎ (((check_login settings failures).0 ≡ true)
              × (e ≡ too_many_requests (((check_login settings failures).1 + 999) / 1000))
              × ((login T crypto settings refresh_ttl input failures db).db ≡ db)
              × ((login T crypto settings refresh_ttl input failures db).failures ≡ failures))
    unfolding login accept_login reject_login
    login_refused failures db {e} h = elim (Bool-cases (check_login settings failures).0) [
      | inl locked ↦ inr (ground arith)
      | inr free ↦ inl (ground arith)
    ]

  session_rows-revoke_session :
      (id : Text) (db : AuthDb T) → IsRevokedSession id (session_rows T (revoke_session T id db).0)
  unfolding revoke_session
  session_rows-revoke_session id db = rw (Table.rows-update T.sessions) (
      All-map (λ _. Unit {0}) (λ s. bytes_eq s.id id ≡ true → s.revoked ≡ true)
        (touch (live_session id) revoked_session) (session_rows T db) (λ s _ h. ground arith)
        (All-intro (λ _. Unit {0}) (session_rows T db) (λ _. tt)))

  session_rows-logout :
      (access_ttl now : ℕ) (ip user_agent : Text) (claims : Claims) (db : AuthDb T)
      → is_empty claims.sid ≡ false
      → ((logout T access_ttl now ip user_agent (some claims) db).revoked ≡ true)
        × (session_rows T (logout T access_ttl now ip user_agent (some claims) db).db
            ≡ session_rows T (revoke_session T claims.sid db).0)
  unfolding logout enqueue
  session_rows-logout access_ttl now ip user_agent claims db named = ground arith

  -- A logout with a token that names a session ends the session: every row of it is revoked, and
  -- the answer says so.
  pub logout-IsRevokedSession :
      (access_ttl now : ℕ) (ip user_agent : Text) (claims : Claims) (db : AuthDb T)
      → is_empty claims.sid ≡ false
      → ((logout T access_ttl now ip user_agent (some claims) db).revoked ≡ true)
        × IsRevokedSession claims.sid
            (session_rows T (logout T access_ttl now ip user_agent (some claims) db).db)
  logout-IsRevokedSession access_ttl now ip user_agent claims db named =
      let (says, rows) = session_rows-logout access_ttl now ip user_agent claims db named in
      (
        says,
        subst (IsRevokedSession claims.sid) (sym rows) (session_rows-revoke_session claims.sid db),
      )
