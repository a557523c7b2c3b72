-- ===== src/Auth/Repositories.antt =====
-- services/auth/app/repositories/refresh_token_repository.py, session_repository.py,
-- user_repository.py and the `enqueue` of audit_outbox_repository.py.
use theft_detection_platform.Prelude.{
  ℕ, Bool, true, false, not, ◌&&◌, Option, none, some, List, bytes_eq, find?, filter, length, ◌==◌,
  any, bool_eq, [], ◌∷◌, map, max_by,
}
use theft_detection_platform.Prelude.Table.{Table}
use theft_detection_platform.Auth.Records.{
  Text, RefreshToken, Session, User, Role, AuditRecord, Tables, AuthDb,
}

-- `values(revoked=True, rotated_at=now, replaced_by=…)`
unfoldable pub rotated : ℕ → Text → RefreshToken → RefreshToken
rotated now replaced_by t = record t {
  revoked = true;
  rotated_at = some now;
  replaced_by = some replaced_by;
}

abbrev pub revoked_token : RefreshToken → RefreshToken
revoked_token t = record t { revoked = true }

abbrev pub revoked_session : Session → Session
revoked_session s = record s { revoked = true }

-- `str(role)`, the member's value.
abbrev pub role_text : Role → Text
role_text Role.admin = b'a' ∷ b'd' ∷ b'm' ∷ b'i' ∷ b'n' ∷ []
role_text Role.operator = b'o' ∷ b'p' ∷ b'e' ∷ b'r' ∷ b'a' ∷ b't' ∷ b'o' ∷ b'r' ∷ []
role_text Role.viewer = b'v' ∷ b'i' ∷ b'e' ∷ b'w' ∷ b'e' ∷ b'r' ∷ []
role_text Role.ml_engineer =
    b'm' ∷ b'l' ∷ b'_' ∷ b'e' ∷ b'n' ∷ b'g' ∷ b'i' ∷ b'n' ∷ b'e' ∷ b'e' ∷ b'r' ∷ []
role_text Role.compliance = b'c' ∷ b'o' ∷ b'm' ∷ b'p' ∷ b'l' ∷ b'i' ∷ b'a' ∷ b'n' ∷ b'c' ∷ b'e' ∷ []
role_text Role.detector = b'd' ∷ b'e' ∷ b't' ∷ b'e' ∷ b'c' ∷ b't' ∷ b'o' ∷ b'r' ∷ []

-- `role in roles`
abbrev pub has_role : Role → List Text → Bool
has_role role roles = any (bytes_eq (role_text role)) roles

abbrev pub live_session_of : Text → Session → Bool
live_session_of user_id s = bytes_eq s.user_id user_id && not s.revoked

abbrev pub has_id : Text → User → Bool
has_id id u = bytes_eq u.id id

-- The conditions of `_filtered` for a role and a flag, without a search.
abbrev pub is_active_with : Role → Bool → User → Bool
is_active_with role active u = has_role role u.roles && bool_eq u.is_active active

abbrev pub live_session : Text → Session → Bool
live_session session_id s = bytes_eq s.id session_id && not s.revoked

module _ (T : Tables) where
  abbrev pub token_rows : AuthDb T → List RefreshToken
  token_rows db = Table.rows T.tokens db.tokens

  abbrev pub session_rows : AuthDb T → List Session
  session_rows db = Table.rows T.sessions db.sessions

  -- `RefreshTokenRepository`
  unfoldable pub get_by_jti : AuthDb T → Text → Option RefreshToken
  get_by_jti db jti = find? (λ t. bytes_eq t.jti jti) (token_rows db)

  unfoldable pub get_by_jti_and_hash : AuthDb T → Text → Text → Option RefreshToken
  get_by_jti_and_hash db jti token_hash =
      find? (λ t. bytes_eq t.jti jti && bytes_eq t.token_hash token_hash) (token_rows db)

  unfoldable pub create_token :
      (jti family_id session_id token_hash : Text) (expires_at : ℕ) (rotated_from : Option Text)
      (now : ℕ)
      → AuthDb T
      → AuthDb T
  create_token jti family_id session_id token_hash expires_at rotated_from now db = record db {
    tokens =
        Table.insert T.tokens
          (record {
            jti = jti;
            family_id = family_id;
            session_id = session_id;
            token_hash = token_hash;
            rotated_from = rotated_from;
            revoked = false;
            rotated_at = none;
            replaced_by = none;
            expires_at = expires_at;
            created_at = now;
          })
          db.tokens;
  }

  unfoldable pub mark_rotated : (jti replaced_by : Text) (now : ℕ) → AuthDb T → AuthDb T
  mark_rotated jti replaced_by now db = record db {
    tokens = Table.update T.tokens (λ t. bytes_eq t.jti jti) (rotated now replaced_by) db.tokens;
  }

  unfoldable pub revoke_family : Text → AuthDb T → AuthDb T
  revoke_family family_id db = record db {
    tokens = Table.update T.tokens (λ t. bytes_eq t.family_id family_id) revoked_token db.tokens;
  }

  -- `SessionRepository`
  unfoldable pub create_session :
      (id user_id source_ip user_agent : Text) (now : ℕ) → AuthDb T → AuthDb T
  create_session id user_id source_ip user_agent now db = record db {
    sessions =
        Table.insert T.sessions
          (record {
            id = id;
            user_id = user_id;
            source_ip = source_ip;
            user_agent = user_agent;
            revoked = false;
            created_at = now;
            last_used_at = now;
          })
          db.sessions;
  }

  unfoldable pub get_session : AuthDb T → Text → Option Session
  get_session db session_id = find? (λ s. bytes_eq s.id session_id) (session_rows db)

  unfoldable pub touch_session : Text → ℕ → AuthDb T → AuthDb T
  touch_session session_id now db = record db {
    sessions =
        Table.update T.sessions (live_session session_id) (λ s. record s { last_used_at = now })
          db.sessions;
  }

  -- The database afterwards, and `rowcount == 1`.
  unfoldable pub revoke_session : Text → AuthDb T → AuthDb T × Bool
  revoke_session session_id db = (
    record db {
      sessions = Table.update T.sessions (live_session session_id) revoked_session db.sessions;
    },
    length (filter (live_session session_id) (session_rows db)) == 1,
  )

  unfoldable pub live_ids_for_user : Text → AuthDb T → List Text
  live_ids_for_user user_id db =
      map (λ (s : Session). s.id) (filter (live_session_of user_id) (session_rows db))

  unfoldable pub revoke_all_for_user : Text → AuthDb T → AuthDb T
  revoke_all_for_user user_id db = record db {
    sessions = Table.update T.sessions (live_session_of user_id) revoked_session db.sessions;
  }

  -- A token of one of the user's sessions.
  abbrev pub in_session_of : Text → List Session → RefreshToken → Bool
  in_session_of user_id sessions t =
      any (λ s. bytes_eq s.user_id user_id && bytes_eq s.id t.session_id) sessions

  -- The tokens of a deleted session go with it, `ON DELETE CASCADE`.
  unfoldable pub delete_for_user : Text → AuthDb T → AuthDb T
  delete_for_user user_id db = record db {
    tokens = Table.delete T.tokens (in_session_of user_id (session_rows db)) db.tokens;
    sessions = Table.delete T.sessions (λ s. bytes_eq s.user_id user_id) db.sessions;
  }

  -- `last_used_by_user` for one user, and the lookup in the answer.
  unfoldable pub last_used_by_user : Text → AuthDb T → Option ℕ
  last_used_by_user user_id db =
      max_by (λ n. n)
        (map (λ (s : Session). s.last_used_at)
          (filter (λ s. bytes_eq s.user_id user_id) (session_rows db)))

  abbrev pub user_rows : AuthDb T → List User
  user_rows db = Table.rows T.users db.users

  -- `UserRepository`
  -- `id` and `now` are what PostgreSQL gives the new row.
  unfoldable pub create_user_row :
      (id username password_hash : Text) → List Role → (now : ℕ) → AuthDb T → AuthDb T
  create_user_row id username password_hash roles now db = record db {
    users =
        Table.insert T.users
          (record {
            id = id;
            username = username;
            password_hash = password_hash;
            roles = map role_text roles;
            is_active = true;
            created_at = now;
          })
          db.users;
  }

  unfoldable pub count_filtered : Role → Bool → AuthDb T → ℕ
  count_filtered role active db = length (filter (is_active_with role active) (user_rows db))

  -- The flush of a changed `User`: the row with its primary key is written.
  unfoldable pub write_user : Text → (User → User) → AuthDb T → AuthDb T
  write_user id f db = record db { users = Table.update T.users (has_id id) f db.users }

  unfoldable pub delete_user_row : Text → AuthDb T → AuthDb T
  delete_user_row id db = record db { users = Table.delete T.users (has_id id) db.users }

  unfoldable pub get_user : AuthDb T → Text → Option User
  get_user db user_id = find? (λ u. bytes_eq u.id user_id) (user_rows db)

  unfoldable pub get_by_username : AuthDb T → Text → Option User
  get_by_username db username = find? (λ u. bytes_eq u.username username) (user_rows db)

  -- `AuditOutboxRepository.enqueue`
  unfoldable pub enqueue : AuditRecord → AuthDb T → AuthDb T
  enqueue event db = record db { outbox = Table.insert T.outbox event db.outbox }
