-- ===== src/Auth/Login/Tests.antt =====
-- Logins and logouts on a small database, and the theorems at concrete inputs. Equality stands for
-- the check of a password.
use theft_detection_platform.Prelude.{
  ◌≡◌, refl, arith, true, false, ◌⊎◌, none, some, [], ◌∷◌, bytes_eq, ok, err,
}
use theft_detection_platform.Prelude.Table.{list_table}
use theft_detection_platform.Auth.Records.{
  Text, RefreshToken, Session, User, AuditRecord, Tables, AuthDb, invalid_credentials,
  too_many_requests,
}
use theft_detection_platform.Auth.Repositories.{
  get_by_username, create_session, create_token, revoke_session, enqueue,
}
use theft_detection_platform.Auth.Refresh.{Issued, build_refresh_token}
use theft_detection_platform.Auth.Lockout.{
  LockoutSettings, check_script, record_script, check_login, record_failure, elapse, after_failures,
  IsLockedAfter, lockout_lem,
}
use theft_detection_platform.Auth.Login.{
  Crypto, LoginInput, Claims, enqueue_login_failure, reject_login, accept_login, login, logout,
}
use theft_detection_platform.Auth.Login.Safety.{IsAuthentic, login-IsAuthentic, login_refused}

-- Everything that a run calls.
program : Unit {0}
unfolding bytes_eq get_by_username create_session create_token revoke_session enqueue
    build_refresh_token check_script record_script enqueue_login_failure reject_login accept_login
    login logout
program = tt

abbrev tables : Tables
tables = record {
  tokens = list_table RefreshToken;
  sessions = list_table Session;
  users = list_table User;
  outbox = list_table AuditRecord;
}

abbrev crypto : Crypto
crypto = record {
  verify_password = λ h p. bytes_eq h p;
  pseudonymize = λ name. some name;
  hash_refresh_secret = λ s. s;
}

abbrev settings : LockoutSettings
settings = record { login_max_attempts = 3; login_window_seconds = 60; login_block_seconds = 300 }

abbrev attempt : Text → LoginInput
attempt password = record {
  now = 100;
  username = 100 ∷ [];
  password = password;
  ip = 8 ∷ [];
  user_agent = [];
  session_id = 5 ∷ [];
  root_jti = 1 ∷ [];
  secret = 2 ∷ [];
}

abbrev user : User
user = record {
  id = 6 ∷ [];
  username = 100 ∷ [];
  password_hash = 9 ∷ [];
  roles = [];
  is_active = true;
  created_at = 0;
}

abbrev start : AuthDb tables
start = record { tokens = []; sessions = []; users = user ∷ []; outbox = [] }

abbrev signed_in : Issued
signed_in = record {
  user_id = 6 ∷ [];
  username = 100 ∷ [];
  roles = [];
  session_id = 5 ∷ [];
  refresh_token = 1 ∷ b'.' ∷ 2 ∷ [];
}

accepted : (login tables crypto settings 1000 (attempt (9 ∷ [])) none start).reply ≡ ok signed_in
unfolding program
accepted = refl

login-IsAuthentic_example :
    IsAuthentic tables crypto settings 1000 (attempt (9 ∷ [])) none start signed_in
login-IsAuthentic_example =
    login-IsAuthentic tables crypto settings 1000 (attempt (9 ∷ [])) none start accepted

refused :
    (login tables crypto settings 1000 (attempt (4 ∷ [])) none start).reply
    ≡ err invalid_credentials
unfolding program
refused = refl

login_refused_example :
    ((false ≡ false) × (invalid_credentials ≡ invalid_credentials))
    ⊎ ((false ≡ true)
        × (invalid_credentials ≡ too_many_requests 0)
        × ((login tables crypto settings 1000 (attempt (4 ∷ [])) none start).db ≡ start)
        × ((login tables crypto settings 1000 (attempt (4 ∷ [])) none start).failures ≡ none))
unfolding program
login_refused_example =
    login_refused tables crypto settings 1000 (attempt (4 ∷ [])) none start refused

-- Three failures: the second comes two seconds after the first, the third one second later.
lockout_lem_example :
    IsLockedAfter settings 3 3000 5000
      (elapse 5000 (after_failures settings (1000 ∷ 2000 ∷ 0 ∷ [])))
      (record_failure settings (elapse 1000 (after_failures settings (2000 ∷ 0 ∷ [])))).1
lockout_lem_example =
    lockout_lem settings 1000 (2000 ∷ 0 ∷ []) 5000 (omega arith) (omega arith) (omega arith)

still_locked :
    check_login settings (elapse 299999 (after_failures settings (1000 ∷ 2000 ∷ 0 ∷ [])))
    ≡ (true, 1)
unfolding program
still_locked = refl

-- Failures that are too far apart do not add up.
forgotten : (check_login settings (after_failures settings (50000 ∷ 20000 ∷ 0 ∷ []))).0 ≡ false
unfolding program
forgotten = refl

abbrev online : AuthDb tables
online = record start {
  sessions =
      record {
        id = 5 ∷ [];
        user_id = 6 ∷ [];
        source_ip = 8 ∷ [];
        user_agent = [];
        revoked = false;
        created_at = 0;
        last_used_at = 0;
      }
      ∷ [];
}

abbrev claims : Claims
claims = record { jti = 3 ∷ []; exp = 200; sid = 5 ∷ []; sub = 6 ∷ [] }
