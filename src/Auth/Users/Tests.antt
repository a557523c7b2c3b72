-- ===== src/Auth/Users/Tests.antt =====
-- The requests of services/auth/app/api/v1/users.py on a small database, and the theorems at
-- concrete inputs.
use theft_detection_platform.Prelude.{
  ◌≡◌, ◌≢◌, ◌≤◌, refl, true, false, inr, Option, none, some, List, [], ◌∷◌, arith, bytes_eq, Result,
  ok, err,
}
use theft_detection_platform.Prelude.Table.{list_table}
use theft_detection_platform.Auth.Records.{
  Text, RefreshToken, Session, User, Role, AuditRecord, Actor, Tables, AuthDb, HttpError,
  revoke_sid, self_disable, last_admin, username_taken, erasure_unavailable,
}
use theft_detection_platform.Auth.Repositories.{
  role_text, get_user, get_by_username, get_session, live_ids_for_user, revoke_all_for_user,
  delete_for_user, last_used_by_user, create_user_row, count_filtered, write_user, delete_user_row,
  create_session, create_token, enqueue,
}
use theft_detection_platform.Auth.Refresh.{Issued, build_refresh_token}
use theft_detection_platform.Auth.Lockout.{LockoutSettings, check_script, record_script}
use theft_detection_platform.Auth.Login.{
  Crypto, LoginInput, enqueue_login_failure, reject_login, accept_login, login,
}
use theft_detection_platform.Auth.Users.{
  UserSummary, Done, EraseAccountResponse, load, guard_last_admin, enqueue_revoked, drop_sessions,
  create_user, replace_roles, update_roles, switch_active, set_active, reset_password,
  revoke_sessions, check_delete, erase_account, delete_user,
}
use theft_detection_platform.Auth.Users.Admins.{IsManaged}
use theft_detection_platform.Auth.Users.Reachable.{
  here, after, created, active_set, reachable-IsManaged,
}
use theft_detection_platform.Auth.Users.Dropped.{set_active_is_final}

-- Everything that a run calls.
program : Unit {0}
unfolding bytes_eq get_user get_by_username get_session live_ids_for_user revoke_all_for_user
    delete_for_user last_used_by_user create_user_row count_filtered write_user delete_user_row
    create_session create_token enqueue build_refresh_token check_script record_script
    enqueue_login_failure reject_login accept_login login load guard_last_admin enqueue_revoked
    drop_sessions create_user replace_roles update_roles switch_active set_active reset_password
    revoke_sessions check_delete erase_account delete_user
program = tt

abbrev tables : Tables
tables = record {
  tokens = list_table RefreshToken;
  sessions = list_table Session;
  users = list_table User;
  outbox = list_table AuditRecord;
}

abbrev user : (id username : Text) → List Role → User
user id username roles = record {
  id = id;
  username = username;
  password_hash = 9 ∷ [];
  roles = elim roles [ [] ↦ [] | r ∷ _ ↦ role_text r ∷ [] ];
  is_active = true;
  created_at = 0;
}

abbrev session : (id user_id : Text) → Session
session id user_id = record {
  id = id;
  user_id = user_id;
  source_ip = [];
  user_agent = [];
  revoked = false;
  created_at = 0;
  last_used_at = 7;
}

abbrev ann : Actor
ann = record {
  user_id = 6 ∷ [];
  username = 100 ∷ [];
  roles = role_text Role.admin ∷ [];
  session_id = 1 ∷ [];
}

abbrev bob : Actor
bob = record {
  user_id = 7 ∷ [];
  username = 101 ∷ [];
  roles = role_text Role.admin ∷ [];
  session_id = 2 ∷ [];
}

-- One administrator, with one session.
abbrev start : AuthDb tables
start = record {
  tokens = [];
  sessions = session (1 ∷ []) (6 ∷ []) ∷ [];
  users = user (6 ∷ []) (100 ∷ []) (Role.admin ∷ []) ∷ [];
  outbox = [];
}

abbrev hash : Text → Text
hash password = password

abbrev pseudonym : Text → Option Text
pseudonym name = some name

-- The database of an answer.
abbrev then_db : {A : Type 0} → Result HttpError (Done tables A) → AuthDb tables
then_db (err e) = start
then_db (ok done) = done.db

abbrev with_bob : AuthDb tables
with_bob = record start {
  users =
      user (6 ∷ []) (100 ∷ []) (Role.admin ∷ []) ∷ user (7 ∷ []) (101 ∷ []) (Role.admin ∷ []) ∷ [];
}

self_disabled : set_active tables 60 (6 ∷ []) false ann with_bob ≡ err self_disable
unfolding program
self_disabled = refl

last_disabled : set_active tables 60 (6 ∷ []) false bob start ≡ err last_admin
unfolding program
last_disabled = refl

last_demoted : update_roles tables (6 ∷ []) (Role.viewer ∷ []) bob start ≡ err last_admin
unfolding program
last_demoted = refl

taken :
    create_user tables hash (100 ∷ []) [] (Role.viewer ∷ []) ann (8 ∷ []) 5 start
    ≡ err username_taken
unfolding program
taken = refl

erasure_unreachable :
    delete_user tables pseudonym 60 (λ db. db) none (7 ∷ []) ann with_bob ≡ err erasure_unavailable
unfolding program
erasure_unreachable = refl

abbrev erased : EraseAccountResponse
erased = record { records_erased = 3; completed = true }

-- The check of the last administrator is not made again after the call of the audit service: what
-- another request does meanwhile may leave none.
admins_after_race :
    count_filtered tables Role.admin true (
      then_db (
        delete_user tables pseudonym 60
          (λ db. then_db (set_active tables 60 (6 ∷ []) false bob db))
          (some erased)
          (7 ∷ [])
          ann
          with_bob))
    ≡ 0
unfolding program
admins_after_race = refl

abbrev disabled : Done tables UserSummary
disabled = record {
  body = record {
    id = 6 ∷ [];
    username = 100 ∷ [];
    roles = role_text Role.admin ∷ [];
    is_active = false;
    created_at = 0;
    last_active_at = some 7;
  };
  db = then_db (set_active tables 60 (6 ∷ []) false bob with_bob);
  redis = revoke_sid (1 ∷ []) 60 ∷ [];
}

runs : set_active tables 60 (6 ∷ []) false bob with_bob ≡ ok disabled
unfolding program
runs = refl

abbrev joined : Done tables UserSummary
joined = record {
  body = record {
    id = 7 ∷ [];
    username = 101 ∷ [];
    roles = role_text Role.admin ∷ [];
    is_active = true;
    created_at = 0;
    last_active_at = none;
  };
  db = then_db (create_user tables hash (101 ∷ []) (9 ∷ []) (Role.admin ∷ []) ann (7 ∷ []) 0 start);
  redis = [];
}

joins :
    create_user tables hash (101 ∷ []) (9 ∷ []) (Role.admin ∷ []) ann (7 ∷ []) 0 start ≡ ok joined
unfolding program
joins = refl

abbrev left : Done tables UserSummary
left = record disabled { db = then_db (set_active tables 60 (6 ∷ []) false bob joined.db) }

leaves : set_active tables 60 (6 ∷ []) false bob joined.db ≡ ok left
unfolding program
leaves = refl

fresh : get_user tables start (7 ∷ []) ≡ none
unfolding program
fresh = refl

start_has_admin : 1 ≤ count_filtered tables Role.admin true start
unfolding program
start_has_admin = omega arith

start-IsManaged : IsManaged tables start
start-IsManaged = record { has_admin = start_has_admin; unique_ids = λ id. ground arith }

reachable-IsManaged_example : IsManaged tables left.db
reachable-IsManaged_example =
    reachable-IsManaged tables hash pseudonym 60 start left.db start-IsManaged (
      after joined.db left.db
        (after start joined.db here
          (created (101 ∷ []) (9 ∷ []) (Role.admin ∷ []) ann (7 ∷ []) 0 joined fresh joins))
        (active_set (6 ∷ []) false bob left leaves))

known : get_user tables with_bob (6 ∷ []) ≡ some (user (6 ∷ []) (100 ∷ []) (Role.admin ∷ []))
unfolding program
known = refl

abbrev crypto : Crypto
crypto = record {
  verify_password = λ h p. bytes_eq h p;
  pseudonymize = pseudonym;
  hash_refresh_secret = hash;
}

abbrev lockout : LockoutSettings
lockout = record { login_max_attempts = 3; login_window_seconds = 60; login_block_seconds = 300 }

-- Bob signs in on the database in which Ann is disabled.
abbrev attempt : LoginInput
attempt = record {
  now = 100;
  username = 101 ∷ [];
  password = 9 ∷ [];
  ip = [];
  user_agent = [];
  session_id = 5 ∷ [];
  root_jti = 1 ∷ [];
  secret = 2 ∷ [];
}

abbrev bobs : Issued
bobs = record {
  user_id = 7 ∷ [];
  username = 101 ∷ [];
  roles = role_text Role.admin ∷ [];
  session_id = 5 ∷ [];
  refresh_token = 1 ∷ b'.' ∷ 2 ∷ [];
}

signs_in : (login tables crypto lockout 1000 attempt none disabled.db).reply ≡ ok bobs
unfolding program
signs_in = refl

set_active_is_final_example : bobs.user_id ≢ 6 ∷ []
set_active_is_final_example =
    set_active_is_final tables hash
      (record {
        refresh_rotation_grace_seconds = 10;
        refresh_token_ttl_seconds = 1000;
        access_token_ttl_seconds = 60;
      })
      (record {
        cookie = none;
        csrf_cookie = some (12 ∷ []);
        csrf_header = some (12 ∷ []);
        now = 100;
        ip = [];
        user_agent = [];
        next_jti = [];
        next_secret = [];
      })
      crypto lockout 1000 attempt none 60 (6 ∷ []) bob with_bob known refl runs (inr signs_in)
