-- ===== src/Auth/Login.antt =====
-- `login` and `logout` of services/auth/app/api/v1/auth.py, `logout` behind `csrf_protect`. The check of a password, the
-- pseudonym of a user name and the hash of a refresh secret are parameters; a missing pseudonym
-- key leaves the event unrecorded.
pub mod Safety
mod Tests
use theft_detection_platform.Prelude.{
  ℕ, ◌+◌, ◌*◌, ◌/◌, ◌-◌, Bool, true, false, not, ◌&&◌, ◌||◌, Option, none, some, List, [], ◌∷◌,
  ◌++◌, ltb, if◌then◌else◌, Result, ok, err,
}
use theft_detection_platform.Auth.Records.{
  Text, Session, User, LoginFailureReason, unknown_subject, bad_credential, AuditRecord,
  login_success, login_failure, throttle_triggered, session_ended, Tables, AuthDb, RedisCommand,
  revoke_jti, revoke_sid, HttpError, invalid_credentials, too_many_requests,
}
use theft_detection_platform.Auth.Repositories.{
  get_by_username, create_session, create_token, revoke_session, enqueue,
}
use theft_detection_platform.Auth.Refresh.{Issued, build_refresh_token, seconds}
use theft_detection_platform.Auth.Lockout.{FailureKey, LockoutSettings, check_login, record_failure}

pub record Crypto : Type 0 where
  pub verify_password : (password_hash password : Text) → Bool
  pub pseudonymize : Text → Option Text
  pub hash_refresh_secret : Text → Text

pub record LoginInput : Type 0 where
  pub now : ℕ
  pub username : Text
  pub password : Text
  pub ip : Text
  pub user_agent : Text
  -- what PostgreSQL and the random generators give
  pub session_id : Text
  pub root_jti : Text
  pub secret : Text

pub record LoginAnswer (T : Tables) : Type 0 where
  pub reply : Result HttpError Issued
  pub db : AuthDb T
  pub failures : Option FailureKey

-- The claims of an access token.
pub record Claims : Type 0 where
  pub jti : Text
  pub exp : ℕ
  pub sid : Text
  pub sub : Text

pub record LogoutAnswer (T : Tables) : Type 0 where
  pub revoked : Bool
  pub db : AuthDb T
  pub redis : List RedisCommand

abbrev pub is_empty : Text → Bool
is_empty [] = true
is_empty (_ ∷ _) = false

module _ (T : Tables) where
  module _ (crypto : Crypto) (settings : LockoutSettings) (refresh_ttl : ℕ)
      (input : LoginInput) where
    -- `_enqueue_login_failure`
    unfoldable pub enqueue_login_failure : LoginFailureReason → Bool → ℕ → AuthDb T → AuthDb T
    enqueue_login_failure reason tripped attempts db = elim (crypto.pseudonymize input.username) [
      | none ↦ db
      | some subject_hmac ↦
          let db1 =
            enqueue T (login_failure subject_hmac reason attempts input.ip input.user_agent) db in
          if not tripped
          then db1
          else enqueue T
              (throttle_triggered subject_hmac attempts settings.login_max_attempts
                settings.login_window_seconds)
              db1
    ]

    -- A wrong name and a wrong password end alike, but for the reason in the event.
    unfoldable pub reject_login : LoginFailureReason → Option FailureKey → AuthDb T → LoginAnswer T
    unfolding enqueue_login_failure
    reject_login reason failures db =
        let (key, tripped, attempts) = record_failure settings failures in
        record {
          reply = err invalid_credentials;
          db = enqueue_login_failure reason tripped attempts db;
          failures = some key;
        }

    unfoldable pub accept_login : User → AuthDb T → LoginAnswer T
    accept_login user db =
        let db1 =
          create_session T input.session_id user.id input.ip input.user_agent input.now db in
        let db2 =
          create_token T input.root_jti input.root_jti input.session_id
            (crypto.hash_refresh_secret input.secret) (input.now + seconds refresh_ttl) none
            input.now db1 in
        let event = login_success user.id input.session_id user.roles input.ip input.user_agent in
        record {
          reply = ok (record {
            user_id = user.id;
            username = user.username;
            roles = user.roles;
            session_id = input.session_id;
            refresh_token = build_refresh_token input.root_jti input.secret;
          });
          db = enqueue T event db2;
          failures = none;
        }

    unfoldable pub login : Option FailureKey → AuthDb T → LoginAnswer T
    unfolding reject_login accept_login
    login failures db =
        let (locked, retry_ms) = check_login settings failures in
        if locked
        then record {
          reply = err (too_many_requests ((retry_ms + 999) / 1000));
          db = db;
          failures = failures;
        }
        else elim (get_by_username T db input.username) [
          | none ↦ reject_login unknown_subject failures db
          | some user ↦
              if not (crypto.verify_password user.password_hash input.password)
              then reject_login bad_credential failures db
              else if not user.is_active
              then record {
                reply = err invalid_credentials;
                db = enqueue_login_failure LoginFailureReason.account_disabled false 0 db;
                failures = failures;
              }
              else accept_login user db
        ]

  -- `now` is the number of whole seconds; `claims` is what the decoded access token carries, none
  -- without a token or where it is not valid.
  unfoldable pub logout :
      (access_ttl now : ℕ) (ip user_agent : Text) → Option Claims → AuthDb T → LogoutAnswer T
  logout access_ttl now ip user_agent none db = record { revoked = false; db = db; redis = [] }
  logout access_ttl now ip user_agent (some claims) db =
      let live_jti = not (is_empty claims.jti) && ltb now claims.exp in
      let named = not (is_empty claims.sid) in
      let (db1, was_live) : AuthDb T × Bool =
        if named then revoke_session T claims.sid db else (db, false) in
      let revoked = live_jti || named in
      record {
        revoked = revoked;
        db =
            if revoked
            then enqueue T (session_ended claims.sub claims.sid ip user_agent) db1
            else db1;
        redis =
            (if live_jti then revoke_jti claims.jti (claims.exp - now) ∷ [] else [])
            ++ (if was_live then revoke_sid claims.sid access_ttl ∷ [] else []);
      }
