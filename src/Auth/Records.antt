-- ===== src/Auth/Records.antt =====
-- services/auth/app/db/models, and what the handlers of services/auth/app/api/v1/auth.py answer. A
-- string is the list of its code points, a moment is a number of microseconds.
use theft_detection_platform.Prelude.{ℕ, Bool, Option, List}
use theft_detection_platform.Prelude.Table.{Table}

abbrev pub Text : Type 0
Text = List ℕ

pub record RefreshToken : Type 0 where
  pub jti : Text
  pub family_id : Text
  pub session_id : Text
  pub token_hash : Text
  pub rotated_from : Option Text
  pub revoked : Bool
  pub rotated_at : Option ℕ
  pub replaced_by : Option Text
  pub expires_at : ℕ
  pub created_at : ℕ

pub record Session : Type 0 where
  pub id : Text
  pub user_id : Text
  pub source_ip : Text
  pub user_agent : Text
  pub revoked : Bool
  pub created_at : ℕ
  pub last_used_at : ℕ

pub record User : Type 0 where
  pub id : Text
  pub username : Text
  pub password_hash : Text
  pub roles : List Text
  pub is_active : Bool
  pub created_at : ℕ

-- services/auth/app/core/roles.py
pub data Role : Type 0 where
  admin operator viewer ml_engineer compliance detector : Role

-- services/auth/app/core/authz.py
pub record Actor : Type 0 where
  pub user_id : Text
  pub username : Text
  pub roles : List Text
  pub session_id : Text

pub data LoginFailureReason : Type 0 where
  unknown_subject bad_credential account_disabled : LoginFailureReason

-- The kinds of an administrator's action, what it is done to and why, as far as the service uses
-- them.
pub data AdminAction : Type 0 where
  revoke_session create grant_role revoke_role disable enable force_password_reset : AdminAction

pub data AdminTarget : Type 0 where
  session user role_binding : AdminTarget

pub data AdminReason : Type 0 where
  routine_administration onboarding offboarding security_incident : AdminReason

-- The events that the handlers hand to the audit outbox, with the arguments of their builders in
-- services/auth/app/services/audit_service.py.
pub data AuditRecord : Type 0 where
  login_success :
      (subject_id session_id : Text) (roles : List Text) (source_ip user_agent : Text) → AuditRecord
  login_failure :
      (subject_hmac : Text)
      → LoginFailureReason
      → (attempt_count : ℕ) (source_ip user_agent : Text) → AuditRecord
  throttle_triggered :
      (subject_hmac : Text) (observed_count threshold window_seconds : ℕ) → AuditRecord
  token_refreshed : (subject_id session_id family_id source_ip user_agent : Text) → AuditRecord
  refresh_reuse_detected :
      (subject_id session_id family_id source_ip user_agent : Text) → AuditRecord
  session_ended : (subject_id session_id source_ip user_agent : Text) → AuditRecord
  admin_action :
      (actor_user_id : Text)
      → AdminAction
      → AdminTarget
      → (target_id : Text) → AdminReason
      → AuditRecord
  data_subject_erasure :
      (data_subject_hmac requested_by : Text) (records_erased : ℕ) (completed : Bool) → AuditRecord

pub record Tables : Type 1 where
  pub tokens : Table RefreshToken
  pub sessions : Table Session
  pub users : Table User
  pub outbox : Table AuditRecord

pub record AuthDb (T : Tables) : Type 0 where
  pub tokens : Table.State T.tokens
  pub sessions : Table.State T.sessions
  pub users : Table.State T.users
  pub outbox : Table.State T.outbox

-- The commands that a handler sends to Redis, in order.
pub data RedisCommand : Type 0 where
  revoke_jti : (jti : Text) (ttl_seconds : ℕ) → RedisCommand
  revoke_sid : (session_id : Text) (ttl_seconds : ℕ) → RedisCommand

-- The `HTTPException`s.
pub data HttpError : Type 0 where
  session_invalid account_disabled : HttpError
  invalid_credentials : HttpError
  csrf_missing csrf_mismatch : HttpError
  not_authenticated not_permitted revocation_store_unavailable : HttpError
  user_not_found username_taken self_disable self_demote last_admin self_delete : HttpError
  erasure_unavailable : HttpError
  too_many_requests : (retry_after : ℕ) → HttpError
