-- ===== src/Auth/AdminEvents.antt =====
-- The events of an administrator's actions, services/auth/app/services/audit_service.py. The
-- event's id and moment are left out.
use theft_detection_platform.Prelude.{ℕ, Bool, Option, none, some}
use theft_detection_platform.Auth.Records.{
  Text, AdminAction, AdminTarget, AdminReason, AuditRecord, admin_action, data_subject_erasure,
}

abbrev pub admin_session_revoked : (actor_user_id session_id : Text) → AuditRecord
admin_session_revoked actor_user_id session_id =
    admin_action actor_user_id AdminAction.revoke_session AdminTarget.session session_id
      AdminReason.routine_administration

abbrev pub admin_user_created : (actor_user_id target_user_id : Text) → AuditRecord
admin_user_created actor_user_id target_user_id =
    admin_action actor_user_id AdminAction.create AdminTarget.user target_user_id
      AdminReason.onboarding

abbrev pub admin_roles_granted : (actor_user_id target_user_id : Text) → AuditRecord
admin_roles_granted actor_user_id target_user_id =
    admin_action actor_user_id AdminAction.grant_role AdminTarget.role_binding target_user_id
      AdminReason.routine_administration

abbrev pub admin_roles_revoked : (actor_user_id target_user_id : Text) → AuditRecord
admin_roles_revoked actor_user_id target_user_id =
    admin_action actor_user_id AdminAction.revoke_role AdminTarget.role_binding target_user_id
      AdminReason.routine_administration

abbrev pub admin_user_disabled : (actor_user_id target_user_id : Text) → AuditRecord
admin_user_disabled actor_user_id target_user_id =
    admin_action actor_user_id AdminAction.disable AdminTarget.user target_user_id
      AdminReason.offboarding

abbrev pub admin_user_enabled : (actor_user_id target_user_id : Text) → AuditRecord
admin_user_enabled actor_user_id target_user_id =
    admin_action actor_user_id AdminAction.enable AdminTarget.user target_user_id
      AdminReason.onboarding

abbrev pub admin_password_reset : (actor_user_id target_user_id : Text) → AuditRecord
admin_password_reset actor_user_id target_user_id =
    admin_action actor_user_id AdminAction.force_password_reset AdminTarget.user target_user_id
      AdminReason.security_incident

-- Without a pseudonym key there is no event.
abbrev pub subject_erased :
    (pseudonymize : Text → Option Text) (actor_user_id subject_id : Text) (records_erased : ℕ)
    (completed : Bool)
    → Option AuditRecord
subject_erased pseudonymize actor_user_id subject_id records_erased completed =
    elim (pseudonymize subject_id) [
      | none ↦ none
      | some subject_hmac ↦
          some (data_subject_erasure subject_hmac actor_user_id records_erased completed)
    ]
