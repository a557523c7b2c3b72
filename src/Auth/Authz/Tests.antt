-- ===== src/Auth/Authz/Tests.antt =====
-- Who a request comes from, on a small database, and the theorem at a concrete input.
use theft_detection_platform.Prelude.{
  ℕ, ◌≡◌, ◌≢◌, refl, true, false, Bool, Option, some, [], ◌∷◌, bytes_eq, ok, err,
}
use theft_detection_platform.Prelude.Table.{list_table}
use theft_detection_platform.Auth.Records.{
  Text, RefreshToken, Session, User, Role, AuditRecord, Actor, Tables, AuthDb, not_authenticated,
  not_permitted,
}
use theft_detection_platform.Auth.Repositories.{role_text, has_role, user_rows, get_user}
use theft_detection_platform.Auth.Login.{Claims}
use theft_detection_platform.Auth.Users.Dropped.{IsDisabled}
use theft_detection_platform.Auth.Authz.{
  find_actor, current_actor, require_admin, IsActor, require_admin-IsActor,
}

-- Everything that a run calls.
program : Unit {0}
unfolding bytes_eq get_user find_actor current_actor require_admin
program = tt

abbrev tables : Tables
tables = record {
  tokens = list_table RefreshToken;
  sessions = list_table Session;
  users = list_table User;
  outbox = list_table AuditRecord;
}

abbrev user : (id : ℕ) → Role → (is_active : Bool) → User
user id role is_active = record {
  id = id ∷ [];
  username = id ∷ [];
  password_hash = [];
  roles = role_text role ∷ [];
  is_active = is_active;
  created_at = 0;
}

abbrev start : AuthDb tables
start = record {
  tokens = [];
  sessions = [];
  users = user 6 Role.admin true ∷ user 7 Role.viewer true ∷ user 8 Role.admin false ∷ [];
  outbox = [];
}

-- A token names its subject.
abbrev decode : Text → Option Claims
decode token = some (record { jti = 1 ∷ []; exp = 0; sid = 5 ∷ []; sub = token })

abbrev unrevoked : Text → Text → Option Bool
unrevoked jti session_id = some false

abbrev actor : Actor
actor = record {
  user_id = 6 ∷ [];
  username = 6 ∷ [];
  roles = role_text Role.admin ∷ [];
  session_id = 5 ∷ [];
}

admits : require_admin tables decode unrevoked (6 ∷ []) start ≡ ok actor
unfolding program
admits = refl

refuses_viewer : require_admin tables decode unrevoked (7 ∷ []) start ≡ err not_permitted
unfolding program
refuses_viewer = refl

refuses_disabled : require_admin tables decode unrevoked (8 ∷ []) start ≡ err not_authenticated
unfolding program
refuses_disabled = refl

require_admin-IsActor_example :
    IsActor tables decode unrevoked (6 ∷ []) start actor
    × (has_role Role.admin actor.roles ≡ true)
    × ((user_id : Text) → IsDisabled user_id (user_rows tables start) → actor.user_id ≢ user_id)
require_admin-IsActor_example = require_admin-IsActor tables decode unrevoked (6 ∷ []) start admits
