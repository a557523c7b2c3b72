-- ===== src/Auth/Users/Reachable.antt =====
-- The databases that the requests of services/auth/app/api/v1/users.py reach, one after the
-- other.
use theft_detection_platform.Prelude.{
  ℕ, ◌≡◌, refl, Bool, true, not, ◌⊎◌, inl, inr, Option, none, List, [], ◌∷◌, ◌++◌, map, arith,
  filter, Bool-cases, Option-cases, Result-cases, ok, is_some,
}
use theft_detection_platform.Prelude.Table.{Table}
use theft_detection_platform.Auth.Records.{Text, User, Role, Actor, Tables, AuthDb}
use theft_detection_platform.Auth.Repositories.{
  has_id, role_text, user_rows, get_user, get_by_username, live_ids_for_user, delete_for_user,
  create_user_row, write_user, delete_user_row, enqueue,
}
use theft_detection_platform.Auth.AdminEvents.{subject_erased}
use theft_detection_platform.Auth.Users.{
  UserSummary, EraseAccountResponse, Done, load, create_user, update_roles, set_active,
  reset_password, revoke_sessions, check_delete, erase_account, delete_user,
}
use theft_detection_platform.Auth.Users.Admins.{
  is_active_admin, IsManaged, IsGuardedWrite, IsGuardedDelete, same_rows-IsManaged, write-IsManaged,
  delete-IsManaged, insert-IsManaged,
}
use theft_detection_platform.Auth.Users.Requests.{
  load-found, user_rows-drop_sessions, update_roles_lem, set_active_lem, guard_last_admin_lem,
}

module _ (T : Tables) (hash_password : Text → Text) (pseudonymize : Text → Option Text)
    (ttl : ℕ) where
  -- One request, answered without an error. A new user gets a key that no row has.
  pub data Step (db : AuthDb T) : AuthDb T → Type 0 where
    created :
        (username password : Text) (roles : List Role) (actor : Actor) (id : Text) (now : ℕ)
        (done : Done T UserSummary)
        → get_user T db id ≡ none
        → create_user T hash_password username password roles actor id now db ≡ ok done
        → Step db done.db
    roles_updated :
        (user_id : Text) (roles : List Role) (actor : Actor) (done : Done T UserSummary)
        → update_roles T user_id roles actor db ≡ ok done
        → Step db done.db
    active_set :
        (user_id : Text) (is_active : Bool) (actor : Actor) (done : Done T UserSummary)
        → set_active T ttl user_id is_active actor db ≡ ok done
        → Step db done.db
    password_reset :
        (user_id password : Text) (actor : Actor) (done : Done T (Unit {0}))
        → reset_password T hash_password ttl user_id password actor db ≡ ok done
        → Step db done.db
    sessions_revoked :
        (user_id : Text) (actor : Actor) (done : Done T ℕ)
        → revoke_sessions T ttl user_id actor db ≡ ok done
        → Step db done.db
    deleted :
        (erased : Option EraseAccountResponse) (user_id : Text) (actor : Actor)
        (done : Done T EraseAccountResponse)
        → delete_user T pseudonymize ttl (λ db. db) erased user_id actor db ≡ ok done
        → Step db done.db

  pub data Reachable (start : AuthDb T) : AuthDb T → Type 0 where
    here : Reachable start start
    after : (db next : AuthDb T) → Reachable start db → Step db next → Reachable start next

  user_rows-create_user :
      (username password : Text) (roles : List Role) (actor : Actor) (id : Text) (now : ℕ)
      (db : AuthDb T) {done : Done T UserSummary}
      → create_user T hash_password username password roles actor id now db ≡ ok done
      → user_rows T done.db
        ≡ user_rows T db
          ++ record {
            id = id;
            username = username;
            password_hash = hash_password password;
            roles = map role_text roles;
            is_active = true;
            created_at = now;
          }
            ∷ []
  unfolding create_user create_user_row enqueue
  user_rows-create_user username password roles actor id now db {done} h =
      elim (Bool-cases (is_some (get_by_username T db username))) [
        | inl taken ↦ absurd (ground arith)
        | inr free ↦ ground (
          arith,
          Table.rows-insert T.users
              (record {
                id = id;
                username = username;
                password_hash = hash_password password;
                roles = map role_text roles;
                is_active = true;
                created_at = now;
              })
              db.users,
        )
      ]

  reset_password_lem :
      (user_id password : Text) (actor : Actor) (db : AuthDb T) {done : Done T (Unit {0})}
      → reset_password T hash_password ttl user_id password actor db ≡ ok done
      → IsGuardedWrite T db done.db
  unfolding reset_password enqueue write_user
  reset_password_lem user_id password actor db {done} h = elim (Result-cases (load T db user_id)) [
    | inr (e, missing) ↦ absurd (ground arith)
    | inl (user, loaded) ↦
        let change : User → User = λ u. record u { password_hash = hash_password password } in
        record {
          user = user;
          change = change;
          found = (load-found T db user_id loaded).0;
          same_id = λ u. refl;
          rows = ground (
            arith,
            user_rows-drop_sessions T actor user.id (write_user T user.id change db),
            Table.rows-update T.users (has_id user.id) change db.users,
          );
          guarded = elim (Bool-cases (is_active_admin user)) [
            | inl administrator ↦ inr (inl administrator)
            | inr other ↦ inl other
          ];
        }
  ]

  revoke_sessions_lem :
      (user_id : Text) (actor : Actor) (db : AuthDb T) {done : Done T ℕ}
      → revoke_sessions T ttl user_id actor db ≡ ok done
      → user_rows T done.db ≡ user_rows T db
  unfolding revoke_sessions
  revoke_sessions_lem user_id actor db {done} h = elim (Result-cases (load T db user_id)) [
    | inr (e, missing) ↦ absurd (ground arith)
    | inl (user, loaded) ↦ ground (arith, user_rows-drop_sessions T actor user.id db)
  ]

  user_rows-erase_account :
      (user_id : Text) (actor : Actor) (live : List Text) (reply : EraseAccountResponse)
      (db : AuthDb T) {done : Done T EraseAccountResponse} {user : User}
      → load T db user_id ≡ ok user
      → erase_account T pseudonymize ttl user_id actor live reply db ≡ ok done
      → user_rows T done.db ≡ filter (λ u. not (has_id user.id u)) (user_rows T db)
  unfolding erase_account delete_user_row delete_for_user enqueue
  user_rows-erase_account user_id actor live reply db {done} {user} loaded h =
      elim (Option-cases
        (subject_erased pseudonymize actor.user_id user_id reply.records_erased reply.completed)) [
          | inl none_ ↦ ground (arith, Table.rows-delete T.users (has_id user.id) db.users)
          | inr (e, event) ↦ ground (arith, Table.rows-delete T.users (has_id user.id) db.users)
        ]

  delete_user_lem :
      (erased : Option EraseAccountResponse) (user_id : Text) (actor : Actor) (db : AuthDb T)
      {done : Done T EraseAccountResponse}
      → delete_user T pseudonymize ttl (λ db. db) erased user_id actor db ≡ ok done
      → IsGuardedDelete T db done.db
  unfolding delete_user check_delete
  delete_user_lem erased user_id actor db {done} h = elim (Result-cases (load T db user_id)) [
    | inr (e, missing) ↦ absurd (ground arith)
    | inl (user, loaded) ↦ elim (Option-cases erased) [
      | inl unreachable ↦ absurd (ground arith)
      | inr (reply, answered) ↦ record {
        user = user;
        found = (load-found T db user_id loaded).0;
        rows =
            user_rows-erase_account user_id actor (live_ids_for_user T user.id db) reply db
              {done = done} loaded (ground arith);
        guarded = ground (arith, guard_last_admin_lem T db user);
      }
    ]
  ]

  unless_same :
      {db next : AuthDb T}
      → (user_rows T next ≡ user_rows T db) ⊎ IsGuardedWrite T db next
      → IsManaged T db
      → IsManaged T next
  unless_same (inl same) m = same_rows-IsManaged T same m
  unless_same (inr w) m = write-IsManaged T w m

  step-IsManaged : {db next : AuthDb T} → Step db next → IsManaged T db → IsManaged T next
  step-IsManaged {db} (created username password roles actor id now done fresh h) m =
      insert-IsManaged T _ fresh (user_rows-create_user username password roles actor id now db h) m
  step-IsManaged {db} (roles_updated user_id roles actor done h) m =
      unless_same (update_roles_lem T user_id roles actor db h) m
  step-IsManaged {db} (active_set user_id is_active actor done h) m =
      unless_same (set_active_lem T ttl user_id is_active actor db h) m
  step-IsManaged {db} (password_reset user_id password actor done h) m =
      write-IsManaged T (reset_password_lem user_id password actor db h) m
  step-IsManaged {db} (sessions_revoked user_id actor done h) m =
      same_rows-IsManaged T (revoke_sessions_lem user_id actor db h) m
  step-IsManaged {db} (deleted erased user_id actor done h) m =
      delete-IsManaged T (delete_user_lem erased user_id actor db h) m

  -- An administrator can always be found: from a database with at least one active administrator
  -- and at most one row for a key, every database that the requests reach, one after the other,
  -- has at least one active administrator and at most one row for a key.
  pub reachable-IsManaged :
      (start db : AuthDb T) → IsManaged T start → Reachable start db → IsManaged T db
  reachable-IsManaged start _ m here = m
  reachable-IsManaged start _ m (after db next run step) =
      step-IsManaged step (reachable-IsManaged start db m run)
