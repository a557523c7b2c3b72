-- ===== src/Auth/Users.antt =====
-- services/auth/app/api/v1/users.py, behind `require_admin` and `csrf_protect`. A handler answers an error, and then its transaction is
-- rolled back, or what it answers, the database that it commits and the commands that it sends to
-- Redis afterwards. The hash of a password, the pseudonym of a subject and the reply of the audit
-- service are parameters.
pub mod Admins
pub mod Requests
pub mod Reachable
pub mod Dropped
mod Tests
use theft_detection_platform.Prelude.{
  ℕ, Bool, true, false, not, ◌&&◌, Option, none, some, List, [], ◌∷◌, map, leb, length, all, any,
  bytes_eq, bool_eq, if◌then◌else◌, Result, ok, err, ◌>>=◌, ◌>>◌, raise_if, is_some,
}
use theft_detection_platform.Auth.Records.{
  Text, User, Role, Actor, Tables, AuthDb, RedisCommand, revoke_sid, HttpError, user_not_found,
  username_taken, self_disable, self_demote, last_admin, self_delete, erasure_unavailable,
}
use theft_detection_platform.Auth.Repositories.{
  has_role, role_text, get_user, get_by_username, live_ids_for_user, revoke_all_for_user,
  delete_for_user, last_used_by_user, create_user_row, count_filtered, write_user, delete_user_row,
  enqueue,
}
use theft_detection_platform.Auth.AdminEvents.{
  admin_session_revoked, admin_user_created, admin_roles_granted, admin_roles_revoked,
  admin_user_disabled, admin_user_enabled, admin_password_reset, subject_erased,
}

pub record UserSummary : Type 0 where
  pub id : Text
  pub username : Text
  pub roles : List Text
  pub is_active : Bool
  pub created_at : ℕ
  pub last_active_at : Option ℕ

pub record EraseAccountResponse : Type 0 where
  pub records_erased : ℕ
  pub completed : Bool

pub record Done (T : Tables) (Body : Type 0) : Type 0 where
  pub body : Body
  pub db : AuthDb T
  pub redis : List RedisCommand

-- `set(a) <= set(b)` on texts.
abbrev pub is_subset : List Text → List Text → Bool
is_subset a b = all (λ r. any (bytes_eq r) b) a

-- `_push_revocations`
abbrev pub push_revocations : ℕ → List Text → List RedisCommand
push_revocations ttl session_ids = map (λ id. revoke_sid id ttl) session_ids

module _ (T : Tables) where
  abbrev pub summary : User → Option ℕ → UserSummary
  summary user seen = record {
    id = user.id;
    username = user.username;
    roles = user.roles;
    is_active = user.is_active;
    created_at = user.created_at;
    last_active_at = seen;
  }

  -- `_load`
  unfoldable pub load : AuthDb T → Text → Result HttpError User
  load db user_id = elim (get_user T db user_id) [ none ↦ err user_not_found | some user ↦ ok user ]

  -- `_guard_last_admin`
  unfoldable pub guard_last_admin : AuthDb T → User → Result HttpError (Unit {0})
  guard_last_admin db target =
      if not (has_role Role.admin target.roles && target.is_active)
      then ok tt
      else raise_if (leb (count_filtered T Role.admin true db) 1) last_admin

  unfoldable pub enqueue_revoked : Text → List Text → AuthDb T → AuthDb T
  enqueue_revoked actor_id [] db = db
  enqueue_revoked actor_id (id ∷ ids) db =
      enqueue_revoked actor_id ids (enqueue T (admin_session_revoked actor_id id) db)

  -- `_drop_sessions`: the database afterwards, and the sessions that were live.
  unfoldable pub drop_sessions : Actor → Text → AuthDb T → AuthDb T × List Text
  drop_sessions actor user_id db =
      let live = live_ids_for_user T user_id db in
      elim live [
        | [] ↦ (db, [])
        | id ∷ ids ↦
            (enqueue_revoked actor.user_id (id ∷ ids) (revoke_all_for_user T user_id db), id ∷ ids)
      ]

  -- The user as it is stored after the flush, in the answer.
  abbrev pub answer : User → AuthDb T → List RedisCommand → Done T UserSummary
  answer user db redis = record {
    body = summary user (last_used_by_user T user.id db);
    db = db;
    redis = redis;
  }

  unfoldable pub get_user_summary : Text → AuthDb T → Result HttpError (Done T UserSummary)
  get_user_summary user_id db = load db user_id >>= λ user. ok (answer user db [])

  -- `id` and `now` are what PostgreSQL gives. Nobody takes the user name between the check and the
  -- insertion.
  unfoldable pub create_user :
      (hash_password : Text → Text) (username password : Text)
      → List Role
      → Actor
      → (id : Text) (now : ℕ) → AuthDb T
      → Result HttpError (Done T UserSummary)
  create_user hash_password username password roles actor id now db =
      raise_if (is_some (get_by_username T db username)) username_taken
      >> ok (record {
        body = record {
          id = id;
          username = username;
          roles = map role_text roles;
          is_active = true;
          created_at = now;
          last_active_at = none;
        };
        db =
            enqueue T (admin_user_created actor.user_id id)
              (create_user_row T id username (hash_password password) roles now db);
        redis = [];
      })

  -- Behind the guards of `update_roles`.
  unfoldable pub replace_roles : User → List Text → Actor → AuthDb T → Done T UserSummary
  replace_roles user requested actor db =
      let db1 = write_user T user.id (λ u. record u { roles = requested }) db in
      let db2 =
        if is_subset requested user.roles
        then db1
        else enqueue T (admin_roles_granted actor.user_id user.id) db1 in
      let db3 =
        if is_subset user.roles requested
        then db2
        else enqueue T (admin_roles_revoked actor.user_id user.id) db2 in
      answer (record user { roles = requested }) db3 []

  unfoldable pub update_roles :
      Text → List Role → Actor → AuthDb T → Result HttpError (Done T UserSummary)
  update_roles user_id roles actor db =
      let requested = map role_text roles in
      load db user_id >>= λ user.
      let losing_admin = has_role Role.admin user.roles && not (has_role Role.admin requested) in
      if is_subset user.roles requested && is_subset requested user.roles
      then ok (answer user db [])
      else raise_if (losing_admin && bytes_eq user.id actor.user_id) self_demote
        >> (if losing_admin then guard_last_admin db user else ok tt)
        >> ok (replace_roles user requested actor db)

  -- Behind the guards of `set_active`.
  unfoldable pub switch_active : (ttl : ℕ) → User → Bool → Actor → AuthDb T → Done T UserSummary
  switch_active ttl user is_active actor db =
      let db1 = write_user T user.id (λ u. record u { is_active = is_active }) db in
      let (db2, dropped) : AuthDb T × List Text =
        if not is_active then drop_sessions actor user.id db1 else (db1, []) in
      let event =
        if is_active
        then admin_user_enabled actor.user_id user.id
        else admin_user_disabled actor.user_id user.id in
      answer (record user { is_active = is_active }) (enqueue T event db2)
        (push_revocations ttl dropped)

  unfoldable pub set_active :
      (ttl : ℕ) → Text → Bool → Actor → AuthDb T → Result HttpError (Done T UserSummary)
  set_active ttl user_id is_active actor db = load db user_id >>= λ user.
      if bool_eq user.is_active is_active
      then ok (answer user db [])
      else (if not is_active
          then raise_if (bytes_eq user.id actor.user_id) self_disable >> guard_last_admin db user
          else ok tt)
        >> ok (switch_active ttl user is_active actor db)

  unfoldable pub reset_password :
      (hash_password : Text → Text) (ttl : ℕ)
      → Text
      → (password : Text) → Actor
      → AuthDb T
      → Result HttpError (Done T (Unit {0}))
  reset_password hash_password ttl user_id password actor db = load db user_id >>= λ user.
      let db1 =
        write_user T user.id (λ u. record u { password_hash = hash_password password }) db in
      let (db2, dropped) = drop_sessions actor user.id db1 in
      ok (record {
        body = tt;
        db = enqueue T (admin_password_reset actor.user_id user.id) db2;
        redis = push_revocations ttl dropped;
      })

  unfoldable pub revoke_sessions : (ttl : ℕ) → Text → Actor → AuthDb T → Result HttpError (Done T ℕ)
  revoke_sessions ttl user_id actor db = load db user_id >>= λ user.
      let (db1, dropped) = drop_sessions actor user.id db in
      ok (record { body = length dropped; db = db1; redis = push_revocations ttl dropped })

  -- The first transaction of `delete_user`, which changes nothing: the sessions that are live.
  unfoldable pub check_delete : Text → Actor → AuthDb T → Result HttpError (List Text)
  check_delete user_id actor db = load db user_id >>= λ target.
      raise_if (bytes_eq target.id actor.user_id) self_delete
      >> guard_last_admin db target
      >> ok (live_ids_for_user T target.id db)

  -- The second transaction.
  unfoldable pub erase_account :
      (pseudonymize : Text → Option Text) (ttl : ℕ)
      → Text
      → Actor
      → (live : List Text) → EraseAccountResponse
      → AuthDb T
      → Result HttpError (Done T EraseAccountResponse)
  erase_account pseudonymize ttl user_id actor live reply db = load db user_id >>= λ target.
      let db1 = delete_user_row T target.id (delete_for_user T target.id db) in
      ok (record {
        body = reply;
        db =
            elim (subject_erased pseudonymize actor.user_id user_id reply.records_erased
              reply.completed) [ none ↦ db1 | some event ↦ enqueue T event db1 ];
        redis = push_revocations ttl live;
      })

  -- `erased` is the reply of the audit service, none where it is not reached; `meanwhile` is what
  -- other requests do to the database during that call.
  unfoldable pub delete_user :
      (pseudonymize : Text → Option Text) (ttl : ℕ) (meanwhile : AuthDb T → AuthDb T)
      → Option EraseAccountResponse
      → Text
      → Actor
      → AuthDb T
      → Result HttpError (Done T EraseAccountResponse)
  delete_user pseudonymize ttl meanwhile erased user_id actor db =
      check_delete user_id actor db >>= λ live. elim erased [
        | none ↦ err erasure_unavailable
        | some reply ↦ erase_account pseudonymize ttl user_id actor live reply (meanwhile db)
      ]
