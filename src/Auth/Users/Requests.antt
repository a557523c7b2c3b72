-- ===== src/Auth/Users/Requests.antt =====
-- What each request of services/auth/app/api/v1/users.py does to the users, and the databases
-- that the requests reach, one after the other.
use theft_detection_platform.Prelude.{
  ℕ, ◌<◌, ◌≡◌, refl, sym, ap, ◌∙◌, subst, Bool, true, false, ◌&&◌, ◌⊎◌, inl, inr, some, List, [],
  ◌∷◌, map, arith, find?, bytes_eq→eq, Bool-cases, List-cases, All-find?, All-intro, Result-cases,
  ok, bool_eq,
}
use theft_detection_platform.Prelude.Table.{Table, touch}
use theft_detection_platform.Auth.Records.{Text, User, Role, Actor, Tables, AuthDb}
use theft_detection_platform.Auth.Repositories.{
  has_id, has_role, role_text, user_rows, get_user, count_filtered, live_ids_for_user,
  revoke_all_for_user, write_user, enqueue,
}
use theft_detection_platform.Auth.Users.{
  UserSummary, Done, is_subset, load, guard_last_admin, enqueue_revoked, drop_sessions,
  replace_roles, update_roles, switch_active, set_active,
}
use theft_detection_platform.Auth.Users.Admins.{is_active_admin, IsGuardedWrite}

module _ (T : Tables) where
  pub load-found :
      (db : AuthDb T) (user_id : Text) {user : User}
      → load T db user_id ≡ ok user
      → (find? (has_id user.id) (user_rows T db) ≡ some user) × (user.id ≡ user_id)
  unfolding load get_user
  load-found db user_id {user} h =
      let found : find? (has_id user_id) (user_rows T db) ≡ some user = ground arith in
      let same : user.id ≡ user_id =
        bytes_eq→eq user.id user_id
          (All-find? (λ _. Unit {0}) (has_id user_id) (user_rows T db)
            (All-intro (λ _. Unit {0}) (user_rows T db) (λ _. tt)) found).1 in
      (subst (λ i. find? (has_id i) (user_rows T db) ≡ some user) (sym same) found, same)

  user_rows-enqueue_revoked :
      (actor_id : Text) (ids : List Text) (db : AuthDb T)
      → user_rows T (enqueue_revoked T actor_id ids db) ≡ user_rows T db
  unfolding enqueue_revoked enqueue
  user_rows-enqueue_revoked actor_id [] db = refl
  user_rows-enqueue_revoked actor_id (id ∷ ids) db = user_rows-enqueue_revoked actor_id ids _

  pub user_rows-drop_sessions :
      (actor : Actor) (id : Text) (db : AuthDb T)
      → user_rows T (drop_sessions T actor id db).0 ≡ user_rows T db
  unfolding drop_sessions revoke_all_for_user
  user_rows-drop_sessions actor id db = elim (List-cases (live_ids_for_user T id db)) [
    | inl nothing ↦ ground arith
    | inr (x, xs, live) ↦
        ground
          (arith, user_rows-enqueue_revoked actor.user_id (x ∷ xs) (revoke_all_for_user T id db))
  ]

  pub user_rows-replace_roles :
      (user : User) (requested : List Text) (actor : Actor) (db : AuthDb T)
      → user_rows T (replace_roles T user requested actor db).db
        ≡ map (touch (has_id user.id) (λ u. record u { roles = requested })) (user_rows T db)
  unfolding replace_roles write_user enqueue
  user_rows-replace_roles user requested actor db = ground (
    arith,
    Table.rows-update T.users (has_id user.id) (λ u. record u { roles = requested }) db.users,
  )

  pub user_rows-switch_active :
      (ttl : ℕ) (user : User) (is_active : Bool) (actor : Actor) (db : AuthDb T)
      → user_rows T (switch_active T ttl user is_active actor db).db
        ≡ map (touch (has_id user.id) (λ u. record u { is_active = is_active })) (user_rows T db)
  unfolding switch_active write_user enqueue
  user_rows-switch_active ttl user true actor db = Table.rows-update T.users _ _ _
  user_rows-switch_active ttl user false actor db =
      user_rows-drop_sessions actor user.id _ ∙ Table.rows-update T.users _ _ _

  pub guard_last_admin_lem :
      (db : AuthDb T) (user : User)
      → guard_last_admin T db user ≡ ok tt
      → (is_active_admin user ≡ false) ⊎ (1 < count_filtered T Role.admin true db)
  unfolding guard_last_admin
  guard_last_admin_lem db user h = ground arith

  -- A request that changes one user changes it behind the guards, or changes no user.
  pub update_roles_lem :
      (user_id : Text) (roles : List Role) (actor : Actor) (db : AuthDb T)
      {done : Done T UserSummary}
      → update_roles T user_id roles actor db ≡ ok done
      → (user_rows T done.db ≡ user_rows T db) ⊎ IsGuardedWrite T db done.db
  unfolding update_roles
  update_roles_lem user_id roles actor db {done} h = elim (Result-cases (load T db user_id)) [
    | inr (e, missing) ↦ absurd (ground arith)
    | inl (user, loaded) ↦
        elim (Bool-cases (
          is_subset user.roles (map role_text roles)
          && is_subset (map role_text roles) user.roles)) [
            | inl same ↦ inl (ground arith)
            | inr changed ↦
                let requested = map role_text roles in
                let stored : done ≡ replace_roles T user requested actor db = ground arith in
                inr (record {
                  user = user;
                  change = λ u. record u { roles = requested };
                  found = (load-found db user_id loaded).0;
                  same_id = λ u. refl;
                  rows =
                      ap (λ d. user_rows T d.db) stored
                      ∙ user_rows-replace_roles user requested actor db;
                  guarded = elim (Bool-cases (is_active_admin user)) [
                    | inr other ↦ inl other
                    | inl administrator ↦ inr (elim (Bool-cases (has_role Role.admin requested)) [
                      | inl keeps ↦ inl (ground arith)
                      | inr loses ↦ inr (ground (arith, guard_last_admin_lem db user))
                    ])
                  ];
                })
          ]
  ]

  pub set_active_lem :
      (ttl : ℕ) (user_id : Text) (is_active : Bool) (actor : Actor) (db : AuthDb T)
      {done : Done T UserSummary}
      → set_active T ttl user_id is_active actor db ≡ ok done
      → (user_rows T done.db ≡ user_rows T db) ⊎ IsGuardedWrite T db done.db
  unfolding set_active
  set_active_lem ttl user_id is_active actor db {done} h = elim (Result-cases (load T db user_id)) [
    | inr (e, missing) ↦ absurd (ground arith)
    | inl (user, loaded) ↦ elim (Bool-cases (bool_eq user.is_active is_active)) [
      | inl same ↦ inl (ground arith)
      | inr changed ↦
          let stored : done ≡ switch_active T ttl user is_active actor db = ground arith in
          inr (record {
            user = user;
            change = λ u. record u { is_active = is_active };
            found = (load-found db user_id loaded).0;
            same_id = λ u. refl;
            rows =
                ap (λ d. user_rows T d.db) stored
                ∙ user_rows-switch_active ttl user is_active actor db;
            guarded = elim (Bool-cases is_active) [
              | inl enabled ↦ inl (ground arith)
              | inr disabled ↦ ground (arith, guard_last_admin_lem db user)
            ];
          })
    ]
  ]
