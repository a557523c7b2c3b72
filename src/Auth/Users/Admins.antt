-- ===== src/Auth/Users/Admins.antt =====
-- The active administrators, over the requests of services/auth/app/api/v1/users.py.
use theft_detection_platform.Prelude.{
  ◌≤◌, ◌<◌, ◌≡◌, sym, ap, subst, Bool, true, false, not, ◌⊎◌, inl, inr, none, some, [], ◌∷◌, map,
  arith, filter, find?, length, bytes_eq, ◌++◌, bytes_eq→eq, Bool-cases,
}
use theft_detection_platform.Prelude.Table.{touch}
use theft_detection_platform.Prelude.Counts.{
  count-touch, count-touch_kept, count-touch_other, count-touch_same, count-delete,
  count-delete_other, count-delete_le, count-append_one, count-eq-zero,
}
use theft_detection_platform.Auth.Records.{Text, User, Role, Tables, AuthDb}
use theft_detection_platform.Auth.Repositories.{
  has_id, is_active_with, user_rows, get_user, count_filtered,
}

abbrev pub is_active_admin : User → Bool
is_active_admin = is_active_with Role.admin true

module _ (T : Tables) where
  -- At least one active user has the role of an administrator; a primary key has one row at most.
  pub record IsManaged (db : AuthDb T) : Type 0 where
    pub has_admin : 1 ≤ count_filtered T Role.admin true db
    pub unique_ids : (id : Text) → length (filter (has_id id) (user_rows T db)) ≤ 1

  -- A write of one user that the guards let through.
  pub record IsGuardedWrite (db after : AuthDb T) : Type 0 where
    pub user : User
    pub change : User → User
    pub found : find? (has_id user.id) (user_rows T db) ≡ some user
    pub same_id : (u : User) → (change u).id ≡ u.id
    pub rows : user_rows T after ≡ map (touch (has_id user.id) change) (user_rows T db)
    pub guarded :
        (is_active_admin user ≡ false)
        ⊎ (is_active_admin (change user) ≡ true)
        ⊎ (1 < count_filtered T Role.admin true db)

  pub record IsGuardedDelete (db after : AuthDb T) : Type 0 where
    pub user : User
    pub found : find? (has_id user.id) (user_rows T db) ≡ some user
    pub rows : user_rows T after ≡ filter (λ u. not (has_id user.id u)) (user_rows T db)
    pub guarded : (is_active_admin user ≡ false) ⊎ (1 < count_filtered T Role.admin true db)

  pub same_rows-IsManaged :
      {db after : AuthDb T} → user_rows T after ≡ user_rows T db → IsManaged db → IsManaged after
  unfolding count_filtered
  same_rows-IsManaged {db} {after} same m = record {
    has_admin = subst (λ rows. 1 ≤ length (filter is_active_admin rows)) (sym same) m.has_admin;
    unique_ids =
        λ id. subst (λ rows. length (filter (has_id id) rows) ≤ 1) (sym same) (m.unique_ids id);
  }

  write_admin :
      {db after : AuthDb T} (w : IsGuardedWrite db after)
      → IsManaged db
      → 1
        ≤ length (filter is_active_admin (map (touch (has_id w.user.id) w.change) (user_rows T db)))
  unfolding count_filtered
  write_admin {db} w m = elim w.guarded [
    | inl other ↦ ground (
      arith,
      count-touch_other is_active_admin (has_id w.user.id) w.change (user_rows T db) w.found other
          (m.unique_ids w.user.id),
      m.has_admin,
    )
    | inr (inl kept) ↦
        count-touch_kept is_active_admin (has_id w.user.id) w.change (user_rows T db) w.found kept
    | inr (inr more) ↦ omega (
      arith,
      count-touch is_active_admin (has_id w.user.id) w.change (user_rows T db),
      m.unique_ids w.user.id,
      more,
    )
  ]

  pub write-IsManaged :
      {db after : AuthDb T} → IsGuardedWrite db after → IsManaged db → IsManaged after
  unfolding count_filtered
  write-IsManaged {db} {after} w m = record {
    has_admin =
        subst (λ rows. 1 ≤ length (filter is_active_admin rows)) (sym w.rows) (write_admin w m);
    unique_ids = λ id.
        subst (λ rows. length (filter (has_id id) rows) ≤ 1) (sym w.rows)
          (subst (λ n. n ≤ 1)
            (sym (
              count-touch_same (has_id id) (has_id w.user.id) w.change (user_rows T db)
                (λ u. ap (λ i. bytes_eq i id) (w.same_id u))))
            (m.unique_ids id));
  }

  delete_admin :
      {db after : AuthDb T} (w : IsGuardedDelete db after)
      → IsManaged db
      → 1
        ≤ length (filter is_active_admin (filter (λ u. not (has_id w.user.id u)) (user_rows T db)))
  unfolding count_filtered
  delete_admin {db} w m = elim w.guarded [
    | inl other ↦ ground (
      arith,
      count-delete_other is_active_admin (has_id w.user.id) (user_rows T db) w.found other
          (m.unique_ids w.user.id),
      m.has_admin,
    )
    | inr more ↦ omega (
      arith,
      count-delete is_active_admin (has_id w.user.id) (user_rows T db),
      m.unique_ids w.user.id,
      more,
    )
  ]

  pub delete-IsManaged :
      {db after : AuthDb T} → IsGuardedDelete db after → IsManaged db → IsManaged after
  unfolding count_filtered
  delete-IsManaged {db} {after} w m = record {
    has_admin =
        subst (λ rows. 1 ≤ length (filter is_active_admin rows)) (sym w.rows) (delete_admin w m);
    unique_ids = λ id.
        subst (λ rows. length (filter (has_id id) rows) ≤ 1) (sym w.rows)
          (omega (
            arith,
            count-delete_le (has_id id) (has_id w.user.id) (user_rows T db),
            m.unique_ids id,
          ));
  }

  -- A row with a new key.
  pub insert-IsManaged :
      {db after : AuthDb T} (u : User)
      → get_user T db u.id ≡ none
      → user_rows T after ≡ user_rows T db ++ u ∷ []
      → IsManaged db
      → IsManaged after
  unfolding count_filtered get_user
  insert-IsManaged {db} {after} u fresh rows m = record {
    has_admin =
        subst (λ rows. 1 ≤ length (filter is_active_admin rows)) (sym rows)
          (ground (arith, count-append_one is_active_admin (user_rows T db) u, m.has_admin));
    unique_ids = λ id.
        subst (λ rows. length (filter (has_id id) rows) ≤ 1) (sym rows)
          (rw (count-append_one (has_id id) (user_rows T db) u)
            (elim (Bool-cases (bytes_eq u.id id)) [
              | inl same ↦
                  let none_yet : length (filter (has_id id) (user_rows T db)) ≡ 0 =
                    count-eq-zero (has_id id) (user_rows T db) (
                      subst (λ i. find? (has_id i) (user_rows T db) ≡ none)
                        (bytes_eq→eq u.id id same) fresh) in
                  ground arith
              | inr other ↦ ground (arith, m.unique_ids id)
            ]));
  }
