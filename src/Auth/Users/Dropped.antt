-- ===== src/Auth/Users/Dropped.antt =====
-- The sessions of a user whom an administrator disables, or whose password or sessions he resets,
-- services/auth/app/api/v1/users.py.
use theft_detection_platform.Prelude.{
  ℕ, ◌≡◌, refl, sym, ap, subst, true, false, ◌⊎◌, ◌≢◌, inl, inr, Option, some, List, [], ◌∷◌, map,
  arith, filter, bytes_eq, bytes_eq_refl, Bool-cases, List-cases, ok, All, All-find?, All-map,
  All-intro,
}
use theft_detection_platform.Prelude.Table.{Table, touch}
use theft_detection_platform.Auth.Records.{Text, Session, User, Actor, Tables, AuthDb}
use theft_detection_platform.Auth.Repositories.{
  has_id, session_rows, user_rows, get_user, get_by_username, live_session_of, revoked_session,
  live_ids_for_user, revoke_all_for_user, write_user, enqueue,
}
use theft_detection_platform.Auth.Refresh.{RefreshSettings, RefreshInput, Issued, refresh}
use theft_detection_platform.Auth.Rotation.{refresh-IsAuthorised}
use theft_detection_platform.Auth.Lockout.{FailureKey, LockoutSettings}
use theft_detection_platform.Auth.Login.{Crypto, LoginInput, login}
use theft_detection_platform.Auth.Login.Safety.{login-IsAuthentic}
use theft_detection_platform.Auth.Users.{
  UserSummary, Done, push_revocations, load, enqueue_revoked, drop_sessions, switch_active,
  set_active,
}
use theft_detection_platform.Auth.Users.Requests.{load-found, user_rows-switch_active}

-- Every session of the user is revoked.
abbrev pub IsSignedOut : Text → List Session → Type 0
IsSignedOut user_id = All (λ s. bytes_eq s.user_id user_id ≡ true → s.revoked ≡ true)

-- Every row of the user is disabled.
abbrev pub IsDisabled : Text → List User → Type 0
IsDisabled user_id = All (λ u. bytes_eq u.id user_id ≡ true → u.is_active ≡ false)

-- Where no session of the user is live, all are revoked.
none_live :
    (user_id : Text) (rows : List Session)
    → filter (live_session_of user_id) rows ≡ []
    → IsSignedOut user_id rows
none_live user_id [] h = tt
none_live user_id (s ∷ rows) h = elim (Bool-cases (live_session_of user_id s)) [
  | inl live ↦ absurd (ground arith)
  | inr dead ↦ ((λ its. ground arith), none_live user_id rows (ground arith))
]

map-eq-nil : (rows : List Session) → map (λ (s : Session). s.id) rows ≡ [] → rows ≡ []
map-eq-nil [] h = refl
map-eq-nil (s ∷ rows) h = absurd (ground arith)

module _ (T : Tables) where
  session_rows-enqueue_revoked :
      (actor_id : Text) (ids : List Text) (db : AuthDb T)
      → session_rows T (enqueue_revoked T actor_id ids db) ≡ session_rows T db
  unfolding enqueue_revoked enqueue
  session_rows-enqueue_revoked actor_id [] db = refl
  session_rows-enqueue_revoked actor_id (id ∷ ids) db = session_rows-enqueue_revoked actor_id ids _

  session_rows-revoke_all :
      (user_id : Text) (db : AuthDb T)
      → IsSignedOut user_id (session_rows T (revoke_all_for_user T user_id db))
  unfolding revoke_all_for_user
  session_rows-revoke_all user_id db = rw (Table.rows-update T.sessions) (
      All-map (λ _. Unit {0}) (λ s. bytes_eq s.user_id user_id ≡ true → s.revoked ≡ true)
        (touch (live_session_of user_id) revoked_session) (session_rows T db)
        (λ s _ h. ground arith) (All-intro (λ _. Unit {0}) (session_rows T db) (λ _. tt)))

  live_rows :
      (user_id : Text) (db : AuthDb T)
      → live_ids_for_user T user_id db ≡ []
      → map (λ (s : Session). s.id) (filter (live_session_of user_id) (session_rows T db)) ≡ []
  unfolding live_ids_for_user
  live_rows user_id db h = h

  dropped_nothing :
      (actor : Actor) (user_id : Text) (db : AuthDb T)
      → live_ids_for_user T user_id db ≡ []
      → (drop_sessions T actor user_id db).0 ≡ db
  unfolding drop_sessions
  dropped_nothing actor user_id db h = ground arith

  dropped_rows :
      (actor : Actor) (user_id : Text) (db : AuthDb T) {x : Text} {xs : List Text}
      → live_ids_for_user T user_id db ≡ x ∷ xs
      → session_rows T (drop_sessions T actor user_id db).0
        ≡ session_rows T (revoke_all_for_user T user_id db)
  unfolding drop_sessions
  dropped_rows actor user_id db {x} {xs} h = ground (
    arith,
    session_rows-enqueue_revoked actor.user_id (x ∷ xs) (revoke_all_for_user T user_id db),
  )

  pub drop_sessions_lem :
      (actor : Actor) (user_id : Text) (db : AuthDb T)
      → IsSignedOut user_id (session_rows T (drop_sessions T actor user_id db).0)
        × ((drop_sessions T actor user_id db).1 ≡ live_ids_for_user T user_id db)
  unfolding drop_sessions
  drop_sessions_lem actor user_id db = elim (List-cases (live_ids_for_user T user_id db)) [
    | inl nothing ↦ (
      subst (λ d. IsSignedOut user_id (session_rows T d))
          (sym (dropped_nothing actor user_id db nothing))
          (none_live user_id (session_rows T db) (map-eq-nil _ (live_rows user_id db nothing))),
      ground arith,
    )
    | inr (x, xs, live) ↦ (
      subst (IsSignedOut user_id) (sym (dropped_rows actor user_id db live))
          (session_rows-revoke_all user_id db),
      ground arith,
    )
  ]

  switch_off :
      (ttl : ℕ) (user : User) (actor : Actor) (db : AuthDb T)
      → IsDisabled user.id (user_rows T (switch_active T ttl user false actor db).db)
        × IsSignedOut user.id (session_rows T (switch_active T ttl user false actor db).db)
        × ((switch_active T ttl user false actor db).redis
            ≡ push_revocations ttl (live_ids_for_user T user.id db))
  unfolding switch_active enqueue write_user live_ids_for_user
  switch_off ttl user actor db =
      let db1 = write_user T user.id (λ u. record u { is_active = false }) db in
      (
        subst (IsDisabled user.id) (sym (user_rows-switch_active T ttl user false actor db)) (
            All-map (λ _. Unit {0}) (λ u. bytes_eq u.id user.id ≡ true → u.is_active ≡ false)
              (touch (has_id user.id) (λ u. record u { is_active = false })) (user_rows T db)
              (λ u _ its. ground arith) (All-intro (λ _. Unit {0}) (user_rows T db) (λ _. tt))),
        (drop_sessions_lem actor user.id db1).0,
        ap (push_revocations ttl) (drop_sessions_lem actor user.id db1).1,
      )

  -- A request that disables an active user and is answered without an error leaves every row of the
  -- user disabled and every session of the user revoked, and Redis is told of exactly the sessions
  -- that were live.
  pub set_active-IsSignedOut :
      (ttl : ℕ) (user_id : Text) (actor : Actor) (db : AuthDb T) {user : User}
      {done : Done T UserSummary}
      → get_user T db user_id ≡ some user
      → user.is_active ≡ true
      → set_active T ttl user_id false actor db ≡ ok done
      → IsDisabled user_id (user_rows T done.db)
        × IsSignedOut user_id (session_rows T done.db)
        × (done.redis ≡ push_revocations ttl (live_ids_for_user T user_id db))
  unfolding set_active load
  set_active-IsSignedOut ttl user_id actor db {user} {done} known active h =
      let loaded : load T db user_id ≡ ok user = ground arith in
      let same : user.id ≡ user_id = (load-found T db user_id loaded).1 in
      let stored : done ≡ switch_active T ttl user false actor db = ground arith in
      subst
        (λ d.
          IsDisabled user_id (user_rows T d.db)
          × IsSignedOut user_id (session_rows T d.db)
          × (d.redis ≡ push_revocations ttl (live_ids_for_user T user_id db)))
        (sym stored)
        (subst
          (λ id.
            IsDisabled id (user_rows T (switch_active T ttl user false actor db).db)
            × IsSignedOut id (session_rows T (switch_active T ttl user false actor db).db)
            × ((switch_active T ttl user false actor db).redis
                ≡ push_revocations ttl (live_ids_for_user T id db)))
          same (switch_off ttl user actor db))

  -- A user all of whose rows are disabled gets no session, by whatever refresh or login.
  pub disabled_is_final :
      (hash_refresh_secret : Text → Text) (settings : RefreshSettings) (input : RefreshInput)
      (crypto : Crypto) (lockout : LockoutSettings) (refresh_ttl : ℕ) (attempt : LoginInput)
      (failures : Option FailureKey) (user_id : Text) (db : AuthDb T) {issued : Issued}
      → IsDisabled user_id (user_rows T db)
      → ((refresh T hash_refresh_secret settings input db).reply ≡ ok issued)
        ⊎ ((login T crypto lockout refresh_ttl attempt failures db).reply ≡ ok issued)
      → issued.user_id ≢ user_id
  unfolding get_user get_by_username
  disabled_is_final hash_refresh_secret settings input crypto lockout refresh_ttl attempt failures
        user_id db {issued} disabled (inl refreshed) same =
      let a = (refresh-IsAuthorised T hash_refresh_secret settings input db issued).0 refreshed in
      absurd (
        ground (
          arith,
          a.user_active,
          (All-find? _ _ (user_rows T db) disabled a.user_found).0
              (rw (sym (ap (λ (x : Issued). x.user_id) a.answer), same) (bytes_eq_refl user_id)),
        ))
  disabled_is_final hash_refresh_secret settings input crypto lockout refresh_ttl attempt failures
        user_id db {issued} disabled (inr logged_in) same =
      let a =
        login-IsAuthentic T crypto lockout refresh_ttl attempt failures db {issued = issued}
          logged_in in
      absurd (
        ground (
          arith,
          a.active,
          (All-find? _ _ (user_rows T db) disabled a.known).0
              (rw (sym a.for_user, same) (bytes_eq_refl user_id)),
        ))

  -- Once an active user has been disabled by a request that is answered without an error, no refresh
  -- and no login on the database that it leaves is answered with a session of the user.
  pub set_active_is_final :
      (hash_refresh_secret : Text → Text) (settings : RefreshSettings) (input : RefreshInput)
      (crypto : Crypto) (lockout : LockoutSettings) (refresh_ttl : ℕ) (attempt : LoginInput)
      (failures : Option FailureKey) (ttl : ℕ) (user_id : Text) (actor : Actor) (db : AuthDb T)
      {user : User} {done : Done T UserSummary} {issued : Issued}
      → get_user T db user_id ≡ some user
      → user.is_active ≡ true
      → set_active T ttl user_id false actor db ≡ ok done
      → ((refresh T hash_refresh_secret settings input done.db).reply ≡ ok issued)
        ⊎ ((login T crypto lockout refresh_ttl attempt failures done.db).reply ≡ ok issued)
      → issued.user_id ≢ user_id
  set_active_is_final hash_refresh_secret settings input crypto lockout refresh_ttl attempt failures
        ttl user_id actor db {done = done} known active h =
      disabled_is_final hash_refresh_secret settings input crypto lockout refresh_ttl attempt
        failures user_id done.db (set_active-IsSignedOut ttl user_id actor db known active h).0
