-- ===== src/Auth/Rotation/Live.antt =====
-- The live tokens of a family, services/auth/app/api/v1/auth.py.
use theft_detection_platform.Prelude.{
  Result-cases, ℕ, zero, suc, ◌+◌, ◌≤◌, ◌<◌, ◌≡◌, Bool, false, not, ◌&&◌, ◌||◌, ◌⊎◌, leb, none,
  some, List, [], ◌∷◌, ◌++◌, map, arith, ltb, inl, inr, ◌∙◌, Option-cases, Bool-cases, find?,
  bytes_eq, bytes_eq_iff, bytes_eq_refl, if◌then◌else◌,
}
use theft_detection_platform.Prelude.Table.{Table, touch}
use theft_detection_platform.Auth.Records.{Text, RefreshToken, Session, User, Tables, AuthDb}
use theft_detection_platform.Auth.Repositories.{
  token_rows, rotated, revoked_token, create_token, mark_rotated, revoke_family, revoke_session,
  touch_session, enqueue, get_by_jti, get_by_jti_and_hash, get_session, get_user,
}
use theft_detection_platform.Auth.Refresh.{
  csrf_protect, refresh_body, RefreshSettings, RefreshInput, follow, resolve_presented_refresh,
  kill_family_on_reuse, rotate, seconds, refresh_usable, refresh_stored, refresh,
  split_refresh_token,
}
use theft_detection_platform.Auth.Rotation.{resolve_live}

abbrev is_live : Text → RefreshToken → Bool
is_live family t = not t.revoked && bytes_eq t.family_id family

-- The live tokens of a family.
abbrev pub count_live : Text → List RefreshToken → ℕ
count_live family [] = 0
count_live family (t ∷ rest) =
    if is_live family t then suc (count_live family rest) else count_live family rest

count_live-append :
    (family : Text) (xs ys : List RefreshToken)
    → count_live family (xs ++ ys) ≡ count_live family xs + count_live family ys
count_live-append family [] ys = omega arith
count_live-append family (t ∷ xs) ys = ground (arith, count_live-append family xs ys)

-- An update that only revokes adds no live token.
count_live-rotated-le :
    (family : Text) (p : RefreshToken → Bool) (now : ℕ) (by : Text) (rows : List RefreshToken)
    → count_live family (map (touch p (rotated now by)) rows) ≤ count_live family rows
unfolding rotated
count_live-rotated-le family p now by [] = omega arith
count_live-rotated-le family p now by (t ∷ rest) =
    ground (arith, count_live-rotated-le family p now by rest)

count_live-revoked-le :
    (family : Text) (p : RefreshToken → Bool) (rows : List RefreshToken)
    → count_live family (map (touch p revoked_token) rows) ≤ count_live family rows
count_live-revoked-le family p [] = omega arith
count_live-revoked-le family p (t ∷ rest) = ground (arith, count_live-revoked-le family p rest)

-- Rotating a live token that a search found takes one live token from its family.
count_live-rotated-lt :
    (p : RefreshToken → Bool) (now : ℕ) (by : Text) (rows : List RefreshToken) (u : RefreshToken)
    → find? p rows ≡ some u
    → u.revoked ≡ false
    → count_live u.family_id (map (touch (λ t. bytes_eq t.jti u.jti) (rotated now by)) rows)
      < count_live u.family_id rows
unfolding rotated
count_live-rotated-lt p now by [] u found live = absurd (ground arith)
count_live-rotated-lt p now by (t ∷ rest) u found live = elim (Bool-cases (p t)) [
  | inl here ↦ ground (
    arith,
    bytes_eq_refl u.jti,
    bytes_eq_refl u.family_id,
    count_live-rotated-le u.family_id (λ (r : RefreshToken). bytes_eq r.jti u.jti) now by rest,
  )
  | inr later ↦ ground (arith, count_live-rotated-lt p now by rest u)
]

-- The row that `create` adds in a rotation.
abbrev pub successor :
    (Text → Text) → RefreshSettings → RefreshInput → RefreshToken → Session → RefreshToken
successor hash_refresh_secret settings input stored s = record {
  jti = input.next_jti;
  family_id = stored.family_id;
  session_id = s.id;
  token_hash = hash_refresh_secret input.next_secret;
  rotated_from = some stored.jti;
  revoked = false;
  rotated_at = none;
  replaced_by = none;
  expires_at = input.now + seconds settings.refresh_token_ttl_seconds;
  created_at = input.now;
}

module _ (T : Tables) where
  follow_found :
      (hops : ℕ) (db : AuthDb T) (now : ℕ) (cursor : RefreshToken) {u : RefreshToken}
      → follow T hops db now cursor ≡ some u
      → (jti : Text) × (get_by_jti T db jti ≡ some u)
  unfolding follow
  follow_found zero db now cursor h = absurd (ground arith)
  follow_found (suc hops) db now cursor h = elim (Option-cases cursor.replaced_by) [
    | inl none_ ↦ absurd (ground arith)
    | inr (next, linked) ↦ elim (Option-cases (get_by_jti T db next)) [
      | inl missing ↦ absurd (ground arith)
      | inr (c, found) ↦ elim (Bool-cases (not c.revoked && ltb now c.expires_at)) [
        | inl takes ↦ (next, found ∙ ground arith)
        | inr skips ↦ follow_found hops db now c (ground arith)
      ]
    ]
  ]

  module _ (hash_refresh_secret : Text → Text) (settings : RefreshSettings)
      (input : RefreshInput) where
    -- A rotation revokes the used token, names its successor in it, and adds the successor to the
    -- family; no other row changes.
    pub rotate_tokens :
        (stored : RefreshToken) (s : Session) (user : User) (db : AuthDb T)
        → token_rows T (rotate T hash_refresh_secret settings input stored s user db).db
          ≡ map
              (touch (λ t. bytes_eq t.jti stored.jti) (rotated input.now input.next_jti))
              (token_rows T db)
            ++ successor hash_refresh_secret settings input stored s ∷ []
    unfolding rotate create_token mark_rotated enqueue
    rotate_tokens stored s user db = rw (Table.rows-insert T.tokens, Table.rows-update T.tokens)

    rotate-count_live :
        (family : Text) (p : RefreshToken → Bool) (u : RefreshToken) (s : Session) (user : User)
        (db : AuthDb T)
        → find? p (token_rows T db) ≡ some u
        → u.revoked ≡ false
        → count_live family
            (token_rows T (rotate T hash_refresh_secret settings input u s user db).db)
          ≤ count_live family (token_rows T db)
    rotate-count_live family p u s user db found live =
        rw (rotate_tokens u s user db, count_live-append)
          (elim (Bool-cases (bytes_eq u.family_id family)) [
            | inl same ↦ ground (
              arith,
              count_live-rotated-lt p input.now input.next_jti (token_rows T db) u found live,
              bytes_eq_iff u.family_id family,
            )
            | inr other ↦ ground (
              arith,
              count_live-rotated-le family (λ (t : RefreshToken). bytes_eq t.jti u.jti) input.now
                  input.next_jti (token_rows T db),
            )
          ])

    -- `refresh` leaves the database, or rotates.
    usable_cases :
        (u : RefreshToken) (db : AuthDb T)
        → ((refresh_usable T hash_refresh_secret settings input u db).db ≡ db)
          ⊎ ((s : Session) × (user : User) × (refresh_usable T hash_refresh_secret settings input u
                  db
                ≡ rotate T hash_refresh_secret settings input u s user
                    (touch_session T s.id input.now db)))
    unfolding refresh_usable
    usable_cases u db = elim (Option-cases (get_session T db u.session_id)) [
      | inl missing ↦ inl (ground arith)
      | inr (s, found) ↦ elim (Option-cases (get_user T db s.user_id)) [
        | inl missing ↦ inl (ground arith)
        | inr (user, known) ↦
            elim (Bool-cases (leb u.expires_at input.now || s.revoked || not user.is_active)) [
              | inl bad ↦ inl (ground arith)
              | inr fine ↦ inr (s, user, ground arith)
            ]
      ]
    ]

    usable-count_live :
        (family : Text) (p : RefreshToken → Bool) (u : RefreshToken) (db : AuthDb T)
        → find? p (token_rows T db) ≡ some u
        → u.revoked ≡ false
        → count_live family
            (token_rows T (refresh_usable T hash_refresh_secret settings input u db).db)
          ≤ count_live family (token_rows T db)
    unfolding touch_session
    usable-count_live family p u db found live = elim (usable_cases u db) [
      | inl same ↦ rw same (omega arith)
      | inr (s, user, same) ↦
          rw same
            (rotate-count_live family p u s user (touch_session T s.id input.now db) found live)
    ]

    killed-count_live :
        (family : Text) (stored : RefreshToken) (db : AuthDb T)
        → count_live family (token_rows T (kill_family_on_reuse T settings input stored db).0)
          ≤ count_live family (token_rows T db)
    unfolding kill_family_on_reuse revoke_family revoke_session enqueue
    killed-count_live family stored db = rw (Table.rows-update T.tokens) (
        count_live-revoked-le family (λ t. bytes_eq t.family_id stored.family_id) (token_rows T db))

    resolve_found :
        (p : RefreshToken → Bool) (stored : RefreshToken) (db : AuthDb T) {u : RefreshToken}
        → find? p (token_rows T db) ≡ some stored
        → resolve_presented_refresh T stored db input.now settings.refresh_rotation_grace_seconds
          ≡ some u
        → (q : RefreshToken → Bool) × (find? q (token_rows T db) ≡ some u)
    unfolding resolve_presented_refresh get_by_jti
    resolve_found p stored db found h = elim (Bool-cases stored.revoked) [
      | inr fresh ↦ (p, found ∙ ground arith)
      | inl old ↦
          let (jti, at) = follow_found 3 db input.now stored (ground arith) in
          ((λ t. bytes_eq t.jti jti), at)
    ]

    stored-count_live :
        (family : Text) (p : RefreshToken → Bool) (stored : RefreshToken) (db : AuthDb T)
        → find? p (token_rows T db) ≡ some stored
        → count_live family
            (token_rows T (refresh_stored T hash_refresh_secret settings input stored db).db)
          ≤ count_live family (token_rows T db)
    unfolding refresh_stored
    stored-count_live family p stored db found =
        elim (Option-cases (
          resolve_presented_refresh T stored db input.now
            settings.refresh_rotation_grace_seconds)) [
              | inr (u, resolved) ↦
                  let (q, at) = resolve_found p stored db found resolved in
                  rw (resolved, refresh_stored)
                    (usable-count_live family q u db at (
                      resolve_live T stored db input.now settings.refresh_rotation_grace_seconds
                        resolved))
              | inl dead ↦ ground (arith, killed-count_live family stored db)
            ]

    body-count_live :
        (family : Text) (db : AuthDb T)
        → count_live family (token_rows T (refresh_body T hash_refresh_secret settings input db).db)
          ≤ count_live family (token_rows T db)
    unfolding refresh_body get_by_jti_and_hash
    body-count_live family db = elim (Option-cases input.cookie) [
      | inl missing ↦ ground arith
      | inr (raw, sent) ↦ elim (Option-cases (split_refresh_token raw)) [
        | inl malformed ↦ ground arith
        | inr ((jti, secret), parts) ↦
            elim (Option-cases (get_by_jti_and_hash T db jti (hash_refresh_secret secret))) [
              | inl unknown ↦ ground arith
              | inr (stored, found) ↦ ground (
                arith,
                stored-count_live family
                    (λ (t : RefreshToken).
                      bytes_eq t.jti jti && bytes_eq t.token_hash (hash_refresh_secret secret))
                    stored db found,
              )
            ]
      ]
    ]

    -- A refresh, whatever it is presented with and whatever it answers, leaves every family with
    -- at most as many live tokens as it had: a family with one live token never has two.
    pub refresh-count_live :
        (family : Text) (db : AuthDb T)
        → count_live family (token_rows T (refresh T hash_refresh_secret settings input db).db)
          ≤ count_live family (token_rows T db)
    unfolding refresh
    refresh-count_live family db =
        elim (Result-cases (csrf_protect input.csrf_cookie input.csrf_header)) [
          | inr (e, refused) ↦ ground arith
          | inl (done, protected) ↦ ground (arith, body-count_live family db)
        ]
