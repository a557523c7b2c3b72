-- ===== src/Auth/Rotation/Reuse.antt =====
-- What the reuse of a rotated refresh token does, services/auth/app/api/v1/auth.py.
use theft_detection_platform.Prelude.{
  Result, ok, ℕ, zero, suc, ◌≡◌, refl, sym, Bool, true, ◌&&◌, none, some, List, [], ◌∷◌, map, arith,
  inl, inr, Option-cases, find?, filter, length, ◌==◌, bytes_eq, if◌then◌else◌, err, All, All-find?,
  All-map, All-intro, subst,
}
use theft_detection_platform.Prelude.Table.{Table, touch}
use theft_detection_platform.Auth.Records.{
  Text, RefreshToken, Session, Tables, AuthDb, revoke_sid, HttpError, session_invalid,
}
use theft_detection_platform.Auth.Repositories.{
  token_rows, session_rows, revoked_token, revoked_session, live_session, revoke_family,
  revoke_session, enqueue, get_by_jti, get_by_jti_and_hash,
}
use theft_detection_platform.Auth.Refresh.{
  csrf_protect, refresh_body, Issued, RefreshSettings, RefreshInput, follow, past_grace,
  resolve_presented_refresh, kill_family_on_reuse, refresh_stored, refresh, split_refresh_token,
}

-- Every token of the family is revoked.
abbrev pub IsRevokedFamily : Text → List RefreshToken → Type 0
IsRevokedFamily family = All (λ t. bytes_eq t.family_id family ≡ true → t.revoked ≡ true)

-- Every row of the session is revoked.
abbrev pub IsRevokedSession : Text → List Session → Type 0
IsRevokedSession id = All (λ s. bytes_eq s.id id ≡ true → s.revoked ≡ true)

-- The successors of the family's tokens are of the family.
abbrev pub IsClosedFamily : Text → List RefreshToken → Type 0
IsClosedFamily family rows =
    All
      (λ t.
        bytes_eq t.family_id family ≡ true
        → (next : Text) → t.replaced_by ≡ some next
        → All (λ c. bytes_eq c.jti next ≡ true → bytes_eq c.family_id family ≡ true) rows)
      rows

-- The error of the CSRF check, or that of a session that is not valid.
abbrev pub refusal : Result HttpError (Unit {0}) → Result HttpError Issued
refusal (err e) = err e
refusal (ok _) = err session_invalid

abbrev pub revoking : Text → RefreshToken → RefreshToken
revoking family = touch (λ t. bytes_eq t.family_id family) revoked_token

module _ (T : Tables) (settings : RefreshSettings) (input : RefreshInput) where
  killed_tokens :
      (stored : RefreshToken) (db : AuthDb T)
      → token_rows T (kill_family_on_reuse T settings input stored db).0
        ≡ map (revoking stored.family_id) (token_rows T db)
  unfolding kill_family_on_reuse revoke_family revoke_session enqueue
  killed_tokens stored db = rw (Table.rows-update T.tokens)

  killed_sessions :
      (stored : RefreshToken) (db : AuthDb T)
      → session_rows T (kill_family_on_reuse T settings input stored db).0
        ≡ map (touch (live_session stored.session_id) revoked_session) (session_rows T db)
  unfolding kill_family_on_reuse revoke_family revoke_session enqueue
  killed_sessions stored db = rw (Table.rows-update T.sessions)

  refused :
      (hash_refresh_secret : Text → Text) (stored : RefreshToken) (db : AuthDb T) {at : ℕ}
      → stored.revoked ≡ true
      → stored.rotated_at ≡ some at
      → past_grace stored input.now settings.refresh_rotation_grace_seconds ≡ true
      → refresh_stored T hash_refresh_secret settings input stored db ≡ record {
        reply = err session_invalid;
        db = (kill_family_on_reuse T settings input stored db).0;
        redis = (kill_family_on_reuse T settings input stored db).1;
      }
  unfolding refresh_stored resolve_presented_refresh
  refused hash_refresh_secret stored db revoked at past = ground arith

  killed-IsRevokedFamily :
      (stored : RefreshToken) (db : AuthDb T)
      → IsRevokedFamily stored.family_id
          (token_rows T (kill_family_on_reuse T settings input stored db).0)
  killed-IsRevokedFamily stored db = rw (killed_tokens stored db) (
      All-map (λ _. Unit {0}) (λ t. bytes_eq t.family_id stored.family_id ≡ true → t.revoked ≡ true)
        (revoking stored.family_id) (token_rows T db) (λ t _ h. ground arith)
        (All-intro (λ _. Unit {0}) (token_rows T db) (λ _. tt)))

  killed-IsRevokedSession :
      (stored : RefreshToken) (db : AuthDb T)
      → IsRevokedSession stored.session_id
          (session_rows T (kill_family_on_reuse T settings input stored db).0)
  killed-IsRevokedSession stored db = rw (killed_sessions stored db) (
      All-map (λ _. Unit {0}) (λ s. bytes_eq s.id stored.session_id ≡ true → s.revoked ≡ true)
        (touch (live_session stored.session_id) revoked_session) (session_rows T db)
        (λ s _ h. ground arith) (All-intro (λ _. Unit {0}) (session_rows T db) (λ _. tt)))

  killed_redis :
      (stored : RefreshToken) (db : AuthDb T)
      → (kill_family_on_reuse T settings input stored db).1 ≡ (
          if length (filter (live_session stored.session_id) (session_rows T db)) == 1
          then revoke_sid stored.session_id settings.access_token_ttl_seconds ∷ []
          else [])
  unfolding kill_family_on_reuse revoke_family revoke_session
  killed_redis stored db = refl

  -- The reuse of a rotated token past its grace is refused; afterwards every token of its family
  -- and its session are revoked, the other families' tokens are as they were, and Redis is told
  -- of the session exactly if one live session was revoked.
  pub refresh_stored_reuse :
      (hash_refresh_secret : Text → Text) (stored : RefreshToken) (db : AuthDb T) {at : ℕ}
      → stored.revoked ≡ true
      → stored.rotated_at ≡ some at
      → past_grace stored input.now settings.refresh_rotation_grace_seconds ≡ true
      → let answer = refresh_stored T hash_refresh_secret settings input stored db in
        (answer.reply ≡ err session_invalid)
        × IsRevokedFamily stored.family_id (token_rows T answer.db)
        × IsRevokedSession stored.session_id (session_rows T answer.db)
        × (token_rows T answer.db ≡ map (revoking stored.family_id) (token_rows T db))
        × (answer.redis ≡ (
            if length (filter (live_session stored.session_id) (session_rows T db)) == 1
            then revoke_sid stored.session_id settings.access_token_ttl_seconds ∷ []
            else []))
  refresh_stored_reuse hash_refresh_secret stored db revoked at past =
      rw (refused hash_refresh_secret stored db revoked at past) (
        refl,
        killed-IsRevokedFamily stored db,
        killed-IsRevokedSession stored db,
        killed_tokens stored db,
        killed_redis stored db,
      )

module _ (T : Tables) where
  -- In a closed family of revoked tokens the loop finds no successor.
  follow_dead :
      (family : Text) (db : AuthDb T) (hops now : ℕ) (cursor : RefreshToken)
      (p : RefreshToken → Bool)
      → IsRevokedFamily family (token_rows T db)
      → IsClosedFamily family (token_rows T db)
      → find? p (token_rows T db) ≡ some cursor
      → bytes_eq cursor.family_id family ≡ true
      → follow T hops db now cursor ≡ none
  unfolding follow get_by_jti
  follow_dead family db zero now cursor p dead closed at member = refl
  follow_dead family db (suc hops) now cursor p dead closed at member =
      elim (Option-cases cursor.replaced_by) [
        | inl last ↦ ground arith
        | inr (next, linked) ↦
            elim (Option-cases (find? (λ t. bytes_eq t.jti next) (token_rows T db))) [
              | inl missing ↦ ground arith
              | inr (c, found) ↦
                  let (inside, named) =
                    All-find? (λ c. bytes_eq c.jti next ≡ true → bytes_eq c.family_id family ≡ true)
                      (λ t. bytes_eq t.jti next) (token_rows T db)
                      ((All-find? _ p (token_rows T db) closed at).0 member next linked) found in
                  ground (
                    arith,
                    (All-find? (λ t. bytes_eq t.family_id family ≡ true → t.revoked ≡ true)
                          (λ t. bytes_eq t.jti next) (token_rows T db) dead found).0
                        (inside named),
                    follow_dead family db hops now c (λ (t : RefreshToken). bytes_eq t.jti next)
                        dead closed found (inside named),
                  )
            ]
      ]

  module _ (hash_refresh_secret : Text → Text) (settings : RefreshSettings)
      (input : RefreshInput) where
    resolve_dead :
        (family : Text) (db : AuthDb T) (stored : RefreshToken) (p : RefreshToken → Bool)
        → IsRevokedFamily family (token_rows T db)
        → IsClosedFamily family (token_rows T db)
        → find? p (token_rows T db) ≡ some stored
        → bytes_eq stored.family_id family ≡ true
        → resolve_presented_refresh T stored db input.now settings.refresh_rotation_grace_seconds
          ≡ none
    unfolding resolve_presented_refresh
    resolve_dead family db stored p dead closed at member = ground (
      arith,
      (All-find? (λ t. bytes_eq t.family_id family ≡ true → t.revoked ≡ true) p (token_rows T db)
            dead at).0
          member,
      follow_dead family db 3 input.now stored p dead closed at member,
    )

    -- In a closed family of revoked tokens no token is good for anything: whatever request
    -- presents one of them is refused, if not for its CSRF tokens before.
    pub refresh_dead :
        (family : Text) (db : AuthDb T) {raw jti secret : Text} {stored : RefreshToken}
        → IsRevokedFamily family (token_rows T db)
        → IsClosedFamily family (token_rows T db)
        → input.cookie ≡ some raw
        → split_refresh_token raw ≡ some (jti, secret)
        → get_by_jti_and_hash T db jti (hash_refresh_secret secret) ≡ some stored
        → bytes_eq stored.family_id family ≡ true
        → (refresh T hash_refresh_secret settings input db).reply
          ≡ refusal (csrf_protect input.csrf_cookie input.csrf_header)
    unfolding refresh refresh_body refresh_stored get_by_jti_and_hash
    refresh_dead family db {raw} {jti} {secret} {stored} dead closed sent parts at member = ground (
      arith,
      resolve_dead family db stored
          (λ (t : RefreshToken).
            bytes_eq t.jti jti && bytes_eq t.token_hash (hash_refresh_secret secret))
          dead closed at member,
    )

-- Revoking a closed family leaves it closed.
revoking-IsClosedFamily :
    (family : Text) (rows : List RefreshToken)
    → IsClosedFamily family rows
    → IsClosedFamily family (map (revoking family) rows)
revoking-IsClosedFamily family rows closed =
    All-map
      (λ t.
        bytes_eq t.family_id family ≡ true
        → (next : Text) → t.replaced_by ≡ some next
        → All (λ c. bytes_eq c.jti next ≡ true → bytes_eq c.family_id family ≡ true) rows)
      _ (revoking family) rows
      (λ t inside member next linked.
        All-map (λ c. bytes_eq c.jti next ≡ true → bytes_eq c.family_id family ≡ true)
          (λ c. bytes_eq c.jti next ≡ true → bytes_eq c.family_id family ≡ true) (revoking family)
          rows (λ c h e. ground (arith, h (ground arith)))
          (inside (ground arith) next (ground arith)))
      closed

-- The reuse of a rotated token past its grace ends its family for good, where the successors that
-- its tokens name are of the family: in the database that the refused request leaves, every later
-- request that presents a token of the family is refused, with the error of the CSRF check where
-- that fails, and otherwise because its session is not valid.
pub reuse_is_final :
    (T : Tables) (hash_refresh_secret : Text → Text) (settings : RefreshSettings)
    (input later : RefreshInput) (stored : RefreshToken) (db : AuthDb T) {at : ℕ}
    {raw jti secret : Text} {presented : RefreshToken}
    → stored.revoked ≡ true
    → stored.rotated_at ≡ some at
    → past_grace stored input.now settings.refresh_rotation_grace_seconds ≡ true
    → IsClosedFamily stored.family_id (token_rows T db)
    → later.cookie ≡ some raw
    → split_refresh_token raw ≡ some (jti, secret)
    → get_by_jti_and_hash T
        (refresh_stored T hash_refresh_secret settings input stored db).db
        jti
        (hash_refresh_secret secret)
      ≡ some presented
    → bytes_eq presented.family_id stored.family_id ≡ true
    → (refresh T hash_refresh_secret settings later
        (refresh_stored T hash_refresh_secret settings input stored db).db).reply
      ≡ refusal (csrf_protect later.csrf_cookie later.csrf_header)
reuse_is_final T hash_refresh_secret settings input later stored db revoked at past closed sent
      parts found member =
    let (_, dead, _, same, _) =
      refresh_stored_reuse T settings input hash_refresh_secret stored db revoked at past in
    refresh_dead T hash_refresh_secret settings later stored.family_id
      (refresh_stored T hash_refresh_secret settings input stored db).db dead
      (subst (IsClosedFamily stored.family_id) (sym same)
        (revoking-IsClosedFamily stored.family_id (token_rows T db) closed))
      sent parts found member
