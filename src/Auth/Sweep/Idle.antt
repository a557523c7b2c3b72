-- ===== src/Auth/Sweep/Idle.antt =====
-- The sessions that the sweep of services/auth/app/services/session_sweep.py leaves.
use theft_detection_platform.Prelude.{
  ℕ, ◌-◌, ◌≤◌, ◌≡◌, refl, sym, ◌∙◌, subst, true, inl, inr, List, [], ◌∷◌, map, arith, ltb, any,
  filter, length, take-length_le, bytes_eq, bytes_eq_refl, Bool-cases, List-cases, All, All-map,
  All-imp,
}
use theft_detection_platform.Prelude.Table.{Table, touch}
use theft_detection_platform.Auth.Records.{Text, Session, Tables, AuthDb, revoke_sid}
use theft_detection_platform.Auth.Repositories.{session_rows, revoked_session}
use theft_detection_platform.Auth.Refresh.{seconds}
use theft_detection_platform.Auth.Sweep.{
  max_per_cycle, is_idle, is_listed, idle_ids, revoke_ids, sweep_once,
}

-- No live session has last been used before the cutoff.
abbrev pub HasNoIdle : (cutoff : ℕ) → List Session → Type 0
HasNoIdle cutoff = All (λ s. ltb s.last_used_at cutoff ≡ true → s.revoked ≡ true)

abbrev ids_of : (cutoff : ℕ) → List Session → List Text
ids_of cutoff rows = map (λ (s : Session). s.id) (filter (is_idle cutoff) rows)

idle_listed :
    (cutoff : ℕ) (rows : List Session)
    → All (λ s. is_idle cutoff s ≡ true → any (bytes_eq s.id) (ids_of cutoff rows) ≡ true) rows
idle_listed cutoff [] = tt
idle_listed cutoff (s ∷ rows) = (
  (λ idle. ground (arith, bytes_eq_refl s.id)),
  All-imp (λ x. is_idle cutoff x ≡ true → any (bytes_eq x.id) (ids_of cutoff rows) ≡ true)
      (λ x. is_idle cutoff x ≡ true → any (bytes_eq x.id) (ids_of cutoff (s ∷ rows)) ≡ true) rows
      (λ x h idle. ground (arith, h idle)) (idle_listed cutoff rows),
)

ids_of-eq-nil : (cutoff : ℕ) (rows : List Session) → ids_of cutoff rows ≡ [] → HasNoIdle cutoff rows
ids_of-eq-nil cutoff [] h = tt
ids_of-eq-nil cutoff (s ∷ rows) h = elim (Bool-cases (is_idle cutoff s)) [
  | inl idle ↦ absurd (ground arith)
  | inr other ↦ ((λ old. ground arith), ids_of-eq-nil cutoff rows (ground arith))
]

module _ (T : Tables) (idle_timeout access_ttl now : ℕ) (db : AuthDb T) where
  abbrev pub cutoff : ℕ
  cutoff = now - seconds idle_timeout

  sweep_some :
      {id : Text} {ids : List Text}
      → idle_ids T cutoff db ≡ id ∷ ids
      → length (idle_ids T cutoff db) ≤ max_per_cycle
      → (session_rows T (sweep_once T idle_timeout access_ttl now db).0
          ≡ map (touch (is_listed (idle_ids T cutoff db)) revoked_session) (session_rows T db))
        × ((sweep_once T idle_timeout access_ttl now db).2
            ≡ map (λ id. revoke_sid id access_ttl) (idle_ids T cutoff db))
  unfolding sweep_once revoke_ids
  sweep_some {id} {ids} some_idle few = ground (
    arith,
    take-length_le max_per_cycle (idle_ids T cutoff db) few,
    Table.rows-update T.sessions (is_listed (id ∷ ids)) revoked_session db.sessions,
  )

  sweep_nothing :
      idle_ids T cutoff db ≡ []
      → (session_rows T (sweep_once T idle_timeout access_ttl now db).0 ≡ session_rows T db)
        × ((sweep_once T idle_timeout access_ttl now db).2 ≡ [])
  unfolding sweep_once
  sweep_nothing nothing = ground arith

  idle_ids-eq : idle_ids T cutoff db ≡ ids_of cutoff (session_rows T db)
  unfolding idle_ids
  idle_ids-eq = refl

  touched :
      HasNoIdle cutoff
        (map (touch (is_listed (idle_ids T cutoff db)) revoked_session) (session_rows T db))
  touched = rw idle_ids-eq (
      All-map
        (λ s.
          is_idle cutoff s ≡ true → any (bytes_eq s.id) (ids_of cutoff (session_rows T db)) ≡ true)
        (λ s. ltb s.last_used_at cutoff ≡ true → s.revoked ≡ true)
        (touch (is_listed (ids_of cutoff (session_rows T db))) revoked_session) (session_rows T db)
        (λ s listed old. elim (Bool-cases s.revoked) [
          | inl revoked ↦ ground arith
          | inr live ↦ ground (arith, listed (ground arith))
        ])
        (idle_listed cutoff (session_rows T db)))

  -- A sweep that meets at most 500 idle sessions leaves no live session that was last used before
  -- the cutoff, and tells Redis of exactly the idle ones.
  pub sweep_once-HasNoIdle :
      length (idle_ids T cutoff db) ≤ max_per_cycle
      → HasNoIdle cutoff (session_rows T (sweep_once T idle_timeout access_ttl now db).0)
        × ((sweep_once T idle_timeout access_ttl now db).2
            ≡ map (λ id. revoke_sid id access_ttl) (idle_ids T cutoff db))
  sweep_once-HasNoIdle few = elim (List-cases (idle_ids T cutoff db)) [
    | inl nothing ↦ (
      subst (HasNoIdle cutoff) (sym (sweep_nothing nothing).0)
          (ids_of-eq-nil cutoff (session_rows T db) (sym idle_ids-eq ∙ nothing)),
      ground (arith, (sweep_nothing nothing).1),
    )
    | inr (id, ids, found) ↦
        (subst (HasNoIdle cutoff) (sym (sweep_some found few).0) touched, (sweep_some found few).1)
  ]
