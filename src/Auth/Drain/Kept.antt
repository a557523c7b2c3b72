-- ===== src/Auth/Drain/Kept.antt =====
-- Where the events of the outbox are after a cycle of the drain,
-- services/auth/app/services/audit_drain.py.
use theft_detection_platform.Prelude.{
  ℕ, zero, suc, ◌+◌, ◌≤◌, ◌==◌, ◌≡◌, refl, Bool, false, not, ◌&&◌, inl, inr, none, some, List, [],
  ◌∷◌, arith, length, filter, find?, leb, bytes_eq, if◌then◌else◌, Bool-cases, Option-cases, Bytes,
}
use theft_detection_platform.Prelude.Table.{Table}
use theft_detection_platform.Prelude.Counts.{
  count-touch_same, count-delete, count-delete_other, count-delete_le, count-append_one,
  find?-unique,
}
use theft_detection_platform.Auth.Drain.{
  AppendStatus, accepted, PendingEvent, DeadEvent, SendOutcome, OutboxTables, Outbox, World,
  batch_size, pending_rows, dead_rows, claim, release, defer, bury, resolve_status, resolve,
  is_deferred, counted, drain_loop, drain_once, max_unknown_status_attempts,
}

-- The event of the row has the given id.
abbrev pub is_event : Bytes → PendingEvent → Bool
is_event id e = bytes_eq e.event_id id

abbrev pub is_dead_event : Bytes → DeadEvent → Bool
is_dead_event id e = bytes_eq e.event_id id

-- The event was sent and the audit service has accepted it.
abbrev pub is_accepted : Bytes → PendingEvent × SendOutcome → Bool
is_accepted id (e, some accepted) = is_event id e
is_accepted id (e, _) = false

module _ (T : OutboxTables) where
  abbrev pub count_pending : Bytes → Outbox T → ℕ
  count_pending id o = length (filter (is_event id) (pending_rows T o))

  abbrev pub count_dead : Bytes → Outbox T → ℕ
  count_dead id o = length (filter (is_dead_event id) (dead_rows T o))

  abbrev pub count_accepted : Bytes → List (PendingEvent × SendOutcome) → ℕ
  count_accepted id sends = length (filter (is_accepted id) sends)

  -- The primary key of the outbox.
  abbrev pub IsKeyed : Outbox T → Type 0
  IsKeyed o = (id : ℕ) → length (filter (λ e. e.id == id) (pending_rows T o)) ≤ 1

  -- What one resolution keeps.
  record IsKept (id : Bytes) (send : PendingEvent × SendOutcome) (o next : Outbox T) : Type 0 where
    keyed : IsKeyed next
    kept :
        count_pending id o + count_dead id o
        ≤ count_pending id next + count_dead id next + count_accepted id (send ∷ [])

  defer-IsKept :
      (id : Bytes) (send : PendingEvent × SendOutcome) (row next : ℕ) (o : Outbox T)
      → IsKeyed o
      → IsKept id send o (defer T row next o)
  unfolding defer
  defer-IsKept id send row next o keyed =
      let later : PendingEvent → PendingEvent =
        λ e. record e { attempts = e.attempts + 1; next_attempt_at = next } in
      record {
        keyed = λ i.
            rw
              (
                Table.rows-update T.pending,
                count-touch_same (λ (e : PendingEvent). e.id == i) (λ e. e.id == row) later
                    (pending_rows T o) (λ e. refl),
              )
              (keyed i);
        kept =
            rw
              (
                Table.rows-update T.pending,
                count-touch_same (is_event id) (λ e. e.id == row) later (pending_rows T o)
                    (λ e. refl),
              )
              (omega arith);
      }

  -- The row of an event is deleted, after the event was accepted or has been buried.
  deleted_le :
      (id : Bytes) (e : PendingEvent) (r : PendingEvent → Bool) (o : Outbox T)
      → IsKeyed o
      → find? r (pending_rows T o) ≡ some e
      → count_pending id o
        ≤ length (
            filter
              (is_event id)
              (filter (λ (x : PendingEvent). not (x.id == e.id)) (pending_rows T o)))
          + (if is_event id e then 1 else 0)
  deleted_le id e r o keyed found = elim (Bool-cases (is_event id e)) [
    | inl its ↦
        ground
          (arith, count-delete (is_event id) (λ x. x.id == e.id) (pending_rows T o), keyed e.id)
    | inr other ↦ ground (
      arith,
      count-delete_other (is_event id) (λ x. x.id == e.id) (pending_rows T o)
          (find?-unique (λ x. x.id == e.id) r (pending_rows T o) found (ground arith) (keyed e.id))
          other (keyed e.id),
    )
  ]

  deleted-IsKeyed :
      (row : ℕ) (o : Outbox T) (i : ℕ)
      → IsKeyed o
      → length (
          filter
            (λ (e : PendingEvent). e.id == i)
            (filter (λ (x : PendingEvent). not (x.id == row)) (pending_rows T o)))
        ≤ 1
  deleted-IsKeyed row o i keyed = omega (
    arith,
    count-delete_le (λ (e : PendingEvent). e.id == i) (λ x. x.id == row) (pending_rows T o),
    keyed i,
  )

  release-IsKept :
      (id : Bytes) (e : PendingEvent) (r : PendingEvent → Bool) (o : Outbox T)
      → IsKeyed o
      → find? r (pending_rows T o) ≡ some e
      → IsKept id (e, some accepted) o (release T e.id o)
  unfolding release
  release-IsKept id e r o keyed found = record {
    keyed = λ i. rw (Table.rows-delete T.pending) (deleted-IsKeyed e.id o i keyed);
    kept = rw (Table.rows-delete T.pending) (ground (arith, deleted_le id e r o keyed found));
  }

  bury-IsKept :
      (id : Bytes) (e : PendingEvent) (status : AppendStatus) (send : PendingEvent × SendOutcome)
      (r : PendingEvent → Bool) (o : Outbox T)
      → IsKeyed o
      → find? r (pending_rows T o) ≡ some e
      → IsKept id send o (bury T e status o)
  unfolding bury
  bury-IsKept id e status send r o keyed found = record {
    keyed = λ i. rw (Table.rows-delete T.pending) (deleted-IsKeyed e.id o i keyed);
    kept =
        rw
          (
            Table.rows-delete T.pending,
            Table.rows-insert T.dead,
            count-append_one (is_dead_event id),
          )
          (ground (arith, deleted_le id e r o keyed found));
  }

  resolve-IsKept :
      (id : Bytes) (w : World) (e : PendingEvent) (outcome : SendOutcome) (r : PendingEvent → Bool)
      (o : Outbox T)
      → IsKeyed o
      → find? r (pending_rows T o) ≡ some e
      → IsKept id (e, outcome) o (resolve T w e outcome o).0
  unfolding resolve resolve_status
  resolve-IsKept id w e none r o keyed found = defer-IsKept id _ e.id _ o keyed
  resolve-IsKept id w e (some accepted) r o keyed found = release-IsKept id e r o keyed found
  resolve-IsKept id w e (some AppendStatus.rejected) r o keyed found =
      bury-IsKept id e _ _ r o keyed found
  resolve-IsKept id w e (some AppendStatus.schema_unsupported) r o keyed found =
      bury-IsKept id e _ _ r o keyed found
  resolve-IsKept id w e (some (AppendStatus.other n)) r o keyed found =
      elim (Bool-cases (leb max_unknown_status_attempts (e.attempts + 1))) [
        | inl last ↦ rw last (bury-IsKept id e (AppendStatus.other n) _ r o keyed found)
        | inr early ↦ rw early (defer-IsKept id (e, some (AppendStatus.other n)) e.id _ o keyed)
      ]

  -- One turn of the loop that has claimed a row.
  drain_loop-suc :
      (turns : ℕ) (world : ℕ → World) (o : Outbox T) {e : PendingEvent}
      → claim T (world turns) o ≡ some e
      → let outcome = (world turns).send e in
        let step = resolve T (world turns) e outcome o in
        drain_loop T (suc turns) world o
        ≡ counted T
            (e, outcome)
            (if is_deferred T step.1
              then record { outbox = step.0; handled = 0; sends = [] }
              else drain_loop T turns world step.0)
  unfolding drain_loop
  drain_loop-suc turns world o h = ground arith

  claim_found :
      (w : World) (o : Outbox T) {e : PendingEvent}
      → claim T w o ≡ some e
      → find?
          (λ (e : PendingEvent). leb e.next_attempt_at w.now && not (w.locked e))
          (pending_rows T o)
        ≡ some e
  unfolding claim
  claim_found w o h = h

  drain_loop_lem :
      (id : Bytes) (turns : ℕ) (world : ℕ → World) (o : Outbox T)
      → IsKeyed o
      → (drain_loop T turns world o).handled ≤ turns
        × (count_pending id o + count_dead id o
            ≤ count_pending id (drain_loop T turns world o).outbox
              + count_dead id (drain_loop T turns world o).outbox
              + count_accepted id (drain_loop T turns world o).sends)
  unfolding drain_loop
  drain_loop_lem id zero world o keyed = (omega arith, omega arith)
  drain_loop_lem id (suc turns) world o keyed = elim (Option-cases (claim T (world turns) o)) [
    | inl nothing ↦ ground arith
    | inr (e, claimed) ↦
        let step = resolve T (world turns) e ((world turns).send e) o in
        let k =
          resolve-IsKept id (world turns) e ((world turns).send e) _ o keyed
            (claim_found (world turns) o claimed) in
        rw (drain_loop-suc turns world o claimed) (elim (Bool-cases (is_deferred T step.1)) [
          | inl stop ↦ rw stop (omega arith, k.kept)
          | inr on ↦
              let rest = drain_loop_lem id turns world step.0 k.keyed in
              rw on (omega (arith, rest.0), ground (arith, k.kept, rest.1))
        ])
  ]

  -- A cycle of the drain loses no event: where a key has at most one row, the cycle handles at most
  -- 32 rows, and for each event there are at least as many rows in the outbox, dead letters and
  -- sends that the audit service accepted in this cycle as there were rows and dead letters before.
  pub drain_once_keeps :
      (id : Bytes) (world : ℕ → World) (o : Outbox T)
      → IsKeyed o
      → (drain_once T world o).handled ≤ 32
        × (count_pending id o + count_dead id o
            ≤ count_pending id (drain_once T world o).outbox
              + count_dead id (drain_once T world o).outbox
              + count_accepted id (drain_once T world o).sends)
  unfolding drain_once
  drain_once_keeps id world o keyed = drain_loop_lem id batch_size world o keyed
