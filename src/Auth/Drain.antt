-- ===== src/Auth/Drain.antt =====
-- The drain of the audit outbox, services/auth/app/services/audit_drain.py, with `claim`, `release`,
-- `defer` and `bury` of services/auth/app/repositories/audit_outbox_repository.py. The audit
-- service's reply, the random jitter and the rows that another worker has locked are parameters.
pub mod Kept
mod Tests
use theft_detection_platform.Prelude.{
  ℕ, zero, suc, ◌+◌, ◌*◌, ◌^◌, ◌==◌, Bool, true, false, not, ◌&&◌, ◌||◌, Option, none, some, List,
  [], ◌∷◌, ◌++◌, leb, ltb, find?, if◌then◌else◌, Bytes,
}
use theft_detection_platform.Prelude.Table.{Table}

-- The numbers of common/audit.proto's AppendStatus that the drain names.
pub data AppendStatus : Type 0 where
  accepted rejected schema_unsupported : AppendStatus
  other : ℕ → AppendStatus

pub record PendingEvent : Type 0 where
  pub id : ℕ
  pub event_id : Bytes
  pub event_bytes : Bytes
  pub occurred_at : ℕ
  pub attempts : ℕ
  pub next_attempt_at : ℕ
  pub created_at : ℕ

pub record DeadEvent : Type 0 where
  pub event_id : Bytes
  pub event_bytes : Bytes
  pub occurred_at : ℕ
  pub attempts : ℕ
  pub last_status : AppendStatus
  pub created_at : ℕ

-- none: the audit service was not reached.
abbrev pub SendOutcome : Type 0
SendOutcome = Option AppendStatus

pub data Resolution : Type 0 where
  deferred released buried : Resolution

pub record OutboxTables : Type 1 where
  pub pending : Table PendingEvent
  pub dead : Table DeadEvent

pub record Outbox (T : OutboxTables) : Type 0 where
  pub pending : Table.State T.pending
  pub dead : Table.State T.dead

-- What one transaction of the drain meets: the moment, the rows that are locked, the reply to an
-- event, and the random factor.
pub record World : Type 0 where
  pub now : ℕ
  pub locked : PendingEvent → Bool
  pub send : PendingEvent → SendOutcome
  pub jitter : ℕ → ℕ

abbrev pub batch_size : ℕ
batch_size = 32

abbrev pub max_unknown_status_attempts : ℕ
max_unknown_status_attempts = 12

abbrev pub at_most : ℕ → ℕ → ℕ
at_most a b = if leb a b then a else b

-- `_next_attempt_at`, in microseconds.
unfoldable pub next_attempt_at : World → (attempts : ℕ) → ℕ
next_attempt_at w attempts = w.now + w.jitter (at_most (2 * 2 ^ at_most attempts 8) 300 * 1000000)

abbrev pub is_terminal : AppendStatus → Bool
is_terminal rejected = true
is_terminal schema_unsupported = true
is_terminal _ = false

module _ (T : OutboxTables) where
  abbrev pub pending_rows : Outbox T → List PendingEvent
  pending_rows o = Table.rows T.pending o.pending

  abbrev pub dead_rows : Outbox T → List DeadEvent
  dead_rows o = Table.rows T.dead o.dead

  -- `claim(1)`
  unfoldable pub claim : World → Outbox T → Option PendingEvent
  claim w o = find? (λ e. leb e.next_attempt_at w.now && not (w.locked e)) (pending_rows o)

  unfoldable pub release : (id : ℕ) → Outbox T → Outbox T
  release id o = record o { pending = Table.delete T.pending (λ e. e.id == id) o.pending }

  unfoldable pub defer : (id next : ℕ) → Outbox T → Outbox T
  defer id next o = record o {
    pending =
        Table.update T.pending (λ e. e.id == id)
          (λ e. record e { attempts = e.attempts + 1; next_attempt_at = next }) o.pending;
  }

  unfoldable pub bury : PendingEvent → AppendStatus → Outbox T → Outbox T
  bury pending last_status o = record {
    dead =
        Table.insert T.dead
          (record {
            event_id = pending.event_id;
            event_bytes = pending.event_bytes;
            occurred_at = pending.occurred_at;
            attempts = pending.attempts + 1;
            last_status = last_status;
            created_at = pending.created_at;
          })
          o.dead;
    pending = Table.delete T.pending (λ e. e.id == pending.id) o.pending;
  }

  unfoldable pub resolve_status :
      World → PendingEvent → AppendStatus → Outbox T → Outbox T × Resolution
  resolve_status w pending accepted o = (release pending.id o, released)
  resolve_status w pending status o =
      if is_terminal status || leb max_unknown_status_attempts (pending.attempts + 1)
      then (bury pending status o, buried)
      else (defer pending.id (next_attempt_at w pending.attempts) o, deferred)

  -- `_resolve`
  unfoldable pub resolve : World → PendingEvent → SendOutcome → Outbox T → Outbox T × Resolution
  resolve w pending none o = (defer pending.id (next_attempt_at w pending.attempts) o, deferred)
  resolve w pending (some status) o = resolve_status w pending status o

  -- What a cycle leaves: the outbox, the number of events handled, and the events that were sent,
  -- each with its reply.
  pub record Drained : Type 0 where
    pub outbox : Outbox T
    pub handled : ℕ
    pub sends : List (PendingEvent × SendOutcome)

  abbrev pub is_deferred : Resolution → Bool
  is_deferred deferred = true
  is_deferred _ = false

  abbrev pub counted : PendingEvent × SendOutcome → Drained → Drained
  counted send d = record { outbox = d.outbox; handled = suc d.handled; sends = send ∷ d.sends }

  -- The loop of `_drain_once`; `world n` is what the transaction meets that has n behind it.
  unfoldable pub drain_loop : (turns : ℕ) (world : ℕ → World) → Outbox T → Drained
  drain_loop zero world o = record { outbox = o; handled = 0; sends = [] }
  drain_loop (suc turns) world o = elim (claim (world turns) o) [
    | none ↦ record { outbox = o; handled = 0; sends = [] }
    | some pending ↦
        let outcome = (world turns).send pending in
        let (o1, resolution) = resolve (world turns) pending outcome o in
        let rest = drain_loop turns world o1 in
        counted (pending, outcome)
          (if is_deferred resolution then record { outbox = o1; handled = 0; sends = [] } else rest)
  ]

  unfoldable pub drain_once : (world : ℕ → World) → Outbox T → Drained
  drain_once world o = drain_loop batch_size world o
