-- ===== src/Auth/Drain/Tests.antt =====
-- A cycle of the audit drain on a small outbox, and the theorem at a concrete input.
use theft_detection_platform.Prelude.{
  ℕ, ◌+◌, ◌≤◌, ◌≡◌, refl, false, none, some, [], ◌∷◌, arith, bytes_eq, length, ◌==◌, if◌then◌else◌,
}
use theft_detection_platform.Prelude.Table.{list_table}
use theft_detection_platform.Auth.Drain.{
  AppendStatus, SendOutcome, PendingEvent, DeadEvent, OutboxTables, Outbox, World, next_attempt_at,
  claim, release, defer, bury, resolve_status, resolve, drain_loop, drain_once, pending_rows,
  dead_rows,
}
use theft_detection_platform.Auth.Drain.Kept.{
  IsKeyed, count_pending, count_dead, count_accepted, drain_once_keeps,
}

-- Everything that a run calls.
program : Unit {0}
unfolding bytes_eq next_attempt_at claim release defer bury resolve_status resolve drain_loop
    drain_once
program = tt

abbrev tables : OutboxTables
tables = record { pending = list_table PendingEvent; dead = list_table DeadEvent }

abbrev event : (id attempts : ℕ) → PendingEvent
event id attempts = record {
  id = id;
  event_id = id ∷ [];
  event_bytes = [];
  occurred_at = 0;
  attempts = attempts;
  next_attempt_at = 0;
  created_at = 0;
}

-- The service accepts event 1, rejects event 2, does not recognise event 3, and is then away.
abbrev reply : ℕ → SendOutcome
reply id =
    if id == 1
    then some AppendStatus.accepted
    else if id == 2
    then some AppendStatus.rejected
    else if id == 3
    then some (AppendStatus.other 9)
    else none

abbrev world : ℕ → World
world turns = record { now = 1; locked = λ e. false; send = λ e. reply e.id; jitter = λ n. n }

abbrev outbox : Outbox tables
outbox = record {
  pending = event 1 0 ∷ event 2 0 ∷ event 3 11 ∷ event 4 3 ∷ event 5 0 ∷ [];
  dead = [];
}

handles_four : (drain_once tables world outbox).handled ≡ 4
unfolding program
handles_four = refl

keeps_two :
    pending_rows tables (drain_once tables world outbox).outbox
    ≡ record (event 4 4) { next_attempt_at = 16000001 } ∷ event 5 0 ∷ []
unfolding program
keeps_two = refl

buries_two : length (dead_rows tables (drain_once tables world outbox).outbox) ≡ 2
unfolding program
buries_two = refl

outbox-IsKeyed : IsKeyed tables outbox
outbox-IsKeyed id = ground arith

drain_once_keeps_example :
    ((drain_once tables world outbox).handled ≤ 32)
    × (count_pending tables (1 ∷ []) outbox + count_dead tables (1 ∷ []) outbox
        ≤ count_pending tables (1 ∷ []) (drain_once tables world outbox).outbox
          + count_dead tables (1 ∷ []) (drain_once tables world outbox).outbox
          + count_accepted tables (1 ∷ []) (drain_once tables world outbox).sends)
drain_once_keeps_example = drain_once_keeps tables (1 ∷ []) world outbox outbox-IsKeyed
