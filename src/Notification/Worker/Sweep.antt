-- ===== src/Notification/Worker/Sweep.antt =====
-- services/notification/app/worker/tasks.py, the periodic tasks: `_retire_poison`, `_requeue_one`,
-- `_reconcile`, `_drain_buffer` and `probe_gate_task`. A task that is sent is the identity of its
-- intent, in the list of what the run sends.
pub mod Counts
use theft_detection_platform.Prelude.{
  ℕ, zero, suc, ◌+◌, ◌*◌, ◌-◌, String, Bool, true, false, not, ◌||◌, Option, none, some, List, [],
  ◌∷◌, ◌++◌, map, length, leb, if◌then◌else◌,
}
use theft_detection_platform.Notification.Records.{
  DeliveryIntent, Collections, NotifyDb, pending, sending, status_eq,
}
use theft_detection_platform.Notification.Repository.{find_stale, mark_requeued, release_buffered}
use theft_detection_platform.Notification.Worker.{World, bury}

pub data Outcome : Type 0 where
  requeued poison raced : Outcome

-- `gate_refresh` and `gate_clear` of services/notification/app/shared/gate.py
pub data GateCommand : Type 0 where
  refresh clear : GateCommand

pub record Tally : Type 0 where
  pub requeued : ℕ
  pub poison : ℕ
  pub raced : ℕ

abbrev pub nothing : Tally
nothing = record { requeued = 0; poison = 0; raced = 0 }

-- `tally[outcome] += 1`
abbrev pub add : Tally → Outcome → Tally
add t requeued = record t { requeued = t.requeued + 1 }
add t poison = record t { poison = t.poison + 1 }
add t raced = record t { raced = t.raced + 1 }

pub record SweepSettings : Type 0 where
  pub reconciler_enabled : Bool
  pub reconciler_max_requeues : ℕ
  -- the text "exceeded … requeues"
  pub poison_reason : String
  pub sending_timeout : ℕ
  pub pending_timeout : ℕ
  pub gate_drain_batch : ℕ

module _ (world : World) (settings : SweepSettings) (K : Collections) where
  unfoldable pub retire_poison : DeliveryIntent → NotifyDb K → NotifyDb K
  retire_poison intent db = bury world K intent intent.attempts settings.poison_reason db

  unfoldable pub requeue_one : DeliveryIntent → ℕ → NotifyDb K → NotifyDb K × Outcome × List String
  unfolding retire_poison
  requeue_one intent cutoff db =
      if leb settings.reconciler_max_requeues intent.requeue_count
      then (retire_poison intent db, poison, [])
      else let (after, claim) = mark_requeued K intent.id cutoff world.now db in
        elim claim [ none ↦ (after, raced, []) | some _ ↦ (after, requeued, intent.id ∷ []) ]

  abbrev pub cutoff_of : DeliveryIntent → ℕ
  cutoff_of intent =
      if status_eq intent.status sending
      then world.now - settings.sending_timeout
      else world.now - settings.pending_timeout

  -- The loop over the stale intents.
  unfoldable pub sweep : List DeliveryIntent → Tally → NotifyDb K → NotifyDb K × Tally × List String
  sweep [] tally db = (db, tally, [])
  sweep (intent ∷ rest) tally db =
      let (after, outcome, sends) = requeue_one intent (cutoff_of intent) db in
      let (final, total, more) = sweep rest (add tally outcome) after in
      (final, total, sends ++ more)

  unfoldable pub stale : NotifyDb K → List DeliveryIntent
  stale db =
      find_stale K sending (world.now - settings.sending_timeout) 100 db
      ++ find_stale K pending (world.now - settings.pending_timeout) 100 db

  unfoldable pub reconcile : NotifyDb K → NotifyDb K × Tally × List String
  unfolding sweep
  reconcile db = sweep (stale db) nothing db

  unfoldable pub reconcile_intents_task : NotifyDb K → NotifyDb K × Tally × List String
  reconcile_intents_task db =
      if not settings.reconciler_enabled then (db, nothing, []) else reconcile db

  -- The database afterwards, and the tasks that are sent, one for each released intent.
  unfoldable pub drain_buffer : NotifyDb K → NotifyDb K × List String
  drain_buffer db =
      let (after, released) = release_buffered K settings.gate_drain_batch world.now db in
      (after, map (λ d. d.id) released)

  -- `reachable` is the answer of the probe. The result holds what is done to the gate, and the
  -- tasks that are sent.
  unfoldable pub probe_gate_task : Bool → NotifyDb K → NotifyDb K × Option GateCommand × List String
  probe_gate_task reachable db =
      if not world.gate_raised
      then (db, none, [])
      else if not reachable
      then (db, some refresh, [])
      else let (after, sends) = drain_buffer db in (after, some clear, sends)
