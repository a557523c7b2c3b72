-- ===== src/Auth/Sweep/Tests.antt =====
-- A sweep over three sessions, and the theorem at a concrete input.
use theft_detection_platform.Prelude.{
  ℕ, ◌≡◌, refl, true, false, Bool, [], ◌∷◌, map, arith, bytes_eq, length,
}
use theft_detection_platform.Prelude.Table.{list_table}
use theft_detection_platform.Auth.Records.{
  RefreshToken, Session, User, AuditRecord, Tables, AuthDb, revoke_sid,
}
use theft_detection_platform.Auth.Repositories.{session_rows}
use theft_detection_platform.Auth.Sweep.{idle_ids, revoke_ids, sweep_once}
use theft_detection_platform.Auth.Sweep.Idle.{HasNoIdle, cutoff, sweep_once-HasNoIdle}

-- Everything that a run calls.
program : Unit {0}
unfolding bytes_eq idle_ids revoke_ids sweep_once
program = tt

abbrev tables : Tables
tables = record {
  tokens = list_table RefreshToken;
  sessions = list_table Session;
  users = list_table User;
  outbox = list_table AuditRecord;
}

abbrev session : (id last_used_at : ℕ) → (revoked : Bool) → Session
session id last_used_at revoked = record {
  id = id ∷ [];
  user_id = 6 ∷ [];
  source_ip = [];
  user_agent = [];
  revoked = revoked;
  created_at = 0;
  last_used_at = last_used_at;
}

-- One idle session, one that is in use, and one that is revoked already.
abbrev start : AuthDb tables
start = record {
  tokens = [];
  sessions = session 1 5 false ∷ session 2 9000000 false ∷ session 3 5 true ∷ [];
  users = [];
  outbox = [];
}

revokes_one :
    map (λ (s : Session). s.revoked) (session_rows tables (sweep_once tables 2 60 10000000 start).0)
    ≡ true ∷ false ∷ true ∷ []
unfolding program
revokes_one = refl

idle_one : length (idle_ids tables (cutoff tables 2 60 10000000 start) start) ≡ 1
unfolding program
idle_one = refl

sweep_once-HasNoIdle_example :
    HasNoIdle 8000000 (session_rows tables (sweep_once tables 2 60 10000000 start).0)
    × ((sweep_once tables 2 60 10000000 start).2 ≡ revoke_sid (1 ∷ []) 60 ∷ [])
unfolding program
sweep_once-HasNoIdle_example =
    sweep_once-HasNoIdle tables 2 60 10000000 start (omega (arith, idle_one))
