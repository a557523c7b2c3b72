-- ===== src/Auth/Sweep.antt =====
-- `_sweep_once` of services/auth/app/services/session_sweep.py, with `idle_ids` and `revoke_ids` of
-- services/auth/app/repositories/session_repository.py.
pub mod Idle
mod Tests
use theft_detection_platform.Prelude.{
  ℕ, ◌-◌, ◌*◌, ◌≤◌, ◌≡◌, refl, sym, ap, subst, Bool, true, false, not, ◌&&◌, inl, inr, List, [],
  ◌∷◌, map, arith, ltb, leb, any, filter, length, take, bytes_eq, bytes_eq_refl, if◌then◌else◌,
  Bool-cases, List-cases, All, All-map,
}
use theft_detection_platform.Prelude.Table.{Table, touch}
use theft_detection_platform.Auth.Records.{Text, Session, Tables, AuthDb, RedisCommand, revoke_sid}
use theft_detection_platform.Auth.Repositories.{session_rows, revoked_session}
use theft_detection_platform.Auth.Refresh.{seconds}

abbrev pub max_per_cycle : ℕ
max_per_cycle = 500

abbrev pub is_idle : (cutoff : ℕ) → Session → Bool
is_idle cutoff s = not s.revoked && ltb s.last_used_at cutoff

abbrev pub is_listed : List Text → Session → Bool
is_listed session_ids s = any (bytes_eq s.id) session_ids && not s.revoked

module _ (T : Tables) where
  unfoldable pub idle_ids : (cutoff : ℕ) → AuthDb T → List Text
  idle_ids cutoff db = map (λ (s : Session). s.id) (filter (is_idle cutoff) (session_rows T db))

  -- The database afterwards, and the number of rows.
  unfoldable pub revoke_ids : List Text → AuthDb T → AuthDb T × ℕ
  revoke_ids [] db = (db, 0)
  revoke_ids (id ∷ ids) db = (
    record db {
      sessions = Table.update T.sessions (is_listed (id ∷ ids)) revoked_session db.sessions;
    },
    length (filter (is_listed (id ∷ ids)) (session_rows T db)),
  )

  -- The database afterwards, the number of sessions revoked, and the commands sent to Redis.
  unfoldable pub sweep_once :
      (idle_timeout access_ttl now : ℕ) → AuthDb T → AuthDb T × ℕ × List RedisCommand
  sweep_once idle_timeout access_ttl now db =
      let idle = idle_ids (now - seconds idle_timeout) db in
      let batch = take max_per_cycle idle in
      let (db1, revoked) = revoke_ids batch db in
      elim idle [
        | [] ↦ (db, 0, [])
        | _ ∷ _ ↦ (db1, revoked, map (λ id. revoke_sid id access_ttl) batch)
      ]
