-- ===== src/Auth/Tests.antt =====
-- Requests to the refresh handler on a small database, and the theorems at concrete inputs. The
-- identity stands for the hash of a refresh secret.
use theft_detection_platform.Prelude.{
  ℕ, ◌≤◌, ◌≡◌, ◌↔◌, refl, true, false, none, some, [], ◌∷◌, map, arith, bytes_eq, ok, err,
}
use theft_detection_platform.Prelude.Table.{list_table}
use theft_detection_platform.Auth.Records.{
  Text, RefreshToken, Session, User, AuditRecord, Tables, AuthDb, csrf_missing,
}
use theft_detection_platform.Auth.Repositories.{
  token_rows, rotated, get_by_jti, get_by_jti_and_hash, create_token, mark_rotated, revoke_family,
  get_session, touch_session, revoke_session, get_user, enqueue,
}
use theft_detection_platform.Auth.Refresh.{
  RefreshSettings, RefreshInput, Issued, build_refresh_token, split_dot, split_refresh_token,
  past_grace, follow, resolve_presented_refresh, kill_family_on_reuse, rotate, refresh_usable,
  refresh_stored, csrf_protect, refresh_body, refresh,
}
use theft_detection_platform.Auth.Rotation.{IsAuthorised, refresh-IsAuthorised}
use theft_detection_platform.Auth.Rotation.Live.{count_live, successor, refresh-count_live}
use theft_detection_platform.Auth.Rotation.Reuse.{reuse_is_final, refusal, revoking}

-- Everything that a run calls.
program : Unit {0}
unfolding bytes_eq rotated get_by_jti get_by_jti_and_hash create_token mark_rotated revoke_family
    get_session touch_session revoke_session get_user enqueue build_refresh_token split_dot
    split_refresh_token past_grace follow resolve_presented_refresh kill_family_on_reuse rotate
    refresh_usable refresh_stored csrf_protect refresh_body refresh
program = tt

abbrev tables : Tables
tables = record {
  tokens = list_table RefreshToken;
  sessions = list_table Session;
  users = list_table User;
  outbox = list_table AuditRecord;
}

abbrev same : Text → Text
same x = x

abbrev settings : RefreshSettings
settings = record {
  refresh_rotation_grace_seconds = 10;
  refresh_token_ttl_seconds = 1000;
  access_token_ttl_seconds = 60;
}

abbrev request : ℕ → Text → Text → RefreshInput
request now raw next_jti = record {
  now = now;
  cookie = some raw;
  csrf_cookie = some (12 ∷ []);
  csrf_header = some (12 ∷ []);
  ip = 8 ∷ [];
  user_agent = [];
  next_jti = next_jti;
  next_secret = 3 ∷ [];
}

abbrev first_token : RefreshToken
first_token = record {
  jti = 1 ∷ [];
  family_id = 7 ∷ [];
  session_id = 5 ∷ [];
  token_hash = 2 ∷ [];
  rotated_from = none;
  revoked = false;
  rotated_at = none;
  replaced_by = none;
  expires_at = 1000000000;
  created_at = 0;
}

abbrev login_session : Session
login_session = record {
  id = 5 ∷ [];
  user_id = 6 ∷ [];
  source_ip = 8 ∷ [];
  user_agent = [];
  revoked = false;
  created_at = 0;
  last_used_at = 0;
}

abbrev user : User
user = record {
  id = 6 ∷ [];
  username = 100 ∷ [];
  password_hash = [];
  roles = [];
  is_active = true;
  created_at = 0;
}

abbrev start : AuthDb tables
start = record {
  tokens = first_token ∷ [];
  sessions = login_session ∷ [];
  users = user ∷ [];
  outbox = [];
}

-- "1.2", with the digits' numbers for the digits
abbrev raw : Text
raw = 1 ∷ b'.' ∷ 2 ∷ []

abbrev first_request : RefreshInput
first_request = request 100 raw (4 ∷ [])

abbrev issued : Issued
issued = record {
  user_id = 6 ∷ [];
  username = 100 ∷ [];
  roles = [];
  session_id = 5 ∷ [];
  refresh_token = 4 ∷ b'.' ∷ 3 ∷ [];
}

answered : (refresh tables same settings first_request start).reply ≡ ok issued
unfolding program
answered = refl

unprotected :
    (refresh tables same settings (record first_request { csrf_header = none }) start).reply
    ≡ err csrf_missing
unfolding program
unprotected = refl

-- The database after the first request.
abbrev turned : AuthDb tables
turned = record start {
  tokens =
      record first_token { revoked = true; rotated_at = some 100; replaced_by = some (4 ∷ []) }
      ∷ successor same settings first_request first_token login_session
      ∷ [];
  sessions = record login_session { last_used_at = 100 } ∷ [];
  outbox = AuditRecord.token_refreshed (6 ∷ []) (5 ∷ []) (7 ∷ []) (8 ∷ []) [] ∷ [];
}

turned_lem : (refresh tables same settings first_request start).db ≡ turned
unfolding program
turned_lem = refl

-- Within the grace the old token is answered by its successor.
graceful :
    (refresh tables same settings (request 200 raw (9 ∷ [])) turned).reply
    ≡ ok (record issued { refresh_token = 9 ∷ b'.' ∷ 3 ∷ [] })
unfolding program
graceful = refl

abbrev spent : RefreshToken
spent = record first_token { revoked = true; rotated_at = some 100; replaced_by = some (4 ∷ []) }

abbrev late_request : RefreshInput
late_request = request 20000000 raw (9 ∷ [])

refresh-IsAuthorised_example :
    ((refresh tables same settings first_request start).reply ≡ ok issued)
    ↔ IsAuthorised tables same settings first_request start issued
refresh-IsAuthorised_example = refresh-IsAuthorised tables same settings first_request start issued

refresh-count_live_example :
    count_live (7 ∷ []) (token_rows tables (refresh tables same settings first_request start).db)
    ≤ count_live (7 ∷ []) (token_rows tables start)
refresh-count_live_example = refresh-count_live tables same settings first_request (7 ∷ []) start

abbrev closed : AuthDb tables
closed = record turned { tokens = map (revoking (7 ∷ [])) turned.tokens }

reuse_is_final_example :
    (refresh tables same settings
      (request 20000001 raw (9 ∷ []))
      (refresh_stored tables same settings late_request spent turned).db).reply
    ≡ refusal (csrf_protect (some (12 ∷ [])) (some (12 ∷ [])))
unfolding program
reuse_is_final_example =
    reuse_is_final tables same settings late_request (request 20000001 raw (9 ∷ [])) spent turned
      {at = 100} {raw = raw} {jti = 1 ∷ []} {secret = 2 ∷ []} {presented = spent} refl refl refl
      ((λ e next eq. ground arith), ((λ e next eq. ground arith), tt)) refl refl refl refl
