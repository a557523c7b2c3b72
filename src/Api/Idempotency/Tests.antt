-- ===== src/Api/Idempotency/Tests.antt =====
-- Requests with the same idempotency key, and the theorems at concrete inputs.
use theft_detection_platform.Prelude.{
  ℕ, ◌≡◌, refl, true, false, none, some, [], ◌∷◌, Bool, ok, err, String, str_eq, ◌==◌,
  if◌then◌else◌,
}
use theft_detection_platform.Api.Alerts.{conflict, request_in_progress}
use theft_detection_platform.Api.Idempotency.{
  Request, pending, set_nx, replay, begin, store, release, finish, hit,
}
use theft_detection_platform.Api.Idempotency.Single.{
  Running, World, IsSingle, Step, let_through, here, after, reachable-IsSingle,
}
use theft_detection_platform.Api.Idempotency.Replay.{replay_lem}

-- Everything that a run calls.
program : Unit {0}
unfolding set_nx replay begin store release finish
program = tt

abbrev request : (header body : String) → Request ℕ
request header body = record {
  method = "POST";
  path = "/alerts";
  header_value = some header;
  body = body;
}

abbrev hash : String → String
hash body = body

abbrev same_body : ℕ → ℕ → Bool
same_body a b = a == b

abbrev nothing : World ℕ
nothing = record { redis = λ key. none; running = [] }

abbrev runner : Running
runner = record { key = "idem:POST:/alerts:k"; body_hash = "x"; token = "t" }

abbrev busy : World ℕ
busy = record {
  redis = (begin ℕ hash "t" (λ redis. redis) (request "k" "x") nothing.redis).0;
  running = runner ∷ [];
}

abbrev done : World ℕ
done = record {
  redis =
      (finish ℕ same_body (some 7)
        (record {
          cached_response = none;
          store_key = some "idem:POST:/alerts:k";
          body_hash = some "x";
          has_redis = true;
          claim = some (pending "x" "t");
          stored = false;
        })
        busy.redis).0;
  running = [];
}

in_progress :
    (begin ℕ hash "u" (λ redis. redis) (request "k" "x") busy.redis).1 ≡ err (request_in_progress 1)
unfolding program
in_progress = refl

reused : (begin ℕ hash "u" (λ redis. redis) (request "k" "y") busy.redis).1 ≡ err conflict
unfolding program
reused = refl

replayed :
    (begin ℕ hash "u" (λ redis. redis) (request "k" "x") done.redis).1
    ≡ ok (hit ℕ "idem:POST:/alerts:k" "x" 7)
unfolding program
replayed = refl

nothing-IsSingle : IsSingle ℕ nothing
nothing-IsSingle = record { holds = tt; one_each = tt }

starts : Step ℕ same_body hash nothing busy
unfolding program
starts = let_through (request "k" "x") "t" runner refl

reachable-IsSingle_example : IsSingle ℕ busy
reachable-IsSingle_example =
    reachable-IsSingle ℕ same_body hash nothing busy nothing-IsSingle
      (after nothing busy here starts)

busy-IsSingle : IsSingle ℕ busy
unfolding program
busy-IsSingle = record { holds = (refl, tt); one_each = (tt, tt) }

replay_lem_example :
    begin ℕ hash "u" (λ redis. redis) (request "k" "x") done.redis
    ≡ (done.redis, if str_eq "x" "x" then ok (hit ℕ "idem:POST:/alerts:k" "x" 7) else err conflict)
replay_lem_example =
    replay_lem ℕ same_body hash busy done [] runner [] 7 (request "k" "x") "u" "k" busy-IsSingle
      refl here refl refl refl
