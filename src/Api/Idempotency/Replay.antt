-- ===== src/Api/Idempotency/Replay.antt =====
-- What a request with a key that has been used gets, services/api/app/core/idempotency.py.
use theft_detection_platform.Prelude.{
  ◌≡◌, refl, ap, ◌∙◌, subst, Bool, false, inl, inr, some, List, ◌∷◌, ◌++◌, arith, String, str_eq,
  eq_iff, if◌then◌else◌, Bool-cases, ok, err, All,
}
use theft_detection_platform.Api.Alerts.{conflict}
use theft_detection_platform.Api.Idempotency.{
  pending, finished, Redis, Request, hit, cache_key, replay, begin, store, release, finish,
}
use theft_detection_platform.Api.Idempotency.Single.{
  Running, World, state_of, Holds, IsSingle, Step, let_through, ended, Reachable, here, after,
  finish_redis, begin_redis, put_other, put_same, ended-IsSingle, drop_one, set_nx-some,
  reachable-IsSingle,
}

module _ (Body : Type 0) (body_eq : Body → Body → Bool) (hash_body : String → String) where
  step-finished :
      {w next : World Body} (key : String) (b : Body) (h : String)
      → IsSingle Body w
      → Step Body body_eq hash_body w next
      → w.redis key ≡ some (finished b h)
      → next.redis key ≡ some (finished b h)
  step-finished {w} key b h s (let_through request token r begun) at =
      let (free, stored) = begin_redis Body body_eq hash_body request token r w.redis begun in
      elim (Bool-cases (str_eq key r.key)) [
        | inl same ↦ absurd (ground (arith, ap w.redis ((eq_iff key r.key).0 same)))
        | inr other ↦
            ap (λ redis. redis key) stored
            ∙ put_other Body body_eq hash_body r.key key _ w.redis other
            ∙ at
      ]
  step-finished {w} key b h s (ended result front r rest parts) at =
      let holds =
        (drop_one Body body_eq hash_body _ front r rest
          (subst (All (Holds Body w.redis)) parts s.holds)).1 in
      elim (Bool-cases (str_eq key r.key)) [
        | inl same ↦ absurd (ground (arith, ap w.redis ((eq_iff key r.key).0 same)))
        | inr other ↦ finish_redis Body body_eq hash_body result r w.redis key other ∙ at
      ]

  reachable-finished :
      (start w : World Body) (key : String) (b : Body) (h : String)
      → IsSingle Body start
      → Reachable Body body_eq hash_body start w
      → start.redis key ≡ some (finished b h)
      → w.redis key ≡ some (finished b h)
  reachable-finished start _ key b h s here at = at
  reachable-finished start _ key b h s (after w next run step) at =
      step-finished key b h (reachable-IsSingle Body body_eq hash_body start w s run) step
        (reachable-finished start w key b h s run at)

  finish_stores :
      (b : Body) (r : Running) (redis : Redis Body)
      → (finish Body body_eq (some b) (state_of Body r) redis).0 r.key
        ≡ some (finished b r.body_hash)
  unfolding finish store release
  finish_stores b r redis = put_same Body body_eq hash_body r.key _ redis

  begin_replays :
      (request : Request Body) (token header : String) (b : Body) (h : String) (redis : Redis Body)
      → request.header_value ≡ some header
      → str_eq header "" ≡ false
      → redis (cache_key Body request.method request.path header) ≡ some (finished b h)
      → begin Body hash_body token (λ redis. redis) request redis ≡ (
        redis,
        if str_eq h (hash_body request.body)
            then ok (
                hit Body
                  (cache_key Body request.method request.path header)
                  (hash_body request.body)
                  b)
            else err conflict,
      )
  unfolding begin replay
  begin_replays request token header b h redis sent named at =
      let key = cache_key Body request.method request.path header in
      rw
        (
          begin,
          sent,
          named,
          set_nx-some Body body_eq hash_body key (pending (hash_body request.body) token)
              (finished b h) redis at,
          at,
        )
        (elim (Bool-cases (str_eq h (hash_body request.body))) [
          | inl same ↦ rw same refl
          | inr other ↦ rw other refl
        ])

  -- Once a request that runs alone on its key has ended with a result, and as long as no key
  -- expires, every later request with that key is answered from what is stored, without running:
  -- with that result where its body has the same hash, and with a conflict where it has another.
  pub replay_lem :
      (start w : World Body) (front : List Running) (r : Running) (rest : List Running) (b : Body)
      (request : Request Body) (token header : String)
      → IsSingle Body start
      → start.running ≡ front ++ r ∷ rest
      → Reachable Body body_eq hash_body
          (record {
            redis = (finish Body body_eq (some b) (state_of Body r) start.redis).0;
            running = front ++ rest;
          })
          w
      → request.header_value ≡ some header
      → str_eq header "" ≡ false
      → cache_key Body request.method request.path header ≡ r.key
      → begin Body hash_body token (λ redis. redis) request w.redis ≡ (
        w.redis,
        if str_eq r.body_hash (hash_body request.body)
            then ok (hit Body r.key (hash_body request.body) b)
            else err conflict,
      )
  replay_lem start w front r rest b request token header s parts run sent named same =
      let at =
        reachable-finished _ w r.key b r.body_hash
          (ended-IsSingle Body body_eq hash_body start (some b) front r rest parts s) run
          (finish_stores b r start.redis) in
      subst
        (λ key. begin Body hash_body token (λ redis. redis) request w.redis ≡ (
          w.redis,
          if str_eq r.body_hash (hash_body request.body)
              then ok (hit Body key (hash_body request.body) b)
              else err conflict,
        ))
        same
        (begin_replays request token header b r.body_hash w.redis sent named (ap w.redis same ∙ at))
