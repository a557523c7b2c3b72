-- ===== src/Api/Idempotency/Single.antt =====
-- Requests with idempotency keys that run side by side, services/api/app/core/idempotency.py, as
-- long as no key expires.
use theft_detection_platform.Prelude.{
  ◌≡◌, ◌≢◌, refl, sym, ap₂, ◌∙◌, subst, Bool, true, false, inl, inr, Option, none, some, List, [],
  ◌∷◌, ◌++◌, arith, String, str_eq, eq_iff, eq_refl, Bool-cases, Option-cases, ok, All, All-imp,
}
use theft_detection_platform.Api.Idempotency.{
  Entry, pending, finished, Redis, put, IdempotencyState, Request, holding, cache_key, set_nx,
  replay, begin, store, release, finish,
}

-- A request that holds the claim of its key.
pub record Running : Type 0 where
  pub key : String
  pub body_hash : String
  pub token : String

-- No two requests that run have the same key.
abbrev pub HasOneEach : List Running → Type 0
HasOneEach [] = Unit
HasOneEach (r ∷ running) = All (λ s. str_eq s.key r.key ≡ false) running × HasOneEach running

module _ (Body : Type 0) where
  pub record World : Type 0 where
    pub redis : Redis Body
    pub running : List Running

  abbrev pub claim_of : Running → Entry Body
  claim_of r = pending r.body_hash r.token

  abbrev pub state_of : Running → IdempotencyState Body
  state_of r = holding Body r.key r.body_hash (claim_of r)

  abbrev pub Holds : Redis Body → Running → Type 0
  Holds redis r = redis r.key ≡ some (claim_of r)

  pub record IsSingle (w : World) : Type 0 where
    pub holds : All (Holds w.redis) w.running
    pub one_each : HasOneEach w.running

  module _ (body_eq : Body → Body → Bool) (hash_body : String → String) where
    -- A request is let through, or is answered at once; or one that runs ends, with a result or
    -- without.
    pub data Step (w : World) : World → Type 0 where
      let_through :
          (request : Request Body) (token : String) (r : Running)
          → (begin Body hash_body token (λ redis. redis) request w.redis).1 ≡ ok (state_of r)
          → Step w (record {
            redis = (begin Body hash_body token (λ redis. redis) request w.redis).0;
            running = r ∷ w.running;
          })
      ended :
          (result : Option Body) (front : List Running) (r : Running) (rest : List Running)
          → w.running ≡ front ++ r ∷ rest
          → Step w (record {
            redis = (finish Body body_eq result (state_of r) w.redis).0;
            running = front ++ rest;
          })

    pub data Reachable (start : World) : World → Type 0 where
      here : Reachable start start
      after : (w next : World) → Reachable start w → Step w next → Reachable start next

    -- What the end of a request does to Redis: only its own key changes.
    pub finish_redis :
        (result : Option Body) (r : Running) (redis : Redis Body) (key : String)
        → str_eq key r.key ≡ false
        → (finish Body body_eq result (state_of r) redis).0 key ≡ redis key
    unfolding finish store release
    finish_redis none r redis key other = ground arith
    finish_redis (some body) r redis key other = ground arith

    set_nx-none :
        (key : String) (entry : Entry Body) (redis : Redis Body)
        → redis key ≡ none
        → set_nx Body key entry redis ≡ (put Body key (some entry) redis, true)
    unfolding set_nx
    set_nx-none key entry redis free = rw (set_nx, free) refl

    pub set_nx-some :
        (key : String) (entry there : Entry Body) (redis : Redis Body)
        → redis key ≡ some there
        → set_nx Body key entry redis ≡ (redis, false)
    unfolding set_nx
    set_nx-some key entry there redis full = rw (set_nx, full) refl

    replay-ne-holding :
        (key body_hash : String) (entry : Option (Entry Body)) (r : Running)
        → replay Body key body_hash entry ≢ ok (state_of r)
    unfolding replay
    replay-ne-holding key body_hash none r h = ground arith
    replay-ne-holding key body_hash (some (pending h' t)) r h = ground arith
    replay-ne-holding key body_hash (some (finished b h')) r h = ground arith

    -- A request that is let through has found nothing under its key.
    pub begin_redis :
        (request : Request Body) (token : String) (r : Running) (redis : Redis Body)
        → (begin Body hash_body token (λ redis. redis) request redis).1 ≡ ok (state_of r)
        → (redis r.key ≡ none)
          × ((begin Body hash_body token (λ redis. redis) request redis).0
              ≡ put Body r.key (some (claim_of r)) redis)
    unfolding begin
    begin_redis request token r redis h = elim (Option-cases request.header_value) [
      | inl none_ ↦ absurd (ground arith)
      | inr (header, sent) ↦ elim (Bool-cases (str_eq header "")) [
        | inl empty ↦ absurd (ground arith)
        | inr named ↦
            let key = cache_key Body request.method request.path header in
            let claim : Entry Body = pending (hash_body request.body) token in
            elim (Option-cases (redis key)) [
              | inr (there, full) ↦ absurd (
                  ground (
                    arith,
                    set_nx-some key claim there redis full,
                    replay-ne-holding key (hash_body request.body) (redis key) r,
                  ))
              | inl free ↦
                  let same : (key ≡ r.key)
                      × (hash_body request.body ≡ r.body_hash)
                      × (token ≡ r.token) =
                    ground (arith, set_nx-none key claim redis free) in
                  let first : (begin Body hash_body token (λ redis. redis) request redis).0
                      ≡ put Body key (some claim) redis =
                    rw (begin, sent, named, set_nx-none key claim redis free) refl in
                  (
                    subst (λ k. redis k ≡ none) same.0 free,
                    first
                        ∙ ap₂ (λ k c. put Body k (some c) redis) same.0
                            (ap₂ (λ h t. pending h t) same.1 same.2),
                  )
            ]
      ]
    ]

    pub put_other :
        (key k : String) (entry : Option (Entry Body)) (redis : Redis Body)
        → str_eq k key ≡ false
        → put Body key entry redis k ≡ redis k
    put_other key k entry redis other = rw other refl

    pub put_same :
        (key : String) (entry : Option (Entry Body)) (redis : Redis Body)
        → put Body key entry redis key ≡ entry
    put_same key entry redis = rw (eq_refl key) refl

    -- The keys of those that run are taken, so that a free key is none of them.
    pub free-ne-held :
        (redis : Redis Body) (key : String) (running : List Running)
        → redis key ≡ none
        → All (Holds redis) running
        → All (λ s. str_eq s.key key ≡ false) running
    free-ne-held redis key running free held =
        All-imp (Holds redis) (λ s. str_eq s.key key ≡ false) running
          (λ s has. elim (Bool-cases (str_eq s.key key)) [
            | inr other ↦ other
            | inl same ↦ absurd (
                ground
                  (arith, subst (λ k. redis k ≡ none) (sym ((eq_iff s.key key).0 same)) free, has))
          ])
          held

    keeps :
        (redis : Redis Body) (key : String) (entry : Option (Entry Body)) (running : List Running)
        → All (λ s. str_eq s.key key ≡ false) running
        → All (Holds redis) running
        → All (Holds (put Body key entry redis)) running
    keeps redis key entry [] others held = tt
    keeps redis key entry (s ∷ running) others held = (
      put_other key s.key entry redis others.0 ∙ held.0,
      keeps redis key entry running others.1 held.1,
    )

    begun-IsSingle :
        (w : World) (request : Request Body) (token : String) (r : Running)
        → (begin Body hash_body token (λ redis. redis) request w.redis).1 ≡ ok (state_of r)
        → IsSingle w
        → IsSingle (record {
          redis = (begin Body hash_body token (λ redis. redis) request w.redis).0;
          running = r ∷ w.running;
        })
    begun-IsSingle w request token r h s =
        let (free, stored) = begin_redis request token r w.redis h in
        let others = free-ne-held w.redis r.key w.running free s.holds in
        record {
          holds =
              subst (λ redis. All (Holds redis) (r ∷ w.running)) (sym stored)
                (
                  put_same r.key (some (claim_of r)) w.redis,
                  keeps w.redis r.key (some (claim_of r)) w.running others s.holds,
                );
          one_each = (others, s.one_each);
        }

    pub drop_one :
        (P : Running → Type 0) (front : List Running) (r : Running) (rest : List Running)
        → All P (front ++ r ∷ rest)
        → All P (front ++ rest) × P r
    drop_one P [] r rest h = (h.1, h.0)
    drop_one P (x ∷ front) r rest h =
        let (others, its) = drop_one P front r rest h.1 in ((h.0, others), its)

    pub swapped : (a b : String) → str_eq a b ≡ false → str_eq b a ≡ false
    swapped a b h = elim (Bool-cases (str_eq b a)) [
      | inr other ↦ other
      | inl same ↦
          absurd
            (ground (arith, subst (λ x. str_eq x b ≡ true) ((eq_iff b a).0 same) (eq_refl b), h))
    ]

    -- Those that go on have other keys than the one that ends.
    without :
        (front : List Running) (r : Running) (rest : List Running)
        → HasOneEach (front ++ r ∷ rest)
        → HasOneEach (front ++ rest) × All (λ s. str_eq s.key r.key ≡ false) (front ++ rest)
    without [] r rest h = (h.1, h.0)
    without (x ∷ front) r rest h =
        let deeper = without front r rest h.1 in
        let (others, apart) = drop_one _ front r rest h.0 in
        ((others, deeper.0), (swapped r.key x.key apart, deeper.1))

    still :
        (result : Option Body) (r : Running) (redis : Redis Body) (running : List Running)
        → All (λ s. str_eq s.key r.key ≡ false) running
        → All (Holds redis) running
        → All (Holds (finish Body body_eq result (state_of r) redis).0) running
    still result r redis [] others held = tt
    still result r redis (s ∷ running) others held = (
      finish_redis result r redis s.key others.0 ∙ held.0,
      still result r redis running others.1 held.1,
    )

    pub ended-IsSingle :
        (w : World) (result : Option Body) (front : List Running) (r : Running)
        (rest : List Running)
        → w.running ≡ front ++ r ∷ rest
        → IsSingle w
        → IsSingle (record {
          redis = (finish Body body_eq result (state_of r) w.redis).0;
          running = front ++ rest;
        })
    ended-IsSingle w result front r rest parts s =
        let (each, others) = without front r rest (subst HasOneEach parts s.one_each) in
        let held = (drop_one _ front r rest (subst (All (Holds w.redis)) parts s.holds)).0 in
        record { holds = still result r w.redis (front ++ rest) others held; one_each = each }

    step-IsSingle : {w next : World} → Step w next → IsSingle w → IsSingle next
    step-IsSingle {w} (let_through request token r h) s = begun-IsSingle w request token r h s
    step-IsSingle {w} (ended result front r rest parts) s =
        ended-IsSingle w result front r rest parts s

    -- As long as no key expires, no two requests with the same key run side by side, whatever
    -- requests are let through and end in whatever order, from a world in which that is so.
    pub reachable-IsSingle : (start w : World) → IsSingle start → Reachable start w → IsSingle w
    reachable-IsSingle start _ s here = s
    reachable-IsSingle start _ s (after w next run step) =
        step-IsSingle step (reachable-IsSingle start w s run)
