-- ===== src/Notification/Worker/Letters.antt =====
-- The dead letters of a delivery, services/notification/app/worker/tasks.py.
use theft_detection_platform.Prelude.{
  ℕ, String, ◌≡◌, refl, sym, subst, Bool, true, false, ◌⊎◌, inl, inr, Option, none, some, List, [],
  ◌∷◌, ◌++◌, arith, any, ◌∙◌, str_eq, str_append, Bool-cases, Option-cases, Result, ok, err,
  Result-cases,
}
use theft_detection_platform.Prelude.Collection.{Collection}
use theft_detection_platform.Notification.Records.{
  sent, DeliveryIntent, DeadLetter, TelegramError, unreachable, permanent, transient, Collections,
  NotifyDb, status_eq,
}
use theft_detection_platform.Notification.Repository.{
  letters, find_one_and_update, get_by_id, create_letter, mark_sending,
}
use theft_detection_platform.Notification.Repository.Lookup.{get_by_id-id}
use theft_detection_platform.Notification.Worker.{
  World, Sending, Reply, Run, bury, letter_of, send_snapshot, dispatch_prompt, dispatch,
  require_clip, on_error, on_sent, attempt, deliver_claimed, deliver, unconfigured_recipient,
}

-- The results with which a delivery gives up for good.
abbrev pub is_fatal : Result TelegramError Reply → Bool
is_fatal (err e) = false
is_fatal (ok reply) = elim reply.reason [
  | none ↦ false
  | some reason ↦
      any (str_eq reason) ("unconfigured" ∷ "render" ∷ "permanent" ∷ "dead" ∷ "declined" ∷ [])
]

-- A run that gives up adds one dead letter for the intent, any other run adds none.
abbrev pub Buries : {K : Collections} → String → List DeadLetter → Run K → Type 0
Buries {K} id before run =
    ((is_fatal run.reply ≡ false) × (letters K run.db ≡ before))
    ⊎ ((is_fatal run.reply ≡ true)
        × ((letter : DeadLetter) × (letters K run.db ≡ before ++ letter ∷ [])
            × (letter.intent_id ≡ some id)))

module _ (world : World) (K : Collections) where
  pub letters-bury :
      (intent : DeliveryIntent) (attempts : ℕ) (error : String) (db : NotifyDb K)
      → letters K (bury world K intent attempts error db)
        ≡ letters K db ++ letter_of intent attempts world.now error ∷ []
  unfolding bury create_letter find_one_and_update
  letters-bury intent attempts error db = Collection.docs-insert_one K.letters _ db.letters

  letters-dispatch :
      (intent : DeliveryIntent) (text : String) (photo_path clip_path : Option String)
      (db : NotifyDb K)
      → letters K (dispatch world K intent text photo_path clip_path db).0 ≡ letters K db
  unfolding dispatch dispatch_prompt send_snapshot find_one_and_update
  letters-dispatch intent text photo_path clip_path db = ground arith

  letters-require_clip :
      (id : String) (clip_path : Option String) (final_attempt : Bool) (db : NotifyDb K)
      → letters K (require_clip world K id clip_path final_attempt db).0 ≡ letters K db
  unfolding require_clip find_one_and_update
  letters-require_clip id clip_path final_attempt db = ground arith

  Buries-on_error :
      (intent : DeliveryIntent) (attempts : ℕ) (final_attempt : Bool) (e : TelegramError)
      (db : NotifyDb K)
      → Buries intent.id (letters K db) (on_error world K intent attempts final_attempt e db)
  unfolding on_error find_one_and_update
  Buries-on_error intent attempts final_attempt (unreachable error) db = inl (refl, refl)
  Buries-on_error intent attempts final_attempt (permanent error) db = inr (
    refl,
    (letter_of intent attempts world.now error, letters-bury intent attempts error db, refl),
  )
  Buries-on_error intent attempts true (transient error) db = inr (
    refl,
    (letter_of intent attempts world.now error, letters-bury intent attempts error db, refl),
  )
  Buries-on_error intent attempts false (transient error) db = inl (refl, refl)

  Buries-on_sent :
      (intent : DeliveryIntent) (attempts : ℕ) (final_attempt : Bool) (answer : Sending)
      (db : NotifyDb K)
      → Buries intent.id (letters K db) (on_sent world K intent attempts final_attempt answer db)
  unfolding on_sent find_one_and_update
  Buries-on_sent intent attempts final_attempt (err e) db =
      Buries-on_error intent attempts final_attempt e db
  Buries-on_sent intent attempts final_attempt (ok none) db = inr (
    refl,
    (
      letter_of intent attempts world.now "telegram declined",
      letters-bury intent attempts "telegram declined" db,
      refl,
    ),
  )
  Buries-on_sent intent attempts final_attempt (ok (some ref)) db = inl (refl, refl)

  Buries-attempt :
      (intent : DeliveryIntent) (attempts : ℕ) (final_attempt : Bool) (text : String)
      (photo_path clip_path : Option String) (db : NotifyDb K)
      → Buries intent.id
          (letters K db)
          (attempt world K intent attempts final_attempt text photo_path clip_path db)
  unfolding attempt
  Buries-attempt intent attempts final_attempt text photo_path clip_path db =
      let waited = (require_clip world K intent.id clip_path final_attempt db).0 in
      let same = letters-require_clip intent.id clip_path final_attempt db in
      elim (Result-cases (require_clip world K intent.id clip_path final_attempt db).1) [
        | inr (e, raised) ↦
            rw (raised, attempt)
              (subst
                (λ before.
                  Buries intent.id before (on_error world K intent attempts final_attempt e waited))
                same (Buries-on_error intent attempts final_attempt e waited))
        | inl (_, ready) ↦
            let sending = dispatch world K intent text photo_path clip_path waited in
            rw (ready, attempt)
              (subst
                (λ before.
                  Buries intent.id before
                    (on_sent world K intent attempts final_attempt sending.1 sending.0))
                (letters-dispatch intent text photo_path clip_path waited ∙ same)
                (Buries-on_sent intent attempts final_attempt sending.1 sending.0))
      ]

  Buries-deliver_claimed :
      (intent : DeliveryIntent) (attempts : ℕ) (final_attempt : Bool) (db : NotifyDb K)
      → Buries intent.id (letters K db) (deliver_claimed world K intent attempts final_attempt db)
  unfolding deliver_claimed
  Buries-deliver_claimed intent attempts final_attempt db =
      elim (Result-cases (world.render intent.source intent.payload)) [
        | inr (exc, refused) ↦
            rw (refused, deliver_claimed)
              (inr (
                refl,
                (
                  letter_of intent attempts world.now (str_append "render failed: " exc),
                  letters-bury intent attempts (str_append "render failed: " exc) db,
                  refl,
                ),
              ))
        | inl ((text, photo_path, clip_path), rendered) ↦
            rw (rendered, deliver_claimed)
              (Buries-attempt intent attempts final_attempt text photo_path clip_path db)
      ]

  Buries-found :
      (intent : DeliveryIntent) (final_attempt : Bool) (seen db : NotifyDb K)
      → get_by_id K intent.id seen ≡ some intent
      → Buries intent.id (letters K db) (deliver world K intent.id final_attempt seen db)
  unfolding deliver find_one_and_update
  Buries-found intent final_attempt seen db found =
      elim (Bool-cases (status_eq intent.status sent)) [
        | inl done ↦ rw (found, done, deliver) (inl (refl, refl))
        | inr open_ ↦ elim (Bool-cases (str_eq intent.recipient unconfigured_recipient)) [
          | inl unset ↦
              rw (found, open_, unset, deliver)
                (inr (
                  refl,
                  (
                    letter_of intent intent.attempts world.now "telegram not configured",
                    letters-bury intent intent.attempts "telegram not configured" db,
                    refl,
                  ),
                ))
          | inr set ↦ elim (Bool-cases world.gate_raised) [
            | inl shut ↦ rw (found, open_, set, shut, deliver) (inl (refl, refl))
            | inr free ↦ elim (Option-cases (mark_sending K intent.id world.now db).1) [
              | inl taken ↦ rw (found, open_, set, free, taken, deliver) (inl (refl, refl))
              | inr (claimed, held) ↦
                  rw (found, open_, set, free, held, deliver)
                    (Buries-deliver_claimed intent claimed.attempts final_attempt
                      (mark_sending K intent.id world.now db).0)
            ]
          ]
        ]
      ]

-- A delivery adds one dead letter, which names the intent, exactly when its result says that it
-- has given up (unconfigured, render, permanent, dead, declined), and none otherwise.
pub deliver-Buries :
    (world : World) (K : Collections) (intent_id : String) (final_attempt : Bool)
    (seen db : NotifyDb K)
    → Buries intent_id (letters K db) (deliver world K intent_id final_attempt seen db)
unfolding deliver get_by_id
deliver-Buries world K intent_id final_attempt seen db =
    elim (Option-cases (get_by_id K intent_id seen)) [
      | inl missing ↦ rw (missing, deliver) (inl (refl, refl))
      | inr (intent, found) ↦
          let same = get_by_id-id K intent_id seen {d = intent} found in
          subst (λ id. Buries id (letters K db) (deliver world K id final_attempt seen db)) same
            (Buries-found world K intent final_attempt seen db
              (subst (λ id. get_by_id K id seen ≡ some intent) (sym same) found))
    ]
