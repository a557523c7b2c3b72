-- ===== src/Notification/Worker/Delivered.antt =====
-- The status that a delivery leaves, services/notification/app/worker/tasks.py.
use theft_detection_platform.Prelude.{
  ℕ, String, ◌≡◌, refl, subst, ◌∙◌, Bool, true, false, not, ◌||◌, inl, inr, Option, none, some,
  arith, str_eq, str_append, if◌then◌else◌, Bool-cases, Option-cases, Result, ok, err, Result-cases,
}
use theft_detection_platform.Notification.Records.{
  DeliveryStatus, sent, failed, dead, DeliveryIntent, TelegramError, unreachable, permanent,
  transient, Collections, NotifyDb, status_eq,
}
use theft_detection_platform.Notification.Repository.{
  has_id, claimable, as_dead, as_failed, as_sent, as_sending, find_one_and_update, get_by_id,
  mark_sending,
}
use theft_detection_platform.Notification.Repository.Lookup.{
  Exists, Exists-find_one_and_update, get_by_id-find_one_and_update, get_by_id-create_letter,
  get_by_id-id,
}
use theft_detection_platform.Notification.Worker.{
  World, Sending, keyboard_for, Reply, Run, bury, letter_of, send_snapshot, dispatch_prompt,
  dispatch, require_clip, on_error, on_sent, attempt, deliver_claimed, deliver,
  unconfigured_recipient, given,
}
use theft_detection_platform.Notification.Worker.Letters.{is_fatal}

-- The status that a result announces: sent, dead, or failed where the error is raised again.
abbrev pub announced : Result TelegramError Reply → Option DeliveryStatus
announced (err e) = some failed
announced (ok reply) = elim reply.reason [
  | none ↦ some sent
  | some reason ↦ if is_fatal (ok reply) then some dead else none
]

abbrev pub HasStatus : (K : Collections) → String → DeliveryStatus → NotifyDb K → Type 0
HasStatus K id status db = (d : DeliveryIntent) × (get_by_id K id db ≡ some d) × (d.status ≡ status)

abbrev Ends : {K : Collections} → String → Run K → Type 0
Ends {K} id run = (s : DeliveryStatus) → announced run.reply ≡ some s → HasStatus K id s run.db

module _ (world : World) (K : Collections) (intent : DeliveryIntent) where
  pub dead-bury :
      (attempts : ℕ) (error : String) (db : NotifyDb K)
      → Exists K intent.id db
      → HasStatus K intent.id dead (bury world K intent attempts error db)
  unfolding bury
  dead-bury attempts error db (d, found) = (
    as_dead world.now error d,
    get_by_id-create_letter K intent.id (letter_of intent attempts world.now error)
          (find_one_and_update K (has_id intent.id) (as_dead world.now error) db).0
        ∙ get_by_id-find_one_and_update K intent.id (as_dead world.now error) db {d = d} (λ e. refl)
            found,
    refl,
  )

  Ends-bury :
      (attempts : ℕ) (error : String) (db : NotifyDb K) (s : DeliveryStatus)
      → Exists K intent.id db
      → some dead ≡ some s
      → HasStatus K intent.id s (bury world K intent attempts error db)
  Ends-bury attempts error db s here e =
      subst (λ t. HasStatus K intent.id t (bury world K intent attempts error db)) (ground arith)
        (dead-bury attempts error db here)

  Ends-on_error :
      (attempts : ℕ) (final_attempt : Bool) (e : TelegramError) (db : NotifyDb K)
      → Exists K intent.id db
      → Ends intent.id (on_error world K intent attempts final_attempt e db)
  unfolding on_error
  Ends-on_error attempts final_attempt (unreachable error) db here s e = absurd (ground arith)
  Ends-on_error attempts final_attempt (permanent error) db here s e =
      Ends-bury attempts error db s here e
  Ends-on_error attempts true (transient error) db here s e = Ends-bury attempts error db s here e
  Ends-on_error attempts false (transient error) db (d, found) s e = (
    as_failed world.now error d,
    get_by_id-find_one_and_update K intent.id (as_failed world.now error) db {d = d} (λ x. refl)
        found,
    ground arith,
  )

  Ends-on_sent :
      (attempts : ℕ) (final_attempt : Bool) (answer : Sending) (db : NotifyDb K)
      → Exists K intent.id db
      → Ends intent.id (on_sent world K intent attempts final_attempt answer db)
  unfolding on_sent
  Ends-on_sent attempts final_attempt (err x) db here s e =
      Ends-on_error attempts final_attempt x db here s e
  Ends-on_sent attempts final_attempt (ok none) db here s e =
      Ends-bury attempts "telegram declined" db s here e
  Ends-on_sent attempts final_attempt (ok (some ref)) db (d, found) s e = (
    as_sent world.now (some ref) d,
    get_by_id-find_one_and_update K intent.id (as_sent world.now (some ref)) db {d = d} (λ x. refl)
        found,
    ground arith,
  )

  Exists-require_clip :
      (clip_path : Option String) (final_attempt : Bool) (db : NotifyDb K)
      → Exists K intent.id db
      → Exists K intent.id (require_clip world K intent.id clip_path final_attempt db).0
  unfolding require_clip
  Exists-require_clip clip_path final_attempt db here = elim (Option-cases (given clip_path)) [
    | inl unset ↦ rw (unset, require_clip) here
    | inr (path, set) ↦
        elim (Bool-cases
          (not (world.clip_missing path) || not (world.clip_late path) || final_attempt)) [
            | inl go_on ↦ rw (set, go_on, require_clip) here
            | inr late ↦
                rw (set, late, require_clip)
                  (Exists-find_one_and_update K intent.id (has_id intent.id)
                    (as_failed world.now "clip not written yet") db (λ e. refl) here)
          ]
  ]

  Exists-send_snapshot :
      (cover text : String) (db : NotifyDb K)
      → Exists K intent.id db
      → Exists K intent.id (send_snapshot world K intent cover text db).0
  unfolding send_snapshot
  Exists-send_snapshot cover text db here = elim (Option-cases intent.telegram_snapshot) [
    | inr (old, shown) ↦ rw (shown, send_snapshot) here
    | inl fresh ↦ elim (Result-cases (world.send_photo cover text)) [
      | inr (e, raised) ↦ rw (fresh, raised, send_snapshot) here
      | inl (none, declined) ↦ rw (fresh, declined, send_snapshot) here
      | inl (some snapshot, shown) ↦
          rw (fresh, shown, send_snapshot)
            (Exists-find_one_and_update K intent.id (has_id intent.id)
              (λ d. record d { telegram_snapshot = some snapshot; updated_at = world.now }) db
              (λ e. refl) here)
    ]
  ]

  Exists-dispatch_prompt :
      (text : String) (cover clip_path : Option String) (keyboard : String) (db : NotifyDb K)
      → Exists K intent.id db
      → Exists K intent.id (dispatch_prompt world K intent text cover clip_path keyboard db).0
  unfolding dispatch_prompt
  Exists-dispatch_prompt text none clip_path keyboard db here = here
  Exists-dispatch_prompt text (some cover) clip_path keyboard db here =
      elim (Result-cases (send_snapshot world K intent cover text db).1) [
        | inr (e, raised) ↦ rw (raised, dispatch_prompt) (Exists-send_snapshot cover text db here)
        | inl (shown, done) ↦ rw (done, dispatch_prompt) (Exists-send_snapshot cover text db here)
      ]

  Exists-dispatch :
      (text : String) (photo_path clip_path : Option String) (db : NotifyDb K)
      → Exists K intent.id db
      → Exists K intent.id (dispatch world K intent text photo_path clip_path db).0
  unfolding dispatch
  Exists-dispatch text photo_path clip_path db here =
      let cover : Option String = elim (given photo_path) [
        | none ↦ none
        | some p ↦ some (world.prefer_annotated p)
      ] in
      elim (Option-cases (keyboard_for world intent)) [
        | inl plain ↦ rw (plain, dispatch) here
        | inr (keyboard, shown) ↦
            rw (shown, dispatch)
              (Exists-dispatch_prompt text cover (given clip_path) keyboard db here)
      ]

  Ends-attempt :
      (attempts : ℕ) (final_attempt : Bool) (text : String) (photo_path clip_path : Option String)
      (db : NotifyDb K)
      → Exists K intent.id db
      → Ends intent.id (attempt world K intent attempts final_attempt text photo_path clip_path db)
  unfolding attempt
  Ends-attempt attempts final_attempt text photo_path clip_path db here =
      let waited = (require_clip world K intent.id clip_path final_attempt db).0 in
      let still = Exists-require_clip clip_path final_attempt db here in
      elim (Result-cases (require_clip world K intent.id clip_path final_attempt db).1) [
        | inr (e, raised) ↦
            rw (raised, attempt) (Ends-on_error attempts final_attempt e waited still)
        | inl (_, ready) ↦
            let sending = dispatch world K intent text photo_path clip_path waited in
            rw (ready, attempt)
              (Ends-on_sent attempts final_attempt sending.1 sending.0
                (Exists-dispatch text photo_path clip_path waited still))
      ]

  Ends-deliver_claimed :
      (attempts : ℕ) (final_attempt : Bool) (db : NotifyDb K)
      → Exists K intent.id db
      → Ends intent.id (deliver_claimed world K intent attempts final_attempt db)
  unfolding deliver_claimed
  Ends-deliver_claimed attempts final_attempt db here =
      elim (Result-cases (world.render intent.source intent.payload)) [
        | inr (exc, refused) ↦
            rw (refused, deliver_claimed)
              (λ s e. Ends-bury attempts (str_append "render failed: " exc) db s here e)
        | inl ((text, photo_path, clip_path), rendered) ↦
            rw (rendered, deliver_claimed)
              (Ends-attempt attempts final_attempt text photo_path clip_path db here)
      ]

  Ends-found :
      (final_attempt : Bool) (seen db : NotifyDb K)
      → get_by_id K intent.id seen ≡ some intent
      → Exists K intent.id db
      → Ends intent.id (deliver world K intent.id final_attempt seen db)
  unfolding deliver
  Ends-found final_attempt seen db found here = elim (Bool-cases (status_eq intent.status sent)) [
    | inl done ↦ rw (found, done, deliver) (λ s e. absurd (ground arith))
    | inr open_ ↦ elim (Bool-cases (str_eq intent.recipient unconfigured_recipient)) [
      | inl unset ↦
          rw (found, open_, unset, deliver)
            (λ s e. Ends-bury intent.attempts "telegram not configured" db s here e)
      | inr set ↦ elim (Bool-cases world.gate_raised) [
        | inl shut ↦ rw (found, open_, set, shut, deliver) (λ s e. absurd (ground arith))
        | inr free ↦ elim (Option-cases (mark_sending K intent.id world.now db).1) [
          | inl taken ↦ rw (found, open_, set, free, taken, deliver) (λ s e. absurd (ground arith))
          | inr (claimed, held) ↦
              rw (found, open_, set, free, held, deliver)
                (Ends-deliver_claimed claimed.attempts final_attempt
                  (mark_sending K intent.id world.now db).0
                  (Exists-find_one_and_update K intent.id (claimable intent.id)
                    (as_sending world.now) db (λ e. refl) here))
        ]
      ]
    ]
  ]

-- Where the collection has the intent, the result of a delivery tells its status: sent after a
-- delivery, dead after a result that gives up, failed where the error is raised again.
pub deliver-HasStatus :
    (world : World) (K : Collections) (intent_id : String) (final_attempt : Bool)
    (seen db : NotifyDb K) {d : DeliveryIntent} {status : DeliveryStatus}
    → get_by_id K intent_id db ≡ some d
    → announced (deliver world K intent_id final_attempt seen db).reply ≡ some status
    → HasStatus K intent_id status (deliver world K intent_id final_attempt seen db).db
unfolding deliver
deliver-HasStatus world K intent_id final_attempt seen db {d} {status} here says =
    elim (Option-cases (get_by_id K intent_id seen)) [
      | inl missing ↦ absurd (ground arith)
      | inr (intent, found) ↦
          let same : intent.id ≡ intent_id = get_by_id-id K intent_id seen {d = intent} found in
          subst
            (λ id.
              Exists K id db
              → get_by_id K id seen ≡ some intent
              → Ends id (deliver world K id final_attempt seen db))
            same (λ here' found'. Ends-found world K intent final_attempt seen db found' here')
            (d, here) found status says
    ]
