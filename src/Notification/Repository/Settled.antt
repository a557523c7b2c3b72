-- ===== src/Notification/Repository/Settled.antt =====
-- Sent and dead intents, services/notification/app/repositories/delivery_intent.py.
use theft_detection_platform.Prelude.{
  ℕ, zero, suc, String, ◌≡◌, refl, ◌∙◌, Bool, true, not, List, [], ◌∷◌, arith, filter, inl, inr,
  Bool-cases, Option-cases,
}
use theft_detection_platform.Prelude.Collection.{Collection, update_first}
use theft_detection_platform.Notification.Records.{
  buffered, DeliveryIntent, Collections, NotifyDb, status_eq,
}
use theft_detection_platform.Notification.Repository.{
  is_open, claimable, requeueable, releasable, as_sending, as_buffered, as_requeued, as_released,
  oldest, intents, find_one_and_update, mark_sending, mark_buffered, mark_requeued,
  release_buffered,
}

-- The intents that are sent or dead.
abbrev pub settled : List DeliveryIntent → List DeliveryIntent
settled = filter (λ d. not (is_open d))

settled-update_first :
    (p : DeliveryIntent → Bool) (f : DeliveryIntent → DeliveryIntent) (xs : List DeliveryIntent)
    → ((d : DeliveryIntent) → p d ≡ true → is_open d ≡ true)
    → ((d : DeliveryIntent) → is_open (f d) ≡ true)
    → settled (update_first p f xs) ≡ settled xs
settled-update_first p f [] before after = refl
settled-update_first p f (d ∷ rest) before after = elim (Bool-cases (p d)) [
  | inl taken ↦ ground (arith, before d taken, after d)
  | inr left ↦ ground (arith, settled-update_first p f rest before after)
]

module _ (K : Collections) where
  settled-find_one_and_update :
      (p : DeliveryIntent → Bool) (f : DeliveryIntent → DeliveryIntent) (db : NotifyDb K)
      → ((d : DeliveryIntent) → p d ≡ true → is_open d ≡ true)
      → ((d : DeliveryIntent) → is_open (f d) ≡ true)
      → settled (intents K (find_one_and_update K p f db).0) ≡ settled (intents K db)
  unfolding find_one_and_update
  settled-find_one_and_update p f db before after =
      rw (Collection.docs-update_one K.intents)
        (settled-update_first p f (intents K db) before after)

  settled-release_buffered :
      (limit now : ℕ) (db : NotifyDb K)
      → settled (intents K (release_buffered K limit now db).0) ≡ settled (intents K db)
  unfolding release_buffered
  settled-release_buffered zero now db = refl
  settled-release_buffered (suc limit) now db =
      elim (Option-cases (oldest (filter (λ d. status_eq d.status buffered) (intents K db)))) [
        | inl empty ↦ rw (empty, release_buffered) refl
        | inr (d, found) ↦
            rw (found, release_buffered)
              (settled-release_buffered limit now
                  (find_one_and_update K (releasable d.id) (as_released now) db).0
                ∙ settled-find_one_and_update (releasable d.id) (as_released now) db
                    (λ e h. ground arith) (λ e. refl))
      ]

  -- No claim takes back an intent that is sent or dead: `mark_sending`, `mark_buffered`,
  -- `mark_requeued` and `release_buffered` leave those intents as they are, in their order.
  pub reclaim_settled :
      (intent_id error : String) (cutoff limit now : ℕ) (db : NotifyDb K)
      → (settled (intents K (mark_sending K intent_id now db).0) ≡ settled (intents K db))
        × (settled (intents K (mark_buffered K intent_id error now db).0) ≡ settled (intents K db))
        × (settled (intents K (mark_requeued K intent_id cutoff now db).0) ≡ settled (intents K db))
        × (settled (intents K (release_buffered K limit now db).0) ≡ settled (intents K db))
  reclaim_settled intent_id error cutoff limit now db = (
    settled-find_one_and_update (claimable intent_id) (as_sending now) db (λ e h. ground arith)
        (λ e. refl),
    settled-find_one_and_update (claimable intent_id) (as_buffered now error) db
        (λ e h. ground arith) (λ e. refl),
    settled-find_one_and_update (requeueable intent_id cutoff) (as_requeued now) db
        (λ e h. ground arith) (λ e. refl),
    settled-release_buffered limit now db,
  )
