-- ===== src/Notification/Repository/Acquire.antt =====
-- `acquire` of services/notification/app/repositories/delivery_intent.py.
use theft_detection_platform.Prelude.{
  ◌≡◌, refl, Bool, true, none, some, List, [], ◌∷◌, ◌++◌, arith, find?, ◌∙◌, inl, inr, Option-cases,
  eq_iff, eq_refl,
}
use theft_detection_platform.Prelude.Collection.{Collection}
use theft_detection_platform.Notification.Records.{
  DeliverySource, alert, alertmanager, DeliveryIntent, Collections, NotifyDb, source_eq,
}
use theft_detection_platform.Notification.Repository.{same_key, intents, acquire}

source_eq→eq : (a b : DeliverySource) → source_eq a b ≡ true → a ≡ b
source_eq→eq alert alert h = refl
source_eq→eq alertmanager alertmanager h = refl
source_eq→eq alert alertmanager h = cc
source_eq→eq alertmanager alert h = cc

source_eq_refl : (a : DeliverySource) → source_eq a a ≡ true
source_eq_refl alert = refl
source_eq_refl alertmanager = refl

same_key_refl : (a : DeliveryIntent) → same_key a a ≡ true
same_key_refl a = ground (arith, source_eq_refl a.source, eq_refl a.source_ref, eq_refl a.recipient)

same_key_swap : (a b d : DeliveryIntent) → same_key a b ≡ true → same_key a d ≡ same_key b d
same_key_swap a b d h = ground (
  arith,
  source_eq→eq a.source b.source,
  eq_iff a.source_ref b.source_ref,
  eq_iff a.recipient b.recipient,
)

find?-append_one :
    (p : DeliveryIntent → Bool) (xs : List DeliveryIntent) (x : DeliveryIntent)
    → find? p xs ≡ none
    → p x ≡ true
    → find? p (xs ++ x ∷ []) ≡ some x
find?-append_one p [] x h t = ground arith
find?-append_one p (y ∷ ys) x h t = ground (arith, find?-append_one p ys x)

find?-same_key :
    (a b : DeliveryIntent) (xs : List DeliveryIntent)
    → same_key a b ≡ true
    → find? (same_key a) xs ≡ find? (same_key b) xs
find?-same_key a b [] h = refl
find?-same_key a b (x ∷ xs) h = rw (same_key_swap a b x h, find?-same_key a b xs h) refl

module _ (K : Collections) where
  abbrev added : DeliveryIntent → NotifyDb K → NotifyDb K
  added intent db = record db { intents = Collection.insert_one K.intents intent db.intents }

  acquire_found :
      (intent : DeliveryIntent) (db : NotifyDb K) {d : DeliveryIntent}
      → find? (same_key intent) (intents K db) ≡ some d
      → acquire K intent db ≡ (db, d)
  unfolding acquire
  acquire_found intent db found = rw (found, acquire) refl

  acquire_fresh :
      (intent : DeliveryIntent) (db : NotifyDb K)
      → find? (same_key intent) (intents K db) ≡ none
      → acquire K intent db ≡ (added intent db, intent)
  unfolding acquire
  acquire_fresh intent db fresh = rw (fresh, acquire) refl

  found_added :
      (first second : DeliveryIntent) (db : NotifyDb K)
      → same_key second first ≡ true
      → find? (same_key first) (intents K db) ≡ none
      → find? (same_key second) (intents K (added first db)) ≡ some first
  found_added first second db h fresh = rw (Collection.docs-insert_one K.intents) (
      find?-append_one (same_key second) (intents K db) first
        (find?-same_key second first (intents K db) h ∙ fresh) h)

  -- An intent is acquired once for its source, reference and recipient: a later `acquire` with
  -- the same three changes nothing and returns the same document.
  pub acquire_twice :
      (first second : DeliveryIntent) (db : NotifyDb K)
      → same_key second first ≡ true
      → acquire K second (acquire K first db).0 ≡ acquire K first db
  acquire_twice first second db h = elim (Option-cases (find? (same_key first) (intents K db))) [
    | inr (d, found) ↦
        rw (acquire_found first db found)
          (acquire_found second db (find?-same_key second first (intents K db) h ∙ found))
    | inl fresh ↦
        rw (acquire_fresh first db fresh)
          (acquire_found second (added first db) (found_added first second db h fresh))
  ]
