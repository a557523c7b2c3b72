-- ===== src/Notification/Worker/Sweep/Counts.antt =====
-- How many intents a release takes out of the buffer,
-- services/notification/app/repositories/delivery_intent.py.
use theft_detection_platform.Prelude.{
  ℕ, zero, suc, ◌+◌, ◌≤◌, String, ◌≡◌, refl, Bool, true, ◌⊎◌, inl, inr, none, some, List, [], ◌∷◌,
  arith, length, any, filter, eq_refl, Bool-cases, Option-cases,
}
use theft_detection_platform.Prelude.Collection.{Collection, update_first}
use theft_detection_platform.Notification.Records.{
  DeliveryIntent, Collections, NotifyDb, buffered, status_eq,
}
use theft_detection_platform.Notification.Repository.{
  oldest, releasable, as_released, intents, find_one_and_update, release_buffered,
}

abbrev is_buffered : DeliveryIntent → Bool
is_buffered d = status_eq d.status buffered

abbrev pub count_buffered : List DeliveryIntent → ℕ
count_buffered xs = length (filter is_buffered xs)

any-oldest :
    (xs : List DeliveryIntent) {d : DeliveryIntent}
    → oldest (filter is_buffered xs) ≡ some d
    → any (releasable d.id) xs ≡ true
any-oldest [] h = absurd (ground arith)
any-oldest (x ∷ xs) {d} h = elim (Bool-cases (is_buffered x)) [
  | inr other ↦ ground (arith, any-oldest xs {d = d})
  | inl waits ↦ elim (Option-cases (oldest (filter is_buffered xs))) [
    | inl last ↦ ground (arith, eq_refl x.id)
    | inr (e, later_one) ↦ ground (arith, any-oldest xs {d = e} later_one, eq_refl x.id)
  ]
]

count_buffered-update_first :
    (id : String) (now : ℕ) (xs : List DeliveryIntent)
    → any (releasable id) xs ≡ true
    → suc (count_buffered (update_first (releasable id) (as_released now) xs)) ≡ count_buffered xs
count_buffered-update_first id now [] h = absurd (ground arith)
count_buffered-update_first id now (x ∷ xs) h = elim (Bool-cases (releasable id x)) [
  | inl taken ↦ ground arith
  | inr left ↦ ground (arith, count_buffered-update_first id now xs)
]

none-oldest : (xs : List DeliveryIntent) → oldest xs ≡ none → xs ≡ []
none-oldest [] h = refl
none-oldest (x ∷ xs) h = absurd (ground arith)

count_buffered-released :
    (K : Collections) (id : String) (now : ℕ) (db : NotifyDb K)
    → any (releasable id) (intents K db) ≡ true
    → suc
        (count_buffered (intents K (find_one_and_update K (releasable id) (as_released now) db).0))
      ≡ count_buffered (intents K db)
unfolding find_one_and_update
count_buffered-released K id now db h =
    rw (Collection.docs-update_one K.intents) (count_buffered-update_first id now (intents K db) h)

-- A release takes as many intents out of the buffer as it returns, at most `limit`, and leaves the
-- buffer empty if it returns fewer.
pub release_buffered_counts :
    (K : Collections) (limit now : ℕ) (db : NotifyDb K)
    → (count_buffered (intents K (release_buffered K limit now db).0)
          + length (release_buffered K limit now db).1
        ≡ count_buffered (intents K db))
      × (length (release_buffered K limit now db).1 ≤ limit)
      × ((length (release_buffered K limit now db).1 ≡ limit)
          ⊎ (count_buffered (intents K (release_buffered K limit now db).0) ≡ 0))
unfolding release_buffered
release_buffered_counts K zero now db = (omega arith, omega arith, inl refl)
release_buffered_counts K (suc limit) now db =
    elim (Option-cases (oldest (filter is_buffered (intents K db)))) [
      | inl empty ↦
          rw (empty, release_buffered)
            (
              omega arith,
              omega arith,
              inr (ground (arith, none-oldest (filter is_buffered (intents K db)) empty)),
            )
      | inr (d, found) ↦
          let next = (find_one_and_update K (releasable d.id) (as_released now) db).0 in
          let (kept, bound, rest) = release_buffered_counts K limit now next in
          let step =
            count_buffered-released K d.id now db (any-oldest (intents K db) {d = d} found) in
          rw (found, release_buffered)
            (
              omega (arith, kept, step),
              omega (arith, bound),
              elim rest [ inl full ↦ inl (omega (arith, full)) | inr done ↦ inr done ],
            )
    ]
