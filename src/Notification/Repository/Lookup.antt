-- ===== src/Notification/Repository/Lookup.antt =====
-- What `get_by_id` of services/notification/app/repositories/delivery_intent.py finds behind an
-- update.
use theft_detection_platform.Prelude.{
  String, ◌≡◌, refl, Bool, ◌&&◌, some, List, [], ◌∷◌, arith, find?, inl, inr, Bool-cases,
  Option-cases, eq_iff,
}
use theft_detection_platform.Prelude.Collection.{Collection, update_first}
use theft_detection_platform.Notification.Records.{
  DeliveryIntent, DeadLetter, Collections, NotifyDb,
}
use theft_detection_platform.Notification.Repository.{
  has_id, intents, find_one_and_update, get_by_id, create_letter,
}

find?-update_first :
    (id : String) (f : DeliveryIntent → DeliveryIntent) (xs : List DeliveryIntent)
    {d : DeliveryIntent}
    → ((e : DeliveryIntent) → (f e).id ≡ e.id)
    → find? (has_id id) xs ≡ some d
    → find? (has_id id) (update_first (has_id id) f xs) ≡ some (f d)
find?-update_first id f [] keeps h = absurd (ground arith)
find?-update_first id f (e ∷ rest) {d} keeps h = elim (Bool-cases (has_id id e)) [
  | inl here ↦ ground (arith, keeps e)
  | inr there ↦ ground (arith, find?-update_first id f rest {d = d} keeps)
]

-- The document that an update by a narrower test leaves in its place has the same identity.
find?-update_narrow :
    (id : String) (q : DeliveryIntent → Bool) (f : DeliveryIntent → DeliveryIntent)
    (xs : List DeliveryIntent) {d : DeliveryIntent}
    → ((e : DeliveryIntent) → (f e).id ≡ e.id)
    → find? (has_id id) xs ≡ some d
    → (d' : DeliveryIntent) × (find? (has_id id) (update_first q f xs) ≡ some d')
find?-update_narrow id q f [] keeps h = absurd (ground arith)
find?-update_narrow id q f (e ∷ rest) {d} keeps h = elim (Bool-cases (q e)) [
  | inl taken ↦ elim (Bool-cases (has_id id e)) [
    | inl here ↦ (f e, ground (arith, keeps e))
    | inr there ↦ (d, ground (arith, keeps e))
  ]
  | inr left ↦ elim (Bool-cases (has_id id e)) [
    | inl here ↦ (e, ground arith)
    | inr there ↦
        let (d', at) = find?-update_narrow id q f rest {d = d} keeps (ground arith) in
        (d', ground arith)
  ]
]

find?-narrow :
    (id : String) (q : DeliveryIntent → Bool) (xs : List DeliveryIntent) {d : DeliveryIntent}
    → find? (λ e. has_id id e && q e) xs ≡ some d
    → (d' : DeliveryIntent) × (find? (has_id id) xs ≡ some d')
find?-narrow id q [] h = absurd (ground arith)
find?-narrow id q (e ∷ rest) {d} h = elim (Bool-cases (has_id id e)) [
  | inl here ↦ (e, ground arith)
  | inr there ↦ let (d', at) = find?-narrow id q rest {d = d} (ground arith) in (d', ground arith)
]

found_id :
    (id : String) (xs : List DeliveryIntent) {d : DeliveryIntent}
    → find? (has_id id) xs ≡ some d
    → d.id ≡ id
found_id id [] h = absurd (ground arith)
found_id id (x ∷ xs) {d} h = elim (Bool-cases (has_id id x)) [
  | inl here ↦ ground (arith, eq_iff x.id id)
  | inr there ↦ found_id id xs {d = d} (ground arith)
]

module _ (K : Collections) where
  pub get_by_id-id :
      (id : String) (db : NotifyDb K) {d : DeliveryIntent} → get_by_id K id db ≡ some d → d.id ≡ id
  unfolding get_by_id
  get_by_id-id id db {d} found = found_id id (intents K db) {d = d} found

  pub get_by_id-find_one_and_update :
      (id : String) (f : DeliveryIntent → DeliveryIntent) (db : NotifyDb K) {d : DeliveryIntent}
      → ((e : DeliveryIntent) → (f e).id ≡ e.id)
      → get_by_id K id db ≡ some d
      → get_by_id K id (find_one_and_update K (has_id id) f db).0 ≡ some (f d)
  unfolding get_by_id find_one_and_update
  get_by_id-find_one_and_update id f db {d} keeps h =
      rw (Collection.docs-update_one K.intents)
        (find?-update_first id f (intents K db) {d = d} keeps h)

  -- A claim that succeeds leaves a document with the identity.
  pub get_by_id_claimed :
      (id : String) (q : DeliveryIntent → Bool) (f : DeliveryIntent → DeliveryIntent)
      (db : NotifyDb K) {claimed : DeliveryIntent}
      → ((e : DeliveryIntent) → (f e).id ≡ e.id)
      → (find_one_and_update K (λ e. has_id id e && q e) f db).1 ≡ some claimed
      → (d : DeliveryIntent) × (get_by_id K id
            (find_one_and_update K (λ e. has_id id e && q e) f db).0
          ≡ some d)
  unfolding get_by_id find_one_and_update
  get_by_id_claimed id q f db {claimed} keeps h =
      elim (Option-cases (find? (λ e. has_id id e && q e) (intents K db))) [
        | inl missed ↦ absurd (ground arith)
        | inr (d, found) ↦
            let (d', at) = find?-narrow id q (intents K db) {d = d} found in
            rw (Collection.docs-update_one K.intents)
              (find?-update_narrow id (λ e. has_id id e && q e) f (intents K db) {d = d'} keeps at)
      ]

  pub get_by_id-create_letter :
      (id : String) (entry : DeadLetter) (db : NotifyDb K)
      → get_by_id K id (create_letter K entry db) ≡ get_by_id K id db
  unfolding get_by_id create_letter
  get_by_id-create_letter id entry db = refl

  -- The collection has a document with the identity.
  abbrev pub Exists : String → NotifyDb K → Type 0
  Exists id db = (d : DeliveryIntent) × (get_by_id K id db ≡ some d)

  pub Exists-find_one_and_update :
      (id : String) (q : DeliveryIntent → Bool) (f : DeliveryIntent → DeliveryIntent)
      (db : NotifyDb K)
      → ((e : DeliveryIntent) → (f e).id ≡ e.id)
      → Exists id db
      → Exists id (find_one_and_update K q f db).0
  unfolding get_by_id find_one_and_update
  Exists-find_one_and_update id q f db keeps (d, found) =
      rw (Collection.docs-update_one K.intents)
        (find?-update_narrow id q f (intents K db) {d = d} keeps found)
