-- ===== src/Prelude/Collection.antt =====
-- What the services rely on of a MongoDB collection: documents in the order of their
-- insertion, and the documented effect of `insert_one` and of an update or a deletion of one
-- document.
use mathlib.Core.Path.{◌≡◌, refl}
use mathlib.Core.Bool.{Bool}
use mathlib.Core.Logic.{inl, inr}
use mathlib.Core.List.{List, [], ◌∷◌, ◌++◌}
use theft_detection_platform.Prelude.Decisions.{if◌then◌else◌, Bool-cases}
use theft_detection_platform.Prelude.Lists.{All}

-- The first document that the filter takes is changed.
abbrev pub update_first {ℓ} : {Doc : Type ℓ} → (Doc → Bool) → (Doc → Doc) → List Doc → List Doc
update_first p f [] = []
update_first p f (d ∷ rest) = if p d then f d ∷ rest else d ∷ update_first p f rest

-- The first document that the filter takes is deleted.
abbrev pub delete_first {ℓ} : {Doc : Type ℓ} → (Doc → Bool) → List Doc → List Doc
delete_first p [] = []
delete_first p (d ∷ rest) = if p d then rest else d ∷ delete_first p rest

pub record Collection (Doc : Type 0) : Type 1 where
  pub State : Type 0
  pub docs : State → List Doc
  pub insert_one : Doc → State → State
  pub update_one : (Doc → Bool) → (Doc → Doc) → State → State
  pub delete_one : (Doc → Bool) → State → State
  pub docs-insert_one : (d : Doc) (s : State) → docs (insert_one d s) ≡ docs s ++ d ∷ []
  pub docs-update_one :
      (p : Doc → Bool) (f : Doc → Doc) (s : State)
      → docs (update_one p f s) ≡ update_first p f (docs s)
  pub docs-delete_one :
      (p : Doc → Bool) (s : State) → docs (delete_one p s) ≡ delete_first p (docs s)

-- A collection kept as the list of its documents.
abbrev pub list_collection : (Doc : Type 0) → Collection Doc
list_collection Doc = record {
  State = List Doc;
  docs = λ s. s;
  insert_one = λ d s. s ++ d ∷ [];
  update_one = λ p f s. update_first p f s;
  delete_one = λ p s. delete_first p s;
  docs-insert_one = λ d s. refl;
  docs-update_one = λ p f s. refl;
  docs-delete_one = λ p s. refl;
}

-- What an update and a deletion keep.
pub All-update_first {ℓ κ} :
    {Doc : Type ℓ} (P : Doc → Type κ) (p : Doc → Bool) (f : Doc → Doc) (docs : List Doc)
    → ((d : Doc) → P d → P (f d))
    → All P docs
    → All P (update_first p f docs)
All-update_first P p f [] keeps h = tt
All-update_first P p f (d ∷ docs) keeps h = elim (Bool-cases (p d)) [
  | inl found ↦ rw found (keeps d h.0, h.1)
  | inr missed ↦ rw missed (h.0, All-update_first P p f docs keeps h.1)
]

pub All-delete_first {ℓ κ} :
    {Doc : Type ℓ} (P : Doc → Type κ) (p : Doc → Bool) (docs : List Doc)
    → All P docs
    → All P (delete_first p docs)
All-delete_first P p [] h = tt
All-delete_first P p (d ∷ docs) h = elim (Bool-cases (p d)) [
  | inl found ↦ rw found h.1
  | inr missed ↦ rw missed (h.0, All-delete_first P p docs h.1)
]
