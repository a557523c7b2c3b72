-- ===== src/Prelude/Counts.antt =====
-- How many rows pass a test, when the rows that pass another test are changed or deleted.
use Prim.Native.Nat.{◌+◌, ◌≤◌}
use mathlib.Core.Path.{◌≡◌}
use mathlib.Core.Logic.{inl, inr}
use mathlib.Core.Bool.{Bool, true, false, not}
use mathlib.Core.Option.{none, some}
use mathlib.Core.List.{List, [], ◌∷◌, ◌++◌, map}
use native.Mathlib.Omega.{arith}
use theft_detection_platform.Prelude.Decisions.{if◌then◌else◌, Bool-cases}
use theft_detection_platform.Prelude.Lists.{length, filter, find?}
use theft_detection_platform.Prelude.Table.{touch}

module _ {ℓ} {A : Type ℓ} (p q : A → Bool) where
  module _ (f : A → A) where
    pub count-touch :
        (xs : List A)
        → length (filter p xs) ≤ length (filter p (map (touch q f) xs)) + length (filter q xs)
    count-touch [] = omega arith
    count-touch (x ∷ xs) = ground (arith, count-touch xs)

    -- The changed row still passes.
    pub count-touch_kept :
        (xs : List A) {u : A}
        → find? q xs ≡ some u
        → p (f u) ≡ true
        → 1 ≤ length (filter p (map (touch q f) xs))
    count-touch_kept [] h kept = absurd (ground arith)
    count-touch_kept (x ∷ xs) h kept = elim (Bool-cases (q x)) [
      | inl found ↦ ground arith
      | inr missed ↦ ground (arith, count-touch_kept xs (ground arith) kept)
    ]

    -- The only changed row did not pass before.
    pub count-touch_other :
        (xs : List A) {u : A}
        → find? q xs ≡ some u
        → p u ≡ false
        → length (filter q xs) ≤ 1
        → length (filter p xs) ≤ length (filter p (map (touch q f) xs))
    count-touch_other [] h other one = absurd (ground arith)
    count-touch_other (x ∷ xs) h other one = elim (Bool-cases (q x)) [
      | inl found ↦ ground (arith, count-touch xs)
      | inr missed ↦ ground (arith, count-touch_other xs (ground arith) other (ground arith))
    ]

  pub count-delete :
      (xs : List A)
      → length (filter p xs) ≤ length (filter p (filter (λ x. not (q x)) xs)) + length (filter q xs)
  count-delete [] = omega arith
  count-delete (x ∷ xs) = ground (arith, count-delete xs)

  pub count-delete_other :
      (xs : List A) {u : A}
      → find? q xs ≡ some u
      → p u ≡ false
      → length (filter q xs) ≤ 1
      → length (filter p xs) ≤ length (filter p (filter (λ x. not (q x)) xs))
  count-delete_other [] h other one = absurd (ground arith)
  count-delete_other (x ∷ xs) h other one = elim (Bool-cases (q x)) [
    | inl found ↦ ground (arith, count-delete xs)
    | inr missed ↦ ground (arith, count-delete_other xs (ground arith) other (ground arith))
  ]

  -- A deletion leaves no more rows.
  pub count-delete_le :
      (xs : List A) → length (filter p (filter (λ x. not (q x)) xs)) ≤ length (filter p xs)
  count-delete_le [] = omega arith
  count-delete_le (x ∷ xs) = ground (arith, count-delete_le xs)

  -- A change that the test does not see.
  pub count-touch_same :
      (f : A → A) (xs : List A)
      → ((x : A) → p (f x) ≡ p x)
      → length (filter p (map (touch q f) xs)) ≡ length (filter p xs)
  count-touch_same f [] h = omega arith
  count-touch_same f (x ∷ xs) h = ground (arith, h x, count-touch_same f xs h)

module _ {ℓ} {A : Type ℓ} (p : A → Bool) where
  pub count-append_one :
      (xs : List A) (x : A)
      → length (filter p (xs ++ x ∷ [])) ≡ length (filter p xs) + (if p x then 1 else 0)
  count-append_one [] x = ground arith
  count-append_one (y ∷ xs) x = ground (arith, count-append_one xs x)

  pub count-eq-zero : (xs : List A) → find? p xs ≡ none → length (filter p xs) ≡ 0
  count-eq-zero [] h = omega arith
  count-eq-zero (x ∷ xs) h = ground (arith, count-eq-zero xs (ground arith))

  pub count-pos :
      (r : A → Bool) (xs : List A) {c : A}
      → find? r xs ≡ some c
      → p c ≡ true
      → 1 ≤ length (filter p xs)
  count-pos r [] h pass = absurd (ground arith)
  count-pos r (x ∷ xs) h pass = elim (Bool-cases (r x)) [
    | inl found ↦ ground arith
    | inr missed ↦ ground (arith, count-pos r xs (ground arith) pass)
  ]

  -- A row that is found by another test is the only one that passes this one.
  pub find?-unique :
      (r : A → Bool) (xs : List A) {c : A}
      → find? r xs ≡ some c
      → p c ≡ true
      → length (filter p xs) ≤ 1
      → find? p xs ≡ some c
  find?-unique r [] h pass one = absurd (ground arith)
  find?-unique r (x ∷ xs) h pass one = elim (Bool-cases (r x)) [
    | inl found ↦ ground arith
    | inr missed ↦ ground (
      arith,
      count-pos r xs (ground arith) pass,
      find?-unique r xs (ground arith) pass (ground arith),
    )
  ]
