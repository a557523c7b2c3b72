-- ===== src/Prelude/Sorting.antt =====
-- Sorting by a strict order, as `ORDER BY` and a cursor's `sort` do: the order of the result is
-- determined where the keys differ.
use Prim.Native.Nat.{ℕ}
use mathlib.Core.Path.{◌≡◌, refl}
use mathlib.Core.Logic.{◌≢◌, inl, inr}
use mathlib.Core.Bool.{Bool, true, false, ◌&&◌}
use mathlib.Core.List.{List, [], ◌∷◌, ◌++◌}
use native.Mathlib.Omega.{arith}
use theft_detection_platform.Prelude.Decisions.{if◌then◌else◌, Bool-cases}
use theft_detection_platform.Prelude.Lists.{All, All-imp, filter}

module _ {ℓ} {A : Type ℓ} where
  pub All-filter : (P : A → Type 0) (p : A → Bool) (xs : List A) → All P xs → All P (filter p xs)
  All-filter P p [] h = tt
  All-filter P p (x ∷ xs) h = elim (Bool-cases (p x)) [
    | inl pass ↦ rw pass (h.0, All-filter P p xs h.1)
    | inr fail ↦ rw fail (All-filter P p xs h.1)
  ]

  pub filter-and :
      (p r : A → Bool) (xs : List A) → filter (λ x. p x && r x) xs ≡ filter r (filter p xs)
  filter-and p r [] = refl
  filter-and p r (x ∷ xs) = ground (arith, filter-and p r xs)

  -- Two tests that agree on the elements.
  pub filter-congr :
      (p r : A → Bool) (xs : List A) → All (λ x. p x ≡ r x) xs → filter p xs ≡ filter r xs
  filter-congr p r [] h = refl
  filter-congr p r (x ∷ xs) h = ground (arith, h.0, filter-congr p r xs h.1)

  pub filter-eq_self : (p : A → Bool) (xs : List A) → All (λ x. p x ≡ true) xs → filter p xs ≡ xs
  filter-eq_self p [] h = refl
  filter-eq_self p (x ∷ xs) h = ground (arith, h.0, filter-eq_self p xs h.1)

-- A strict order that compares any two elements with different keys.
pub record IsOrder {ℓ} {A : Type ℓ} (before : A → A → Bool) (key : A → ℕ) : Type ℓ where
  pub irrefl : (x : A) → before x x ≡ false
  pub trans : (x y z : A) → before x y ≡ true → before y z ≡ true → before x z ≡ true
  pub total : (x y : A) → key x ≢ key y → before x y ≡ false → before y x ≡ true

module _ {ℓ} {A : Type ℓ} (key : A → ℕ) where
  -- No two elements have the same key.
  abbrev pub IsKeyed : List A → Type 0
  IsKeyed [] = Unit
  IsKeyed (x ∷ xs) = All (λ y. key x ≢ key y) xs × IsKeyed xs

  pub IsKeyed-filter : (p : A → Bool) (xs : List A) → IsKeyed xs → IsKeyed (filter p xs)
  IsKeyed-filter p [] h = tt
  IsKeyed-filter p (x ∷ xs) h = elim (Bool-cases (p x)) [
    | inl pass ↦ rw pass (All-filter _ p xs h.0, IsKeyed-filter p xs h.1)
    | inr fail ↦ rw fail (IsKeyed-filter p xs h.1)
  ]

module _ {ℓ} {A : Type ℓ} (before : A → A → Bool) where
  abbrev pub insert_by : A → List A → List A
  insert_by x [] = x ∷ []
  insert_by x (y ∷ ys) = if before x y then x ∷ y ∷ ys else y ∷ insert_by x ys

  abbrev pub sort_by : List A → List A
  sort_by [] = []
  sort_by (x ∷ xs) = insert_by x (sort_by xs)

  abbrev pub IsSorted : List A → Type 0
  IsSorted [] = Unit
  IsSorted (x ∷ xs) = All (λ y. before x y ≡ true) xs × IsSorted xs

  insert_by-All : (P : A → Type 0) (x : A) (xs : List A) → P x → All P xs → All P (insert_by x xs)
  insert_by-All P x [] px h = (px, tt)
  insert_by-All P x (y ∷ ys) px h = elim (Bool-cases (before x y)) [
    | inl first ↦ rw first (px, h)
    | inr later ↦ rw later (h.0, insert_by-All P x ys px h.1)
  ]

  pub sort_by-All : (P : A → Type 0) (xs : List A) → All P xs → All P (sort_by xs)
  sort_by-All P [] h = tt
  sort_by-All P (x ∷ xs) h = insert_by-All P x (sort_by xs) h.0 (sort_by-All P xs h.1)

  insert_by-first :
      (x : A) (xs : List A) → All (λ y. before x y ≡ true) xs → insert_by x xs ≡ x ∷ xs
  insert_by-first x [] h = refl
  insert_by-first x (y ∷ ys) h = ground (arith, h.0)

  module _ (key : A → ℕ) (order : IsOrder before key) where
    insert_by-IsSorted :
        (x : A) (ys : List A)
        → All (λ y. key x ≢ key y) ys
        → IsSorted ys
        → IsSorted (insert_by x ys)
    insert_by-IsSorted x [] new h = (tt, tt)
    insert_by-IsSorted x (y ∷ ys) new h = elim (Bool-cases (before x y)) [
      | inl first ↦ rw first (
        (
          first,
          All-imp (λ z. before y z ≡ true) (λ z. before x z ≡ true) ys
              (λ z after. order.trans x y z first after) h.0,
        ),
        h,
      )
      | inr later ↦ rw later (
        insert_by-All (λ z. before y z ≡ true) x ys (order.total x y new.0 later) h.0,
        insert_by-IsSorted x ys new.1 h.1,
      )
    ]

    pub sort_by-IsSorted : (xs : List A) → IsKeyed key xs → IsSorted (sort_by xs)
    sort_by-IsSorted [] h = tt
    sort_by-IsSorted (x ∷ xs) h =
        insert_by-IsSorted x (sort_by xs) (sort_by-All (λ y. key x ≢ key y) xs h.0)
          (sort_by-IsSorted xs h.1)

    filter-insert_by :
        (p : A → Bool) (x : A) (ys : List A)
        → IsSorted ys
        → filter p (insert_by x ys) ≡ (if p x then insert_by x (filter p ys) else filter p ys)
    filter-insert_by p x [] h = ground arith
    filter-insert_by p x (y ∷ ys) h = elim (Bool-cases (before x y)) [
      | inl first ↦
          let behind : All (λ z. before x z ≡ true) (y ∷ ys) = (
            first,
            All-imp (λ z. before y z ≡ true) (λ z. before x z ≡ true) ys
                (λ z after. order.trans x y z first after) h.0,
          ) in
          ground (arith, insert_by-first x (filter p (y ∷ ys)) (All-filter _ p (y ∷ ys) behind))
      | inr later ↦ ground (arith, filter-insert_by p x ys h.1)
    ]

    -- A selection may be made before the sorting.
    pub filter-sort_by :
        (p : A → Bool) (xs : List A)
        → IsKeyed key xs
        → filter p (sort_by xs) ≡ sort_by (filter p xs)
    filter-sort_by p [] h = refl
    filter-sort_by p (x ∷ xs) h = ground (
      arith,
      filter-insert_by p x (sort_by xs) (sort_by-IsSorted xs h.1),
      filter-sort_by p xs h.1,
    )

    not_back :
        (x : A) (front : List A) (e : A) (rest : List A)
        → All (λ y. before x y ≡ true) (front ++ e ∷ rest)
        → before e x ≡ false
    not_back x [] e rest h = elim (Bool-cases (before e x)) [
      | inl back ↦ absurd (ground (arith, order.trans x e x h.0 back, order.irrefl x))
      | inr right ↦ right
    ]
    not_back x (y ∷ front) e rest h = not_back x front e rest h.1

    -- In a sorted list, what an element is before is what comes behind it.
    pub filter-before :
        (front : List A) (e : A) (rest : List A)
        → IsSorted (front ++ e ∷ rest)
        → filter (before e) (front ++ e ∷ rest) ≡ rest
    filter-before [] e rest h = ground (arith, order.irrefl e, filter-eq_self (before e) rest h.0)
    filter-before (x ∷ front) e rest h =
        ground (arith, filter-before front e rest h.1, not_back x front e rest h.0)
