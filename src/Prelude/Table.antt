-- ===== src/Prelude/Table.antt =====
-- What the services rely on of a database table or collection. PostgreSQL, MongoDB and their
-- drivers are no part of the repository: a table is a parameter of the models, with the
-- documented effect of the statements that the repositories send.
use mathlib.Core.Path.{◌≡◌, refl}
use mathlib.Core.Bool.{Bool, not}
use mathlib.Core.List.{List, [], ◌∷◌, ◌++◌, map}
use theft_detection_platform.Prelude.Lists.{filter}
use theft_detection_platform.Prelude.Decisions.{if◌then◌else◌}

-- `UPDATE … SET f WHERE p` on one row.
abbrev pub touch {ℓ} : {Row : Type ℓ} → (Row → Bool) → (Row → Row) → Row → Row
touch p f r = if p r then f r else r

pub record Table (Row : Type 0) : Type 1 where
  pub State : Type 0
  -- The rows in the order in which they were inserted, which is that of an identity column.
  pub rows : State → List Row
  pub insert : Row → State → State
  pub update : (Row → Bool) → (Row → Row) → State → State
  pub delete : (Row → Bool) → State → State
  pub rows-insert : (r : Row) (s : State) → rows (insert r s) ≡ rows s ++ r ∷ []
  pub rows-update :
      (p : Row → Bool) (f : Row → Row) (s : State) → rows (update p f s) ≡ map (touch p f) (rows s)
  pub rows-delete :
      (p : Row → Bool) (s : State) → rows (delete p s) ≡ filter (λ r. not (p r)) (rows s)

-- A table kept as the list of its rows.
abbrev pub list_table : (Row : Type 0) → Table Row
list_table Row = record {
  State = List Row;
  rows = λ s. s;
  insert = λ r s. s ++ r ∷ [];
  update = λ p f s. map (touch p f) s;
  delete = λ p s. filter (λ r. not (p r)) s;
  rows-insert = λ r s. refl;
  rows-update = λ p f s. refl;
  rows-delete = λ p s. refl;
}
