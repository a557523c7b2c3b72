-- ===== src/Api/Alerts/WellFormed.antt =====
-- The documents that the operations of services/api/app/usecases/alert_usecase.py reach.
use theft_detection_platform.Prelude.{
  ℕ, ◌≡◌, ◌≢◌, refl, sym, subst, Bool, true, not, ◌&&◌, inl, inr, none, List, [], ◌∷◌, ◌++◌, arith,
  String, bool_eq, is_some, find?, Bool-cases, All, All-append_one,
}
use theft_detection_platform.Prelude.Collection.{
  update_first, delete_first, All-update_first, All-delete_first,
}
use theft_detection_platform.Prelude.Sorting.{IsKeyed}
use theft_detection_platform.Api.Alerts.{
  Alert, Decision, decision_unspecified, confirmed, dismissed, unsure,
}
use theft_detection_platform.Api.Alerts.Repository.{decision_eq, with_oid, decision_of, decided}
use theft_detection_platform.Api.Alerts.UseCase.{AlertCreate, new_alert}

-- The date and the name of a decision are there exactly with a decision.
abbrev pub is_consistent : Alert → Bool
is_consistent a =
    let open_ = decision_eq (decision_of a) decision_unspecified in
    bool_eq (is_some a.decided_at) (not open_) && bool_eq (is_some a.decided_by) (not open_)

abbrev pub oid_of : Alert → ℕ
oid_of a = a.oid

pub record IsWellFormed (docs : List Alert) : Type 0 where
  pub keyed : IsKeyed oid_of docs
  pub created : All (λ a. is_some a.created_at ≡ true) docs
  pub consistent : All (λ a. is_consistent a ≡ true) docs

IsKeyed-update :
    (p : Alert → Bool) (f : Alert → Alert) (docs : List Alert)
    → ((a : Alert) → (f a).oid ≡ a.oid)
    → IsKeyed oid_of docs
    → IsKeyed oid_of (update_first p f docs)
IsKeyed-update p f [] same h = tt
IsKeyed-update p f (d ∷ docs) same h = elim (Bool-cases (p d)) [
  | inl found ↦ rw found (subst (λ i. All (λ y. i ≢ y.oid) docs) (sym (same d)) h.0, h.1)
  | inr missed ↦ rw missed (
    All-update_first (λ y. d.oid ≢ y.oid) p f docs
        (λ y other. subst (λ i. d.oid ≢ i) (sym (same y)) other) h.0,
    IsKeyed-update p f docs same h.1,
  )
]

IsKeyed-delete :
    (p : Alert → Bool) (docs : List Alert)
    → IsKeyed oid_of docs
    → IsKeyed oid_of (delete_first p docs)
IsKeyed-delete p [] h = tt
IsKeyed-delete p (d ∷ docs) h = elim (Bool-cases (p d)) [
  | inl found ↦ rw found h.1
  | inr missed ↦
      rw missed (All-delete_first (λ y. d.oid ≢ y.oid) p docs h.0, IsKeyed-delete p docs h.1)
]

IsKeyed-append_one :
    (docs : List Alert) (a : Alert)
    → find? (with_oid a.oid) docs ≡ none
    → IsKeyed oid_of docs
    → IsKeyed oid_of (docs ++ a ∷ [])
IsKeyed-append_one [] a fresh h = (tt, tt)
IsKeyed-append_one (d ∷ docs) a fresh h = (
  All-append_one (λ y. d.oid ≢ y.oid) docs a h.0 (λ same. ground arith),
  IsKeyed-append_one docs a (ground arith) h.1,
)

-- An update of one document that keeps its key, its date and its consistency.
pub update-IsWellFormed :
    (p : Alert → Bool) (f : Alert → Alert) (docs : List Alert)
    → ((a : Alert) → (f a).oid ≡ a.oid)
    → ((a : Alert) → (f a).created_at ≡ a.created_at)
    → ((a : Alert) → is_consistent a ≡ true → is_consistent (f a) ≡ true)
    → IsWellFormed docs
    → IsWellFormed (update_first p f docs)
update-IsWellFormed p f docs same dated keeps w = record {
  keyed = IsKeyed-update p f docs same w.keyed;
  created =
      All-update_first (λ a. is_some a.created_at ≡ true) p f docs
        (λ a h. subst (λ c. is_some c ≡ true) (sym (dated a)) h) w.created;
  consistent = All-update_first (λ a. is_consistent a ≡ true) p f docs keeps w.consistent;
}

pub insert-IsWellFormed :
    (docs : List Alert) (p : AlertCreate) (oid now : ℕ)
    → find? (with_oid oid) docs ≡ none
    → IsWellFormed docs
    → IsWellFormed (docs ++ new_alert p oid now ∷ [])
unfolding new_alert
insert-IsWellFormed docs p oid now fresh w = record {
  keyed = IsKeyed-append_one docs _ fresh w.keyed;
  created = All-append_one _ docs _ w.created refl;
  consistent = All-append_one _ docs _ w.consistent refl;
}

pub delete-IsWellFormed :
    (p : Alert → Bool) (docs : List Alert) → IsWellFormed docs → IsWellFormed (delete_first p docs)
delete-IsWellFormed p docs w = record {
  keyed = IsKeyed-delete p docs w.keyed;
  created = All-delete_first _ p docs w.created;
  consistent = All-delete_first _ p docs w.consistent;
}

pub decided_oid :
    (decision : Decision) (actor_id : String) (now : ℕ) (a : Alert)
    → ((decided decision actor_id now a).oid ≡ a.oid)
      × ((decided decision actor_id now a).created_at ≡ a.created_at)
      × (is_consistent (decided decision actor_id now a) ≡ true)
unfolding decided
decided_oid decision_unspecified actor_id now a = (refl, refl, refl)
decided_oid confirmed actor_id now a = (refl, refl, refl)
decided_oid dismissed actor_id now a = (refl, refl, refl)
decided_oid unsure actor_id now a = (refl, refl, refl)
