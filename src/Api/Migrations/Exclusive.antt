-- ===== src/Api/Migrations/Exclusive.antt =====
-- Runners that share the lock of services/api/app/migrations/runner.py.
use theft_detection_platform.Prelude.{
  ℕ, ◌+◌, ◌≤◌, ◌<◌, ◌≡◌, refl, sym, ap, ◌∙◌, subst, Bool, true, false, ◌&&◌, ◌⊎◌, inl, inr, Option,
  none, some, String, str_eq, eq_iff, ltb, arith, if◌then◌else◌, Bool-cases, Option-cases,
}
use theft_detection_platform.Api.Migrations.{
  Lock, lease, is_free, claim, is_owned, Reply, answered, duplicate_key, failed, claim_lock,
  try_acquire, renew, release_lock,
}

-- Until when each runner may take itself to hold the lock: the lease that its last successful claim
-- began.
abbrev pub Leases : Type 0
Leases = String → Option ℕ

abbrev pub leased : (owner : String) (now : ℕ) (taken : Bool) → Leases → Leases
leased owner now taken leases o = if taken && str_eq o owner then some (now + lease) else leases o

abbrev pub dropped : (owner : String) → Leases → Leases
dropped owner leases o = if str_eq o owner then none else leases o

abbrev pub is_taken : Option Bool → Bool
is_taken none = false
is_taken (some taken) = taken

-- What any number of runners do to the lock, one after the other, by a clock that does not run
-- backwards.
pub data Reached : (clock : ℕ) → Option Lock → Leases → Type 0 where
  start : Reached 0 none (λ owner. none)
  acquires :
      {clock : ℕ} {lock : Option Lock} {leases : Leases} (reply : Reply) (owner : String) (now : ℕ)
      → Reached clock lock leases
      → clock ≤ now
      → Reached now
          (try_acquire reply owner now lock).0
          (leased owner now (is_taken (try_acquire reply owner now lock).1) leases)
  renews :
      {clock : ℕ} {lock : Option Lock} {leases : Leases} (reply : Reply) (owner : String) (now : ℕ)
      → Reached clock lock leases
      → clock ≤ now
      → Reached now
          (renew reply owner now lock).0
          (leased owner now (renew reply owner now lock).1 leases)
  releases :
      {clock : ℕ} {lock : Option Lock} {leases : Leases} (owner : String) (now : ℕ)
      → Reached clock lock leases
      → clock ≤ now
      → Reached now (release_lock owner lock) (dropped owner leases)

-- A lease is over, or the document is its owner's and lasts as long.
record IsOwners (clock : ℕ) (lock : Option Lock) (owner : String) (until : ℕ) : Type 0 where
  document : Lock
  here : lock ≡ some document
  owned : document.owner ≡ owner
  lasts : until ≤ document.expires_at
  near : until ≤ clock + lease

abbrev IsBacked : (clock : ℕ) → Option Lock → String → Option ℕ → Type 0
IsBacked clock lock owner none = Unit
IsBacked clock lock owner (some until) = (until < clock) ⊎ IsOwners clock lock owner until

module _ (owner other : String) (clock now : ℕ) (later : clock ≤ now) where
  kept-IsBacked :
      (lock : Option Lock) (until : Option ℕ)
      → IsBacked clock lock other until
      → IsBacked now lock other until
  kept-IsBacked lock none backed = tt
  kept-IsBacked lock (some until) (inl over) = inl (omega (arith, over, later))
  kept-IsBacked lock (some until) (inr o) = inr (record {
    document = o.document;
    here = o.here;
    owned = o.owned;
    lasts = o.lasts;
    near = omega (arith, o.near, later);
  })

  claimed-IsBacked :
      (lock : Option Lock) (until : Option ℕ)
      → IsBacked clock lock other until
      → IsBacked now (claim owner now lock) other until
  claimed-IsBacked lock none backed = tt
  claimed-IsBacked lock (some until) (inl over) = inl (omega (arith, over, later))
  claimed-IsBacked lock (some until) (inr o) =
      rw o.here (elim (Bool-cases (ltb o.document.expires_at now)) [
        | inl expired ↦ inl (ground (arith, expired, o.lasts))
        | inr valid ↦ elim (Bool-cases (str_eq o.document.owner owner)) [
          | inl same ↦
              rw (valid, same)
                (inr (record {
                  document = record { owner = owner; renewed_at = now; expires_at = now + lease };
                  here = refl;
                  owned = sym ((eq_iff o.document.owner owner).0 same) ∙ o.owned;
                  lasts = omega (arith, o.near, later);
                  near = omega (arith, o.near, later);
                }))
          | inr another ↦
              rw (valid, another)
                (inr (record {
                  document = o.document;
                  here = refl;
                  owned = o.owned;
                  lasts = o.lasts;
                  near = omega (arith, o.near, later);
                }))
        ]
      ])

  released-IsBacked :
      (lock : Option Lock) (until : Option ℕ)
      → str_eq other owner ≡ false
      → IsBacked clock lock other until
      → IsBacked now (release_lock owner lock) other until
  unfolding release_lock
  released-IsBacked lock none different backed = tt
  released-IsBacked lock (some until) different (inl over) = inl (omega (arith, over, later))
  released-IsBacked lock (some until) different (inr o) =
      let foreign : is_owned owner lock ≡ false =
        rw o.here (ap (λ x. str_eq x owner) o.owned ∙ different) in
      rw foreign (kept-IsBacked lock (some until) (inr o))

-- The lease that a successful claim begins.
begun-IsBacked :
    (owner : String) (now : ℕ) (lock : Option Lock)
    → is_owned owner (claim owner now lock) ≡ true
    → IsBacked now (claim owner now lock) owner (some (now + lease))
begun-IsBacked owner now lock taken = elim (Bool-cases (is_free owner now lock)) [
  | inl free ↦ rw free (
      inr (record {
        document = record { owner = owner; renewed_at = now; expires_at = now + lease };
        here = refl;
        owned = refl;
        lasts = omega arith;
        near = omega arith;
      }))
  | inr held ↦ absurd (elim (Option-cases lock) [
    | inl nothing ↦ ground (arith, nothing, held)
    | inr (l, here) ↦ ground (arith, here, held, taken)
  ])
]

abbrev AreBacked : (clock : ℕ) → Option Lock → Leases → Type 0
AreBacked clock lock leases = (o : String) → IsBacked clock lock o (leases o)

claim_lock-AreBacked :
    (reply : Reply) (owner : String) (clock now : ℕ) (lock : Option Lock) (leases : Leases)
    → clock ≤ now
    → AreBacked clock lock leases
    → AreBacked now
        (claim_lock reply owner now lock).0
        (leased owner now (is_taken (claim_lock reply owner now lock).1) leases)
unfolding claim_lock
claim_lock-AreBacked answered owner clock now lock leases later backed o =
    elim (Bool-cases (is_owned owner (claim owner now lock) && str_eq o owner)) [
      | inr other ↦ rw other (claimed-IsBacked owner o clock now later lock (leases o) (backed o))
      | inl both ↦
          let same : owner ≡ o = sym ((eq_iff o owner).0 (ground (arith, both))) in
          rw both (
            subst (λ x. IsBacked now (claim owner now lock) x (some (now + lease))) same
              (begun-IsBacked owner now lock (ground (arith, both))))
    ]
claim_lock-AreBacked duplicate_key owner clock now lock leases later backed o =
    kept-IsBacked owner o clock now later lock (leases o) (backed o)
claim_lock-AreBacked (failed true) owner clock now lock leases later backed o =
    claimed-IsBacked owner o clock now later lock (leases o) (backed o)
claim_lock-AreBacked (failed false) owner clock now lock leases later backed o =
    kept-IsBacked owner o clock now later lock (leases o) (backed o)

renew_lock :
    (reply : Reply) (owner : String) (now : ℕ) (lock : Option Lock)
    → ((renew reply owner now lock).0 ≡ (claim_lock reply owner now lock).0)
      × ((renew reply owner now lock).1 ≡ is_taken (claim_lock reply owner now lock).1)
unfolding renew claim_lock
renew_lock answered owner now lock = (refl, refl)
renew_lock duplicate_key owner now lock = (refl, refl)
renew_lock (failed updated) owner now lock = (refl, refl)

release_lock-AreBacked :
    (owner : String) (clock now : ℕ) (lock : Option Lock) (leases : Leases)
    → clock ≤ now
    → AreBacked clock lock leases
    → AreBacked now (release_lock owner lock) (dropped owner leases)
release_lock-AreBacked owner clock now lock leases later backed o =
    elim (Bool-cases (str_eq o owner)) [
      | inl its ↦ rw its tt
      | inr other ↦
          rw other (released-IsBacked owner o clock now later lock (leases o) other (backed o))
    ]

reached-AreBacked :
    {clock : ℕ} {lock : Option Lock} {leases : Leases}
    → Reached clock lock leases
    → AreBacked clock lock leases
reached-AreBacked start = λ o. tt
reached-AreBacked (acquires {clock} {lock} {leases} reply owner now r later) =
    claim_lock-AreBacked reply owner clock now lock leases later (reached-AreBacked r)
reached-AreBacked (renews {clock} {lock} {leases} reply owner now r later) =
    let (same_lock, same_answer) = renew_lock reply owner now lock in
    rw (same_lock, same_answer)
      (claim_lock-AreBacked reply owner clock now lock leases later (reached-AreBacked r))
reached-AreBacked (releases {clock} {lock} {leases} owner now r later) =
    release_lock-AreBacked owner clock now lock leases later (reached-AreBacked r)

-- A runner may take itself to hold the lock: its lease is not over.
abbrev pub Holds : (owner : String) (now : ℕ) → Leases → Type 0
Holds owner now leases = (until : ℕ) × (leases owner ≡ some until) × (now ≤ until)

holder-owned :
    {clock : ℕ} {lock : Option Lock} {leases : Leases} (owner : String) (now : ℕ)
    → Reached clock lock leases
    → clock ≤ now
    → Holds owner now leases
    → (l : Lock) × (lock ≡ some l) × (l.owner ≡ owner)
holder-owned {clock} {lock} owner now r later (until, begun, valid) =
    elim (subst (λ x. IsBacked clock lock owner x) begun (reached-AreBacked r owner)) [
      | inl over ↦ absurd (omega (arith, over, valid, later))
      | inr o ↦ (o.document, o.here, o.owned)
    ]

-- Whatever runners acquire, renew and release the lock, in whatever order and with whatever failures
-- of the database: at no moment do two runners hold an unexpired lease.
pub holders_same :
    {clock : ℕ} {lock : Option Lock} {leases : Leases} (a b : String) (now : ℕ)
    → Reached clock lock leases
    → clock ≤ now
    → Holds a now leases
    → Holds b now leases
    → a ≡ b
holders_same a b now r later holds_a holds_b =
    let (l, here, its_a) = holder-owned a now r later holds_a in
    let (m, there, its_b) = holder-owned b now r later holds_b in
    let same : l ≡ m = ground (arith, here, there) in
    sym its_a ∙ ap (λ (x : Lock). x.owner) same ∙ its_b
