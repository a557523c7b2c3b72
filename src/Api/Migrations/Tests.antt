-- ===== src/Api/Migrations/Tests.antt =====
-- Two runners of the migrations, and the theorem at a concrete input.
use theft_detection_platform.Prelude.{String, ◌≡◌, refl, true, false, Option, some, none, arith}
use theft_detection_platform.Api.Migrations.{
  Lock, answered, failed, claim_lock, try_acquire, renew, release_lock,
}
use theft_detection_platform.Api.Migrations.Exclusive.{
  Leases, leased, is_taken, Reached, start, acquires, Holds, holders_same,
}

-- Everything that a run calls.
program : Unit {0}
unfolding claim_lock renew release_lock
program = tt

abbrev taken : Option Lock
taken = (try_acquire answered "a" 10 none).0

abbrev renewed : Option Lock
renewed = (renew answered "a" 1000000 taken).0

refused : (try_acquire answered "b" 120000010 taken).1 ≡ some false
unfolding program
refused = refl

taken_over : (try_acquire answered "b" 120000011 taken).1 ≡ some true
unfolding program
taken_over = refl

still_refused : (try_acquire answered "b" 120000011 renewed).1 ≡ some false
unfolding program
still_refused = refl

lost : (renew (failed true) "a" 20 taken).1 ≡ false
unfolding program
lost = refl

freed : release_lock "a" taken ≡ none
unfolding program
freed = refl

-- Who holds what, once the second runner has taken over.
abbrev leases : Leases
leases =
    leased "b" 120000011 (is_taken (try_acquire answered "b" 120000011 taken).1)
      (leased "a" 10 (is_taken (try_acquire answered "a" 10 none).1) (λ owner. none))

reached : Reached 120000011 (try_acquire answered "b" 120000011 taken).0 leases
reached =
    acquires answered "b" 120000011 (acquires answered "a" 10 start (omega arith)) (omega arith)

holds : Holds "b" 120000020 leases
unfolding program
holds = (240000011, refl, omega arith)

abbrev second : String
second = "b"

holders_same_example : second ≡ second
holders_same_example =
    holders_same {leases = leases} second second 120000020 reached (omega arith) holds holds
