-- ===== src/Observable/Tests.antt =====
-- An observable 1 with the listener 5.
use treeipc.Base.{ℕ, ◌≡◌, ◌≢◌, none, some, ◌==◌, if◌then◌else◌, arith}
use treeipc.Observable.{Links, set_listener, delete_listener, notify}
use treeipc.Observable.Pairing.{
  IsPaired, tied, without, set_listener-IsPaired, delete_listener-IsPaired,
}

abbrev one_pair : Links
one_pair = record {
  listener_of = λ x. if x == 1 then some 5 else none;
  observable_of = λ y. if y == 5 then some 1 else none;
}

one_pair-IsPaired : IsPaired one_pair
one_pair-IsPaired = record { forth = λ o k e. ground arith; back = λ o k e. ground arith }

set_listener-IsPaired_example :
    (set_listener one_pair 2 (some 5) ≡ some (tied one_pair 2 5)) × IsPaired (tied one_pair 2 5)
set_listener-IsPaired_example = set_listener-IsPaired one_pair 2 5 one_pair-IsPaired

delete_listener-IsPaired_example :
    (delete_listener one_pair 5 ≡ some (without one_pair 5))
    × IsPaired (without one_pair 5)
    × ((o : ℕ) → notify (without one_pair 5) o ≢ some 5)
delete_listener-IsPaired_example = delete_listener-IsPaired one_pair 5 one_pair-IsPaired
