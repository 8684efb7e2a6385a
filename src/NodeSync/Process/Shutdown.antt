-- ===== src/NodeSync/Process/Shutdown.antt =====
-- `~node_sync` beside `package_processing_routine`: the flag is cleared, a null pointer wakes the thread, and
-- `join` waits for its end.
use treeipc.Base.{
  ℕ, ◌<◌, ◌≡◌, ◌≢◌, ◌⊎◌, inl, inr, refl, subst, List, [], ◌∷◌, Bool, true, false, Option, none,
  some, arith,
}
use treeipc.Package.{Package}
use treeipc.Queue.{push, pop}

-- Where the thread is: before the test of the loop, in `pop`, before the test behind it with what it was
-- given, in `process_package`, and behind the loop.
pub data Position : Type 0 where
  testing popping ended : Position
  popped : Option Package → Position
  handling : Package → Position

-- Where the destructor is: not called, before `push`, and in `join`.
pub data Phase : Type 0 where
  alive cleared joining : Phase

pub record Ending : Type 0 where
  pub running : Bool
  pub queue : List (Option Package)
  pub at : Position
  pub phase : Phase

abbrev pub new_thread : Ending
new_thread = record { running = true; queue = []; at = testing; phase = alive }

abbrev pub after_test : Ending → Bool → Ending
after_test e true = record e { at = popping }
after_test e false = record e { at = ended }

abbrev pub after_pop : Ending → Option (Option Package × List (Option Package)) → Option Ending
after_pop e none = none
after_pop e (some (p, q)) = some (record e { queue = q; at = popped p })

abbrev pub second_test : Ending → Bool → Option Package → Ending
second_test e running none = record e { at = ended }
second_test e false (some p) = record e { at = ended }
second_test e true (some p) = record e { at = handling p }

abbrev pub step_at : Ending → Position → Option Ending
step_at e testing = some (after_test e e.running)
step_at e popping = after_pop e (pop e.queue)
step_at e (popped p) = some (second_test e e.running p)
step_at e (handling p) = some (record e { at = testing })
step_at e ended = none

-- The next step of the thread; `none` where it waits in `pop`, or has ended.
unfoldable pub thread_step : Ending → Option Ending
thread_step e = step_at e e.at

abbrev pub destroy_in : Ending → Phase → Option Ending
destroy_in e alive = some (record e { running = false; phase = cleared })
destroy_in e cleared = some (record e { queue = push e.queue none; phase = joining })
destroy_in e joining = none

-- The next step of the destructor; `none` where it waits in `join`.
unfoldable pub destroy_step : Ending → Option Ending
destroy_step e = destroy_in e e.phase

-- `process_notification` queues a package.
unfoldable pub arrives : Ending → Package → Ending
arrives e p = record e { queue = push e.queue (some p) }

pub data Reach : Ending → Type 0 where
  start : Reach new_thread
  works : {e e' : Ending} → Reach e → thread_step e ≡ some e' → Reach e'
  destroys : {e e' : Ending} → Reach e → destroy_step e ≡ some e' → Reach e'
  notifies : {e : Ending} (p : Package) → Reach e → Reach (arrives e p)

abbrev is_alive : Phase → Bool
is_alive alive = true
is_alive cleared = false
is_alive joining = false

-- In `join`, a thread that is in `pop` is given something.
abbrev IsAwake : Phase → Position → List (Option Package) → Type 0
IsAwake joining popping q = q ≢ []
IsAwake joining testing q = Unit
IsAwake joining ended q = Unit
IsAwake joining (popped p) q = Unit
IsAwake joining (handling p) q = Unit
IsAwake alive a q = Unit
IsAwake cleared a q = Unit

record IsSound (e : Ending) : Type 0 where
  flag : e.running ≡ is_alive e.phase
  awake : IsAwake e.phase e.at e.queue

push-ne-nil : (q : List (Option Package)) (p : Option Package) → push q p ≢ []
unfolding push
push-ne-nil [] p e = cc
push-ne-nil (x ∷ q) p e = cc

IsAwake-push :
    (f : Phase) (a : Position) (q : List (Option Package)) (p : Option Package)
    → IsAwake f a (push q p)
IsAwake-push alive a q p = tt
IsAwake-push cleared a q p = tt
IsAwake-push joining popping q p = push-ne-nil q p
IsAwake-push joining testing q p = tt
IsAwake-push joining ended q p = tt
IsAwake-push joining (popped x) q p = tt
IsAwake-push joining (handling x) q p = tt

abbrev SoundIfAny : Option Ending → Type 0
SoundIfAny none = Unit
SoundIfAny (some e) = IsSound e

IsAwake-popping : (f : Phase) (q : List (Option Package)) → true ≡ is_alive f → IsAwake f popping q
IsAwake-popping alive q h = tt
IsAwake-popping cleared q h = tt
IsAwake-popping joining q h = absurd (cc)

IsAwake-ended : (f : Phase) (q : List (Option Package)) → IsAwake f ended q
IsAwake-ended alive q = tt
IsAwake-ended cleared q = tt
IsAwake-ended joining q = tt

IsAwake-testing : (f : Phase) (q : List (Option Package)) → IsAwake f testing q
IsAwake-testing alive q = tt
IsAwake-testing cleared q = tt
IsAwake-testing joining q = tt

IsAwake-popped :
    (f : Phase) (p : Option Package) (q : List (Option Package)) → IsAwake f (popped p) q
IsAwake-popped alive p q = tt
IsAwake-popped cleared p q = tt
IsAwake-popped joining p q = tt

IsAwake-handling : (f : Phase) (p : Package) (q : List (Option Package)) → IsAwake f (handling p) q
IsAwake-handling alive p q = tt
IsAwake-handling cleared p q = tt
IsAwake-handling joining p q = tt

thread_step-IsSound :
    (r : Bool) (q : List (Option Package)) (a : Position) (f : Phase)
    → r ≡ is_alive f
    → SoundIfAny (thread_step (record { running = r; queue = q; at = a; phase = f }))
unfolding thread_step pop
thread_step-IsSound true q testing f h = record { flag = h; awake = IsAwake-popping f q h }
thread_step-IsSound false q testing f h = record { flag = h; awake = IsAwake-ended f q }
thread_step-IsSound r [] popping f h = tt
thread_step-IsSound r (x ∷ q) popping f h = record { flag = h; awake = IsAwake-popped f x q }
thread_step-IsSound r q (popped none) f h = record { flag = h; awake = IsAwake-ended f q }
thread_step-IsSound false q (popped (some p)) f h = record { flag = h; awake = IsAwake-ended f q }
thread_step-IsSound true q (popped (some p)) f h = record {
  flag = h;
  awake = IsAwake-handling f p q;
}
thread_step-IsSound r q (handling p) f h = record { flag = h; awake = IsAwake-testing f q }
thread_step-IsSound r q ended f h = tt

destroy_step-IsSound :
    (r : Bool) (q : List (Option Package)) (a : Position) (f : Phase)
    → r ≡ is_alive f
    → SoundIfAny (destroy_step (record { running = r; queue = q; at = a; phase = f }))
unfolding destroy_step
destroy_step-IsSound r q a alive h = record { flag = refl; awake = tt }
destroy_step-IsSound r q a cleared h = record { flag = h; awake = IsAwake-push joining a q none }
destroy_step-IsSound r q a joining h = tt

Reach-IsSound : {e : Ending} → Reach e → IsSound e
unfolding arrives
Reach-IsSound start = record { flag = refl; awake = tt }
Reach-IsSound (works {e = e} r s) =
    subst SoundIfAny s (thread_step-IsSound e.running e.queue e.at e.phase (Reach-IsSound r).flag)
Reach-IsSound (destroys {e = e} r s) =
    subst SoundIfAny s (destroy_step-IsSound e.running e.queue e.at e.phase (Reach-IsSound r).flag)
Reach-IsSound (notifies {e = e} p r) = record {
  flag = (Reach-IsSound r).flag;
  awake = IsAwake-push e.phase e.at e.queue (some p);
}

-- At most how many steps the thread takes once the flag is cleared.
abbrev pub steps_left : Position → ℕ
steps_left ended = 0
steps_left testing = 1
steps_left (popped p) = 1
steps_left popping = 2
steps_left (handling p) = 2

-- The thread moves on, nearer to its end, and not into `process_package`.
abbrev pub MovesOn : Ending → Type 0
MovesOn e =
    (e' : Ending) × (thread_step e ≡ some e')
    × (steps_left e'.at < steps_left e.at)
    × ((p : Package) → e'.at ≢ handling p)

moves_on :
    (q : List (Option Package)) (a : Position)
    → IsAwake joining a q
    → (a ≡ ended) ⊎ MovesOn (record { running = false; queue = q; at = a; phase = joining })
unfolding thread_step pop
moves_on q ended h = inl refl
moves_on q testing h = inr (_, refl, omega arith, λ p e. cc)
moves_on q (popped none) h = inr (_, refl, omega arith, λ p e. cc)
moves_on q (popped (some x)) h = inr (_, refl, omega arith, λ p e. cc)
moves_on q (handling x) h = inr (_, refl, omega arith, λ p e. cc)
moves_on [] popping h = absurd (h refl)
moves_on (x ∷ q) popping h = inr (_, refl, omega arith, λ p e. cc)

joined :
    (r : Bool) (q : List (Option Package)) (a : Position) (f : Phase)
    → r ≡ is_alive f
    → IsAwake f a q
    → f ≡ joining
    → (a ≡ ended) ⊎ MovesOn (record { running = r; queue = q; at = a; phase = f })
joined r q a alive h w e = absurd (cc)
joined r q a cleared h w e = absurd (cc)
joined true q a joining h w e = absurd (cc)
joined false q a joining h w e = moves_on q a w

-- However the thread, the destructor and the arrival of packages interleave: once the destructor is in
-- `join`, the thread has ended, or it can take a step, and that step takes it nearer to its end, which is two
-- steps away at most where `process_package` returns, and not into `process_package`: what is still in
-- the queue is not handled.
pub Reach-MovesOn : {e : Ending} → Reach e → e.phase ≡ joining → (e.at ≡ ended) ⊎ MovesOn e
Reach-MovesOn {e = e} r f =
    let h = Reach-IsSound r in joined e.running e.queue e.at e.phase h.flag h.awake f
