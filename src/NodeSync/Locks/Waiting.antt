-- ===== src/NodeSync/Locks/Waiting.antt =====
-- When calls come back, and when they never do.
use treeipc.Base.{ℕ, ◌+◌, ◌≡◌, ◌⊎◌, inl, inr, refl, Bool, true, false, if◌then◌else◌, arith}
use treeipc.NodeSync.Locks.{
  Caller, resting, waits, woken, holds, Worker, idle, looking, naming, Side, Turn, call, take, look,
  refuse, name, back, Step, first, second, Steps, here, after, Reach,
}

abbrev pub asked : Caller → ℕ
asked resting = 0
asked (waits locked) = 1
asked (woken locked) = 0

abbrev pub handled : Worker → ℕ
handled idle = 0
handled looking = 1
handled naming = 1

-- The requests of one side that the other one has not replied to.
abbrev pub load : Side → ℕ
load s = (if s.inbox then 1 else 0) + handled s.worker

-- Who waits has one request at the other side, in the queue or at the processing thread, and who does not
-- wait has none.
pub record IsOpen (a b : Side) : Type 0 where
  pub of_first : load b ≡ asked a.caller
  pub of_second : load a ≡ asked b.caller

Turn-IsOpen : {a b a' b' : Side} → Turn a b a' b' → IsOpen a b → IsOpen a' b'
Turn-IsOpen (call locked e) h = ground arith
Turn-IsOpen (take e i) h = ground arith
Turn-IsOpen (look e f) h = ground arith
Turn-IsOpen (refuse e f) h = ground arith
Turn-IsOpen (name e f) h = ground arith
Turn-IsOpen (back locked e) h = ground arith

Step-IsOpen : {a b a' b' : Side} → Step a b a' b' → IsOpen a b → IsOpen a' b'
Step-IsOpen (first t) h = Turn-IsOpen t h
Step-IsOpen (second t) h =
    let h' = Turn-IsOpen t (record { of_first = h.of_second; of_second = h.of_first }) in
    record { of_first = h'.of_second; of_second = h'.of_first }

Steps-IsOpen : {a b a' b' : Side} → Steps a b a' b' → IsOpen a b → IsOpen a' b'
Steps-IsOpen here h = h
Steps-IsOpen (after r s) h = Step-IsOpen s (Steps-IsOpen r h)

BothWait : Side → Side → Type 0
BothWait a b = (a.caller ≡ waits true) × (b.caller ≡ waits true)

Turn-BothWait : {a b a' b' : Side} → Turn a b a' b' → BothWait a b → BothWait a' b'
unfolding BothWait
Turn-BothWait (call locked e) h = ground arith
Turn-BothWait (take e i) h = h
Turn-BothWait (look e f) h = ground arith
Turn-BothWait (refuse e f) h = ground arith
Turn-BothWait (name e f) h = ground arith
Turn-BothWait (back locked e) h = ground arith

-- Where both sides wait with their mutex held, both do in every continuation: neither call comes back.
pub Steps-both_wait :
    {a b a' b' : Side}
    → Steps a b a' b'
    → a.caller ≡ waits true
    → b.caller ≡ waits true
    → (a'.caller ≡ waits true) × (b'.caller ≡ waits true)
unfolding BothWait
Steps-both_wait here p q = (p, q)
Steps-both_wait (after r (first t)) p q = Turn-BothWait t (Steps-both_wait r p q)
Steps-both_wait (after r (second t)) p q =
    let h = Steps-both_wait r p q in let h' = Turn-BothWait t (h.1, h.0) in (h'.1, h'.0)

before : {a b a' b' a'' b'' : Side} → Step a b a' b' → Steps a' b' a'' b'' → Steps a b a'' b''
before s here = after here s
before s (after r t) = after (before s r) t

both_runs : {a b a' b' a'' b'' : Side} → Steps a b a' b' → Steps a' b' a'' b'' → Steps a b a'' b''
both_runs r here = r
both_runs r (after q s) = after (both_runs r q) s

swap : {a b a' b' : Side} → Steps a b a' b' → Steps b a b' a'
swap here = here
swap (after r (first t)) = after (swap r) (second t)
swap (after r (second t)) = after (swap r) (first t)

abbrev side : Caller → Worker → Bool → Side
side c w i = record { caller = c; worker = w; inbox = i }

-- A request whose replier's mutex is free is replied to, and its caller comes back.
module _ (l : Bool) (wa : Worker) (ia : Bool) (cb : Caller) (free : holds cb ≡ false) where
  abbrev ServedFrom : Worker → Bool → Type 0
  ServedFrom wb ib =
      Steps (side (waits l) wa ia) (side cb wb ib) (side resting wa ia) (side cb idle false)

  served_naming : ServedFrom naming false
  served_naming = before (second (name refl free)) (before (first (back l refl)) here)

  served_looking : ServedFrom looking false
  served_looking = before (second (look refl free)) served_naming

  served : (wb : Worker) (ib : Bool) → load (side cb wb ib) ≡ 1 → ServedFrom wb ib
  served naming false e = served_naming
  served looking false e = served_looking
  served idle true e = before (second (take refl refl)) served_looking
  served idle false e = absurd (omega (arith, e))
  served looking true e = absurd (omega (arith, e))
  served naming true e = absurd (omega (arith, e))

-- Some steps on, both sides are at rest.
abbrev pub Rests : Side → Side → Type 0
Rests a b = (a' b' : Side) × Steps a b a' b' × (a'.caller ≡ resting) × (b'.caller ≡ resting)

later : {a b a' b' : Side} → Steps a b a' b' → Rests a' b' → Rests a b
later r (a'', b'', q, p, p') = (a'', b'', both_runs r q, p, p')

Rests-swap : {a b : Side} → Rests a b → Rests b a
Rests-swap (a', b', r, p, p') = (b', a', swap r, p', p)

module _ (wa : Worker) (ia : Bool) (wb : Worker) (ib : Bool) where
  first_waits :
      (l : Bool) → load (side resting wb ib) ≡ 1 → Rests (side (waits l) wa ia) (side resting wb ib)
  first_waits l e =
      (side resting wa ia, side resting idle false, served l wa ia resting refl wb ib e, refl, refl)

first_rests :
    (wa : Worker) (ia : Bool) (cb : Caller) (wb : Worker) (ib : Bool)
    → load (side resting wa ia) ≡ asked cb
    → Rests (side resting wa ia) (side cb wb ib)
first_rests wa ia resting wb ib e = (side resting wa ia, side resting wb ib, here, refl, refl)
first_rests wa ia (waits l) wb ib e = Rests-swap (first_waits wb ib wa ia l e)
first_rests wa ia (woken l) wb ib e =
    (side resting wa ia, side resting wb ib, after here (second (back l refl)), refl, refl)

rests :
    (ca cb : Caller) (wa : Worker) (ia : Bool) (wb : Worker) (ib : Bool)
    → IsOpen (side ca wa ia) (side cb wb ib)
    → ((ca ≡ waits true) × (cb ≡ waits true)) ⊎ Rests (side ca wa ia) (side cb wb ib)
rests resting cb wa ia wb ib h = inr (first_rests wa ia cb wb ib h.of_second)
rests (woken l) cb wa ia wb ib h =
    inr (later (after here (first (back l refl))) (first_rests wa ia cb wb ib h.of_second))
rests (waits l) resting wa ia wb ib h = inr (first_waits wa ia wb ib l h.of_first)
rests (waits l) (woken l') wa ia wb ib h =
    inr (later (after here (second (back l' refl))) (first_waits wa ia wb ib l h.of_first))
rests (waits false) (waits l') wa ia wb ib h = inr (
    later (swap (served l' wb ib (waits false) refl wa ia h.of_second))
      (first_waits idle false wb ib false h.of_first))
rests (waits true) (waits false) wa ia wb ib h = inr (
    later (served true wa ia (waits false) refl wb ib h.of_first)
      (first_rests wa ia (waits false) idle false h.of_second))
rests (waits true) (waits true) wa ia wb ib h = inl (refl, refl)

-- In every state that two sides reach, either both wait with their mutex held, or there are steps after
-- which neither is in a call.
pub Reach-cases :
    {a b : Side} → Reach a b → ((a.caller ≡ waits true) × (b.caller ≡ waits true)) ⊎ Rests a b
Reach-cases {a = a} {b = b} r =
    rests a.caller b.caller a.worker a.inbox b.worker b.inbox
      (Steps-IsOpen r (record { of_first = refl; of_second = refl }))
