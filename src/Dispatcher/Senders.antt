-- ===== src/Dispatcher/Senders.antt =====
-- The threads that call `send`, as interleavings: `senders_mutex` makes the part before the wait, the
-- arrival of a reply and the part after the wait one step each. `waiting` holds the ids in flight.
use treeipc.Base.{
  ℕ, ◌+◌, ◌-◌, ◌≤◌, ◌<◌, ◌^◌, ◌≡◌, refl, ap, subst, List, [], ◌∷◌, ◌++◌, length, true, false, some,
  arith, leb, ltb, ◌==◌, if◌then◌else◌, ◌&&◌, length-append,
}
use treeipc.Package.{Package}
use treeipc.Dispatcher.{
  Dispatcher, Event, process_notification, generate_msgid, release_msgid, new_dispatcher,
  send_finish, set_flag, next_msgid,
}

pub record Senders : Type 0 where
  pub dispatcher : Dispatcher
  pub waiting : List ℕ

-- How often an id is in a list.
unfoldable pub count : ℕ → List ℕ → ℕ
count x [] = 0
count x (y ∷ ys) = (if y == x then 1 else 0) + count x ys

-- The most requests in flight for which the ids stay clear of the reply flag.
abbrev pub max_in_flight : ℕ
max_in_flight = 2 ^ 15 - 1

-- What one thread, or the receiver, does next. A `begin` whose write fails releases its id at once.
pub data Step (s : Senders) : Senders → Type 0 where
  begin :
      length s.waiting < max_in_flight
      → (d : Dispatcher) → (id : ℕ) → generate_msgid s.dispatcher ≡ (d, id)
      → Step s (record {
        dispatcher = record d { response_received = set_flag d.response_received id false };
        waiting = id ∷ s.waiting;
      })
  begin_fails :
      length s.waiting < max_in_flight
      → (d : Dispatcher) → (id : ℕ) → generate_msgid s.dispatcher ≡ (d, id)
      → Step s (record {
        dispatcher =
            release_msgid
              (record d { response_received = set_flag d.response_received id false })
              id;
        waiting = s.waiting;
      })
  arrive :
      (address : ℕ)
      → (p : List ℕ) → (d : Dispatcher) → (event : Event)
      → process_notification s.dispatcher address p ≡ some (d, event)
      → Step s (record { dispatcher = d; waiting = s.waiting })
  finish :
      (before after : List ℕ)
      → (id : ℕ) → s.waiting ≡ before ++ (id ∷ after)
      → s.dispatcher.response_received id ≡ true
      → (resp out : Package) → (d : Dispatcher) → send_finish s.dispatcher id resp ≡ some (d, out)
      → Step s (record { dispatcher = d; waiting = before ++ after })

pub data Reach : Senders → Type 0 where
  start : Reach (record { dispatcher = new_dispatcher; waiting = [] })
  next : {s u : Senders} → Reach s → Step s u → Reach u

-- Each id from 1 up to the counter is once in flight or released, and no other is.
pub record IsExact (s : Senders) : Type 0 where
  pub once :
      (x : ℕ)
      → count x s.waiting + count x s.dispatcher.msgid_released
        ≡ (if leb 1 x && ltb x s.dispatcher.msgid then 1 else 0)
  pub total : length s.waiting + length s.dispatcher.msgid_released + 1 ≡ s.dispatcher.msgid
  pub bounded : s.dispatcher.msgid ≤ 2 ^ 15

count-append : (x : ℕ) (xs ys : List ℕ) → count x (xs ++ ys) ≡ count x xs + count x ys
unfolding count
count-append x [] ys = omega arith
count-append x (z ∷ xs) ys = omega (arith, count-append x xs ys)

-- The ids of two dispatchers count alike.
abbrev SameIds : Dispatcher → Dispatcher → Type 0
SameIds d e = (d.msgid ≡ e.msgid) × (d.msgid_released ≡ e.msgid_released)

process_notification-SameIds :
    (d d' : Dispatcher) (address : ℕ) (p : List ℕ) (event : Event)
    → process_notification d address p ≡ some (d', event)
    → SameIds d' d
unfolding process_notification
process_notification-SameIds d d' address p event e = ground arith

send_finish-SameIds :
    (d d' : Dispatcher) (id : ℕ) (resp out : Package)
    → send_finish d id resp ≡ some (d', out)
    → SameIds d' (release_msgid d id)
unfolding send_finish
send_finish-SameIds d d' id resp out e = ground arith

-- What `generate_msgid` takes: the last id released, or the counter's.
generate_cases :
    (s : Senders) (released : List ℕ) (d : Dispatcher) (id : ℕ)
    → s.dispatcher.msgid_released ≡ released
    → IsExact s
    → length s.waiting < max_in_flight
    → next_msgid s.dispatcher released ≡ (d, id)
    → IsExact (record { dispatcher = d; waiting = id ∷ s.waiting })
unfolding count
generate_cases s [] d id e h l g = record {
  once = λ x. ground (arith, h.once x);
  total = ground (arith, h.total);
  bounded = ground (arith, h.total);
}
generate_cases s (r ∷ released) d id e h l g = record {
  once = λ x. ground (arith, h.once x);
  total = ground (arith, h.total);
  bounded = ground (arith, h.bounded);
}

generate-IsExact :
    (s : Senders) (d : Dispatcher) (id : ℕ)
    → IsExact s
    → length s.waiting < max_in_flight
    → generate_msgid s.dispatcher ≡ (d, id)
    → IsExact (record { dispatcher = d; waiting = id ∷ s.waiting })
unfolding generate_msgid
generate-IsExact s d id h l g = generate_cases s s.dispatcher.msgid_released d id refl h l g

-- An id that moves from the ones in flight to the released ones.
release-IsExact :
    (d d' : Dispatcher) (before after : List ℕ) (id : ℕ)
    → IsExact (record { dispatcher = d; waiting = before ++ (id ∷ after) })
    → SameIds d' (release_msgid d id)
    → IsExact (record { dispatcher = d'; waiting = before ++ after })
unfolding release_msgid count
release-IsExact d d' before after id h same = record {
  once = λ x.
      ground (arith, h.once x, count-append x before (id ∷ after), count-append x before after);
  total = ground (arith, h.total, length-append before (id ∷ after), length-append before after);
  bounded = ground (arith, h.bounded);
}

Step-IsExact : {s u : Senders} → Step s u → IsExact s → IsExact u
Step-IsExact {s} (begin l d id g) h =
    let k = generate-IsExact s d id h l g in
    record { once = k.once; total = k.total; bounded = k.bounded }
Step-IsExact {s} (begin_fails l d id g) h =
    let k = generate-IsExact s d id h l g in
    release-IsExact (record d { response_received = set_flag d.response_received id false }) _ []
      s.waiting id (record { once = k.once; total = k.total; bounded = k.bounded }) (refl, refl)
Step-IsExact {s} (arrive address p d event e) h =
    let same = process_notification-SameIds s.dispatcher d address p event e in
    record {
      once = λ x. ground (arith, h.once x);
      total = ground (arith, h.total);
      bounded = ground (arith, h.bounded);
    }
Step-IsExact {s} (finish before after id w f resp out d e) h =
    release-IsExact s.dispatcher d before after id
      (subst (λ l. IsExact (record { dispatcher = s.dispatcher; waiting = l })) w h)
      (send_finish-SameIds s.dispatcher d id resp out e)

start-IsExact : IsExact (record { dispatcher = new_dispatcher; waiting = [] })
unfolding new_dispatcher generate_msgid count
start-IsExact = record { once = λ x. ground arith; total = refl; bounded = omega arith }

-- However the threads and the receiver are interleaved, while at most 2 ^ 15 - 1 requests are in
-- flight, every id from 1 up to the counter is either in flight once or released once, no other is,
-- and the counter stays within the fifteen bits below the reply flag.
pub Reach-IsExact : {s : Senders} → Reach s → IsExact s
Reach-IsExact start = start-IsExact
Reach-IsExact (next r st) = Step-IsExact st (Reach-IsExact r)

-- So the id of a request in flight belongs to no other request, is not released, is not 0, and does
-- not carry the reply flag.
pub in_flight_unique :
    {s : Senders} (before after : List ℕ) (id : ℕ)
    → Reach s
    → s.waiting ≡ before ++ (id ∷ after)
    → (count id (before ++ after) ≡ 0)
      × (count id s.dispatcher.msgid_released ≡ 0)
      × (0 < id)
      × (id < 2 ^ 15)
unfolding count
in_flight_unique {s} before after id r w =
    let h = Reach-IsExact r in
    ground (
      arith,
      h.once id,
      h.bounded,
      ap (count id) w,
      count-append id before (id ∷ after),
      count-append id before after,
    )
