-- ===== src/Dispatcher/Faults.antt =====
-- Where the dispatcher does not do what it means to.
use treeipc.Base.{
  ℕ, ◌<◌, ◌^◌, ◌≡◌, ◌≢◌, refl, List, [], ◌++◌, length, replicate, true, false, Option, none, some,
  arith, lt→ltb,
}
use treeipc.Package.{Package}
use treeipc.Package.Copy.{assign_lem}
use treeipc.Transport.{Transport}
use treeipc.Dispatcher.{
  Dispatcher, answered, notified, process_notification, generate_msgid, send_finish, release_msgid,
  set_flag, frame, with_reply_flag, reply, find,
}
use treeipc.Dispatcher.RoundTrip.{
  IsPackage, IsPackage-zeros, reply_arrives, process_notification-frame,
}

abbrev pub after_reply : Dispatcher → ℕ → Package → Dispatcher
after_reply d id rep = record d {
  reply_in = rep ++ replicate 9 0;
  response_received = set_flag d.response_received id true;
}

-- Two replies that arrive before the first waiter wakes: both flags are up, and the waiter for the
-- first id is given the second reply, since all replies pass through the one package `in`.
pub replies_swapped :
    (d : Dispatcher) (from id other : ℕ) (rep rep' resp : Package)
    → id ≢ 0
    → id < 2 ^ 15
    → other ≢ 0
    → other < 2 ^ 15
    → IsPackage rep
    → IsPackage rep'
    → let d' = after_reply d id rep in
      let d'' = after_reply d' other rep' in
      (process_notification d from (frame (with_reply_flag id) rep) ≡ some (d', answered id))
      × (process_notification d' from (frame (with_reply_flag other) rep')
          ≡ some (d'', answered other))
      × (d''.response_received id ≡ true)
      × (send_finish d'' id resp
          ≡ some (release_msgid d'' id, (rep' ++ replicate 9 0) ++ replicate 9 0))
unfolding send_finish release_msgid
replies_swapped d from id other rep rep' resp nz h nz' h' bp bp' =
    let grown = IsPackage-zeros rep' 9 bp' in
    (
      reply_arrives d from id rep nz h bp,
      reply_arrives (after_reply d id rep) from other rep' nz' h' bp',
      ground arith,
      rw (assign_lem (rep' ++ replicate 9 0) grown.0 grown.1 resp) refl,
    )

-- Where the counter has reached 2 ^ 15 and no id is released, the next id is the reply flag itself. The
-- peer takes the request for one that wants no reply: it is notified of it and keeps no id, so its
-- `reply` to a package that is not known from an earlier request returns false and sends nothing.
pub flagged_request_lost :
    (d peer : Dispatcher) (address : ℕ) (req rep : Package) (t : Transport) (s : Option t.State)
    → d.msgid ≡ 2 ^ 15
    → d.msgid_released ≡ []
    → find address peer.request_msgids ≡ none
    → ((generate_msgid d).1 ≡ 2 ^ 15)
      × (process_notification peer address (frame (2 ^ 15) req) ≡ some (peer, notified address req))
      × (reply t s peer address rep ≡ (s, peer, false))
unfolding generate_msgid reply
flagged_request_lost d peer address req rep t s full nothing unknown = (
  ground arith,
  process_notification-frame peer address (2 ^ 15) req (omega arith),
  rw unknown refl,
)

-- A vector of one byte is read past its end.
pub short_vector_faults :
    (d : Dispatcher) (address : ℕ) (p : List ℕ)
    → length p < 2
    → process_notification d address p ≡ none
unfolding process_notification
short_vector_faults d address p h = rw (lt→ltb (length p) 2 h) refl
