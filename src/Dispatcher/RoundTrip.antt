-- ===== src/Dispatcher/RoundTrip.antt =====
-- A request and its reply, from `send` on one side through the peer and back.
use treeipc.Base.{
  ℕ, zero, suc, ◌≤◌, ◌<◌, ◌^◌, ◌≡◌, ◌≢◌, refl, ap₂, ◌∙◌, List, [], ◌∷◌, ◌++◌, length, drop, take,
  replicate, le_bytes, le_value, Bool, true, false, Option, none, some, arith, All, IsByte,
  All-append, length-append, length-le_bytes, le_value-le_bytes, ne→==, ==_refl, le→ltb,
  if◌then◌else◌,
}
use treeipc.Package.{Package}
use treeipc.Package.Copy.{copy_lem, assign_lem}
use treeipc.Transport.{Transport}
use treeipc.Dispatcher.{
  Dispatcher, answered, notified, set_flag, erase, frame, dispatch, process_notification,
  generate_msgid, release_msgid, reply, write, send_begin, send_finish, with_reply_flag,
  without_reply_flag, has_reply_flag, find,
}

-- A package as the code builds them: bytes, with room for the header.
abbrev pub IsPackage : Package → Type 0
IsPackage p = All IsByte p × (9 ≤ length p)

zeros-IsByte : (n : ℕ) → All IsByte (replicate n 0)
zeros-IsByte zero = tt
zeros-IsByte (suc n) = (omega arith, zeros-IsByte n)

pub IsPackage-zeros : (p : Package) (n : ℕ) → IsPackage p → IsPackage (p ++ replicate n 0)
IsPackage-zeros p n h = (
  All-append IsByte p (replicate n 0) h.0 (zeros-IsByte n),
  omega (arith, length-append p (replicate n 0)),
)

frame_id : (id : ℕ) (p : Package) → id < 2 ^ 16 → le_value (take 2 (frame id p)) ≡ id
unfolding le_bytes
frame_id id p h = le_value-le_bytes 2 id h

frame_rest : (id : ℕ) (p : Package) → drop 2 (frame id p) ≡ p
unfolding le_bytes
frame_rest id p = refl

-- What arrives is dispatched by the id that the sender put in front of it.
pub process_notification-frame :
    (d : Dispatcher) (address id : ℕ) (p : Package)
    → id < 2 ^ 16
    → process_notification d address (frame id p)
      ≡ dispatch d address p (without_reply_flag id) (has_reply_flag id)
unfolding process_notification
process_notification-frame d address id p h =
    rw
      (le→ltb (length (frame id p)) 2
        (omega (arith, length-append (le_bytes 2 id) p, length-le_bytes 2 id)))
      (rw (frame_id id p h) (rw (frame_rest id p) refl))

-- The peer of a request keeps its id under the address of the package that it is notified of.
pub request_arrives :
    (d : Dispatcher) (address id : ℕ) (p : Package)
    → id ≢ 0
    → id < 2 ^ 15
    → process_notification d address (frame id p)
      ≡ some (
        record d { request_msgids = (address, id) ∷ erase address d.request_msgids },
        notified address p,
      )
request_arrives d address id p nz h =
    process_notification-frame d address id p (omega arith)
    ∙ ap₂ (dispatch d address p) (let e : without_reply_flag id ≡ id = omega arith in e) flag_clear
    ∙ rw (ne→== id 0 nz)
  where
    flag_clear : has_reply_flag id ≡ false
    flag_clear = ground arith

-- A reply sets the flag of the request's id and stands in `in`, grown by the nine bytes of a copy.
pub reply_arrives :
    (d : Dispatcher) (address id : ℕ) (p : Package)
    → id ≢ 0
    → id < 2 ^ 15
    → IsPackage p
    → process_notification d address (frame (with_reply_flag id) p)
      ≡ some (
        record d {
          reply_in = p ++ replicate 9 0;
          response_received = set_flag d.response_received id true;
        },
        answered id,
      )
reply_arrives d address id p nz h b =
    process_notification-frame d address (with_reply_flag id) p (omega arith)
    ∙ ap₂ (dispatch d address p) plain flag_set
    ∙ rw (ne→== id 0 nz) (rw (assign_lem p b.0 b.1 d.reply_in))
  where
    plain : without_reply_flag (with_reply_flag id) ≡ id
    plain = omega arith

    flag_set : has_reply_flag (with_reply_flag id) ≡ true
    flag_set = ground arith

pub find-erase : (k : ℕ) (m : List (ℕ × ℕ)) → find k (erase k m) ≡ none
find-erase k [] = refl
find-erase k ((j, v) ∷ m) = ground (arith, find-erase k m)

pub find-erase_ne : (k j : ℕ) (m : List (ℕ × ℕ)) → k ≢ j → find j (erase k m) ≡ find j m
find-erase_ne k j [] h = refl
find-erase_ne k j ((i, v) ∷ m) h = ground (arith, find-erase_ne k j m h)

module _ (t : Transport) where
  open t use {State}

  -- `send` up to its wait: where the write succeeds the caller waits for the id that it took, with its
  -- flag down, and where it fails the id is released again. What is written is a copy of the request.
  pub send_begin_lem :
      (s s' : Option State) (d d' : Dispatcher) (req : Package) (id : ℕ) (ok : Bool)
      → IsPackage req
      → generate_msgid d ≡ (d', id)
      → write t s (req ++ replicate 9 0) id ≡ (s', ok)
      → let waiting = record d' { response_received = set_flag d'.response_received id false } in
        send_begin t s d req
        ≡ some (if ok then (s', waiting, some id) else (s', release_msgid waiting id, none))
  unfolding send_begin
  send_begin_lem s s' d d' req id ok b g w = rw (copy_lem req b.0 b.1) (rw g (rw w refl))

  -- A known request is answered once: the reply goes out under its id, and a second call for the same
  -- package writes nothing and returns false. What is known of another request stays.
  pub reply_once :
      (s : Option State) (d : Dispatcher) (req id other : ℕ) (rep rep' : Package)
      → find req d.request_msgids ≡ some id
      → req ≢ other
      → let out = write t s rep (with_reply_flag id) in
        let d' = record d { request_msgids = erase req d.request_msgids } in
        (reply t s d req rep ≡ (out.0, d', out.1))
        × ((r : Option State) → reply t r d' req rep' ≡ (r, d', false))
        × (find other d'.request_msgids ≡ find other d.request_msgids)
  unfolding reply
  reply_once s d req id other rep rep' e ne = (
    rw e refl,
    λ r. rw (find-erase req d.request_msgids) refl,
    find-erase_ne req other d.request_msgids ne,
  )

  -- A whole exchange, under an id other than 0 and below 2 ^ 15, where the request is written with success.
  -- The request that the peer is notified of is the sender's with nine zero bytes
  -- behind it; the peer's reply goes out under the request's id, marked; it sets the sender's flag, and
  -- the sender then has the peer's reply with eighteen zero bytes behind it, and its id is free again.
  pub exchange :
      (s s' r : Option State) (d d' peer : Dispatcher) (req rep resp : Package)
      → (id address from : ℕ) → IsPackage req
      → IsPackage rep
      → generate_msgid d ≡ (d', id)
      → id ≢ 0
      → id < 2 ^ 15
      → write t s (req ++ replicate 9 0) id ≡ (s', true)
      → let waiting = record d' { response_received = set_flag d'.response_received id false } in
        let known = (address, id) ∷ erase address peer.request_msgids in
        let got = record waiting {
          reply_in = rep ++ replicate 9 0;
          response_received = set_flag waiting.response_received id true;
        } in
        let out = write t r rep (with_reply_flag id) in
        (send_begin t s d req ≡ some (s', waiting, some id))
        × (process_notification peer address (frame id (req ++ replicate 9 0))
            ≡ some
                (record peer { request_msgids = known }, notified address (req ++ replicate 9 0)))
        × (reply t r (record peer { request_msgids = known }) address rep
            ≡ (out.0, record peer { request_msgids = erase address known }, out.1))
        × (process_notification waiting from (frame (with_reply_flag id) rep)
            ≡ some (got, answered id))
        × (got.response_received id ≡ true)
        × (send_finish got id resp
            ≡ some (release_msgid got id, (rep ++ replicate 9 0) ++ replicate 9 0))
  unfolding send_finish release_msgid
  exchange s s' r d d' peer req rep resp id address from bq bp g nz h w =
      let grown = IsPackage-zeros rep 9 bp in
      (
        send_begin_lem s s' d d' req id true bq g w,
        request_arrives peer address id (req ++ replicate 9 0) nz h,
        (reply_once r
            (record peer { request_msgids = (address, id) ∷ erase address peer.request_msgids })
            address id (suc address) rep rep (rw (==_refl address) refl) (omega arith)).0,
        reply_arrives _ from id rep nz h bp,
        rw (==_refl id) refl,
        rw (assign_lem (rep ++ replicate 9 0) grown.0 grown.1 resp) refl,
      )
