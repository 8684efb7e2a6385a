-- ===== src/Connection/Request.antt =====
-- A request and its reply over two streams, from `send` on one side to the other side's queue and back.
use treeipc.Base.{
  ℕ, ◌+◌, ◌<◌, ◌^◌, ◌≡◌, ◌≢◌, refl, ap, ◌∙◌, List, [], ◌∷◌, ◌++◌, length, flatten, replicate, All,
  Option, some, true, false, Bool, arith, ◌>>=◌, length-append, length-le_bytes, le_bytes,
}
use treeipc.Package.{Package}
use treeipc.Transport.{Transport}
use treeipc.Queue.{push}
use treeipc.Codec.{Codec, new_codec}
use treeipc.Codec.Frames.{IsFrame}
use treeipc.Codec.Send.{done, then_write, feed-Sends}
use treeipc.Dispatcher.{
  Dispatcher, frame, write, reply, send_begin, send_finish, generate_msgid, release_msgid, set_flag,
  erase, with_reply_flag,
}
use treeipc.Dispatcher.RoundTrip.{IsPackage, exchange}
use treeipc.Connection.{Receiver, on_vector, on_vectors, on_stream}
use treeipc.Connection.Delivery.{IsNotice, notice_queued, on_stream-feed}

module _ (t : Transport) where
  open t use {State, sent}

  -- One vector written with success over a fresh stream is what the other side's receiver takes.
  on_stream-frame :
      (s s' : State) (rep : Package) (r : Receiver t) (id : ℕ) (p : Package)
      → (chunks : List (List ℕ)) (r' : Receiver t) → length p < 2 ^ 30
      → sent s ≡ []
      → write t (some s) p id ≡ (some s', true)
      → flatten chunks ≡ sent s'
      → on_vector t rep r (frame id p) ≡ some r'
      → on_stream t rep new_codec r chunks ≡ some (new_codec, r')
  unfolding write on_vectors
  on_stream-frame s s' rep r id p chunks r' short fresh w e v =
      let size = length-append (le_bytes 2 id) p in
      let two = length-le_bytes 2 id in
      let fits : All IsFrame (frame id p ∷ []) =
        ((omega (arith, size, two), omega (arith, short, size, two)), tt) in
      let fed =
        feed-Sends t chunks fits fresh (then_write (omega (arith, short, size, two)) w (done s'))
          e in
      on_stream-feed t rep new_codec r chunks
      ∙ ap (λ (f : Codec × List (List ℕ)). on_vectors t rep r f.1 >>= λ r'. some (f.0, r')) fed
      ∙ ap
          (λ (m : Option (Receiver t)).
            (m >>= λ r'. on_vectors t rep r' []) >>= λ r'. some (new_codec, r'))
          v

  -- A request that asks for no id and its reply, both written with success, the request first of all on
  -- its stream and the reply on its own: however the transports cut the bytes, the request stands behind
  -- the others in the peer's queue, with the nine zero bytes of a copy behind it; `reply` to it returns
  -- true and forgets it; and the sender is then woken, has the reply with eighteen zero bytes behind it,
  -- and frees its id.
  pub on_stream-exchange :
      (s s' so so' : State) (d d' : Dispatcher) (r c : Receiver t)
      (req rep resp none_asked : Package)
      → (id : ℕ) (chunks chunks' : List (List ℕ)) → IsPackage req
      → IsPackage rep
      → IsNotice (req ++ replicate 9 0)
      → length rep < 2 ^ 30
      → generate_msgid d ≡ (d', id)
      → id ≢ 0
      → id < 2 ^ 15
      → sent s ≡ []
      → write t (some s) (req ++ replicate 9 0) id ≡ (some s', true)
      → flatten chunks ≡ sent s'
      → r.out ≡ some so
      → sent so ≡ []
      → write t (some so) rep (with_reply_flag id) ≡ (some so', true)
      → flatten chunks' ≡ sent so'
      → let waiting = record d' { response_received = set_flag d'.response_received id false } in
        let known = (r.fresh, id) ∷ erase r.fresh r.dispatcher.request_msgids in
        let got = record waiting {
          reply_in = rep ++ replicate 9 0;
          response_received = set_flag waiting.response_received id true;
        } in
        let r' = record r {
          dispatcher = record r.dispatcher { request_msgids = known };
          queue = push r.queue (r.fresh, req ++ replicate 9 0);
          fresh = r.fresh + 1;
        } in
        (send_begin t (some s) d req ≡ some (some s', waiting, some id))
        × (on_stream t none_asked new_codec r chunks ≡ some (new_codec, r'))
        × (reply t r'.out r'.dispatcher r.fresh rep
            ≡ (some so', record r.dispatcher { request_msgids = erase r.fresh known }, true))
        × (on_stream t none_asked new_codec (record c { dispatcher = waiting }) chunks'
            ≡ some (new_codec, record c { dispatcher = got; fresh = c.fresh + 1 }))
        × (got.response_received id ≡ true)
        × (send_finish got id resp
            ≡ some (release_msgid got id, (rep ++ replicate 9 0) ++ replicate 9 0))
  unfolding on_vector
  on_stream-exchange s s' so so' d d' r c req rep resp none_asked id chunks chunks' bq bp h hr g nz
        hi fs w cut out fo wo cut' =
      let (sends, arrives, replies, answers, woken, finishes) =
        exchange t (some s) (some s') (some so) d d' r.dispatcher req rep resp id r.fresh c.fresh bq
          bp g nz hi w in
      let waiting = record d' { response_received = set_flag d'.response_received id false } in
      let known = (r.fresh, id) ∷ erase r.fresh r.dispatcher.request_msgids in
      (
        sends,
        on_stream-frame s s' none_asked r id (req ++ replicate 9 0) chunks _ h.short fs w cut
            (rw arrives (rw (notice_queued r.node none_asked (req ++ replicate 9 0) h) refl)),
        ap (λ o. reply t o (record r.dispatcher { request_msgids = known }) r.fresh rep) out
            ∙ replies
            ∙ ap
                (λ (q : Option State × Bool).
                  (q.0, record r.dispatcher { request_msgids = erase r.fresh known }, q.1))
                wo,
        on_stream-frame so so' none_asked (record c { dispatcher = waiting }) (with_reply_flag id)
            rep chunks' _ hr fo wo cut' (rw answers refl),
        woken,
        finishes,
      )
