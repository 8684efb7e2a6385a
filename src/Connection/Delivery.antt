-- ===== src/Connection/Delivery.antt =====
-- Notices from one side's `write` to the other side's queue.
use treeipc.Base.{
  ℕ, ◌+◌, ◌≤◌, ◌<◌, ◌^◌, ◌≡◌, ◌≢◌, refl, sym, ap, ◌∙◌, List, [], ◌∷◌, ◌++◌, map, length, flatten,
  All, Option, none, some, true, arith, ◌>>=◌, ne→==, append_assoc, append-nil, length-append,
  length-le_bytes, le_bytes,
}
use treeipc.Package.{Package, get_cmd}
use treeipc.Package.Commands.{cmd_generate_nid}
use treeipc.Transport.{Transport}
use treeipc.Queue.{push}
use treeipc.Codec
use treeipc.Codec.{Codec, new_codec, feed}
use treeipc.Codec.Frames.{IsFrame}
use treeipc.Codec.Send.{Sends, done, then_write, feed-Sends}
use treeipc.Dispatcher.{frame, write, write_notice}
use treeipc.Dispatcher.RoundTrip.{process_notification-frame}
use treeipc.NodeSync.State.{NodeSync}
use treeipc.NodeSync.Notify
use treeipc.NodeSync.Notify.{queued}
use treeipc.Connection.{Receiver, on_vector, on_vectors, on_stream}

-- A package that asks for no id, short enough for a frame.
pub record IsNotice (p : Package) : Type 0 where
  pub short : length p < 2 ^ 30
  pub cmd : ℕ
  pub has_cmd : get_cmd p ≡ some cmd
  pub no_request : cmd ≢ cmd_generate_nid

length-get_cmd : (p : Package) (cmd : ℕ) → get_cmd p ≡ some cmd → 9 ≤ length p
unfolding get_cmd
length-get_cmd p cmd e = ground arith

pub notice_queued :
    (s : NodeSync) (rep p : Package)
    → IsNotice p
    → Notify.process_notification s rep (some p) ≡ some (s, queued p)
unfolding Notify.process_notification
notice_queued s rep p h =
    rw (ne→== (length p) 0 (omega (arith, length-get_cmd p h.cmd h.has_cmd)))
      (rw h.has_cmd (rw (ne→== h.cmd cmd_generate_nid h.no_request) refl))

module _ (t : Transport) where
  open t use {State, sent}

  -- A receiver after a notice.
  abbrev taken : Receiver t → Package → Receiver t
  taken r p = record r { queue = push r.queue (r.fresh, p); fresh = r.fresh + 1 }

  on_vector-frame :
      (rep : Package) (r : Receiver t) (p : Package)
      → IsNotice p
      → on_vector t rep r (frame 0 p) ≡ some (taken r p)
  unfolding on_vector
  on_vector-frame rep r p h =
      rw (process_notification-frame r.dispatcher r.fresh 0 p (omega arith))
        (rw (notice_queued r.node rep p h) refl)

  -- What the peer's `node_sync` has once the notices have come in: they stand in its queue, in order,
  -- behind those that stood there, and nothing else has changed but the addresses in use.
  pub record Delivers (r : Receiver t) (ps : List Package) (r' : Receiver t) : Type 0 where
    pub in_queue : map (λ e. e.1) r'.queue ≡ map (λ e. e.1) r.queue ++ ps
    pub same_node : r'.node ≡ r.node
    pub same_dispatcher : r'.dispatcher ≡ r.dispatcher
    pub same_out : r'.out ≡ r.out

  map-push :
      (q : List (ℕ × Package)) (a : ℕ) (p : Package)
      → map (λ e. e.1) (push q (a, p)) ≡ map (λ e. e.1) q ++ (p ∷ [])
  unfolding push
  map-push [] a p = refl
  map-push (x ∷ q) a p = ap (◌∷◌ x.1) (map-push q a p)

  on_vectors-frames :
      (rep : Package) (r : Receiver t) (ps : List Package)
      → All IsNotice ps
      → (r' : Receiver t) × (on_vectors t rep r (map (frame 0) ps) ≡ some r') × Delivers r ps r'
  unfolding on_vectors
  on_vectors-frames rep r [] h = (
    r,
    refl,
    record {
      in_queue = sym (append-nil (map (λ e. e.1) r.queue));
      same_node = refl;
      same_dispatcher = refl;
      same_out = refl;
    },
  )
  on_vectors-frames rep r (p ∷ ps) h =
      let (r', e, d) = on_vectors-frames rep (taken r p) ps h.1 in
      (
        r',
        rw (on_vector-frame rep r p h.0) e,
        record {
          in_queue =
              d.in_queue
              ∙ ap (λ l. l ++ ps) (map-push r.queue r.fresh p)
              ∙ append_assoc (map (λ e. e.1) r.queue) (p ∷ []) ps;
          same_node = d.same_node;
          same_dispatcher = d.same_dispatcher;
          same_out = d.same_out;
        },
      )

  >>=-assoc :
      {A B C : Type 0} (m : Option A) (f : A → Option B) (k : B → Option C)
      → ((m >>= f) >>= k) ≡ (m >>= λ a. f a >>= k)
  >>=-assoc none f k = refl
  >>=-assoc (some a) f k = refl

  on_vectors-append :
      (rep : Package) (r : Receiver t) (vs ws : List (List ℕ))
      → on_vectors t rep r (vs ++ ws) ≡ (on_vectors t rep r vs >>= λ r'. on_vectors t rep r' ws)
  unfolding on_vectors
  on_vectors-append rep r [] ws = refl
  on_vectors-append rep r (v ∷ vs) ws =
      ap (λ f. on_vector t rep r v >>= f) (λ i r'. on_vectors-append rep r' vs ws i)
      ∙ sym (
          >>=-assoc (on_vector t rep r v) (λ r'. on_vectors t rep r' vs)
            (λ r'. on_vectors t rep r' ws))

  -- The receiver sees the vectors that the codec makes of the whole stream.
  pub on_stream-feed :
      (rep : Package) (k : Codec) (r : Receiver t) (chunks : List (List ℕ))
      → on_stream t rep k r chunks
        ≡ (on_vectors t rep r (feed k chunks).1 >>= λ r'. some ((feed k chunks).0, r'))
  unfolding on_stream feed on_vectors
  on_stream-feed rep k r [] = refl
  on_stream-feed rep k r (chunk ∷ chunks) =
      let k' = (Codec.process_notification k chunk).0 in
      let vs = (Codec.process_notification k chunk).1 in
      let finish : Receiver t → Option (Codec × Receiver t) = λ r'. some ((feed k' chunks).0, r') in
      ap (λ f. on_vectors t rep r vs >>= f) (λ i r'. on_stream-feed rep k' r' chunks i)
      ∙ sym
          (>>=-assoc (on_vectors t rep r vs) (λ r'. on_vectors t rep r' (feed k' chunks).1) finish)
      ∙ ap (λ m. m >>= finish) (sym (on_vectors-append rep r vs (feed k' chunks).1))

  -- Packages written one after the other by `write`, each with success.
  pub data Writes : State → List Package → State → Type 0 where
    none_left : (s : State) → Writes s [] s
    first :
        {s s' s'' : State} {p : Package} {ps : List Package}
        → write_notice t (some s) p ≡ (some s', true)
        → Writes s' ps s''
        → Writes s (p ∷ ps) s''

  Sends-Writes :
      {s s' : State} {ps : List Package}
      → All IsNotice ps
      → Writes s ps s'
      → Sends t s (map (frame 0) ps) s'
  unfolding write_notice write
  Sends-Writes h (none_left s) = done s
  Sends-Writes h (first {p = p} e w) =
      let short = h.0.short in
      then_write (omega (arith, short, length-append (le_bytes 2 0) p, length-le_bytes 2 0)) e
        (Sends-Writes h.1 w)

  frames : (ps : List Package) → All IsNotice ps → All IsFrame (map (frame 0) ps)
  frames [] h = tt
  frames (p ∷ ps) h =
      let short = h.0.short in
      let size = length-append (le_bytes 2 0) p in
      let two = length-le_bytes 2 0 in
      ((omega (arith, size, two), omega (arith, short, size, two)), frames ps h.1)

  -- Notices that one side writes with success over a fresh transport, none of them a request for an id:
  -- however the transport cuts the bytes, the other side's codec, dispatcher and `node_sync` put exactly
  -- these packages into its queue, in order, behind what stood there, and change nothing
  -- else but the addresses in use.
  pub on_stream-Writes :
      {s s' : State} {ps : List Package} (rep : Package) (r : Receiver t) (chunks : List (List ℕ))
      → All IsNotice ps
      → sent s ≡ []
      → Writes s ps s'
      → flatten chunks ≡ sent s'
      → (r' : Receiver t) × (on_stream t rep new_codec r chunks ≡ some (new_codec, r'))
        × Delivers r ps r'
  on_stream-Writes {ps = ps} rep r chunks h fresh w e =
      let fed = feed-Sends t chunks (frames ps h) fresh (Sends-Writes h w) e in
      let (r', taken_in, d) = on_vectors-frames rep r ps h in
      (
        r',
        on_stream-feed rep new_codec r chunks
            ∙ ap (λ (f : Codec × List (List ℕ)). on_vectors t rep r f.1 >>= λ r'. some (f.0, r'))
                fed
            ∙ ap (λ (m : Option (Receiver t)). m >>= λ r'. some (new_codec, r')) taken_in,
        d,
      )
