-- ===== src/Connection/Closing.antt =====
-- reliable_bytestream_base.h, package_stream_base.h and the end of package_stream.cpp: how the opening and
-- the closing of the byte stream come to `stream_opened` and `stream_closed` of a `node_sync`.
use treeipc.Base.{
  ℕ, ◌≡◌, refl, ap, ◌∙◌, List, [], ◌∷◌, ◌++◌, length, Bool, true, false, Option, none, some,
  if◌then◌else◌, ==_refl,
}
use treeipc.Transport.Socket.{
  SocketApi, SocketClient, Effect, async_receive, async_connect, set_timer, notify_opened,
  notify_closed, notify_data, notify_socket, set_socket, data_ready,
}
use treeipc.NodeSync.State.{NodeSync, assign}
use treeipc.NodeSync.Cleanup.{
  Outcome, named, ended, null_pointer, cleanup, round, cleanup_ends, IsKeyed, NoNull, uses_of,
}
use treeipc.NodeSync.Subscribe.{subscribe_add_remove}
use treeipc.NodeSync.Client.{OpeningEffect, writes, listens_to, stream_opened}

-- Whether the byte stream and the package stream have listeners, and whether the `node_sync` is a
-- `client_nonroot`, which overrides `stream_opened`.
pub record Listeners : Type 0 where
  pub on_bytes : Bool
  pub on_packages : Bool
  pub is_nonroot : Bool

abbrev pub opened_by : Bool → NodeSync → NodeSync × List OpeningEffect
opened_by true s = stream_opened s
opened_by false s = (s, [])

-- `notify_stream_opened`, which is all that `bytestream_opened` of the dispatcher does.
abbrev pub notify_stream_opened : Bool → Bool → NodeSync → NodeSync × List OpeningEffect
notify_stream_opened true is_nonroot s = opened_by is_nonroot s
notify_stream_opened false is_nonroot s = (s, [])

abbrev pub notify_if : Bool → Bool → Bool → NodeSync → NodeSync × List OpeningEffect
notify_if true on_packages is_nonroot s = notify_stream_opened on_packages is_nonroot s
notify_if false on_packages is_nonroot s = (s, [])

unfoldable pub notify_bytestream_opened : Listeners → NodeSync → NodeSync × List OpeningEffect
notify_bytestream_opened l s = notify_if l.on_bytes l.on_packages l.is_nonroot s

module _ (below : ℕ → List ℕ) (owner own_nid : ℕ → Option ℕ) where
  -- `stream_closed`, which cleans up the children, of a `node_sync` whose `get_root` is not the one of
  -- `client`: fuel for the entries of the map.
  unfoldable pub stream_closed : NodeSync → Outcome
  stream_closed s = cleanup (λ m. (m, s.root_node)) below owner own_nid (length s.tracked) s.tracked

  abbrev pub notify_stream_closed : Bool → NodeSync → List Outcome
  notify_stream_closed true s = stream_closed s ∷ []
  notify_stream_closed false s = []

  abbrev pub close_if : Bool → Bool → NodeSync → List Outcome
  close_if true on_packages s = notify_stream_closed on_packages s
  close_if false on_packages s = []

  unfoldable pub notify_bytestream_closed : Listeners → NodeSync → List Outcome
  notify_bytestream_closed l s = close_if l.on_bytes l.on_packages s

  module _ (Socket : Type 0) where
    -- What the effects of a socket client's handlers come to at the `node_sync`.
    unfoldable pub hear_openings :
        Listeners → NodeSync → List (Effect Socket) → NodeSync × List OpeningEffect
    hear_openings l s [] = (s, [])
    hear_openings l s (notify_opened ∷ es) =
        let (s, first) = notify_bytestream_opened l s in
        let (s, more) = hear_openings l s es in (s, first ++ more)
    hear_openings l s (async_receive ∷ es) = hear_openings l s es
    hear_openings l s (async_connect ∷ es) = hear_openings l s es
    hear_openings l s (set_timer ∷ es) = hear_openings l s es
    hear_openings l s (notify_closed ∷ es) = hear_openings l s es
    hear_openings l s (notify_data bytes ∷ es) = hear_openings l s es
    hear_openings l s (notify_socket k ∷ es) = hear_openings l s es

    unfoldable pub hear_closings : Listeners → NodeSync → List (Effect Socket) → List Outcome
    hear_closings l s [] = []
    hear_closings l s (notify_closed ∷ es) = notify_bytestream_closed l s ++ hear_closings l s es
    hear_closings l s (async_receive ∷ es) = hear_closings l s es
    hear_closings l s (async_connect ∷ es) = hear_closings l s es
    hear_closings l s (set_timer ∷ es) = hear_closings l s es
    hear_closings l s (notify_opened ∷ es) = hear_closings l s es
    hear_closings l s (notify_data bytes ∷ es) = hear_closings l s es
    hear_closings l s (notify_socket k ∷ es) = hear_closings l s es

-- A `client_nonroot` behind its dispatcher and its socket client.
abbrev pub all_listen : Listeners
all_listen = record { on_bytes = true; on_packages = true; is_nonroot = true }

module _ (api : SocketApi) (below : ℕ → List ℕ) (owner own_nid : ℕ → Option ℕ) where
  open api use {Socket}

  no_closing :
      (s : NodeSync) (again : Bool)
      → hear_closings below owner own_nid Socket all_listen s (if again then set_timer ∷ [] else [])
        ≡ []
  unfolding hear_closings
  no_closing s true = refl
  no_closing s false = refl

  data_ready_closings :
      (c : SocketClient api) (s : NodeSync)
      → hear_closings below owner own_nid Socket all_listen s (data_ready api c none).1
        ≡ stream_closed below owner own_nid s ∷ []
  unfolding data_ready hear_closings notify_bytestream_closed
  data_ready_closings c s =
      ap (◌∷◌ (stream_closed below owner own_nid s)) (no_closing s c.has_connector)

  -- A `client_nonroot` with an empty map, from the moment its socket client is given a socket until a
  -- receive fails. With a root it tracks that, subscribes at the other side and listens to the root, and
  -- the end leaves the root as it was; without one it subscribes as well, and the end reads through the
  -- null pointer that it tracks.
  pub set_socket-data_ready :
      (c c' : SocketClient api) (k : Socket) (s : NodeSync) (r : ℕ)
      → let subscribed = writes (subscribe_add_remove 0) in
        let rooted = record s { tracked = []; root_node = some r } in
        let rootless = record s { tracked = []; root_node = none } in
        let tracking = record rooted { tracked = (0, some r) ∷ [] } in
        let broken = record rootless { tracked = (0, none) ∷ [] } in
        (hear_openings below owner own_nid Socket all_listen rooted (set_socket api c k).1
          ≡ (tracking, subscribed ∷ listens_to r ∷ []))
        × (hear_closings below owner own_nid Socket all_listen tracking (data_ready api c' none).1
            ≡ ended (named r ∷ named r ∷ []) ∷ [])
        × (hear_openings below owner own_nid Socket all_listen rootless (set_socket api c k).1
            ≡ (broken, subscribed ∷ []))
        × (hear_closings below owner own_nid Socket all_listen broken (data_ready api c' none).1
            ≡ null_pointer ∷ [])
  unfolding hear_openings set_socket notify_bytestream_opened stream_opened assign stream_closed
      cleanup round
  set_socket-data_ready c c' k s r =
      (refl, data_ready_closings c' _ ∙ rw (==_refl r) refl, refl, data_ready_closings c' _ ∙ refl)

  -- The end of a stream, where client nodes are tracked under their own ids, are deleted alone, and no
  -- pointer is null: the `node_sync` is told once, and cleans up every entry.
  pub data_ready-uses_of :
      (c : SocketClient api) (s : NodeSync)
      → ((n : ℕ) → below n ≡ [])
      → IsKeyed (λ m. (m, s.root_node)) below owner own_nid s.tracked
      → NoNull (λ m. (m, s.root_node)) below owner own_nid s.tracked
      → hear_closings below owner own_nid Socket all_listen s (data_ready api c none).1
        ≡ ended (uses_of (λ m. (m, s.root_node)) below owner own_nid s.tracked) ∷ []
  unfolding stream_closed
  data_ready-uses_of c s alone k n =
      data_ready_closings c s
      ∙ ap (λ o. o ∷ [])
          (cleanup_ends (λ m. (m, s.root_node)) below owner own_nid s.root_node (λ m. refl) alone
            s.tracked k n)
