-- ===== src/NodeSync/Notify.antt =====
-- `process_notification` of `node_sync`: a request for a node id is answered at once, and every other
-- package goes to the queue of the processing thread.
use treeipc.Base.{
  ℕ, ◌+◌, ◌<◌, ◌^◌, ◌≡◌, refl, ap, ◌∙◌, [], ◌++◌, length, replicate, true, false, Option, none,
  some, ◌==◌, if◌then◌else◌, ◌>>=◌, arith, ne→==, List,
}
use treeipc.Package.{Package, empty, set_nid, set_cmd, get_cmd}
use treeipc.Package.Commands.{cmd_generate_nid}
use treeipc.Package.Layout.{
  build, empty_lem, set_nid-build, set_cmd-build, get_nid-build, get_cmd-build, length-build,
}
use treeipc.NodeSync.State.{NodeSync, generate_nid}
use treeipc.NodeSync.Wire.{build-zeros}

pub data Action : Type 0 where
  ignored : Action
  replied queued : Package → Action

abbrev reply_nid : Option (NodeSync × ℕ) → Option (NodeSync × Action)
reply_nid none = none
reply_nid (some (s, nid)) = some (s, replied (set_nid nid empty))

-- `process_notification(p)`, for a null pointer too. `rep` is for a client that has to ask for an id.
unfoldable pub process_notification :
    NodeSync → Package → Option Package → Option (NodeSync × Action)
process_notification s rep none = some (s, ignored)
process_notification s rep (some p) = if length p == 0 then some (s, ignored) else (do
  cmd ← get_cmd p
  if cmd == cmd_generate_nid then reply_nid (generate_nid s rep) else some (s, queued p))

-- `generate_nid` of a client, the request.
unfoldable pub generate_nid_request : Package
generate_nid_request = set_cmd cmd_generate_nid empty

request_lem : generate_nid_request ++ replicate 9 0 ≡ build cmd_generate_nid 0 (replicate 9 0)
unfolding generate_nid_request
request_lem =
    ap (λ p. set_cmd cmd_generate_nid p ++ replicate 9 0) empty_lem
    ∙ ap (λ p. p ++ replicate 9 0) (set_cmd-build cmd_generate_nid 0 0 [])
    ∙ build-zeros cmd_generate_nid 0 [] 9

reply_lem : (nid : ℕ) → set_nid nid empty ++ replicate 18 0 ≡ build 0 nid (replicate 18 0)
reply_lem nid =
    ap (λ p. set_nid nid p ++ replicate 18 0) empty_lem
    ∙ ap (λ p. p ++ replicate 18 0) (set_nid-build nid 0 0 [])
    ∙ build-zeros 0 nid [] 18

-- What becomes of a package, by its command.
pub notify-build :
    (s : NodeSync) (rep : Package) (c n : ℕ) (d : List ℕ)
    → c < 256
    → process_notification s rep (some (build c n d)) ≡ (
        if c == cmd_generate_nid
        then reply_nid (generate_nid s rep)
        else some (s, queued (build c n d)))
unfolding process_notification
notify-build s rep c n d h =
    rw (ne→== (length (build c n d)) 0 (omega (arith, length-build c n d)))
      (rw (get_cmd-build c n d h) refl)

generate_nid-server :
    (s : NodeSync) (rep : Package)
    → s.is_server ≡ true
    → s.current_nid + 1 < 2 ^ 64
    → generate_nid s rep ≡ some (record s { current_nid = s.current_nid + 1 }, s.current_nid)
unfolding generate_nid
generate_nid-server s rep is_s room = ground arith

-- A client's `generate_nid`, over the copies that `send` and its reply make: the server answers at once,
-- the client has the id that the server's counter showed, and the counter has moved on by one.
pub generate_nid-process_notification :
    (server client : NodeSync) (rep : Package)
    → server.is_server ≡ true
    → client.is_server ≡ false
    → server.current_nid + 1 < 2 ^ 64
    → (resp : Package) × (process_notification server rep
          (some (generate_nid_request ++ replicate 9 0))
        ≡ some (record server { current_nid = server.current_nid + 1 }, replied resp))
      × (generate_nid client (resp ++ replicate 18 0) ≡ some (client, server.current_nid))
unfolding generate_nid
generate_nid-process_notification server client rep is_s is_c room = (
  set_nid server.current_nid empty,
  rw request_lem (
      notify-build server rep cmd_generate_nid 0 (replicate 9 0) (omega arith)
      ∙ ap reply_nid (generate_nid-server server rep is_s room)),
  rw is_c (
      rw (reply_lem server.current_nid)
        (rw (get_nid-build 0 server.current_nid (replicate 18 0) (omega arith)) refl)),
)
