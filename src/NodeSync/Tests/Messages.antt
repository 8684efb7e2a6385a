-- ===== src/NodeSync/Tests/Messages.antt =====
-- `fetch_node` and `ls` against a server.
use treeipc.Base.{
  ◌≡◌, refl, [], ◌∷◌, ◌++◌, replicate, true, false, none, some, arith, ap, inl, bytes_eq, le_bytes,
}
use treeipc.Types.{int, index}
use treeipc.Types.Samples.{byte_names, utf_eight}
use treeipc.Package.{Package, empty}
use treeipc.Generator.{new_generator, client_node_value, generate}
use treeipc.Generator.Coverage.{generate_lem}
use treeipc.NodeSync.State.{
  find_nid, get_node_nid, do_track, do_track_as, generate_nid, new_node_sync, assign,
}
use treeipc.NodeSync.At.{cmd_at_handler, fetch_request, fetch_response, fetch-cmd_at_error}
use treeipc.NodeSync.Ls.{cmd_ls_handler, ls_request, ls_response, ls-cmd_ls}
use treeipc.NodeSync.Tests.Samples.{seven, small_tree, rooted, serving, root_found, unknown_id}

one_given : get_node_nid rooted empty 1 true ≡ some (serving, some 1)
unfolding get_node_nid do_track generate_nid do_track_as assign find_nid
one_given = refl

name_found : small_tree.at seven 0 (97 ∷ []) ≡ some 1
unfolding bytes_eq
name_found = refl

int_proxy : generate (new_generator byte_names) (byte_names.name int) ≡ some (client_node_value int)
int_proxy = (generate_lem byte_names int (λ e. omega (arith, ap index e))).1

fetch-cmd_at_error_example :
    (resp : Package) × (cmd_at_handler utf_eight small_tree seven rooted empty
        (fetch_request 4 (97 ∷ []) ++ replicate 9 0)
      ≡ some (rooted, resp))
    × (fetch_response (new_generator byte_names) (new_node_sync false) 8 (resp ++ replicate 18 0)
        ≡ some (new_node_sync false, none))
fetch-cmd_at_error_example =
    fetch-cmd_at_error utf_eight small_tree seven rooted (new_node_sync false) empty
      (new_generator byte_names) 4 8 (97 ∷ []) (omega arith) (omega arith) (inl unknown_id)

ls-cmd_ls_example :
    (resp : Package) × (cmd_ls_handler utf_eight small_tree seven rooted
        (ls_request 0 ++ replicate 9 0)
      ≡ some resp)
    × (ls_response (resp ++ replicate 18 0) ≡ some ((97 ∷ []) ∷ []))
unfolding le_bytes
ls-cmd_ls_example =
    ls-cmd_ls utf_eight small_tree seven rooted 0 0 (omega arith) root_found (omega arith)
      (omega arith)
