-- ===== src/ClientNode/Tests.antt =====
-- A client node below which one node is fetched.
mod Lifetime
mod Owner
use treeipc.Base.{
  not, ℕ, ◌<◌, ◌≡◌, refl, List, [], ◌∷◌, length, Bool, true, false, ◌&&◌, Option, none, some, ◌==◌,
  if◌then◌else◌, bytes_eq, arith,
}
use treeipc.Generator.{client_node}
use treeipc.NodeSync.State.{NodeSync, new_node_sync, do_track_as}
use treeipc.NodeSync.At.{Fetched, fetched}
use treeipc.ClientNode.{World, Result, returns, get, strip, skip_slashes, is_self, ensure_at}
use treeipc.ClientNode.Path.{IsLawful, get_ends}
use treeipc.ClientNode.Levels.{get_pure}
use treeipc.ClientNode.Cache.{get_cached}

abbrev Children : Type 0
Children = ℕ → List ℕ → Option (Option ℕ)

-- The first name of a path, with an empty rest, and otherwise what stands behind the slash.
unfoldable split : List ℕ → List ℕ × List ℕ
split [] = ([], [])
split (c ∷ path) =
    let (name, rest) = split path in if c == b'/' then ([], path) else (c ∷ name, rest)

abbrev address_of : Option Fetched → Option ℕ
address_of none = none
address_of (some f) = some f.address

-- Every node but the node 6 is a client node, and every fetch brings the node 5, which the client tracks.
abbrev always_five : World
always_five = record {
  State = Children × NodeSync;
  is_client_node = λ n. not (n == 6);
  has_client = λ s n. true;
  children = λ s n name. s.0 n name;
  insert = λ s n name child. (
    (λ m other. if (n == m) && bytes_eq name other then some (some child) else s.0 m other, s.1),
    true,
  );
  fetch =
      λ s n name. let (sync, o) = fetched s.1 5 1 (some client_node) in ((s.0, sync), address_of o);
  other_get = λ s n path create. (s, if bytes_eq path [] then some 6 else none);
  next_level = split;
}

split_short : (c : ℕ) (path : List ℕ) → length (split (c ∷ path)).1 < length (c ∷ path)
unfolding split
split_short c [] = ground arith
split_short c (d ∷ path) = ground (arith, split_short d path)

always_five-IsLawful : IsLawful always_five
always_five-IsLawful = record {
  next_shorter = split_short;
  children-insert = λ s n name child m other. refl;
  children-fetch = λ s n name m other. refl;
  children-other_get = λ s n path create m name c e. e;
  other_get_pure = λ s n path. refl;
  other_get_again = λ s n path m e. e;
  has_client-other_get = λ s n path create m. refl;
  has_client-insert = λ s n name child m. refl;
  has_client-fetch = λ s n name m. refl;
}

-- `/a/b`
abbrev below : List ℕ
below = b'/' ∷ 97 ∷ b'/' ∷ 98 ∷ []

abbrev bare : Children × NodeSync
bare = (λ n name. none, new_node_sync false)

abbrev cached : Children × NodeSync
cached = (
  (always_five.insert (always_five.insert bare 0 (97 ∷ []) 5).0 5 (98 ∷ []) 5).0.0,
  do_track_as (do_track_as (new_node_sync false) 5 1) 5 1,
)

get_ends_example :
    (s : Children × NodeSync) × (m : Option ℕ) × (get always_five 8 bare 0 below true ≡ returns s m)
get_ends_example = get_ends always_five always_five-IsLawful 8 bare 0 below true (omega arith)

found : get always_five 8 bare 0 below true ≡ returns cached (some 5)
unfolding get strip skip_slashes is_self ensure_at split bytes_eq
found = refl

get_cached_example : get always_five 8 cached 0 below false ≡ returns cached (some 5)
get_cached_example = get_cached always_five always_five-IsLawful 8 bare cached 0 5 below found
