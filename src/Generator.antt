-- ===== src/Generator.antt =====
-- proxy_node_generator.cpp, proxy_node_factory.h, client_node_value.h: which client node stands for a
-- remote node of a type.
pub mod Coverage
use treeipc.Base.{ℕ, List, [], Option, none, some, lookup, insert, ◌>>=◌}
use treeipc.Types.{TypeId, double, int, bool, qstring, qbytearray, TypeNames}

-- `untyped_node_factory` and `proxy_node_factory<T>`.
pub data Factory : Type 0 where
  untyped : Factory
  proxy : TypeId → Factory

abbrev pub Generator : Type 0
Generator = List (List ℕ × Factory)

-- A node that a factory makes: a `client_node`, or a `client_node_value<property_value_fake<T>>`. Both
-- have the generator's `node_sync` as their client.
pub data Generated : Type 0 where
  client_node : Generated
  client_node_value : TypeId → Generated

abbrev pub make : Factory → Generated
make untyped = client_node
make (proxy t) = client_node_value t

-- `init_factories`
unfoldable pub new_generator : TypeNames → Generator
new_generator names =
    let m = insert [] untyped [] in
    let m = insert (names.name double) (proxy double) m in
    let m = insert (names.name int) (proxy int) m in
    let m = insert (names.name bool) (proxy bool) m in
    let m = insert (names.name qstring) (proxy qstring) m in
    insert (names.name qbytearray) (proxy qbytearray) m

unfoldable pub generate : Generator → List ℕ → Option Generated
generate g type = do factory ← lookup type g; some (make factory)
