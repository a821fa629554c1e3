-- ===== src/Play/DeclareCommands/Laws.antt =====
-- The proxy's commands extend a declared tree and keep what was there.
use frame_mc.Prelude.{ℕ, ◌+◌, ◌-◌, ◌<◌, ◌≤◌, ◌≡◌, arith, refl, List, [], ◌∷◌, ◌++◌, true}
use frame_mc.Prelude.{
  length, All, All-append, as_i32, IsU32, IsShort, at_least, some, append_assoc, length-append,
  drop_front, take_front,
}
use frame_mc.Error.{ok}
use frame_mc.Varint.{encode_varint}
use frame_mc.Varint.Rounds.{groups}
use frame_mc.Varint.RoundTrip.{decode_varint-encode_varint, encode_varint-groups}
use frame_mc.Varint.Bounds.{length-encode_varint}
use frame_mc.Packet.{new}
use frame_mc.Play.DeclareCommands.{
  is_declare_commands_packet, read_children, put_children, root_index_varint, Tree, split_root,
  read_root, read_tree, root_literals, server_nodes, literal_nodes, indices, put_tree,
  inject_proxy_commands_into_declare_commands,
}

-- A tree whose root is its first node, as its bytes.
pub put_first_root : Tree → List ℕ
put_first_root t =
    encode_varint t.original_count
    ++ (0x00 ∷ encode_varint (as_i32 (length t.original_children))
        ++ (put_children t.original_children ++ (t.rest_of_nodes ++ (0x00 ∷ []))))

pub record IsTree (t : Tree) : Type 0 where
  pub some_node : 0 < t.original_count
  pub original_count : IsShort t.original_count
  pub children : All IsU32 t.original_children
  pub few : IsShort (length t.original_children)
  pub first : t.root_index ≡ 0

encode_varint_zero : encode_varint 0 ≡ 0x00 ∷ []
unfolding groups
encode_varint_zero = rw (encode_varint-groups 0 (omega arith)) refl

read_children-put_children :
    (cs rest : List ℕ)
    → All IsU32 cs
    → read_children (length cs) (put_children cs ++ rest) ≡ ok (cs, rest)
unfolding read_children put_children
read_children-put_children [] rest h = refl
read_children-put_children (c ∷ cs) rest h = rw (append_assoc) (
    ground (
      arith,
      decode_varint-encode_varint c (put_children cs ++ rest) h.0,
      read_children-put_children cs rest h.1,
    ))

length-put_children : (cs : List ℕ) → All IsU32 cs → length cs ≤ length (put_children cs)
unfolding put_children
length-put_children [] h = omega arith
length-put_children (c ∷ cs) h = omega (
  arith,
  length-append (encode_varint c) (put_children cs),
  length-encode_varint c h.0,
  length-put_children cs h.1,
)

root_index_varint_zero :
    (n : ℕ) (nodes : List ℕ) → root_index_varint n (nodes ++ (0x00 ∷ [])) ≡ some (1, 0)
unfolding root_index_varint
root_index_varint_zero n nodes =
    let e : length (nodes ++ (0x00 ∷ [])) - 1 ≡ length nodes =
      omega (arith, length-append nodes (0x00 ∷ [])) in
    ground (arith, e, drop_front nodes (0x00 ∷ []))

split_root_lem :
    (n : ℕ) (cs nodes : List ℕ)
    → split_root n cs (nodes ++ (0x00 ∷ []))
      ≡ some (record {
        original_count = n;
        original_children = cs;
        rest_of_nodes = nodes;
        root_index = 0;
      })
unfolding split_root
split_root_lem n cs nodes =
    let e : length (nodes ++ (0x00 ∷ [])) - 1 ≡ length nodes =
      omega (arith, length-append nodes (0x00 ∷ [])) in
    ground (arith, root_index_varint_zero n nodes, e, take_front nodes (0x00 ∷ []))

read_tree_lem : (t : Tree) → IsTree t → read_tree (put_first_root t) ≡ ok (some t)
unfolding read_tree read_root put_first_root
read_tree_lem t h =
    let nodes : List ℕ = t.rest_of_nodes ++ (0x00 ∷ []) in
    let children : List ℕ = put_children t.original_children ++ nodes in
    let root : List ℕ = encode_varint (as_i32 (length t.original_children)) ++ children in
    ground (
      arith,
      h.first,
      decode_varint-encode_varint t.original_count (0x00 ∷ root),
      decode_varint-encode_varint (length t.original_children) children,
      length-append (put_children t.original_children) nodes,
      length-put_children t.original_children h.children,
      read_children-put_children t.original_children nodes h.children,
      split_root_lem t.original_count t.original_children t.rest_of_nodes,
    )

-- The tree with the proxy's nodes behind the backend's, and their roots behind the root's children.
pub extend : List (List ℕ) → Tree → Tree
extend literals t = record {
  original_count = t.original_count + 2 + length literals;
  original_children =
      t.original_children ++ (t.original_count ∷ indices (t.original_count + 2) literals);
  rest_of_nodes =
      t.rest_of_nodes ++ (server_nodes (t.original_count + 1) ++ literal_nodes literals);
  root_index = 0;
}

length-indices : (i : ℕ) (ss : List (List ℕ)) → length (indices i ss) ≡ length ss
unfolding indices
length-indices i [] = refl
length-indices i (s ∷ ss) = omega (arith, length-indices (as_i32 (i + 1)) ss)

indices-IsU32 : (i : ℕ) (ss : List (List ℕ)) → IsU32 i → All IsU32 (indices i ss)
unfolding indices
indices-IsU32 i [] h = tt
indices-IsU32 i (s ∷ ss) h = (h, indices-IsU32 (as_i32 (i + 1)) ss (omega arith))

put_children-append :
    (xs ys : List ℕ) → put_children (xs ++ ys) ≡ put_children xs ++ put_children ys
unfolding put_children
put_children-append [] ys = refl
put_children-append (x ∷ xs) ys = rw (put_children-append xs ys) (rw append_assoc)

extend-IsTree :
    (literals : List (List ℕ)) (t : Tree)
    → IsTree t
    → IsShort (t.original_count + length t.original_children + 3 + length literals)
    → IsTree (extend literals t)
unfolding extend
extend-IsTree literals t h room = record {
  some_node = omega arith;
  original_count = omega arith;
  children = All-append IsU32 t.original_children _ h.children (
    omega (arith, h.original_count),
    indices-IsU32 (t.original_count + 2) literals (omega arith),
  );
  few = omega (
    arith,
    length-append t.original_children (t.original_count ∷ indices (t.original_count + 2) literals),
    length-indices (t.original_count + 2) literals,
  );
  first = refl;
}

put_tree-eq :
    (literals : List (List ℕ)) (t : Tree)
    → IsTree t
    → IsShort (t.original_count + length t.original_children + 3 + length literals)
    → put_tree literals t ≡ put_first_root (extend literals t)
unfolding put_tree put_first_root extend
put_tree-eq literals t h room =
    let cs : List ℕ = t.original_children in
    let roots : List ℕ = t.original_count ∷ indices (t.original_count + 2) literals in
    let count : as_i32 (t.original_count + 2 + length literals)
        ≡ t.original_count + 2 + length literals =
      omega arith in
    let first : as_i32 (t.original_count + 2) ≡ t.original_count + 2 = omega arith in
    let arg : as_i32 (t.original_count + 1) ≡ t.original_count + 1 = omega arith in
    rw
      (
        count,
        first,
        arg,
        h.first,
        encode_varint_zero,
        length-append cs roots,
        put_children-append cs roots,
      )
      (simp append_assoc)

-- In every version with a declared tree of commands, a tree whose root is its first node is extended
-- by the proxy's commands, as long as the numbers stay below 2 ^ 31: what the client reads has all
-- the backend's nodes, byte for byte and at their indices, and behind them the proxy's.
pub inject_extends :
    (plain : List ℕ → List ℕ) (t : Tree) (id v : ℕ) (servers : List (List ℕ))
    → IsTree t
    → at_least v 393 ≡ true
    → is_declare_commands_packet id v ≡ true
    → IsShort
        (t.original_count + length t.original_children + 3 + length (root_literals plain servers))
    → (inject_proxy_commands_into_declare_commands plain (new id (put_first_root t)) v servers
        ≡ ok (new id (put_tree (root_literals plain servers) t)))
      × (read_tree (put_tree (root_literals plain servers) t)
          ≡ ok (some (extend (root_literals plain servers) t)))
unfolding inject_proxy_commands_into_declare_commands
inject_extends plain t id v servers h since declared room = (
  ground (arith, read_tree_lem t h),
  rw (put_tree-eq (root_literals plain servers) t h room) (
      read_tree_lem (extend (root_literals plain servers) t)
        (extend-IsTree (root_literals plain servers) t h room)),
)
