-- ===== src/Play/DeclareCommands.antt =====
-- src/routing/state_machine.rs: the proxy's commands, put into the tree that a backend declares.
-- Counts of nodes are `i32`s, which wrap.
pub mod Laws
use frame_mc.Prelude.{
  ℕ, zero, suc, ◌+◌, ◌-◌, ◌≡◌, List, [], ◌∷◌, ◌++◌, Bool, true, false, not, ◌&&◌,
}
use frame_mc.Prelude.{
  ◌||◌, ◌==◌, leb, ltb, length, take, drop, list_eq, at_least, as_i32, is_negative, if◌then◌else◌,
  Option, none, some,
}
use frame_mc.Error.{Result, ok, err}
use frame_mc.Varint.{decode_varint, encode_varint, varint_size}
use frame_mc.Wire.{Reader, ◌>>=◌, pure, put_block, ascii}
use frame_mc.Packet.{RawPacket, new}
use frame_mc.Script.Hooks.{is_empty, contains}

unfoldable pub is_declare_commands_packet : ℕ → ℕ → Bool
is_declare_commands_packet id protocol_version =
    if at_least protocol_version 776
    then id == 0x10
    else if at_least protocol_version 764
    then id == 0x11
    else if at_least protocol_version 762
    then id == 0x0f
    else if at_least protocol_version 759
    then id == 0x0e
    else if at_least protocol_version 755
    then id == 0x12
    else if at_least protocol_version 735
    then id == 0x10
    else if at_least protocol_version 393
    then id == 0x11
    else false

-- `for _ in 0..original_child_count`
unfoldable pub read_children : ℕ → Reader (List ℕ)
read_children zero = pure []
read_children (suc n) = do
  child ← decode_varint
  children ← read_children n
  pure (child ∷ children)

unfoldable pub put_children : List ℕ → List ℕ
put_children [] = []
put_children (c ∷ children) = encode_varint c ++ put_children children

-- `cursor[i] & 0x80 != 0`
unfoldable pub high_at : List ℕ → ℕ → Bool
high_at cursor i = elim (drop i cursor) [ [] ↦ false | b ∷ rest ↦ leb 0x80 b ]

-- How long a VarInt at the end may be: the last byte and the bytes before it whose high bit is set,
-- in at most `tries` steps.
unfoldable pub longest : ℕ → ℕ → List ℕ → ℕ
longest zero len cursor = len
longest (suc tries) len cursor =
    if leb (len + 1) (length cursor) && high_at cursor (length cursor - (len + 1))
    then longest tries (len + 1) cursor
    else len

-- The value of the last `len` bytes, if it is one VarInt in its shortest form, and names a node.
unfoldable pub root_at : ℕ → ℕ → List ℕ → Option ℕ
root_at len original_count cursor = elim (decode_varint (drop (length cursor - len) cursor)) [
  | err e ↦ none
  | ok (val, slice) ↦
      if is_empty slice
        && (varint_size val == len)
        && not (is_negative val)
        && ltb val original_count
      then some val
      else none
]

-- The longest possible length that fits.
unfoldable pub find_root : ℕ → ℕ → List ℕ → Option (ℕ × ℕ)
find_root zero original_count cursor = none
find_root (suc len) original_count cursor = elim (root_at (suc len) original_count cursor) [
  | some val ↦ some (suc len, val)
  | none ↦ find_root len original_count cursor
]

-- The length and the value of the root's index at the end of the nodes.
unfoldable pub root_index_varint : ℕ → List ℕ → Option (ℕ × ℕ)
root_index_varint original_count cursor = elim (drop (length cursor - 1) cursor) [
  | [] ↦ none
  | b ∷ rest ↦
      if b == 0x00
      then some (1, 0)
      else if leb 0x80 b
      then none
      else find_root (longest 4 1 cursor) original_count cursor
]

-- The tree of a packet that can be extended: the count, the root's children, the other nodes and the
-- index of the root.
pub record Tree : Type 0 where
  pub original_count : ℕ
  pub original_children : List ℕ
  pub rest_of_nodes : List ℕ
  pub root_index : ℕ

unfoldable pub split_root : ℕ → List ℕ → List ℕ → Option Tree
split_root original_count children cursor = elim (root_index_varint original_count cursor) [
  | none ↦ none
  | some (root_index_len, root_index) ↦ some (record {
    original_count = original_count;
    original_children = children;
    rest_of_nodes = take (length cursor - root_index_len) cursor;
    root_index = root_index;
  })
]

unfoldable pub read_root : ℕ → List ℕ → Result (Option Tree)
read_root original_count cursor = elim (decode_varint cursor) [
  | err e ↦ err e
  | ok (count, rest) ↦
      if is_negative count || ltb (length rest) count
      then ok none
      else elim (read_children count rest) [
        | err e ↦ err e
        | ok (children, nodes) ↦ ok (split_root original_count children nodes)
      ]
]

-- `none` where the packet is forwarded as it is.
unfoldable pub read_tree : List ℕ → Result (Option Tree)
read_tree payload = elim (decode_varint payload) [
  | err e ↦ err e
  | ok (original_count, []) ↦ ok none
  | ok (original_count, root_flags ∷ cursor) ↦
      if (original_count == 0) || is_negative original_count || not (root_flags == 0x00)
      then ok none
      else read_root original_count cursor
]

-- The literals beside `server`. `plain` is `s.trim().to_lowercase()`.
unfoldable pub add_literals : (List ℕ → List ℕ) → List (List ℕ) → List (List ℕ) → List (List ℕ)
add_literals plain literals [] = literals
add_literals plain literals (s ∷ servers) =
    let name = plain s in
    let taken = is_empty name || list_eq name (ascii "server") || contains literals name in
    add_literals plain (if taken then literals else literals ++ (name ∷ [])) servers

unfoldable pub root_literals : (List ℕ → List ℕ) → List (List ℕ) → List (List ℕ)
root_literals plain = add_literals plain (ascii "hub" ∷ ascii "lobby" ∷ ascii "steel" ∷ [])

-- The node `server`, whose argument is the node at the index given, and that argument.
unfoldable pub server_nodes : ℕ → List ℕ
server_nodes server_arg_idx =
    0x05 ∷ encode_varint 1
    ++ (encode_varint server_arg_idx
        ++ (put_block (ascii "server")
            ++ (0x16 ∷ encode_varint 0
                ++ (put_block (ascii "name")
                    ++ (encode_varint 5
                        ++ (encode_varint 0 ++ put_block (ascii "minecraft:ask_server")))))))

unfoldable pub literal_nodes : List (List ℕ) → List ℕ
literal_nodes [] = []
literal_nodes (s ∷ ss) = 0x05 ∷ encode_varint 0 ++ (put_block s ++ literal_nodes ss)

-- The indices of the literals, from the first free one on.
unfoldable pub indices : ℕ → List (List ℕ) → List ℕ
indices i [] = []
indices i (s ∷ ss) = i ∷ indices (as_i32 (i + 1)) ss

unfoldable pub put_tree : List (List ℕ) → Tree → List ℕ
put_tree literals t =
    let first_literal = as_i32 (t.original_count + 2) in
    let new_root_children = t.original_count ∷ indices first_literal literals in
    encode_varint (as_i32 (t.original_count + 2 + length literals))
    ++ (0x00 ∷ encode_varint (as_i32 (length t.original_children + length new_root_children))
        ++ (put_children t.original_children
            ++ (put_children new_root_children
                ++ (t.rest_of_nodes
                    ++ (server_nodes (as_i32 (t.original_count + 1))
                        ++ (literal_nodes literals ++ encode_varint t.root_index))))))

unfoldable pub inject_proxy_commands_into_declare_commands :
    (List ℕ → List ℕ) → RawPacket → ℕ → List (List ℕ) → Result RawPacket
inject_proxy_commands_into_declare_commands plain packet protocol_version custom_servers =
    if not (at_least protocol_version 393)
    then ok packet
    else if not (is_declare_commands_packet packet.id protocol_version)
    then ok packet
    else elim (read_tree packet.payload) [
      | err e ↦ err e
      | ok none ↦ ok packet
      | ok (some tree) ↦ ok (new packet.id (put_tree (root_literals plain custom_servers) tree))
    ]
