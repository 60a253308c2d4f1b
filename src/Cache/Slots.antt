-- ===== src/Cache/Slots.antt =====
-- SecKeyShm.cpp: the operations on the slots of the segment.
use encrypted_transmission_d.Prelude.{
  String, Bool, ◌&&◌, Option, none, some, List, [], ◌∷◌, map, ℤ, pos, negsuc, int_eq, ◌==◌,
  is_empty, c_str, if◌then◌else◌,
}

-- NodeSHMInfo.
pub record Node : Type 0 where
  pub status : ℤ
  pub seckey_id : ℤ
  pub client_id : String
  pub server_id : String
  pub seckey : String

abbrev pub zero_node : Node
zero_node = record {
  status = pos 0;
  seckey_id = pos 0;
  client_id = "";
  server_id = "";
  seckey = "";
}

-- The two `strcmp` calls that compare a slot with a pair of C strings.
abbrev pub holds : String → String → Node → Bool
holds client server node = node.client_id == client && node.server_id == server

-- The `memcmp` with a zeroed node.
abbrev pub is_zero : Node → Bool
is_zero node =
    int_eq node.status (pos 0)
    && int_eq node.seckey_id (pos 0)
    && is_empty node.client_id
    && is_empty node.server_id
    && is_empty node.seckey

-- The loops over the slots stop at the first one that passes the test: here it is changed, ...
unfoldable pub change_first : (Node → Bool) → (Node → Node) → List Node → Option (List Node)
change_first test change [] = none
change_first test change (slot ∷ slots) =
    let rest = change_first test change slots in
    if test slot
    then some (change slot ∷ slots)
    else elim rest [ none ↦ none | some changed ↦ some (slot ∷ changed) ]

-- ... and here it is read.
unfoldable pub find_first : (Node → Bool) → List Node → Option Node
find_first test [] = none
find_first test (slot ∷ slots) =
    let rest = find_first test slots in if test slot then some slot else rest

unfoldable pub shm_init : List Node → List Node
shm_init slots = map (λ slot. zero_node) slots

-- The second loop of `shmWrite`: the first empty slot.
unfoldable pub write_empty : Node → List Node → ℤ × List Node
write_empty node slots = elim (change_first is_zero (λ _. node) slots) [
  | some changed ↦ (pos 0, changed)
  | none ↦ (negsuc 0, slots)
]

unfoldable pub shm_write : Bool → Node → List Node → ℤ × List Node
unfolding write_empty
shm_write attached node slots =
    if attached
    then elim (change_first (holds node.client_id node.server_id) (λ _. node) slots) [
      | some changed ↦ (pos 0, changed)
      | none ↦ write_empty node slots
    ]
    else (negsuc 0, slots)

unfoldable pub shm_read : Bool → String → String → List Node → Node
shm_read attached client server slots =
    if attached
    then elim (find_first (holds (c_str client) (c_str server)) slots) [
      | some node ↦ node
      | none ↦ zero_node
    ]
    else zero_node

unfoldable pub shm_update_status : Bool → String → String → ℤ → List Node → ℤ × List Node
shm_update_status attached client server status slots =
    if attached
    then elim (change_first (holds (c_str client) (c_str server))
        (λ node. record node { status = status }) slots) [
          | some changed ↦ (pos 0, changed)
          | none ↦ (negsuc 0, slots)
        ]
    else (negsuc 0, slots)
