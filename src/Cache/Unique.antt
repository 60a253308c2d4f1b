-- ===== src/Cache/Unique.antt =====
-- SecKeyShm.cpp: the number of slots is fixed, and no pair stands in two slots.
use encrypted_transmission_d.Prelude.{
  String, Bool, true, false, ◌&&◌, none, some, List, [], ◌∷◌, ℤ, is_empty, ◌≡◌, ◌∙◌, ◌⊎◌, suc, refl,
  ap, inl, inr, c_str, arith, eq_iff, Option-cases, Bool-cases, length,
}
use encrypted_transmission_d.Cache.Slots.{
  Node, holds, is_zero, change_first, find_first, write_empty, shm_write, shm_update_status,
}
use encrypted_transmission_d.Cache.Reads.{
  find_first-overwrite, find_first-fill, zero-unheld, find_first-same_pair, change_first-none,
}

-- A slot whose pair is not that of an empty slot; its pair is not held again further on.
abbrev pub IsUnique : List Node → Type 0
IsUnique [] = Unit
IsUnique (slot ∷ slots) =
    (is_empty slot.client_id && is_empty slot.server_id ≡ false
      → find_first (holds slot.client_id slot.server_id) slots ≡ none)
    × IsUnique slots

change_first-cases :
    (test : Node → Bool) (change : Node → Node) (slot : Node) (slots changed : List Node)
    → change_first test change (slot ∷ slots) ≡ some changed
    → ((test slot ≡ true) × (changed ≡ change slot ∷ slots))
      ⊎ ((rest : List Node) × (test slot ≡ false)
          × (change_first test change slots ≡ some rest)
          × (changed ≡ slot ∷ rest))
unfolding change_first
change_first-cases test change slot slots changed e =
    elim (Option-cases (change_first test change slots)) [
      | inl n ↦ inl (ground arith)
      | inr (rest, s) ↦ elim (Bool-cases (test slot)) [
        | inl hit ↦ inl (ground arith)
        | inr miss ↦ inr (rest, miss, s, ground arith)
      ]
    ]

length-change_first :
    (test : Node → Bool) (change : Node → Node) (slots changed : List Node)
    → change_first test change slots ≡ some changed
    → length changed ≡ length slots
unfolding change_first
length-change_first test change [] changed e = absurd (cc)
length-change_first test change (slot ∷ slots) changed e =
    elim (change_first-cases test change slot slots changed e) [
      | inl (hit, s) ↦ rw s
      | inr (rest, miss, r, s) ↦ rw s (ap suc (length-change_first test change slots rest r))
    ]

overwrite-IsUnique :
    (node : Node) (slots changed : List Node)
    → IsUnique slots
    → change_first (holds node.client_id node.server_id) (λ _. node) slots ≡ some changed
    → IsUnique changed
unfolding change_first
overwrite-IsUnique node [] changed u e = absurd (cc)
overwrite-IsUnique node (slot ∷ slots) changed u e =
    elim (change_first-cases (holds node.client_id node.server_id) (λ _. node) slot slots changed
      e) [
        | inl (hit, s) ↦
            let f : slot.client_id ≡ node.client_id =
              ground (arith, eq_iff slot.client_id node.client_id) in
            let g : slot.server_id ≡ node.server_id =
              ground (arith, eq_iff slot.server_id node.server_id) in
            rw s (rw (← f, ← g) u.0, u.1)
        | inr (rest, miss, r, s) ↦ rw s (
          λ named.
              find_first-overwrite node slot.client_id slot.server_id slots rest r
              ∙ ground (
                arith,
                u.0 named,
                eq_iff node.client_id slot.client_id,
                eq_iff node.server_id slot.server_id,
                eq_iff slot.client_id node.client_id,
                eq_iff slot.server_id node.server_id,
              ),
          overwrite-IsUnique node slots rest u.1 r,
        )
      ]

fill-IsUnique :
    (node : Node) (slots changed : List Node)
    → IsUnique slots
    → find_first (holds node.client_id node.server_id) slots ≡ none
    → change_first is_zero (λ _. node) slots ≡ some changed
    → IsUnique changed
unfolding change_first find_first
fill-IsUnique node [] changed u absent e = absurd (cc)
fill-IsUnique node (slot ∷ slots) changed u absent e =
    elim (change_first-cases is_zero (λ _. node) slot slots changed e) [
      | inl (zero, s) ↦ rw s (λ named. ground arith, u.1)
      | inr (rest, used, r, s) ↦
          let absent' : find_first (holds node.client_id node.server_id) slots ≡ none =
            ground arith in
          let other : holds node.client_id node.server_id slot ≡ false = ground arith in
          rw s (
            λ named.
                find_first-fill node is_zero (holds slot.client_id slot.server_id) slots rest
                  (zero-unheld slot.client_id slot.server_id named)
                  (find_first-same_pair node slot.client_id slot.server_id slots absent') r
                ∙ ground (
                  arith,
                  u.0 named,
                  eq_iff node.client_id slot.client_id,
                  eq_iff node.server_id slot.server_id,
                  eq_iff slot.client_id node.client_id,
                  eq_iff slot.server_id node.server_id,
                ),
            fill-IsUnique node slots rest u.1 absent' r,
          )
    ]

find_first-status_none :
    (owner peer client server : String) (status : ℤ) (slots changed : List Node)
    → change_first (holds owner peer) (λ node. record node { status = status }) slots ≡ some changed
    → find_first (holds client server) slots ≡ none
    → find_first (holds client server) changed ≡ none
unfolding change_first find_first
find_first-status_none owner peer client server status [] changed e absent = absurd (cc)
find_first-status_none owner peer client server status (slot ∷ slots) changed e absent =
    elim (change_first-cases (holds owner peer) (λ node. record node { status = status }) slot slots
      changed e) [
        | inl (hit, s) ↦ rw s (ground arith)
        | inr (rest, miss, r, s) ↦
            rw s
              (ground (arith, find_first-status_none owner peer client server status slots rest r))
      ]

status-IsUnique :
    (owner peer : String) (status : ℤ) (slots changed : List Node)
    → IsUnique slots
    → change_first (holds owner peer) (λ node. record node { status = status }) slots ≡ some changed
    → IsUnique changed
unfolding change_first
status-IsUnique owner peer status [] changed u e = absurd (cc)
status-IsUnique owner peer status (slot ∷ slots) changed u e =
    elim (change_first-cases (holds owner peer) (λ node. record node { status = status }) slot slots
      changed e) [
        | inl (hit, s) ↦ rw s u
        | inr (rest, miss, r, s) ↦ rw s (
          λ named.
              find_first-status_none owner peer slot.client_id slot.server_id status slots rest r
                (u.0 named),
          status-IsUnique owner peer status slots rest u.1 r,
        )
      ]

-- Whether or not the segment is attached, writing a node keeps the number of slots, and no pair
-- of IDs stands in two slots afterwards if none did before.
pub shm_write-IsUnique :
    (attached : Bool) (node : Node) (slots : List Node)
    → IsUnique slots
    → IsUnique (shm_write attached node slots).1
      × (length (shm_write attached node slots).1 ≡ length slots)
unfolding shm_write
shm_write-IsUnique false node slots u = (u, refl)
shm_write-IsUnique true node slots u =
    elim (Option-cases (change_first (holds node.client_id node.server_id) (λ _. node) slots)) [
      | inr (changed, s) ↦
          rw (s, shm_write)
            (overwrite-IsUnique node slots changed u s, length-change_first _ _ slots changed s)
      | inl absent ↦ elim (Option-cases (change_first is_zero (λ _. node) slots)) [
        | inl full ↦ rw (absent, shm_write) (rw (full, write_empty) (u, refl))
        | inr (changed, s) ↦
            rw (absent, shm_write)
              (rw (s, write_empty)
                (
                  fill-IsUnique node slots changed u
                      ((change_first-none (holds node.client_id node.server_id) (λ _. node) slots).0
                        absent)
                      s,
                  length-change_first _ _ slots changed s,
                ))
      ]
    ]

-- Whether or not the segment is attached, changing a status keeps the number of slots, and no pair
-- of IDs stands in two slots afterwards if none did before.
pub shm_update_status-IsUnique :
    (attached : Bool) (client server : String) (status : ℤ) (slots : List Node)
    → IsUnique slots
    → IsUnique (shm_update_status attached client server status slots).1
      × (length (shm_update_status attached client server status slots).1 ≡ length slots)
unfolding shm_update_status
shm_update_status-IsUnique false client server status slots u = (u, refl)
shm_update_status-IsUnique true client server status slots u =
    elim (Option-cases (
      change_first (holds (c_str client) (c_str server)) (λ node. record node { status = status })
        slots)) [
          | inl absent ↦ rw (absent, shm_update_status) (u, refl)
          | inr (changed, s) ↦
              rw (s, shm_update_status)
                (
                  status-IsUnique (c_str client) (c_str server) status slots changed u s,
                  length-change_first _ _ slots changed s,
                )
        ]
