-- ===== src/Cache/Reads.antt =====
-- SecKeyShm.cpp: what `shmRead` answers after a write or a change of status.
use mathlib.Core.Path.{subst₂}
use encrypted_transmission_d.Prelude.{
  String, Bool, true, false, ◌&&◌, none, some, List, [], ◌∷◌, ℤ, pos, negsuc, ◌==◌, is_empty, ◌≡◌,
  ◌↔◌, ◌≢◌, refl, ◌⊎◌, inl, inr, c_str, arith, if◌then◌else◌, eq_iff, Option-cases, Bool-cases,
}
use encrypted_transmission_d.Cache.Slots.{
  Node, holds, is_zero, change_first, find_first, shm_write, shm_read, shm_update_status,
}

pub find_first-overwrite :
    (node : Node) (client server : String) (slots changed : List Node)
    → change_first (holds node.client_id node.server_id) (λ _. node) slots ≡ some changed
    → find_first (holds client server) changed
      ≡ (if holds client server node then some node else find_first (holds client server) slots)
unfolding change_first find_first
find_first-overwrite node client server [] changed e = ground arith
find_first-overwrite node client server (slot ∷ slots) changed e =
    elim (Option-cases (change_first (holds node.client_id node.server_id) (λ _. node) slots)) [
      | inl n ↦
          ground (arith, eq_iff slot.client_id node.client_id, eq_iff slot.server_id node.server_id)
      | inr (rest, s) ↦ ground (
        arith,
        find_first-overwrite node client server slots rest,
        eq_iff slot.client_id node.client_id,
        eq_iff slot.server_id node.server_id,
        eq_iff slot.client_id client,
        eq_iff slot.server_id server,
        eq_iff node.client_id client,
        eq_iff node.server_id server,
      )
    ]

-- The empty slots have no pair to be read by, and nothing read by the pair of `node` stands before
-- it.
pub find_first-fill :
    (node : Node) (empty read : Node → Bool) (slots changed : List Node)
    → ((slot : Node) → empty slot ≡ true → read slot ≡ false)
    → (read node ≡ true → find_first read slots ≡ none)
    → change_first empty (λ _. node) slots ≡ some changed
    → find_first read changed ≡ (if read node then some node else find_first read slots)
unfolding change_first find_first
find_first-fill node empty read [] changed unnamed absent e = absurd (cc)
find_first-fill node empty read (slot ∷ slots) changed unnamed absent e =
    elim (Option-cases (change_first empty (λ _. node) slots)) [
      | inl n ↦ ground (arith, unnamed slot)
      | inr (rest, s) ↦ ground (
        arith,
        unnamed slot,
        find_first-fill node empty read slots rest unnamed (λ h. let e = absent h in ground arith)
            s,
      )
    ]

pub zero-unheld :
    (client server : String)
    → is_empty client && is_empty server ≡ false
    → (slot : Node) → is_zero slot ≡ true
    → holds client server slot ≡ false
zero-unheld client server named slot z =
    let e : slot.client_id ≡ "" = ground (arith, eq_iff slot.client_id "") in
    let f : slot.server_id ≡ "" = ground (arith, eq_iff slot.server_id "") in
    elim (Bool-cases (holds client server slot)) [
      | inr no_match ↦ no_match
      | inl hit ↦
          let g : client ≡ "" = ground (arith, eq_iff slot.client_id client) in
          let h : server ≡ "" = ground (arith, eq_iff slot.server_id server) in
          absurd (ground (arith, eq_iff client "", eq_iff server ""))
    ]

pub find_first-same_pair :
    (node : Node) (client server : String) (slots : List Node)
    → find_first (holds node.client_id node.server_id) slots ≡ none
    → holds client server node ≡ true
    → find_first (holds client server) slots ≡ none
find_first-same_pair node client server slots absent h =
    let e : node.client_id ≡ client = ground (arith, eq_iff node.client_id client) in
    let f : node.server_id ≡ server = ground (arith, eq_iff node.server_id server) in
    subst₂ (λ c s. find_first (holds c s) slots ≡ none) e f absent

pub change_first-none :
    (test : Node → Bool) (change : Node → Node) (slots : List Node)
    → (change_first test change slots ≡ none) ↔ (find_first test slots ≡ none)
unfolding change_first find_first
change_first-none test change [] = (λ h. refl, λ h. refl)
change_first-none test change (slot ∷ slots) = ground (arith, change_first-none test change slots)

-- A write that an attached segment accepts is what a read of its pair answers from then on, and no read of
-- another pair changes. The pair is not that of an empty slot.
pub shm_read-shm_write :
    (node : Node) (client server : String) (slots : List Node)
    → is_empty (c_str client) && is_empty (c_str server) ≡ false
    → (shm_write true node slots).0 ≡ pos 0
    → shm_read true client server (shm_write true node slots).1 ≡ (
        if holds (c_str client) (c_str server) node
        then node
        else shm_read true client server slots)
unfolding shm_write shm_read
shm_read-shm_write node client server slots named e =
    elim (Option-cases (change_first (holds node.client_id node.server_id) (λ _. node) slots)) [
      | inr (changed, s) ↦
          ground (arith, find_first-overwrite node (c_str client) (c_str server) slots changed s)
      | inl absent ↦ elim (Option-cases (change_first is_zero (λ _. node) slots)) [
        | inr (changed, s) ↦ ground (
          arith,
          find_first-fill node is_zero (holds (c_str client) (c_str server)) slots changed
              (zero-unheld (c_str client) (c_str server) named)
              (find_first-same_pair node (c_str client) (c_str server) slots (
                (change_first-none (holds node.client_id node.server_id) (λ _. node) slots).0
                  absent))
              s,
        )
        | inl full ↦ ground arith
      ]
    ]

-- A write to an attached segment answers 0 or -1: -1 exactly where no slot holds the pair and no
-- slot is empty, and then the segment is unchanged.
pub shm_write_refused :
    (node : Node) (slots : List Node)
    → ((shm_write true node slots ≡ (negsuc 0, slots)) ↔ (
        (find_first (holds node.client_id node.server_id) slots ≡ none)
        × (find_first is_zero slots ≡ none)))
      × (((shm_write true node slots).0 ≡ pos 0) ⊎ (shm_write true node slots ≡ (negsuc 0, slots)))
unfolding shm_write
shm_write_refused node slots = ground (
  arith,
  change_first-none (holds node.client_id node.server_id) (λ _. node) slots,
  change_first-none is_zero (λ _. node) slots,
)

pub find_first-change_status :
    (owner peer client server : String) (status : ℤ) (slots changed : List Node)
    → change_first (holds owner peer) (λ node. record node { status = status }) slots ≡ some changed
    → (node : Node) × (find_first (holds owner peer) slots ≡ some node)
      × (find_first (holds client server) changed ≡ (
          if client == owner && server == peer
          then some (record node { status = status })
          else find_first (holds client server) slots))
unfolding change_first find_first
find_first-change_status owner peer client server status [] changed e = absurd (cc)
find_first-change_status owner peer client server status (slot ∷ slots) changed e =
    elim (Bool-cases (holds owner peer slot)) [
      | inl hit ↦ (
        slot,
        ground arith,
        ground (
          arith,
          eq_iff slot.client_id owner,
          eq_iff slot.server_id peer,
          eq_iff slot.client_id client,
          eq_iff slot.server_id server,
          eq_iff client owner,
          eq_iff server peer,
        ),
      )
      | inr miss ↦
          elim (Option-cases
            (change_first (holds owner peer) (λ node. record node { status = status }) slots)) [
              | inl n ↦ absurd (ground arith)
              | inr (rest, s) ↦
                  let (node, found, reads) =
                    find_first-change_status owner peer client server status slots rest s in
                  (
                    node,
                    ground arith,
                    ground (
                      arith,
                      eq_iff slot.client_id owner,
                      eq_iff slot.server_id peer,
                      eq_iff slot.client_id client,
                      eq_iff slot.server_id server,
                      eq_iff client owner,
                      eq_iff server peer,
                    ),
                  )
            ]
    ]

-- `shmUpdateStatus` on an attached segment answers 0 exactly where some slot holds the pair. Then
-- a read of the pair answers the same node with the new status, and no read of another pair
-- changes; otherwise the segment is unchanged.
pub shm_read-shm_update_status :
    (owner peer client server : String) (status : ℤ) (slots : List Node)
    → (((shm_update_status true owner peer status slots).0 ≡ pos 0)
        × (find_first (holds (c_str owner) (c_str peer)) slots ≢ none)
        × (shm_read true client server (shm_update_status true owner peer status slots).1 ≡ (
            if c_str client == c_str owner && c_str server == c_str peer
            then record (shm_read true owner peer slots) { status = status }
            else shm_read true client server slots)))
      ⊎ ((shm_update_status true owner peer status slots ≡ (negsuc 0, slots))
          × (find_first (holds (c_str owner) (c_str peer)) slots ≡ none))
unfolding shm_update_status shm_read
shm_read-shm_update_status owner peer client server status slots =
    elim (Option-cases (
      change_first (holds (c_str owner) (c_str peer)) (λ node. record node { status = status })
        slots)) [
          | inl absent ↦ inr (
            ground arith,
            (change_first-none (holds (c_str owner) (c_str peer))
                  (λ node. record node { status = status }) slots).0
                absent,
          )
          | inr (changed, s) ↦
              let (node, found, reads) =
                find_first-change_status (c_str owner) (c_str peer) (c_str client) (c_str server)
                  status slots changed s in
              inl (ground arith, ground arith, ground arith)
        ]
