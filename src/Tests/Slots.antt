-- ===== src/Tests/Slots.antt =====
-- Runs of the theorems on the slots: one slot with a key, and one empty slot.
use encrypted_transmission_d.Prelude.{
  true, none, List, [], ◌∷◌, length, pos, negsuc, ◌≡◌, ◌≢◌, refl, ◌⊎◌, ◌↔◌, c_str, ◌==◌, ◌&&◌,
  if◌then◌else◌,
}
use encrypted_transmission_d.Cache.Slots.{
  Node, zero_node, holds, is_zero, change_first, find_first, write_empty, shm_write, shm_read,
  shm_update_status,
}
use encrypted_transmission_d.Cache.Reads.{
  shm_read-shm_write, shm_write_refused, shm_read-shm_update_status,
}
use encrypted_transmission_d.Cache.Unique.{IsUnique, shm_write-IsUnique, shm_update_status-IsUnique}

abbrev alice : Node
alice = record {
  status = pos 1;
  seckey_id = pos 7;
  client_id = "alice";
  server_id = "server";
  seckey = "a2V5";
}

abbrev bob : Node
bob = record {
  status = pos 1;
  seckey_id = pos 8;
  client_id = "bob";
  server_id = "server";
  seckey = "a2V6";
}

abbrev slots : List Node
slots = alice ∷ zero_node ∷ []

slots-IsUnique : IsUnique slots
unfolding find_first
slots-IsUnique = (λ h. refl, (λ h. refl, tt))

written : (shm_write true bob slots).0 ≡ pos 0
unfolding shm_write write_empty change_first
written = refl

shm_read-shm_write_example : shm_read true "alice" "server" (shm_write true bob slots).1 ≡ (
    if holds (c_str "alice") (c_str "server") bob
    then bob
    else shm_read true "alice" "server" slots)
unfolding c_str
shm_read-shm_write_example = shm_read-shm_write bob "alice" "server" slots refl written

shm_write_refused_example :
    ((shm_write true bob slots ≡ (negsuc 0, slots))
      ↔ ((find_first (holds "bob" "server") slots ≡ none) × (find_first is_zero slots ≡ none)))
    × (((shm_write true bob slots).0 ≡ pos 0) ⊎ (shm_write true bob slots ≡ (negsuc 0, slots)))
shm_write_refused_example = shm_write_refused bob slots

shm_read-shm_update_status_example :
    (((shm_update_status true "alice" "server" (pos 0) slots).0 ≡ pos 0)
      × (find_first (holds (c_str "alice") (c_str "server")) slots ≢ none)
      × (shm_read true "bob" "server" (shm_update_status true "alice" "server" (pos 0) slots).1 ≡ (
          if c_str "bob" == c_str "alice" && c_str "server" == c_str "server"
          then record (shm_read true "alice" "server" slots) { status = pos 0 }
          else shm_read true "bob" "server" slots)))
    ⊎ ((shm_update_status true "alice" "server" (pos 0) slots ≡ (negsuc 0, slots))
        × (find_first (holds (c_str "alice") (c_str "server")) slots ≡ none))
shm_read-shm_update_status_example =
    shm_read-shm_update_status "alice" "server" "bob" "server" (pos 0) slots

shm_write-IsUnique_example :
    IsUnique (shm_write true bob slots).1 × (length (shm_write true bob slots).1 ≡ 2)
shm_write-IsUnique_example = shm_write-IsUnique true bob slots slots-IsUnique

shm_update_status-IsUnique_example :
    IsUnique (shm_update_status true "alice" "server" (pos 0) slots).1
    × (length (shm_update_status true "alice" "server" (pos 0) slots).1 ≡ 2)
shm_update_status-IsUnique_example =
    shm_update_status-IsUnique true "alice" "server" (pos 0) slots slots-IsUnique
