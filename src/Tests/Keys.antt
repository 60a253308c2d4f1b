-- ===== src/Tests/Keys.antt =====
-- Runs of the theorems on the keys: one active key of alice's, and keysn at 8.
use encrypted_transmission_d.Prelude.{
  atoi, to_string, ℕ, true, false, none, some, [], ◌∷◌, pos, ◌≡◌, refl, ◌⊎◌,
}
use encrypted_transmission_d.Cache.{Node, zero_node}
use encrypted_transmission_d.Database.{Database, KeyRow}
use encrypted_transmission_d.Database.Effect.{effect, answer, sort_desc}
use encrypted_transmission_d.Outside.{World, connected}
use encrypted_transmission_d.Outside.Rules.{tables_of, SameProcess}
use encrypted_transmission_d.KeyStore.{
  check_sec_key, logout_sec_key, write_sec_key_with_trans, allocate_key, with_key_number,
  lock_active_keys, rotate_keys, insert_new_key, bump_and_commit, commit_key, abandon,
}
use encrypted_transmission_d.KeyStore.Liveness.{NeverFails, check_sec_key_answers}
use encrypted_transmission_d.KeyStore.Lifecycle.{KeysOnly}
use encrypted_transmission_d.KeyStore.Check.{
  HasLive, NoneActive, check_sec_key_confirms, logout_sec_key_revokes,
}
use encrypted_transmission_d.KeyStore.Transaction.{IsLegal}
use encrypted_transmission_d.KeyStore.Rotation.{
  Rotated, write_sec_key_with_trans-Rotated, write_sec_key_with_trans_atomic,
  write_sec_key_with_trans-IsLegal,
}
use encrypted_transmission_d.Prelude.{select, arith}
use encrypted_transmission_d.Database.Effect.{is_key}
use encrypted_transmission_d.Tests.Engine.{Mysql, exact, step, view, outside, lawful, reliable}

abbrev alice_key : KeyRow
alice_key = record {
  client_id = "alice";
  server_id = "server";
  key_id = pos 7;
  expire_time = 90000;
  state = pos 1;
  seckey = "a2V5";
  rotated_from = none;
}

abbrev tables : Database
tables = record { key_sn = some (pos 8); keys = alice_key ∷ []; messages = []; audits = [] }

abbrev over : Database → World Mysql ℕ
over db = record {
  engine = record { db = db; saved = db; is_open = false; clock = 1000 };
  host = 0;
  slots = zero_node ∷ [];
  db = connected;
  sequence = 0;
  query_sequence = 0;
}

abbrev world : World Mysql ℕ
world = over tables

abbrev unnumbered : World Mysql ℕ
unnumbered = over (record tables { key_sn = none })

abbrev new_node : Node
new_node = record {
  status = pos 1;
  seckey_id = pos 0;
  client_id = "alice";
  server_id = "server";
  seckey = "bmV3";
}

check_sec_key_confirms_example :
    KeysOnly view world (check_sec_key outside "alice" "server" (pos 7) world).1
    × (((check_sec_key outside "alice" "server" (pos 7) world).0 ≡ false)
        ⊎ (((check_sec_key outside "alice" "server" (pos 7) world).0 ≡ true)
            × HasLive exact 1000 "alice" "server"
                (pos 7)
                (tables_of view world).keys
                (tables_of view (check_sec_key outside "alice" "server" (pos 7) world).1).keys))
check_sec_key_confirms_example =
    check_sec_key_confirms outside exact view lawful world refl "alice" "server" (pos 7)

logout_sec_key_revokes_example :
    KeysOnly view world (logout_sec_key outside "alice" "server" (pos 7) world).1
    × ((((logout_sec_key outside "alice" "server" (pos 7) world).0 ≡ true)
          × NoneActive exact "alice" "server"
              (pos 7)
              (tables_of view (logout_sec_key outside "alice" "server" (pos 7) world).1).keys)
        ⊎ (((logout_sec_key outside "alice" "server" (pos 7) world).0 ≡ false)
            × (tables_of view (logout_sec_key outside "alice" "server" (pos 7) world).1
                ≡ tables_of view world)))
logout_sec_key_revokes_example =
    logout_sec_key_revokes outside exact view lawful world refl "alice" "server" (pos 7)

rotation_done : (write_sec_key_with_trans outside new_node world).0.0 ≡ true
unfolding write_sec_key_with_trans allocate_key with_key_number lock_active_keys rotate_keys
    insert_new_key bump_and_commit commit_key step effect answer sort_desc atoi to_string
rotation_done = refl

rotation_failed : (write_sec_key_with_trans outside new_node unnumbered).0.0 ≡ false
unfolding write_sec_key_with_trans allocate_key with_key_number abandon step effect answer
rotation_failed = refl

write_sec_key_with_trans-Rotated_example :
    Rotated exact view world new_node
      (write_sec_key_with_trans outside new_node world).0.1
      (tables_of view (write_sec_key_with_trans outside new_node world).1)
    × ((write_sec_key_with_trans outside new_node world).1.engine.is_open ≡ false)
write_sec_key_with_trans-Rotated_example =
    write_sec_key_with_trans-Rotated outside exact view lawful new_node world refl rotation_done

write_sec_key_with_trans_atomic_example :
    (tables_of view (write_sec_key_with_trans outside new_node unnumbered).1
      ≡ tables_of view unnumbered)
    × ((write_sec_key_with_trans outside new_node unnumbered).0.1 ≡ new_node)
    × ((write_sec_key_with_trans outside new_node unnumbered).1.engine.is_open ≡ false)
write_sec_key_with_trans_atomic_example =
    write_sec_key_with_trans_atomic outside exact view lawful new_node unnumbered refl reliable
      rotation_failed

write_sec_key_with_trans-IsLegal_example :
    IsLegal
      (tables_of view world)
      (tables_of view (write_sec_key_with_trans outside new_node world).1)
    × SameProcess view world (write_sec_key_with_trans outside new_node world).1
write_sec_key_with_trans-IsLegal_example =
    write_sec_key_with_trans-IsLegal outside exact view lawful new_node world refl

never_fails : NeverFails outside exact view
never_fails = record { replies = λ s e. refl }

alice_found : select (is_key exact "alice" "server" (pos 7)) tables.keys ≡ alice_key ∷ []
alice_found = refl

check_sec_key_answers_example : (check_sec_key outside "alice" "server" (pos 7) world).0 ≡ true
check_sec_key_answers_example =
    check_sec_key_answers outside exact view lawful never_fails "alice" "server" (pos 7) world []
      alice_key alice_found refl (omega arith)
