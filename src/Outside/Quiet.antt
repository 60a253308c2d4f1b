-- ===== src/Outside/Quiet.antt =====
-- Calls that leave the messages alone and the keys within their lifecycle.
use encrypted_transmission_d.Prelude.{Bool, true, false, ◌≡◌, refl, ◌∙◌, ap, List, if◌then◌else◌}
use encrypted_transmission_d.Cache.{Node}
use encrypted_transmission_d.Outside.{World, Server, pure, ◌>>=◌, on_host, on_slots}
use encrypted_transmission_d.Outside.Laws.{View}
use encrypted_transmission_d.Outside.Rules.{tables_of}
use encrypted_transmission_d.KeyStore.Lifecycle.{Evolves, Evolves-refl, Evolves-trans, KeysOnly}

module _ {E H : Type 0} (v : View E) where
  pub record Quiet (w w' : World E H) : Type 0 where
    pub db : w'.db ≡ w.db
    pub idle : v.in_transaction w'.engine ≡ false
    pub messages : (tables_of v w').messages ≡ (tables_of v w).messages
    pub keys : Evolves (tables_of v w).keys (tables_of v w').keys

  -- Where no transaction is open, the call is quiet.
  pub record IsQuiet {A : Type 0} (m : Server E H A) : Type 0 where
    pub at : (w : World E H) → v.in_transaction w.engine ≡ false → Quiet w (m w).1

  pub Quiet-trans : {a b c : World E H} → Quiet a b → Quiet b c → Quiet a c
  Quiet-trans p q = record {
    db = q.db ∙ p.db;
    idle = q.idle;
    messages = q.messages ∙ p.messages;
    keys = Evolves-trans _ _ _ p.keys q.keys;
  }

  pub KeysOnly-Quiet : {w w' : World E H} → KeysOnly v w w' → Quiet w w'
  KeysOnly-Quiet k = record {
    db = ap (λ (x : World E H). x.db) k.process;
    idle = k.idle;
    messages = k.messages;
    keys = k.keys;
  }

module _ {E H A : Type 0} {v : View E} where
  pub IsQuiet-pure : (a : A) → IsQuiet {H = H} v (pure a)
  IsQuiet-pure a = record {
    at = λ w i. record { db = refl; idle = i; messages = refl; keys = Evolves-refl _ };
  }

  pub IsQuiet-on_host : (f : H → A × H) → IsQuiet v (on_host f)
  IsQuiet-on_host f = record {
    at = λ w i. record { db = refl; idle = i; messages = refl; keys = Evolves-refl _ };
  }

  pub IsQuiet-on_slots : (f : List Node → A × List Node) → IsQuiet {H = H} v (on_slots f)
  IsQuiet-on_slots f = record {
    at = λ w i. record { db = refl; idle = i; messages = refl; keys = Evolves-refl _ };
  }

  pub IsQuiet-if :
      (b : Bool) (m n : Server E H A) → IsQuiet v m → IsQuiet v n → IsQuiet v (if b then m else n)
  IsQuiet-if true m n p q = p
  IsQuiet-if false m n p q = q

module _ {E H A B : Type 0} {v : View E} where
  pub IsQuiet-bind :
      (m : Server E H A) (f : A → Server E H B)
      → IsQuiet v m
      → ((a : A) → IsQuiet v (f a))
      → IsQuiet v (m >>= f)
  IsQuiet-bind m f p q = record {
    at = λ w i. let r = p.at w i in Quiet-trans v r ((q (m w).0).at (m w).1 r.idle);
  }

pub ruleset quiet_rules =
    (IsQuiet-pure, IsQuiet-on_host, IsQuiet-on_slots, IsQuiet-if, IsQuiet-bind)
