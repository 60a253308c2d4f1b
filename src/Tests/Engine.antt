-- ===== src/Tests/Engine.antt =====
-- A MySQL server in memory, with one connection and no failure, and a machine that stands still but
-- for a count of the readings of its clock.
use encrypted_transmission_d.Prelude.{
  String, ℕ, zero, suc, Bool, true, false, none, some, List, [], ◌∷◌, pos, ◌≡◌, ◌≢◌, refl, inl, inr,
  ◌==◌, eq_refl, length-take, select, take, All, to_count, Bool-cases, if◌then◌else◌,
}
use encrypted_transmission_d.Database.{
  Database, MessageLogRecord, Statement, start_transaction, rollback, commit,
}
use encrypted_transmission_d.Database.Effect.{Collation, effect, answer}
use encrypted_transmission_d.Packet.{body_not_set}
use encrypted_transmission_d.Outside.{Outside}
use encrypted_transmission_d.Outside.Laws.{View, IsLawful, IsReliable, IsSound, Among, is_plain}
use encrypted_transmission_d.Outside.Rules.{answer-ne-failed}

pub record Mysql : Type 0 where
  pub db : Database
  pub saved : Database
  pub is_open : Bool
  pub clock : ℕ

abbrev pub exact : Collation
exact = record {
  same = λ a b. a == b;
  recent = λ s n ms. take (to_count n) (select (λ m. m.sender_id == s) ms);
}

unfoldable pub step : Statement → Mysql → Mysql
step start_transaction e = record e { saved = e.db; is_open = true }
step rollback e = record e { db = if e.is_open then e.saved else e.db; is_open = false }
step commit e = record e { is_open = false }
step s e = record e { db = effect exact e.clock s e.db }

abbrev pub view : View Mysql
view = record {
  tables = λ e. e.db;
  saved = λ e. e.saved;
  in_transaction = λ e. e.is_open;
  now = λ e. e.clock;
}

abbrev pub outside : Outside Mysql ℕ
outside = record {
  query = λ s e. (answer exact e.clock s e.db, step s e);
  time = λ h. (1000, h);
  micros = λ h. (h, suc h);
  local_time = λ h. ("2026-01-01 00:00:00", h);
  make_time = λ text. some (pos 1767225600);
  attach = λ h. (true, h);
  rand_bytes = λ n h. ("0123456789abcdef", h);
  base64_encode = λ s. s;
  base64_decode = λ s. s;
  gcm_encrypt = λ key text h. (
    record { success = true; ciphertext = text; nonce = "nonce"; tag = "tag"; error_msg = "" },
    h,
  );
  gcm_decrypt = λ key nonce text tag. record { success = true; plaintext = text; error_msg = "" };
  write_file = λ file text h. h;
  rsa_verify = λ file digest sign h. (true, h);
  rsa_public_encrypt = λ file text h. (text, h);
  sha256 = λ text. text;
  parse_request = λ text. record { header = none; body = body_not_set };
}

step-plain :
    (s : Statement) (e : Mysql)
    → is_plain s ≡ true
    → step s e ≡ record e { db = effect exact e.clock s e.db }
unfolding step
step-plain start_transaction e h = absurd (cc)
step-plain rollback e h = absurd (cc)
step-plain commit e h = absurd (cc)
step-plain _ e h = refl

step-saved : (s : Statement) (e : Mysql) → s ≢ start_transaction → (step s e).saved ≡ e.saved
unfolding step
step-saved start_transaction e h = absurd (h refl)
step-saved _ e h = refl

All-take :
    (P : MessageLogRecord → Type 0) (n : ℕ) (ms : List MessageLogRecord)
    → All P ms
    → All P (take n ms)
All-take P zero ms a = tt
All-take P (suc n) [] a = tt
All-take P (suc n) (m ∷ ms) a = (a.0, All-take P n ms a.1)

All-weaken :
    (P Q : MessageLogRecord → Type 0) (ms : List MessageLogRecord)
    → ((m : MessageLogRecord) → P m → Q m)
    → All P ms
    → All Q ms
All-weaken P Q [] f a = tt
All-weaken P Q (m ∷ ms) f a = (f m a.0, All-weaken P Q ms f a.1)

selected :
    (s : String) (ms : List MessageLogRecord)
    → All (λ m. ((m.sender_id == s) ≡ true) × Among m ms) (select (λ m. m.sender_id == s) ms)
selected s [] = tt
selected s (m ∷ ms) =
    let rest = All-weaken _ _ _ (λ n h. (h.0, inr h.1)) (selected s ms) in
    elim (Bool-cases (m.sender_id == s)) [
      | inl hit ↦ rw hit ((hit, inl refl), rest)
      | inr miss ↦ rw miss rest
    ]

pub lawful : IsLawful outside exact view
unfolding step
lawful = record {
  same_refl = eq_refl;
  recent_rows = λ s n ms. All-take _ (to_count n) _ (selected s ms);
  recent_limit = λ s n ms. length-take (to_count n) _;
  failed_plain = λ s e p f. absurd (answer-ne-failed exact e.clock s e.db f);
  plain_effect = λ s e p f. rw (step-plain s e p) (refl, refl);
  answers = λ s e. inr (inl refl);
  start_saves = λ e f. (refl, refl, refl);
  failed_start = λ e f. absurd (answer-ne-failed exact e.clock start_transaction e.db f);
  saved_keeps = step-saved;
  rollback_restores = λ e f. (refl, refl);
  failed_rollback = λ e f. absurd (answer-ne-failed exact e.clock rollback e.db f);
  commit_keeps = λ e f. (refl, refl);
  failed_commit = λ e f. absurd (answer-ne-failed exact e.clock commit e.db f);
}

pub reliable : IsReliable outside
reliable = (
  λ e. answer-ne-failed exact e.clock rollback e.db,
  λ e. answer-ne-failed exact e.clock commit e.db,
)

pub sound : IsSound outside
sound = record {
  base64_decode-encode = λ s. refl;
  gcm_decrypt-encrypt = λ key text h ok. refl;
  gcm_nonempty = λ key text h named ok. (named, refl, refl);
}
