-- ===== src/Outside.antt =====
-- What the server's code calls and does not implement: MySQL, the clock, shared memory, OpenSSL,
-- protobuf and the file system; and the state that the handlers of one process share.
pub mod Laws
pub mod Rules
pub mod Quiet
use encrypted_transmission_d.Prelude.{String, ℕ, suc, Bool, Option, List, ℤ, pos, ◌==◌}
use encrypted_transmission_d.Prelude.{if◌then◌else◌}
use encrypted_transmission_d.Cache.{Node}
use encrypted_transmission_d.Database.{Statement, Reply}
use encrypted_transmission_d.Packet.{RequestPacket}

-- GcmEncryptResult and GcmDecryptResult of AesGcmCrypto.h.
pub record GcmEncryptResult : Type 0 where
  pub success : Bool
  pub ciphertext : String
  pub nonce : String
  pub tag : String
  pub error_msg : String

pub record GcmDecryptResult : Type 0 where
  pub success : Bool
  pub plaintext : String
  pub error_msg : String

-- `E` is the state of the database server and its connection, `H` that of the machine.
pub record Outside (E H : Type 0) : Type 0 where
  -- mysql_query, with the result set that mysql_store_result then fetches
  pub query : Statement → E → Reply × E
  -- std::time, the clock in microseconds, and strftime of localtime
  pub time : H → ℕ × H
  pub micros : H → ℕ × H
  pub local_time : H → String × H
  -- std::get_time and std::mktime on a text; `none` where the text does not parse
  pub make_time : String → Option ℤ
  -- shmat: whether the segment was attached
  pub attach : H → Bool × H
  -- RAND_bytes into a string of the length
  pub rand_bytes : ℕ → H → String × H
  pub base64_encode : String → String
  pub base64_decode : String → String
  -- AesGcmCrypto with a raw key
  pub gcm_encrypt : String → String → H → GcmEncryptResult × H
  pub gcm_decrypt : String → String → String → String → GcmDecryptResult
  -- std::ofstream, and RsaCrypto over the public key in the file
  pub write_file : String → String → H → H
  pub rsa_verify : String → String → String → H → Bool × H
  pub rsa_public_encrypt : String → String → H → String × H
  pub sha256 : String → String
  -- ParseFromString; the packet holds what was parsed before an error
  pub parse_request : String → RequestPacket

-- The pointer to mysqlOP: null, or an object whose connection is null or made.
pub data Handle : Type 0 where
  absent disconnected connected : Handle

-- The state of a server process: the slots of the shared memory, the pointer to mysqlOP, and the
-- counters behind the IDs of MessageService.cpp and MessageQueryService.cpp.
pub record World (E H : Type 0) : Type 0 where
  pub engine : E
  pub host : H
  pub slots : List Node
  pub db : Handle
  pub sequence : ℕ
  pub query_sequence : ℕ

-- A call takes the state and returns it with its result.
abbrev pub Server : Type 0 → Type 0 → Type 0 → Type 0
Server E H A = World E H → A × World E H

module _ {E H : Type 0} where
  abbrev pub pure : {A : Type 0} → A → Server E H A
  pure a w = (a, w)

  infixl 5 ◌>>=◌ ◌>>◌
  abbrev pub ◌>>=◌ : {A B : Type 0} → Server E H A → (A → Server E H B) → Server E H B
  ◌>>=◌ m f w = let (a, w') = m w in f a w'

  abbrev pub ◌>>◌ : {A B : Type 0} → Server E H A → Server E H B → Server E H B
  m >> k = m >>= λ _. k

  -- A call outside that changes the machine, or the database server.
  abbrev pub on_host : {A : Type 0} → (H → A × H) → Server E H A
  on_host f w = let (a, h) = f w.host in (a, record w { host = h })

  abbrev pub on_engine : {A : Type 0} → (E → A × E) → Server E H A
  on_engine f w = let (a, e) = f w.engine in (a, record w { engine = e })

  -- A call on the shared memory.
  abbrev pub on_slots : {A : Type 0} → (List Node → A × List Node) → Server E H A
  on_slots f w = let (a, s) = f w.slots in (a, record w { slots = s })
