-- ===== src/Transport/Bytes.antt =====
-- htonl and ntohl with memcpy: a 32-bit number as four bytes, the highest first.
use encrypted_transmission_d.Prelude.{ℕ, ◌+◌, ◌*◌, ◌/◌, ◌%◌, ◌^◌, ◌<◌, List, [], ◌∷◌, ◌≡◌, arith}

unfoldable pub encode_length : ℕ → List ℕ
encode_length n = n / 2 ^ 24 % 256 ∷ n / 2 ^ 16 % 256 ∷ n / 2 ^ 8 % 256 ∷ n % 256 ∷ []

-- memcpy reads four bytes; fewer are no length.
unfoldable pub decode_length : List ℕ → ℕ
decode_length (a ∷ b ∷ c ∷ d ∷ _) = a * 2 ^ 24 + b * 2 ^ 16 + c * 2 ^ 8 + d
decode_length _ = 0

pub decode_length-encode_length : (n : ℕ) → n < 2 ^ 32 → decode_length (encode_length n) ≡ n
unfolding decode_length encode_length
decode_length-encode_length n h = omega arith
