-- ===== src/Connection/Header.antt =====
-- `validate_header` of src/connection.rs and the encoding of a header.
use lloogg.Prelude.{
  ℕ, ◌^◌, ◌≤◌, ◌<◌, ◌≡◌, ◌↔◌, ◌⊎◌, List, ◌∷◌, ◌++◌, arith, length, slice, All, IsByte, to_le,
  from_le, get_or, ◌==◌, if◌then◌else◌,
}
use lloogg.Constants.{magic_wire, opcode_push, opcode_get, opcode_del}
use lloogg.Error.{Result, ok, err, protocol, bad_magic}
use lloogg.Connection.{Connection, validate_header, expected_payload, check_payload}

-- The nine bytes of a request header.
abbrev pub encode_header : ℕ → ℕ → ℕ → List ℕ
encode_header opcode user_id payload_len =
    to_le 2 magic_wire ++ to_le 1 opcode ++ to_le 4 user_id ++ to_le 2 payload_len

-- The payload length that the protocol fixes for each opcode.
abbrev pub IsCommand : ℕ → ℕ → Type 0
IsCommand o l =
    (o ≡ opcode_push) × (l ≡ 17) ⊎ (o ≡ opcode_get) × (l ≡ 2) ⊎ (o ≡ opcode_del) × (l ≡ 0)

-- What arrives in a receive buffer: 32 bytes.
pub record IsBuffer (size : ℕ) (bs : List ℕ) : Type 0 where
  pub size_eq : length bs ≡ size
  pub bytes : All IsByte bs

-- A buffer of at least nine bytes, taken apart.
data Nine : List ℕ → Type 0 where
  nine :
      (b0 b1 b2 b3 b4 b5 b6 b7 b8 : ℕ) (rest : List ℕ)
      → Nine (b0 ∷ b1 ∷ b2 ∷ b3 ∷ b4 ∷ b5 ∷ b6 ∷ b7 ∷ b8 ∷ rest)

Nine-of : (bs : List ℕ) → 9 ≤ length bs → Nine bs
Nine-of (b0 ∷ b1 ∷ b2 ∷ b3 ∷ b4 ∷ b5 ∷ b6 ∷ b7 ∷ b8 ∷ rest) h = nine b0 b1 b2 b3 b4 b5 b6 b7 b8 rest
Nine-of _ h = absurd (omega arith)

-- The header check as a function of the receive buffer.
check_bytes : List ℕ → Result (ℕ × ℕ × ℕ)
check_bytes bs =
    if from_le (slice bs 0 2) == magic_wire
    then check_payload (get_or bs 2 0) (from_le (slice bs 3 4)) (from_le (slice bs 7 2))
        (expected_payload (get_or bs 2 0))
    else err (protocol (bad_magic (from_le (slice bs 0 2))))

abbrev IsHeader : List ℕ → ℕ → ℕ → ℕ → Type 0
IsHeader bs o u l = (slice bs 0 9 ≡ encode_header o u l) × IsCommand o l × (u < 2 ^ 32)

check_bytes-ok :
    {bs : List ℕ} (o u l : ℕ)
    → Nine bs
    → All IsByte bs
    → check_bytes bs ≡ ok (o, u, l)
    → IsHeader bs o u l
unfolding check_bytes check_payload expected_payload
check_bytes-ok o u l (nine b0 b1 b2 b3 b4 b5 b6 b7 b8 rest) h e =
    (ground arith, ground arith, ground arith)

check_bytes_complete :
    {bs : List ℕ} (o u l : ℕ)
    → Nine bs
    → All IsByte bs
    → IsHeader bs o u l
    → check_bytes bs ≡ ok (o, u, l)
unfolding check_bytes check_payload expected_payload
check_bytes_complete o u l (nine b0 b1 b2 b3 b4 b5 b6 b7 b8 rest) h e = ground arith

-- A header is accepted exactly if its nine bytes are the encoding of a command with the payload
-- length of its opcode; the values returned are those encoded.
pub validate_header_iff :
    (c : Connection) (o u l : ℕ)
    → IsBuffer 32 c.rbuf
    → (validate_header c ≡ ok (o, u, l))
      ↔ (slice c.rbuf 0 9 ≡ encode_header o u l) × IsCommand o l × (u < 2 ^ 32)
unfolding validate_header check_bytes
validate_header_iff c o u l b =
    let nine_bytes : Nine c.rbuf = Nine-of c.rbuf (omega (arith, b.size_eq)) in
    (
      λ e. check_bytes-ok o u l nine_bytes b.bytes e,
      λ e. check_bytes_complete o u l nine_bytes b.bytes e,
    )
