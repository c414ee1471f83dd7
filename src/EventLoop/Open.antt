-- ===== src/EventLoop/Open.antt =====
-- What a connection holds in each state.
use lloogg.Prelude.{
  ℕ, ◌+◌, ◌≤◌, ◌<◌, ◌≡◌, ap, some, List, arith, length, from_le, slice-splice_before, All, IsByte,
  get_or-splice_before,
}
use lloogg.Error.{ok}
use lloogg.Connection.{
  Connection, State, read_header, read_payload, process, write_response, validate_header,
  check_payload, expected_payload, header_payload_len, header_opcode, header_user_id,
}
use lloogg.EventLoop.{needed_in, needed_of, read_into}

-- A check that passes returns the length field, and that is one of the three.
pub validate_header-payload_len :
    (conn : Connection) {o u l : ℕ}
    → validate_header conn ≡ ok (o, u, l)
    → (header_payload_len conn ≡ l) × (l ≤ 17)
unfolding validate_header check_payload expected_payload
validate_header-payload_len conn e = ground arith

-- The header in the buffer was checked.
abbrev pub HasHeader : Connection → Type 0
HasHeader conn = (o u : ℕ) × (validate_header conn ≡ ok (o, u, header_payload_len conn))

-- What a connection holds in each state.
abbrev pub IsAt : State → Connection → Type 0
IsAt read_header conn = conn.rbuf_pos < 9
IsAt read_payload conn =
    (9 ≤ conn.rbuf_pos) × (conn.rbuf_pos < 9 + header_payload_len conn) × HasHeader conn
IsAt process conn = (conn.rbuf_pos ≡ 9 + header_payload_len conn) × HasHeader conn
IsAt write_response conn = (conn.wbuf_pos < conn.wbuf_len) × (conn.wbuf_len ≤ length conn.wbuf)

-- `room` is the size of the response buffer.
pub record IsOpen (room : ℕ) (conn : Connection) : Type 0 where
  pub size : length conn.rbuf ≡ 32
  pub room_eq : length conn.wbuf ≡ room
  pub bytes : All IsByte conn.rbuf
  pub at : IsAt conn.state conn

pub needed_in-le :
    (s : State) (conn : Connection) {n : ℕ}
    → IsAt s conn
    → needed_in s conn ≡ some n
    → (conn.rbuf_pos < n) × (n ≤ 26)
unfolding needed_in
needed_in-le read_header conn i e = ground arith
needed_in-le read_payload conn i e =
    let (past, before, header) = i in
    let (o, u, checked) = header in
    let (same, short) = validate_header-payload_len conn checked in ground arith
needed_in-le process conn i e = absurd (cc)
needed_in-le write_response conn i e = absurd (cc)

-- No read asks for more than the buffer has room for.
pub needed_of-le :
    {room : ℕ} (conn : Connection) {n : ℕ}
    → IsOpen room conn
    → needed_of conn ≡ some n
    → (conn.rbuf_pos < n) × (n ≤ 26)
unfolding needed_of
needed_of-le conn i e = needed_in-le conn.state conn i.at e

pub header_payload_len-read_into :
    (conn : Connection) (bytes : List ℕ)
    → 9 ≤ conn.rbuf_pos
    → header_payload_len (read_into conn bytes) ≡ header_payload_len conn
unfolding header_payload_len read_into
header_payload_len-read_into conn bytes h =
    ap from_le (slice-splice_before conn.rbuf conn.rbuf_pos bytes 7 2 h)

pub validate_header-read_into :
    (conn : Connection) (bytes : List ℕ)
    → 9 ≤ conn.rbuf_pos
    → validate_header (read_into conn bytes) ≡ validate_header conn
unfolding validate_header header_opcode header_user_id header_payload_len read_into
validate_header-read_into conn bytes h = rw (
  slice-splice_before conn.rbuf conn.rbuf_pos bytes 7 2 h,
  slice-splice_before conn.rbuf conn.rbuf_pos bytes 3 4 (omega arith),
  slice-splice_before conn.rbuf conn.rbuf_pos bytes 0 2 (omega arith),
  get_or-splice_before conn.rbuf conn.rbuf_pos bytes 2 0 (omega arith),
)
