-- ===== src/Connection.antt =====
-- src/connection.rs: the buffers of one client, the checks on what it sent, and short responses.
pub mod Header
pub mod Response
use lloogg.Prelude.{
  ℕ, ◌+◌, ◌*◌, List, [], ◌∷◌, ◌++◌, ◌==◌, ltb, if◌then◌else◌, Option, none, some, slice, splice,
  set, get_or, to_le, from_le, replicate, ◌||◌, not,
}
use lloogg.Constants.{
  magic_wire, opcode_push, opcode_get, opcode_del, status_ok, status_not_found, rbuf_size,
  wbuf_size,
}
use lloogg.Memory.{Memory, read}
use lloogg.Error.{Result, ok, err, protocol, bad_magic, unknown_opcode, bad_payload_len, bad_count}

pub data State : Type 0 where
  read_header read_payload process write_response : State

pub record Connection : Type 0 where
  pub fd : ℕ
  pub state : State
  pub rbuf : List ℕ
  pub rbuf_pos : ℕ
  pub wbuf : List ℕ
  pub wbuf_len : ℕ
  pub wbuf_pos : ℕ

-- `uninit` is what the memory of the new buffer, of WBUF_SIZE bytes, happens to hold.
unfoldable pub new : ℕ → Memory → ℕ → Connection
unfolding read
new compiled_n uninit fd = record {
  fd = fd;
  state = read_header;
  rbuf = replicate rbuf_size 0;
  rbuf_pos = 0;
  wbuf = read uninit 0 (wbuf_size compiled_n);
  wbuf_len = 0;
  wbuf_pos = 0;
}

unfoldable pub header_opcode : Connection → ℕ
header_opcode c = get_or c.rbuf 2 0

unfoldable pub header_user_id : Connection → ℕ
header_user_id c = from_le (slice c.rbuf 3 4)

unfoldable pub header_payload_len : Connection → ℕ
header_payload_len c = from_le (slice c.rbuf 7 2)

-- The `match` on the opcode.
unfoldable pub expected_payload : ℕ → Option ℕ
expected_payload opcode =
    if opcode == opcode_push
    then some 17
    else if opcode == opcode_get
    then some 2
    else if opcode == opcode_del
    then some 0
    else none

unfoldable pub check_payload : ℕ → ℕ → ℕ → Option ℕ → Result (ℕ × ℕ × ℕ)
check_payload opcode user_id payload_len none = err (protocol (unknown_opcode opcode))
check_payload opcode user_id payload_len (some expected) =
    if payload_len == expected
    then ok (opcode, user_id, payload_len)
    else err (protocol (bad_payload_len opcode expected payload_len))

unfoldable pub validate_header : Connection → Result (ℕ × ℕ × ℕ)
unfolding header_opcode header_user_id header_payload_len expected_payload check_payload
validate_header c =
    let magic = from_le (slice c.rbuf 0 2) in
    if magic == magic_wire
    then check_payload (header_opcode c) (header_user_id c) (header_payload_len c)
        (expected_payload (header_opcode c))
    else err (protocol (bad_magic magic))

-- `requested` of GET, read again by `get_command`.
unfoldable pub get_count : Connection → ℕ
get_count c = from_le (slice c.rbuf 9 2)

unfoldable pub validate_get_count : ℕ → Connection → Result ℕ
unfolding get_count
validate_get_count compiled_n c =
    let count = get_count c in
    if count == 0 || ltb compiled_n count then err (protocol (bad_count count)) else ok count

unfoldable pub write_status_response : Connection → ℕ → Connection
write_status_response c status = record c {
  wbuf = splice (set (splice c.wbuf 0 (to_le 2 magic_wire)) 2 status) 3 (to_le 2 0);
  wbuf_len = 5;
  wbuf_pos = 0;
  state = write_response;
}

unfoldable pub write_ok_response : Connection → Connection
unfolding write_status_response
write_ok_response c = write_status_response c status_ok

unfoldable pub write_not_found_response : Connection → Connection
unfolding write_status_response
write_not_found_response c = write_status_response c status_not_found
