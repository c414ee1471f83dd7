-- ===== src/EventLoop/Answer.antt =====
-- The responses of src/connection.rs and src/commands.rs keep a connection open.
use lloogg.Prelude.{
  ℕ, Bool, true, false, ◌%◌, ◌+◌, ◌*◌, ◌≤◌, ◌<◌, ◌≡◌, ◌^◌, refl, ap, sym, subst, All, IsByte, ◌∙◌,
  inl, inr, none, some, List, arith, length, min, length-splice, length-set, set, splice, to_le,
  Option-cases, ltb, if◌then◌else◌,
}
use lloogg.Constants.{magic_wire, wbuf_size, status_ok, status_not_found}
use lloogg.Ring.{RingBuffer}
use lloogg.HashMap.{lookup, All-lookup}
use lloogg.Store.{Store, get}
use lloogg.Store.Parts.{IsPlaced}
use lloogg.Store.View.{IsValid}
use lloogg.Connection.{
  Connection, write_response, get_count, header_user_id, write_status_response,
  write_not_found_response,
}
use lloogg.Commands.{records_response, get_command}
use lloogg.EventLoop.Open.{IsOpen}

-- The whole response fits the buffer, and it has bytes to send.
pub wbuf_size-le : (n : ℕ) → 7 + n * 17 ≤ wbuf_size n
wbuf_size-le n = omega arith

-- A response that is ready to be sent, of a connection that was open.
pub record IsAnswer (room : ℕ) (conn c : Connection) : Type 0 where
  pub rbuf : c.rbuf ≡ conn.rbuf
  pub wbuf : length c.wbuf ≡ room
  pub state : c.state ≡ write_response
  pub from_start : c.wbuf_pos ≡ 0
  pub some_byte : 0 < c.wbuf_len
  pub fits : c.wbuf_len ≤ room

pub IsAnswer-IsOpen :
    {room : ℕ} {conn c : Connection}
    → IsOpen room conn
    → IsAnswer room conn c
    → IsOpen room (record c { rbuf_pos = 0 })
IsAnswer-IsOpen i a = record {
  size = ap length a.rbuf ∙ i.size;
  room_eq = a.wbuf;
  bytes = subst (All IsByte) (sym a.rbuf) i.bytes;
  at = rw a.state (omega (arith, a.from_start, a.some_byte), omega (arith, a.fits, a.wbuf));
}

pub write_status_response-IsAnswer :
    {room : ℕ} (conn : Connection) (status : ℕ)
    → length conn.wbuf ≡ room
    → 5 ≤ room
    → IsAnswer room conn (write_status_response conn status)
unfolding write_status_response
write_status_response-IsAnswer conn status size h = record {
  rbuf = refl;
  wbuf =
      length-splice (set (splice conn.wbuf 0 (to_le 2 magic_wire)) 2 status) 3 (to_le 2 0)
      ∙ length-set (splice conn.wbuf 0 (to_le 2 magic_wire)) 2 status
      ∙ length-splice conn.wbuf 0 (to_le 2 magic_wire)
      ∙ size;
  state = refl;
  from_start = refl;
  some_byte = omega arith;
  fits = h;
}

-- The header of a response to GET.
header_size :
    (wbuf : List ℕ) (payload_len actual_count : ℕ)
    → length (
        splice
          (splice (set (splice wbuf 0 (to_le 2 magic_wire)) 2 status_ok) 3 (to_le 2 payload_len))
          5
          (to_le 2 actual_count))
      ≡ length wbuf
header_size wbuf payload_len actual_count =
    length-splice
      (splice (set (splice wbuf 0 (to_le 2 magic_wire)) 2 status_ok) 3 (to_le 2 payload_len)) 5
      (to_le 2 actual_count)
    ∙ length-splice (set (splice wbuf 0 (to_le 2 magic_wire)) 2 status_ok) 3 (to_le 2 payload_len)
    ∙ length-set (splice wbuf 0 (to_le 2 magic_wire)) 2 status_ok
    ∙ length-splice wbuf 0 (to_le 2 magic_wire)

length-if :
    (b : Bool) (header body : List ℕ)
    → length (if b then splice header 7 body else header) ≡ length header
length-if true header body = length-splice header 7 body
length-if false header body = refl

records_response-IsAnswer :
    {n : ℕ} (store : Store) (conn : Connection) (buf : RingBuffer)
    → length conn.wbuf ≡ wbuf_size n
    → buf.count ≤ n
    → IsAnswer (wbuf_size n) conn (records_response store conn buf)
unfolding records_response
records_response-IsAnswer {n} store conn buf size h =
    let count = min buf.count (get_count conn) in
    record {
      rbuf = refl;
      wbuf =
          length-if (ltb 0 count) _ _
          ∙ header_size conn.wbuf ((2 + count * 17) % 2 ^ 16) count
          ∙ size;
      state = refl;
      from_start = refl;
      some_byte = omega arith;
      fits = omega (arith, wbuf_size-le n);
    }

get_command-absent :
    (conn : Connection) (store : Store)
    → lookup (header_user_id conn) store.map_of ≡ none
    → get_command conn store ≡ write_status_response conn status_not_found
unfolding get_command write_not_found_response get
get_command-absent conn store h = ground arith

get_command-found :
    (conn : Connection) (store : Store) {buf : RingBuffer}
    → lookup (header_user_id conn) store.map_of ≡ some buf
    → get_command conn store ≡ records_response store conn buf
unfolding get_command get
get_command-found conn store h = ground arith

-- GET answers within the response buffer whatever count it asks for: the response starts at 0, holds a
-- byte at least, ends inside the buffer of the build's size, which keeps its size, and the request
-- buffer is not touched. The store is valid, of the capacity of the build.
pub get_command-IsAnswer :
    {slots n : ℕ} (conn : Connection) (store : Store)
    → length conn.wbuf ≡ wbuf_size n
    → IsValid slots store
    → store.capacity ≡ n
    → IsAnswer (wbuf_size n) conn (get_command conn store)
get_command-IsAnswer {n = n} conn store size v c =
    elim (Option-cases (lookup (header_user_id conn) store.map_of)) [
      | inl absent ↦ rw (get_command-absent conn store absent) (
          write_status_response-IsAnswer conn status_not_found size (omega (arith, wbuf_size-le n)))
      | inr (buf, found) ↦
          let placed : IsPlaced store.capacity buf =
            All-lookup (IsPlaced store.capacity) (header_user_id conn) store.map_of v.parts.placed
              found in
          rw (get_command-found conn store found)
            (records_response-IsAnswer store conn buf size (omega (arith, placed.ring.count_in, c)))
    ]
