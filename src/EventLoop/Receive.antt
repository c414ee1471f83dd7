-- ===== src/EventLoop/Receive.antt =====
-- The loop of `handle_read`, for whatever bytes arrive.
use lloogg.Prelude.{
  ℕ, zero, suc, ◌+◌, ◌-◌, ◌≤◌, ◌<◌, ◌≡◌, inl, inr, false, All, IsByte, none, some, List, arith,
  length, leb, ◌==◌, Bool-cases, Option-cases,
}
use lloogg.Connection.{Connection}
use lloogg.EventLoop.{
  Sockets, got, Ended, waits, leaves, closes, fails, needed_of, received, read_loop, IoResult-cases,
}
use lloogg.EventLoop.Open.{IsOpen, needed_of-le}
use lloogg.EventLoop.Advance.{received-IsOpen}

-- A read returns bytes, and no more than it was asked for.
abbrev pub IsBounded : {S : Type 0} → Sockets S → Type 0
IsBounded {S} sockets =
    (net : S) (fd len : ℕ) (bytes : List ℕ)
    → (sockets.read net fd len).0 ≡ got bytes
    → (length bytes ≤ len) × All IsByte bytes

-- What the loop ends with: an open connection, and where it is left one that needs no more bytes.
abbrev pub IsEnded : ℕ → Ended → Type 0
IsEnded room (waits conn) = IsOpen room conn
IsEnded room (leaves conn) = IsOpen room conn × (needed_of conn ≡ none)
IsEnded room closes = Unit
IsEnded room fails = 1 ≤ 0

-- If every read returns bytes, and no more than it was asked for, the loop ends, whatever arrives, on fuel beyond the
-- bytes that a request of 26 still lacks. It never fails, a connection that it keeps is open again,
-- and one that it leaves is open and in a state in which nothing is read.
pub read_loop_lem :
    {S : Type 0} {room : ℕ} (sockets : Sockets S) (fuel : ℕ) (net : S) (fd : ℕ) (conn : Connection)
    → IsBounded sockets
    → IsOpen room conn
    → 26 - conn.rbuf_pos < fuel
    → (e : Ended) × (net' : S) × (read_loop sockets fuel net fd conn ≡ some (e, net'))
      × IsEnded room e
unfolding read_loop
read_loop_lem sockets zero net fd conn b i h = absurd (omega arith)
read_loop_lem sockets (suc fuel) net fd conn b i h = elim (Option-cases (needed_of conn)) [
  | inl left ↦ (leaves conn, net, rw (left, read_loop), (i, left))
  | inr (n, needed) ↦
      let (room, small) = needed_of-le conn i needed in
      let more : leb n conn.rbuf_pos ≡ false = ground arith in
      let asked : ℕ = n - conn.rbuf_pos in
      let net' = (sockets.read net fd asked).1 in
      elim (IoResult-cases (sockets.read net fd asked).0) [
        | inr (inl later) ↦ (waits conn, net', rw (needed, more, later, read_loop), i)
        | inr (inr broken) ↦ (closes, net', rw (needed, more, broken, read_loop), tt)
        | inl (bytes, arrived) ↦ elim (Bool-cases (length bytes == 0)) [
          | inl over ↦ (closes, net', rw (needed, more, arrived, over, read_loop), tt)
          | inr some_bytes ↦ elim (Option-cases (received conn bytes)) [
            | inl bad ↦ (closes, net', rw (needed, more, arrived, some_bytes, bad, read_loop), tt)
            | inr (c, kept) ↦
                let fits : conn.rbuf_pos + length bytes ≤ n =
                  omega (arith, (b net fd asked bytes arrived).0, room) in
                let (open_c, moved) =
                  received-IsOpen conn bytes i needed fits (b net fd asked bytes arrived).1 kept in
                let some_byte : 0 < length bytes = ground (arith, some_bytes) in
                let (e, net'', ran, ended) =
                  read_loop_lem sockets fuel net' fd c b open_c
                    (omega (arith, h, moved, some_byte, room, small)) in
                (e, net'', rw (needed, more, arrived, some_bytes, kept, read_loop) ran, ended)
          ]
        ]
      ]
]
