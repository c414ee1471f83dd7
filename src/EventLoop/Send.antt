-- ===== src/EventLoop/Send.antt =====
-- The loop of `handle_write`, however `write` cuts the response.
use lloogg.Prelude.{
  ℕ, zero, suc, ◌+◌, ◌-◌, ◌≤◌, ◌<◌, ◌≡◌, refl, ap, subst, ◌∙◌, inl, inr, true, false, some, List,
  ◌++◌, arith, length, slice, take, slice-split, length-slice, take_all, append_assoc, ltb, ◌==◌,
  Bool-cases, ==_iff, ◌||◌,
}
use lloogg.Connection.{Connection, read_header, write_response}
use lloogg.EventLoop.{
  Sockets, got, again, Ended, waits, leaves, closes, fails, IoResult-cases, is_write_response, sent,
  write_loop,
}

-- The bytes of the response that are still to be sent.
abbrev pub left_of : Connection → List ℕ
left_of conn = slice conn.wbuf conn.wbuf_pos (conn.wbuf_len - conn.wbuf_pos)

-- What `write` promises: it takes a number of bytes, at least one if there are any, and passes on
-- as many from the front. `delivered` is what the peer of `fd` has been sent so far.
pub record IsStream {S : Type 0} (sockets : Sockets S) (fd : ℕ) (delivered : S → List ℕ)
    : Type 0 where
  pub taken :
      (net : S) (bytes : List ℕ) (n : ℕ)
      → (sockets.write net fd bytes).0 ≡ got n
      → 0 < length bytes
      → (0 < n)
        × (n ≤ length bytes)
        × (delivered (sockets.write net fd bytes).1 ≡ delivered net ++ take n bytes)
  pub refused :
      (net : S) (bytes : List ℕ)
      → (sockets.write net fd bytes).0 ≡ again
      → delivered (sockets.write net fd bytes).1 ≡ delivered net

-- A response with bytes left, inside the buffer.
pub record IsSending (conn : Connection) : Type 0 where
  pub state : conn.state ≡ write_response
  pub more : conn.wbuf_pos < conn.wbuf_len
  pub fits : conn.wbuf_len ≤ length conn.wbuf

-- How the loop ends: with a part sent and the rest kept, or with all sent and the connection ready for
-- the next request.
abbrev pub IsSent : {S : Type 0} → (S → List ℕ) → (all rbuf wbuf : List ℕ) → Ended → S → Type 0
IsSent delivered all rbuf wbuf (waits c) net =
    IsSending c × (delivered net ++ left_of c ≡ all) × (c.rbuf ≡ rbuf) × (c.wbuf ≡ wbuf)
IsSent delivered all rbuf wbuf (leaves c) net =
    (delivered net ≡ all)
    × (c.state ≡ read_header)
    × (c.rbuf_pos ≡ 0)
    × (c.rbuf ≡ rbuf)
    × (c.wbuf ≡ wbuf)
IsSent delivered all rbuf wbuf closes net = Unit
IsSent delivered all rbuf wbuf fails net = 1 ≤ 0

-- A write of `n` bytes of what is left.
left_of-moved :
    (conn : Connection) (n : ℕ)
    → n ≤ conn.wbuf_len - conn.wbuf_pos
    → take n (left_of conn) ++ left_of (record conn { wbuf_pos = conn.wbuf_pos + n }) ≡ left_of conn
left_of-moved conn n h =
    let rest : conn.wbuf_len - (conn.wbuf_pos + n) ≡ conn.wbuf_len - conn.wbuf_pos - n =
      omega arith in
    let whole : n + (conn.wbuf_len - conn.wbuf_pos - n) ≡ conn.wbuf_len - conn.wbuf_pos =
      omega (arith, h) in
    ap (λ k. take n (left_of conn) ++ slice conn.wbuf (conn.wbuf_pos + n) k) rest
    ∙ subst
        (λ k.
          take n (slice conn.wbuf conn.wbuf_pos k)
            ++ slice conn.wbuf (conn.wbuf_pos + n) (conn.wbuf_len - conn.wbuf_pos - n)
          ≡ slice conn.wbuf conn.wbuf_pos k)
        whole (slice-split conn.wbuf conn.wbuf_pos n (conn.wbuf_len - conn.wbuf_pos - n))

pub write_loop_lem :
    {S : Type 0} (sockets : Sockets S) (fuel : ℕ) (net : S) (fd : ℕ) (delivered : S → List ℕ)
    (conn : Connection) {all : List ℕ}
    → IsStream sockets fd delivered
    → IsSending conn
    → delivered net ++ left_of conn ≡ all
    → conn.wbuf_len - conn.wbuf_pos ≤ fuel
    → (e : Ended) × (net' : S) × (write_loop sockets fuel net fd conn ≡ some (e, net'))
      × IsSent delivered all conn.rbuf conn.wbuf e net'
unfolding write_loop sent
write_loop_lem sockets zero net fd delivered conn d i s h = absurd (omega (arith, i.more))
write_loop_lem sockets (suc fuel) net fd delivered conn {all} d i s h =
    let sending : is_write_response conn.state ≡ true = ap is_write_response i.state in
    let nonempty : (conn.wbuf_len == conn.wbuf_pos) ≡ false = ground (arith, i.more) in
    let inside : (ltb conn.wbuf_len conn.wbuf_pos || ltb (length conn.wbuf) conn.wbuf_len) ≡ false =
      ground (arith, i.more, i.fits) in
    let out = sockets.write net fd (left_of conn) in
    let size : length (left_of conn) ≡ conn.wbuf_len - conn.wbuf_pos =
      length-slice conn.wbuf conn.wbuf_pos (conn.wbuf_len - conn.wbuf_pos)
        (omega (arith, i.more, i.fits)) in
    elim (IoResult-cases out.0) [
      | inr (inl later) ↦ (
        waits conn,
        out.1,
        rw (sending, nonempty, inside, later, write_loop),
        (i, ap (λ t. t ++ left_of conn) (d.refused net (left_of conn) later) ∙ s, refl, refl),
      )
      | inr (inr broken) ↦ (closes, out.1, rw (sending, nonempty, inside, broken, write_loop), tt)
      | inl (n, took) ↦
          let (some_byte, most, passed) =
            d.taken net (left_of conn) n took (omega (arith, size, i.more)) in
          elim (Bool-cases (conn.wbuf_pos + n == conn.wbuf_len)) [
            | inl whole ↦
                let everything : length (left_of conn) ≤ n =
                  omega (arith, size, (==_iff (conn.wbuf_pos + n) conn.wbuf_len).0 whole) in
                (
                  leaves (sent conn),
                  out.1,
                  rw (sending, nonempty, inside, took, whole, write_loop),
                  (
                    passed
                        ∙ ap (λ t. delivered net ++ t) (take_all n (left_of conn) everything)
                        ∙ s,
                    refl,
                    refl,
                    refl,
                    refl,
                  ),
                )
            | inr part ↦
                let next : Connection = record conn { wbuf_pos = conn.wbuf_pos + n } in
                let sending_next : IsSending next = record {
                  state = i.state;
                  more = ground (arith, part, most, size, i.more);
                  fits = i.fits;
                } in
                let kept : delivered out.1 ++ left_of next ≡ all =
                  ap (λ t. t ++ left_of next) passed
                  ∙ append_assoc (delivered net) (take n (left_of conn)) (left_of next)
                  ∙ ap (λ t. delivered net ++ t) (left_of-moved conn n (omega (arith, most, size)))
                  ∙ s in
                let (e, net', ran, ended) =
                  write_loop_lem sockets fuel out.1 fd delivered next d sending_next kept
                    (omega (arith, h, some_byte, i.more)) in
                (e, net', rw (sending, nonempty, inside, took, part, write_loop) ran, ended)
          ]
    ]
