-- ===== src/EventLoop/Advance.antt =====
-- The step of `handle_read` behind a read.
use lloogg.Prelude.{
  ℕ, ◌+◌, ◌≤◌, ◌≡◌, refl, sym, ap, subst, ◌∙◌, inl, inr, Option, none, some, List, arith, length,
  All, IsByte, All-splice, length-splice, leb, ◌==◌, Bool-cases, leb→gt, leb→le, ==_iff,
}
use lloogg.Error.{Result, ok, err}
use lloogg.Connection.{
  Connection, State, read_header, read_payload, process, write_response, validate_header,
  header_payload_len,
}
use lloogg.EventLoop.{needed_in, needed_of, advance_in, read_into, received, header_read}
use lloogg.EventLoop.Open.{
  HasHeader, IsAt, IsOpen, validate_header-payload_len, header_payload_len-read_into,
  validate_header-read_into,
}

-- What a read leaves before the step that looks at it.
abbrev IsRead : State → Connection → Type 0
IsRead read_header conn = conn.rbuf_pos ≤ 9
IsRead read_payload conn =
    (9 ≤ conn.rbuf_pos) × (conn.rbuf_pos ≤ 9 + header_payload_len conn) × HasHeader conn
IsRead process conn = Unit
IsRead write_response conn = Unit

-- The connection after the step, if it is kept.
abbrev IsAdvanced : Connection → Option Connection → Type 0
IsAdvanced conn none = Unit
IsAdvanced conn (some c) =
    IsAt c.state c × (c.rbuf ≡ conn.rbuf) × (c.rbuf_pos ≡ conn.rbuf_pos) × (c.wbuf ≡ conn.wbuf)

header_payload_len-state :
    (conn : Connection) (s : State)
    → header_payload_len (record conn { state = s }) ≡ header_payload_len conn
unfolding header_payload_len
header_payload_len-state conn s = refl

HasHeader-state :
    (conn : Connection) (s : State) → HasHeader conn → HasHeader (record conn { state = s })
unfolding header_payload_len validate_header
HasHeader-state conn s h = h

header_read-IsAdvanced :
    (conn : Connection) (r : Result (ℕ × ℕ × ℕ))
    → validate_header conn ≡ r
    → conn.rbuf_pos ≡ 9
    → IsAdvanced conn (header_read conn r)
unfolding header_read
header_read-IsAdvanced conn (err e) h p = tt
header_read-IsAdvanced conn (ok (o, u, l)) h p =
    let (same, short) = validate_header-payload_len conn h in
    let header : HasHeader conn = (o, u, rw same h) in
    elim (Bool-cases (l == 0)) [
      | inl empty ↦ rw empty (
        (
          omega (arith, p, same, (==_iff l 0).0 empty, header_payload_len-state conn process),
          HasHeader-state conn process header,
        ),
        refl,
        refl,
        refl,
      )
      | inr more ↦ rw more (
        (
          omega (arith, p),
          ground (arith, p, same, header_payload_len-state conn read_payload),
          HasHeader-state conn read_payload header,
        ),
        refl,
        refl,
        refl,
      )
    ]

advance_in-IsAdvanced :
    (s : State) (conn : Connection)
    → conn.state ≡ s
    → IsRead s conn
    → (before : Connection) (n : ℕ) → needed_in s before ≡ some n
    → IsAdvanced conn (advance_in s conn)
unfolding needed_in advance_in
advance_in-IsAdvanced read_header conn e i b n h = elim (Bool-cases (leb 9 conn.rbuf_pos)) [
  | inl whole ↦ rw whole (
      header_read-IsAdvanced conn (validate_header conn) refl
        (omega (arith, i, leb→le 9 conn.rbuf_pos whole)))
  | inr part ↦
      rw part (subst (λ t. IsAt t conn) (sym e) (leb→gt 9 conn.rbuf_pos part), refl, refl, refl)
]
advance_in-IsAdvanced read_payload conn e i b n h =
    let (past, before, header) = i in
    elim (Bool-cases (leb (9 + header_payload_len conn) conn.rbuf_pos)) [
      | inl whole ↦ rw whole (
        (
          omega (
            arith,
            before,
            leb→le (9 + header_payload_len conn) conn.rbuf_pos whole,
            header_payload_len-state conn process,
          ),
          HasHeader-state conn process header,
        ),
        refl,
        refl,
        refl,
      )
      | inr part ↦ rw part (
        subst (λ t. IsAt t conn) (sym e)
            (past, leb→gt (9 + header_payload_len conn) conn.rbuf_pos part, header),
        refl,
        refl,
        refl,
      )
    ]
advance_in-IsAdvanced process conn e i b n h = absurd (cc)
advance_in-IsAdvanced write_response conn e i b n h = absurd (cc)

read_into-IsRead :
    (s : State) (conn : Connection) (bytes : List ℕ) {n : ℕ}
    → IsAt s conn
    → needed_in s conn ≡ some n
    → conn.rbuf_pos + length bytes ≤ n
    → IsRead s (read_into conn bytes)
unfolding needed_in read_into
read_into-IsRead read_header conn bytes i e h = ground arith
read_into-IsRead read_payload conn bytes i e h =
    let (past, before, header) = i in
    let (o, u, checked) = header in
    let len : header_payload_len (read_into conn bytes) ≡ header_payload_len conn =
      header_payload_len-read_into conn bytes past in
    (
      omega (arith, past),
      ground (arith, len),
      (o, u, validate_header-read_into conn bytes past ∙ rw len checked),
    )
read_into-IsRead process conn bytes i e h = tt
read_into-IsRead write_response conn bytes i e h = tt

state-read_into : (conn : Connection) (bytes : List ℕ) → (read_into conn bytes).state ≡ conn.state
unfolding read_into
state-read_into conn bytes = refl

length-rbuf :
    (conn : Connection) (bytes : List ℕ) → length (read_into conn bytes).rbuf ≡ length conn.rbuf
unfolding read_into
length-rbuf conn bytes = length-splice conn.rbuf conn.rbuf_pos bytes

rbuf_pos-read_into :
    (conn : Connection) (bytes : List ℕ)
    → (read_into conn bytes).rbuf_pos ≡ conn.rbuf_pos + length bytes
unfolding read_into
rbuf_pos-read_into conn bytes = refl

wbuf-read_into :
    (conn : Connection) (bytes : List ℕ) → length (read_into conn bytes).wbuf ≡ length conn.wbuf
unfolding read_into
wbuf-read_into conn bytes = refl

rbuf-read_into :
    (conn : Connection) (bytes : List ℕ)
    → All IsByte conn.rbuf
    → All IsByte bytes
    → All IsByte (read_into conn bytes).rbuf
unfolding read_into
rbuf-read_into conn bytes h k = All-splice IsByte conn.rbuf conn.rbuf_pos bytes h k

-- A read that fits keeps the connection open, unless its header is refused.
pub received-IsOpen :
    {room : ℕ} (conn : Connection) (bytes : List ℕ) {n : ℕ} {c : Connection}
    → IsOpen room conn
    → needed_of conn ≡ some n
    → conn.rbuf_pos + length bytes ≤ n
    → All IsByte bytes
    → received conn bytes ≡ some c
    → IsOpen room c × (c.rbuf_pos ≡ conn.rbuf_pos + length bytes)
unfolding needed_of received
received-IsOpen conn bytes {n} {c} i e h k r =
    let a : IsAdvanced (read_into conn bytes) (some c) =
      subst (IsAdvanced (read_into conn bytes)) r (
        advance_in-IsAdvanced conn.state (read_into conn bytes) (state-read_into conn bytes)
          (read_into-IsRead conn.state conn bytes i.at e h) conn n e) in
    let (at, rbuf_eq, pos_eq, wbuf_eq) = a in
    (
      record {
        size = ap length rbuf_eq ∙ length-rbuf conn bytes ∙ i.size;
        room_eq = ap length wbuf_eq ∙ wbuf-read_into conn bytes ∙ i.room_eq;
        bytes = subst (All IsByte) (sym rbuf_eq) (rbuf-read_into conn bytes i.bytes k);
        at = at;
      },
      pos_eq ∙ rbuf_pos-read_into conn bytes,
    )
