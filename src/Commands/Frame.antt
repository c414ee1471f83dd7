-- ===== src/Commands/Frame.antt =====
-- The requests as a client encodes them, and how the handlers read their fields back.
use lloogg.Prelude.{
  ℕ, ◌+◌, ◌^◌, ◌≤◌, ◌<◌, ◌≡◌, ap, ◌∙◌, List, ◌++◌, arith, length, take, slice, to_le, from_le,
  from_le-to_le, slice-take,
}
use lloogg.Record.{Record, IsTyped, to_bytes, of_bytes, of_bytes-to_bytes}
use lloogg.Constants.{opcode_push, opcode_get, opcode_del}
use lloogg.Connection.{Connection, header_user_id, get_count}
use lloogg.Connection.Header.{encode_header}

pub data Request : Type 0 where
  push : (uid : ℕ) → Record → Request
  get : (uid count : ℕ) → Request
  del : (uid : ℕ) → Request

abbrev pub IsRequest : Request → Type 0
IsRequest (push uid r) = (uid < 2 ^ 32) × IsTyped r
IsRequest (get uid count) = (uid < 2 ^ 32) × (count < 2 ^ 16)
IsRequest (del uid) = uid < 2 ^ 32

-- The frame of a request: the header and the payload.
abbrev pub encode : Request → List ℕ
encode (push uid r) = encode_header opcode_push uid 17 ++ to_bytes r
encode (get uid count) = encode_header opcode_get uid 2 ++ to_le 2 count
encode (del uid) = encode_header opcode_del uid 0

-- The receive buffer begins with the frame.
abbrev pub Holds : Connection → Request → Type 0
Holds conn req = take (length (encode req)) conn.rbuf ≡ encode req

field :
    (conn : Connection) (req : Request) (off n : ℕ)
    → Holds conn req
    → off + n ≤ length (encode req)
    → slice conn.rbuf off n ≡ slice (encode req) off n
field conn req off n held h =
    slice-take (length (encode req)) conn.rbuf off n h ∙ ap (λ bs. slice bs off n) held

abbrev pub request_uid : Request → ℕ
request_uid (push uid r) = uid
request_uid (get uid count) = uid
request_uid (del uid) = uid

pub header_user_id-Holds :
    (conn : Connection) (req : Request)
    → IsRequest req
    → Holds conn req
    → header_user_id conn ≡ request_uid req
unfolding header_user_id to_bytes
header_user_id-Holds conn (push uid r) i held =
    ap from_le (field conn (push uid r) 3 4 held (omega arith)) ∙ from_le-to_le 4 uid i.0
header_user_id-Holds conn (get uid count) i held =
    ap from_le (field conn (get uid count) 3 4 held (omega arith)) ∙ from_le-to_le 4 uid i.0
header_user_id-Holds conn (del uid) i held =
    ap from_le (field conn (del uid) 3 4 held (omega arith)) ∙ from_le-to_le 4 uid i

pub payload-Holds :
    (conn : Connection) (uid : ℕ) (r : Record)
    → IsTyped r
    → Holds conn (push uid r)
    → of_bytes (slice conn.rbuf 9 17) ≡ r
unfolding to_bytes
payload-Holds conn uid r t held =
    ap of_bytes (field conn (push uid r) 9 17 held (omega arith)) ∙ of_bytes-to_bytes r t

pub get_count-Holds :
    (conn : Connection) (uid count : ℕ)
    → count < 2 ^ 16
    → Holds conn (get uid count)
    → get_count conn ≡ count
unfolding get_count
get_count-Holds conn uid count h held =
    ap from_le (field conn (get uid count) 9 2 held (omega arith)) ∙ from_le-to_le 2 count h
