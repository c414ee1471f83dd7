-- ===== src/Connection/Response.antt =====
-- The bytes of the short responses.
use lloogg.Prelude.{ℕ, ◌≤◌, ◌≡◌, refl, List, ◌∷◌, ◌++◌, arith, length, slice, splice, set, to_le}
use lloogg.Constants.{magic_wire}
use lloogg.Connection.{Connection, write_response, write_status_response}

-- The five bytes of a response with no payload.
abbrev pub encode_status : ℕ → List ℕ
encode_status status = to_le 2 magic_wire ++ status ∷ to_le 2 0

-- A status response holds exactly its five bytes, whatever the buffer held, and waits to be sent
-- from its start.
pub write_status_response_lem :
    (c : Connection) (status : ℕ)
    → 5 ≤ length c.wbuf
    → let c' = write_status_response c status in
      (slice c'.wbuf c'.wbuf_pos c'.wbuf_len ≡ encode_status status) × (c'.state ≡ write_response)
unfolding write_status_response
write_status_response_lem c status h = (five c.wbuf h, refl)
  where
    five :
        (bs : List ℕ)
        → 5 ≤ length bs
        → slice (splice (set (splice bs 0 (to_le 2 magic_wire)) 2 status) 3 (to_le 2 0)) 0 5
          ≡ encode_status status
    five (b0 ∷ b1 ∷ b2 ∷ b3 ∷ b4 ∷ rest) k = refl
    five _ k = absurd (omega arith)
