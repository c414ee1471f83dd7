-- ===== src/Bench/Frame.antt =====
-- The frame of the benchmark client and the server that receives it.
use lloogg.Prelude.{ℕ, ◌^◌, ◌<◌, ◌≡◌, refl, ap, ◌∙◌, arith, slice, take, slice-take}
use lloogg.Constants.{opcode_push}
use lloogg.Error.{ok}
use lloogg.Record.{Record, IsTyped, of_bytes, to_bytes}
use lloogg.Connection.{Connection, validate_header}
use lloogg.Connection.Header.{IsBuffer, encode_header, validate_header_iff}
use lloogg.Commands.Frame
use lloogg.Commands.Frame.{Holds, payload-Holds}
use lloogg.Bench.{build_push}

-- The record that the frame carries.
abbrev pub probe : Record
probe = record { event_type = 1; timestamp = 0; url_hash = 0 }

probe-IsTyped : IsTyped probe
probe-IsTyped = omega arith

build_push-Frame : (uid : ℕ) → build_push uid ≡ Frame.encode (Frame.push uid probe)
unfolding build_push to_bytes
build_push-Frame uid = refl

-- A server that has received the frame of the benchmark client for a 32-bit user accepts its header as a
-- PUSH for that user, and reads the record with the event type 1 from it.
pub build_push_lem :
    (uid : ℕ) (conn : Connection)
    → uid < 2 ^ 32
    → IsBuffer 32 conn.rbuf
    → take 26 conn.rbuf ≡ build_push uid
    → (validate_header conn ≡ ok (opcode_push, uid, 17)) × (of_bytes (slice conn.rbuf 9 17) ≡ probe)
unfolding to_bytes
build_push_lem uid conn h b received =
    let held : Holds conn (Frame.push uid probe) = received ∙ build_push-Frame uid in
    let header : slice conn.rbuf 0 9 ≡ encode_header opcode_push uid 17 =
      slice-take 26 conn.rbuf 0 9 (omega arith) ∙ ap (λ bs. slice bs 0 9) held in
    (
      (validate_header_iff conn opcode_push uid 17 b).1 (header, ground arith, h),
      payload-Holds conn uid probe probe-IsTyped held,
    )
