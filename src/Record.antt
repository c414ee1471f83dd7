-- ===== src/Record.antt =====
-- src/record.rs: the packed event record and its 17 bytes in memory, in files and on the wire.
use lloogg.Prelude.{
  ℕ, ◌^◌, ◌<◌, ◌≡◌, refl, List, ◌++◌, arith, length, slice, All, to_le, from_le, from_le-to_le,
  from_le-slice-lt, IsByte,
}

pub record Record : Type 0 where
  pub event_type : ℕ
  pub timestamp : ℕ
  pub url_hash : ℕ

-- What the field types `u8`, `u64`, `u64` hold.
pub record IsTyped (r : Record) : Type 0 where
  pub event_type : r.event_type < 2 ^ 8
  pub timestamp : r.timestamp < 2 ^ 64
  pub url_hash : r.url_hash < 2 ^ 64

abbrev pub record_size : ℕ
record_size = 17

-- `transmute::<Record, [u8; 17]>` on a little-endian target.
unfoldable pub to_bytes : Record → List ℕ
to_bytes r = to_le 1 r.event_type ++ to_le 8 r.timestamp ++ to_le 8 r.url_hash

-- `transmute::<[u8; 17], Record>` on a little-endian target.
unfoldable pub of_bytes : List ℕ → Record
of_bytes bs = record {
  event_type = from_le (slice bs 0 1);
  timestamp = from_le (slice bs 1 8);
  url_hash = from_le (slice bs 9 8);
}

pub length-to_bytes : (r : Record) → length (to_bytes r) ≡ 17
unfolding to_bytes
length-to_bytes r = refl

pub to_bytes-IsByte : (r : Record) → All IsByte (to_bytes r)
unfolding to_bytes
to_bytes-IsByte r = omega arith

-- A record that fits its field types survives the transmutation to bytes and back.
pub of_bytes-to_bytes : (r : Record) → IsTyped r → of_bytes (to_bytes r) ≡ r
unfolding of_bytes to_bytes
of_bytes-to_bytes r t =
    ground
      (arith, from_le-to_le 1 r.event_type, from_le-to_le 8 r.timestamp, from_le-to_le 8 r.url_hash)

-- Whatever 17 bytes make a record that fits its field types.
pub of_bytes-IsTyped : (bs : List ℕ) → All IsByte bs → length bs ≡ 17 → IsTyped (of_bytes bs)
unfolding of_bytes
of_bytes-IsTyped bs h size = record {
  event_type = from_le-slice-lt bs 0 1 h (omega (arith, size));
  timestamp = from_le-slice-lt bs 1 8 h (omega (arith, size));
  url_hash = from_le-slice-lt bs 9 8 h (omega (arith, size));
}
