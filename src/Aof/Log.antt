-- ===== src/Aof/Log.antt =====
-- The log of a writer, the bytes of the file and those still in the ring, and what the operations
-- do to it.
use lloogg.Prelude.{
  ℕ, ◌+◌, ◌%◌, ◌^◌, ◌≤◌, ◌<◌, ◌≡◌, refl, some, List, ◌++◌, append_assoc, arith, length,
}
use lloogg.Memory.{Memory}
use lloogg.Constants.{aof_buf_size}
use lloogg.Aof.{AofWriter, Writes, pending, put_bytes, ring_write}
use lloogg.Aof.Circular.{
  circular, circular-append, circular-put_bytes_self, circular-put_bytes_before,
}

-- All that was ever appended, if no write fails.
unfoldable pub log : AofWriter → List ℕ
log w = w.file ++ circular w.buf (w.tail % aof_buf_size) (pending w)

pub record IsValid (w : AofWriter) : Type 0 where
  pub head : w.head < 2 ^ 64
  pub tail : w.tail < 2 ^ 64
  pub room : pending w ≤ aof_buf_size

-- Every `write` takes all its bytes.
abbrev pub IsComplete : Writes → Type 0
IsComplete writes = (i n : ℕ) → writes i n ≡ some n

pub record Appended (w : AofWriter) (bytes : List ℕ) (w' : AofWriter) : Type 0 where
  pub valid : IsValid w'
  pub log_eq : log w' ≡ log w ++ bytes
  pub file : w'.file ≡ w.file
  pub tail : w'.tail ≡ w.tail
  pub grown : pending w' ≡ pending w + length bytes

abbrev written : AofWriter → List ℕ → AofWriter
written w bytes = record w {
  buf = put_bytes w.buf (w.head % aof_buf_size) bytes;
  head = (w.head + length bytes) % 2 ^ 64;
}

ring_write-written :
    (w : AofWriter) (bytes : List ℕ)
    → pending w + length bytes ≤ aof_buf_size
    → ring_write w bytes ≡ some (written w bytes)
unfolding ring_write
ring_write-written w bytes h = ground arith

ring_write-some :
    (w : AofWriter) (bytes : List ℕ) {w' : AofWriter}
    → ring_write w bytes ≡ some w'
    → (pending w + length bytes ≤ aof_buf_size) × (w' ≡ written w bytes)
unfolding ring_write
ring_write-some w bytes h = (ground arith, ground arith)

module _ (w : AofWriter) (bytes : List ℕ) (v : IsValid w)
    (h : pending w + length bytes ≤ aof_buf_size) where
  pending-written : pending (written w bytes) ≡ pending w + length bytes
  unfolding pending
  pending-written = omega (arith, v.head, v.tail, v.room, h)

  head_place : w.head % aof_buf_size ≡ (w.tail % aof_buf_size + pending w) % aof_buf_size
  unfolding pending
  head_place = omega (arith, v.head, v.tail)

  log-written : log (written w bytes) ≡ log w ++ bytes
  unfolding log
  log-written =
      let at : ℕ = w.head % aof_buf_size in
      let off : ℕ = w.tail % aof_buf_size in
      let buf' : Memory = put_bytes w.buf at bytes in
      let kept : circular buf' off (pending w) ≡ circular w.buf off (pending w) =
        circular-put_bytes_before w.buf at bytes (omega arith) off (pending w) (omega arith)
          head_place h in
      rw (
        pending-written,
        circular-append buf' off (pending w) (length bytes) (omega arith),
        kept,
        ← head_place,
        circular-put_bytes_self w.buf at bytes (omega arith) (omega (arith, h)),
        append_assoc,
      )

  written-Appended : Appended w bytes (written w bytes)
  written-Appended = record {
    valid = record { head = omega arith; tail = v.tail; room = omega (arith, pending-written, h) };
    log_eq = log-written;
    file = refl;
    tail = refl;
    grown = pending-written;
  }

-- With room in the ring, the write does not wait: it appends the bytes to the log, also where they
-- go round the end of the buffer, leaves the file and `tail` alone, and as many bytes more are
-- pending. The writer is valid before and after.
pub ring_write_lem :
    (w : AofWriter) (bytes : List ℕ)
    → IsValid w
    → pending w + length bytes ≤ aof_buf_size
    → (w' : AofWriter) × (ring_write w bytes ≡ some w') × Appended w bytes w'
ring_write_lem w bytes v h =
    (written w bytes, ring_write-written w bytes h, written-Appended w bytes v h)

pub ring_write-Appended :
    (w : AofWriter) (bytes : List ℕ) {w' : AofWriter}
    → IsValid w
    → ring_write w bytes ≡ some w'
    → Appended w bytes w'
ring_write-Appended w bytes v e =
    let (h, same) = ring_write-some w bytes e in rw same (written-Appended w bytes v h)
