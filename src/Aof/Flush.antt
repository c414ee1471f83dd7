-- ===== src/Aof/Flush.antt =====
-- `flush_once` of src/aof.rs and the log of the writer.
use lloogg.Prelude.{
  ℕ, ◌+◌, ◌-◌, ◌%◌, ◌^◌, ◌≤◌, ◌<◌, ◌≡◌, refl, sym, ap, ◌∙◌, inl, inr, none, some, List, ◌++◌,
  append-nil, append_assoc, arith, leb, leb→le, leb→gt, ◌==◌, length, take_all, Bool-cases, ==_iff,
}
use lloogg.Memory.{Memory, read}
use lloogg.Constants.{aof_buf_size}
use lloogg.Aof.{
  AofWriter, Writes, pending, checked_write, write_pending, flush_to, flush_once, ring_write,
}
use lloogg.Aof.Circular.{
  circular, circular-zero, circular-append, circular-straight, circular-wrapped,
}
use lloogg.Aof.Log.{log, IsValid, IsComplete, ring_write-Appended}

checked_write_complete :
    (writes : Writes) (i : ℕ) (file bytes : List ℕ)
    → IsComplete writes
    → checked_write writes i file bytes ≡ file ++ bytes
unfolding checked_write
checked_write_complete writes i file bytes c =
    rw (c i (length bytes), checked_write)
      (ap (λ t. file ++ t) (take_all (length bytes) bytes (omega arith)))

-- Both forms of the write append the pending bytes.
write_pending_complete :
    (writes : Writes) (file : List ℕ) (buf : Memory) (off n : ℕ)
    → IsComplete writes
    → off < aof_buf_size
    → n ≤ aof_buf_size
    → write_pending writes file buf off n ≡ file ++ circular buf off n
unfolding write_pending
write_pending_complete writes file buf off n c h k =
    elim (Bool-cases (leb (off + n) aof_buf_size)) [
      | inl fits ↦
          rw (fits, checked_write_complete writes 0 file (read buf off n) c)
            (ap (λ t. file ++ t) (sym (circular-straight buf off n (leb→le _ _ fits))))
      | inr wraps ↦
          let first : ℕ = aof_buf_size - off in
          rw
            (
              wraps,
              checked_write_complete writes 0 file (read buf off first) c,
              checked_write_complete writes 1 (file ++ read buf off first) (read buf 0 (n - first))
                  c,
              append_assoc,
            )
            (ap (λ t. file ++ t) (sym (circular-wrapped buf off n h k (leb→gt _ _ wraps))))
    ]

-- The bytes between `tail` and a value of `head` loaded before.
abbrev pub loaded : AofWriter → ℕ → ℕ
loaded w h = (h + 2 ^ 64 - w.tail) % 2 ^ 64

pub record Flushed (w : AofWriter) (h : ℕ) (w' : AofWriter) : Type 0 where
  pub valid : IsValid w'
  pub log_eq : log w' ≡ log w
  pub file : w'.file ≡ w.file ++ circular w.buf (w.tail % aof_buf_size) (loaded w h)
  pub tail : w'.tail ≡ h
  pub left : pending w' ≡ pending w - loaded w h

abbrev flushed : Writes → AofWriter → ℕ → AofWriter
flushed writes w h = record w {
  file = write_pending writes w.file w.buf (w.tail % aof_buf_size) (loaded w h);
  tail = h;
}

module _ (writes : Writes) (w : AofWriter) (h : ℕ) (c : IsComplete writes) (v : IsValid w)
    (small : h < 2 ^ 64) (part : loaded w h ≤ pending w) where
  pending-flushed : pending (flushed writes w h) ≡ pending w - loaded w h
  unfolding pending
  pending-flushed = omega (arith, v.head, v.tail, small, part)

  file-flushed :
      (flushed writes w h).file ≡ w.file ++ circular w.buf (w.tail % aof_buf_size) (loaded w h)
  file-flushed =
      write_pending_complete writes w.file w.buf (w.tail % aof_buf_size) (loaded w h) c
        (omega arith) (omega (arith, part, v.room))

  log-flushed : log (flushed writes w h) ≡ log w
  unfolding log pending
  log-flushed =
      let off : ℕ = w.tail % aof_buf_size in
      let split : pending w ≡ loaded w h + (pending w - loaded w h) = omega (arith, part) in
      let place : h % aof_buf_size ≡ (off + loaded w h) % aof_buf_size =
        omega (arith, v.tail, small) in
      rw (file-flushed, pending-flushed, place, append_assoc)
        (ap (λ t. w.file ++ t)
          (sym (
            ap (circular w.buf off) split
            ∙ circular-append w.buf off (loaded w h) (pending w - loaded w h) (omega arith))))

  flushed-Flushed : Flushed w h (flushed writes w h)
  flushed-Flushed = record {
    valid = record { head = v.head; tail = small; room = omega (arith, pending-flushed, v.room) };
    log_eq = log-flushed;
    file = file-flushed;
    tail = refl;
    left = pending-flushed;
  }

  nothing_loaded : loaded w h ≡ 0 → Flushed w h w
  nothing_loaded e = record {
    valid = v;
    log_eq = refl;
    file = sym (rw (e, circular-zero) (append-nil w.file));
    tail = omega (arith, v.tail, small, e);
    left = omega (arith, e);
  }

  -- A flush up to a `head` that was loaded before, whatever was appended since, writes exactly the
  -- bytes up to it, in order, and changes the log not at all, if the writes are complete.
  pub flush_to_lem : Flushed w h (flush_to writes w h)
  unfolding flush_to
  flush_to_lem = elim (Bool-cases (loaded w h == 0)) [
    | inl nothing ↦ rw nothing (nothing_loaded ((==_iff _ _).0 nothing))
    | inr something ↦ rw something flushed-Flushed
  ]

-- After a flush with nothing in between, the file is the whole log.
pub flush_once_lem :
    (writes : Writes) (w : AofWriter)
    → IsComplete writes
    → IsValid w
    → ((flush_once writes w).file ≡ log w) × (pending (flush_once writes w) ≡ 0)
unfolding flush_once log pending
flush_once_lem writes w c v =
    let f : Flushed w w.head (flush_to writes w w.head) =
      flush_to_lem writes w w.head c v v.head (omega arith) in
    (f.file, omega (arith, f.left))

pub flush_once-IsValid :
    (writes : Writes) (w : AofWriter)
    → IsComplete writes
    → IsValid w
    → IsValid (flush_once writes w)
unfolding flush_once pending
flush_once-IsValid writes w c v = (flush_to_lem writes w w.head c v v.head (omega arith)).valid

pub log-flush_once :
    (writes : Writes) (w : AofWriter)
    → IsComplete writes
    → IsValid w
    → log (flush_once writes w) ≡ log w
unfolding flush_once pending
log-flush_once writes w c v = (flush_to_lem writes w w.head c v v.head (omega arith)).log_eq

checked_write-fails :
    (writes : Writes) (i : ℕ) (file bytes : List ℕ)
    → ((i n : ℕ) → writes i n ≡ none)
    → checked_write writes i file bytes ≡ file
unfolding checked_write
checked_write-fails writes i file bytes fails = rw (fails i (length bytes), checked_write)

write_pending-fails :
    (writes : Writes) (file : List ℕ) (buf : Memory) (off n : ℕ)
    → ((i n : ℕ) → writes i n ≡ none)
    → write_pending writes file buf off n ≡ file
unfolding write_pending
write_pending-fails writes file buf off n fails =
    let first : ℕ = aof_buf_size - off in
    ground (
      arith,
      checked_write-fails writes 0 file (read buf off n) fails,
      checked_write-fails writes 0 file (read buf off first) fails,
      checked_write-fails writes 1 file (read buf 0 (n - first)) fails,
    )

module _ (failing : Writes) (w : AofWriter) (fails : (i n : ℕ) → failing i n ≡ none)
    (v : IsValid w) where
  flush_once-fails :
      ((flush_once failing w).file ≡ w.file)
      × ((flush_once failing w).head ≡ w.head)
      × ((flush_once failing w).tail ≡ w.head)
  unfolding flush_once flush_to pending
  flush_once-fails = ground (
    arith,
    v.head,
    v.tail,
    write_pending-fails failing w.file w.buf (w.tail % aof_buf_size) (pending w) fails,
  )

  flush_once-fails-IsValid : IsValid (flush_once failing w)
  unfolding pending
  flush_once-fails-IsValid =
      let (file, head, tail) = flush_once-fails in
      record {
        head = omega (arith, head, v.head);
        tail = omega (arith, tail, v.head);
        room = omega (arith, head, tail);
      }

  log_fails : log (flush_once failing w) ≡ w.file
  unfolding log pending
  log_fails =
      let (file, head, tail) = flush_once-fails in
      let none_left : ((flush_once failing w).head + 2 ^ 64 - (flush_once failing w).tail) % 2 ^ 64
          ≡ 0 =
        omega (arith, head, tail, v.head) in
      rw (none_left, file)
        (ap (λ t. w.file ++ t)
            (circular-zero (flush_once failing w).buf ((flush_once failing w).tail % aof_buf_size))
          ∙ append-nil w.file)

  -- If every `write` fails, a flush drops what is pending: `head` stays, `tail` moves up to it, and what
  -- the next flush whose writes are complete appends to the file is exactly the bytes that were appended
  -- to the ring in between; those that were pending at the failed flush never come. The counters of the
  -- writer are in step, and the ring has room for the bytes in between.
  pub flush_once_drops :
      (whole : Writes) (bytes : List ℕ) {w' : AofWriter}
      → IsComplete whole
      → ring_write (flush_once failing w) bytes ≡ some w'
      → ((flush_once failing w).head ≡ w.head)
        × ((flush_once failing w).tail ≡ w.head)
        × ((flush_once whole w').file ≡ w.file ++ bytes)
  flush_once_drops whole bytes {w'} c e =
      let (file, head, tail) = flush_once-fails in
      let a = ring_write-Appended (flush_once failing w) bytes flush_once-fails-IsValid e in
      (
        head,
        tail,
        (flush_once_lem whole w' c a.valid).0 ∙ a.log_eq ∙ ap (λ t. t ++ bytes) log_fails,
      )
