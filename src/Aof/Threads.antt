-- ===== src/Aof/Threads.antt =====
-- The event loop and the flush thread of src/aof.rs as interleaved steps on the shared ring: a
-- flush loads `head`, and by the time it writes and stores `tail` more may have been appended.
use lloogg.Prelude.{
  ℕ, ◌+◌, ◌-◌, ◌%◌, ◌^◌, ◌≤◌, ◌<◌, ◌≡◌, sym, ap, ◌∙◌, Option, none, some, List, ◌++◌, arith, subst,
}
use lloogg.Aof.{AofWriter, Writes, pending, ring_write, flush_to}
use lloogg.Aof.Log.{log, IsValid, IsComplete, Appended, ring_write-Appended}
use lloogg.Aof.Flush.{loaded, Flushed, flush_to_lem}

-- `seen` is the `head` that a flush in progress has loaded, and `history` all that the event loop
-- has appended.
pub record Shared : Type 0 where
  pub writer : AofWriter
  pub seen : Option ℕ
  pub history : List ℕ

pub data Step (writes : Writes) : Shared → Shared → Type 0 where
  append :
      {s : Shared} {w : AofWriter} (bytes : List ℕ)
      → ring_write s.writer bytes ≡ some w
      → Step writes s (record s { writer = w; history = s.history ++ bytes })
  load : {s : Shared} → s.seen ≡ none → Step writes s (record s { seen = some s.writer.head })
  finish :
      {s : Shared} {h : ℕ}
      → s.seen ≡ some h
      → Step writes s (record s { writer = flush_to writes s.writer h; seen = none })

pub data Steps (writes : Writes) (s : Shared) : Shared → Type 0 where
  here : Steps writes s s
  next : {t u : Shared} → Steps writes s t → Step writes t u → Steps writes s u

-- A loaded `head` lies between `tail` and `head`.
abbrev pub IsSeen : AofWriter → Option ℕ → Type 0
IsSeen w none = Unit
IsSeen w (some h) = (h < 2 ^ 64) × (loaded w h ≤ pending w)

pub record IsDurable (s : Shared) : Type 0 where
  pub valid : IsValid s.writer
  pub complete : log s.writer ≡ s.history
  pub seen : IsSeen s.writer s.seen

IsSeen-Appended :
    (w : AofWriter) (bytes : List ℕ) (w' : AofWriter) (seen : Option ℕ)
    → Appended w bytes w'
    → IsSeen w seen
    → IsSeen w' seen
IsSeen-Appended w bytes w' none a i = tt
IsSeen-Appended w bytes w' (some h) a i = (
  i.0,
  subst (λ t. (h + 2 ^ 64 - t) % 2 ^ 64 ≤ pending w') (sym a.tail) (omega (arith, a.grown, i.1)),
)

seen_at :
    (w : AofWriter) (o : Option ℕ) {h : ℕ}
    → o ≡ some h
    → IsSeen w o
    → (h < 2 ^ 64) × (loaded w h ≤ pending w)
seen_at w none e i = absurd (cc)
seen_at w (some k) {h} e i =
    let same : k ≡ h = ground arith in subst (λ t. IsSeen w (some t)) same i

Step-IsDurable :
    {writes : Writes} {s t : Shared}
    → IsComplete writes
    → Step writes s t
    → IsDurable s
    → IsDurable t
unfolding pending
Step-IsDurable c (append {s = s} {w = w} bytes e) d =
    let a : Appended s.writer bytes w = ring_write-Appended s.writer bytes d.valid e in
    record {
      valid = a.valid;
      complete = a.log_eq ∙ ap (λ t. t ++ bytes) d.complete;
      seen = IsSeen-Appended s.writer bytes w s.seen a d.seen;
    }
Step-IsDurable c (load {s = s} idle) d = record {
  valid = d.valid;
  complete = d.complete;
  seen = (d.valid.head, omega arith);
}
Step-IsDurable {writes} c (finish {s = s} {h = h} busy) d =
    let (small, part) = seen_at s.writer s.seen busy d.seen in
    let f : Flushed s.writer h (flush_to writes s.writer h) =
      flush_to_lem writes s.writer h c d.valid small part in
    record { valid = f.valid; complete = f.log_eq ∙ d.complete; seen = tt }

-- If all writes are complete, then from a state in which the bytes of the file followed by those of
-- the ring are all that was appended, in order, every interleaving of the event loop and the flush
-- thread keeps it so: no entry is lost, doubled or torn.
pub Steps-IsDurable :
    {writes : Writes} {s t : Shared}
    → IsComplete writes
    → IsDurable s
    → Steps writes s t
    → IsDurable t
Steps-IsDurable c d here = d
Steps-IsDurable c d (next steps step) = Step-IsDurable c step (Steps-IsDurable c d steps)
