-- ===== src/Recovery/Tail.antt =====
-- The replay of src/recovery.rs when the server has gone on writing behind an entry that a crash tore:
-- `AOFWriter::open` of src/aof.rs appends to the file as it finds it.
use lloogg.Prelude.{
  ℕ, suc, ◌+◌, ◌-◌, ◌^◌, ◌≤◌, ◌<◌, ◌≡◌, inl, refl, sym, ap, ap₂, ◌∙◌, Option, none, some, List, [],
  ◌∷◌, ◌++◌, append_assoc, arith, length, to_le, take, from_le-to_le, All, length-append,
  length-take, length-drop, take-append_over, IsAt, IsAt-next,
}
use lloogg.Record.{Record, to_bytes, of_bytes, length-to_bytes}
use lloogg.Constants.{opcode_push}
use lloogg.Store.{Store, push_record}
use lloogg.Aof.Entry.{Entry, push, del, IsEntry, entry_bytes, entries_bytes}
use lloogg.Recovery.{apply_entry, apply_after, replay_loop, replay_aof}
use lloogg.Recovery.Round.{IsTorn, round, resume, round-torn, replay_loop-round}
use lloogg.Recovery.Replay.{
  apply_all, apply_unless_covered, replay_loop-entry, length-entries_bytes, round-whole,
}

resume-chain :
    (f h : Store → Option (Option Store)) (g : Store → Option Store)
    → ((s : Store) → f s ≡ resume h (g s))
    → (o : Option Store) → resume f o ≡ resume h (elim o [ none ↦ none | some s ↦ g s ])
resume-chain f h g e none = refl
resume-chain f h g e (some s) = e s

-- The loop over whole entries goes on behind them, whatever comes there.
replay_loop-prefix :
    (fuel : ℕ) {bytes : List ℕ} {pos : ℕ} (es : List Entry) (more : List ℕ) (snapshot_ts : ℕ)
    (store : Store)
    → All IsEntry es
    → IsAt bytes pos (entries_bytes es ++ more)
    → replay_loop (length es + fuel) bytes pos snapshot_ts store
      ≡ resume
          (replay_loop fuel bytes (pos + length (entries_bytes es)) snapshot_ts)
          (apply_all snapshot_ts es store)
unfolding apply_all apply_unless_covered
replay_loop-prefix fuel {bytes} {pos} [] more snapshot_ts store i a =
    ap₂ (λ f p. replay_loop f bytes p snapshot_ts store) (omega arith) (omega arith)
replay_loop-prefix fuel {bytes} {pos} (e ∷ es) more snapshot_ts store i a =
    let at : IsAt bytes pos (entry_bytes e ++ (entries_bytes es ++ more)) = rw append_assoc at a in
    let behind : IsAt bytes (pos + length (entry_bytes e)) (entries_bytes es ++ more) =
      IsAt-next (entry_bytes e) (entries_bytes es ++ more) (length (entry_bytes e)) refl at in
    let one : suc (length es) + fuel ≡ suc (length es + fuel) = omega arith in
    let far : pos + length (entry_bytes e) + length (entries_bytes es)
        ≡ pos + length (entries_bytes (e ∷ es)) =
      omega (arith, length-append (entry_bytes e) (entries_bytes es)) in
    ap (λ f. replay_loop f bytes pos snapshot_ts store) one
    ∙ replay_loop-entry (length es + fuel) (entries_bytes es ++ more) snapshot_ts store e i.0 at
    ∙ resume-chain (replay_loop (length es + fuel) bytes (pos + length (entry_bytes e)) snapshot_ts)
        (replay_loop fuel bytes (pos + length (entry_bytes e) + length (entries_bytes es))
          snapshot_ts)
        (apply_all snapshot_ts es)
        (λ s.
          replay_loop-prefix fuel {pos = pos + length (entry_bytes e)} es more snapshot_ts s i.1
            behind)
        (apply_unless_covered snapshot_ts store e)
    ∙ ap (λ p. resume (replay_loop fuel bytes p snapshot_ts) (apply_all snapshot_ts (e ∷ es) store))
        far

-- The bytes of a push of which a crash has left the header and `k` bytes of the record.
abbrev pub torn_push : ℕ → Record → ℕ → ℕ → List ℕ
torn_push uid r ts k = opcode_push ∷ to_le 4 uid ++ to_le 8 ts ++ to_le 2 17 ++ take k (to_bytes r)

torn_push-IsTorn : (uid : ℕ) (r : Record) (ts k : ℕ) → k < 17 → IsTorn (torn_push uid r ts k)
torn_push-IsTorn uid r ts k h = record {
  entry = push uid r ts;
  kept = 15 + k;
  short = omega (arith, length-to_bytes r);
  torn_eq =
      let e : 15 + k
          ≡ suc (
              suc (suc (suc (suc (suc (suc (suc (suc (suc (suc (suc (suc (suc (suc k)))))))))))))) =
        omega arith in
      rw e;
}

-- The record that the replay reads there: the bytes that are left, and the next ones of the file.
abbrev pub spliced : Record → ℕ → List ℕ → Record
spliced r k next = of_bytes (take k (to_bytes r) ++ take (17 - k) next)

apply_after-torn :
    (snapshot_ts : ℕ) (store : Store) (uid ts : ℕ) (payload : List ℕ)
    → snapshot_ts < ts
    → length payload ≡ 17
    → apply_after snapshot_ts store opcode_push uid ts payload
      ≡ push_record store uid (of_bytes payload) ts
unfolding apply_after apply_entry
apply_after-torn snapshot_ts store uid ts payload late full = ground arith

-- A header whose payload is `k` bytes of a record and at least the missing ones behind them is read as
-- a whole push of the spliced record.
replay_loop-torn_push :
    (fuel : ℕ) {bytes : List ℕ} {pos : ℕ} (uid : ℕ) (r : Record) (ts k : ℕ) (next : List ℕ)
    (snapshot_ts : ℕ) (store : Store)
    → uid < 2 ^ 32
    → ts < 2 ^ 64
    → k ≤ 17
    → 17 ≤ k + length next
    → snapshot_ts < ts
    → IsAt bytes pos (torn_push uid r ts k ++ next)
    → replay_loop (suc fuel) bytes pos snapshot_ts store
      ≡ resume
          (replay_loop fuel bytes (pos + 15 + 17) snapshot_ts)
          (push_record store uid (spliced r k next) ts)
replay_loop-torn_push fuel {bytes} {pos} uid r ts k next snapshot_ts store u t small enough late a =
    let payload : List ℕ = take 17 (take k (to_bytes r) ++ next) in
    let size : length (take k (to_bytes r)) ≡ k =
      omega (arith, length-take k (to_bytes r), length-to_bytes r) in
    let all : 17 ≡ k + (17 - k) = omega arith in
    let joined : payload ≡ take k (to_bytes r) ++ take (17 - k) next =
      ap (λ n. take n (take k (to_bytes r) ++ next)) all
      ∙ take-append_over k (17 - k) (take k (to_bytes r)) next (sym size) in
    let full : length payload ≡ 17 = omega (
      arith,
      length-take 17 (take k (to_bytes r) ++ next),
      length-append (take k (to_bytes r)) next,
      size,
    ) in
    replay_loop-round fuel snapshot_ts store a
    ∙ ap₂ (λ v w. round fuel bytes pos snapshot_ts store opcode_push v w 17 payload)
        (from_le-to_le 4 uid u) (from_le-to_le 8 ts t)
    ∙ round-whole fuel bytes pos snapshot_ts store opcode_push uid ts 17 payload
        (omega (arith, a.size, size, length-append (torn_push uid r ts k) next, length-to_bytes r))
    ∙ ap (resume (replay_loop fuel bytes (pos + 15 + 17) snapshot_ts)) (
        apply_after-torn snapshot_ts store uid ts payload late full
        ∙ ap (λ p. push_record store uid (of_bytes p) ts) joined)

resume-stop :
    (f : Store → Option (Option Store))
    → ((s : Store) → f s ≡ some (some s))
    → (o : Option Store) → resume f o ≡ some o
resume-stop f h none = refl
resume-stop f h (some s) = h s

-- Fewer than fifteen bytes end the loop.
replay_loop-few :
    (fuel : ℕ) (bytes : List ℕ) (pos snapshot_ts : ℕ) (store : Store)
    → pos ≤ length bytes
    → length bytes < pos + 15
    → replay_loop (suc fuel) bytes pos snapshot_ts store ≡ some (some store)
replay_loop-few fuel bytes pos snapshot_ts store inside few =
    round-torn fuel snapshot_ts store
      (record { left = refl; size = omega (arith, length-drop pos bytes) })
      (inl (omega (arith, length-drop pos bytes)))

-- An entry that is appended behind a torn one is lost: of a file of whole entries, a push that a crash
-- cut inside its record, and a removal that the next server has appended, the replay makes, behind the
-- whole entries, a push of the cut record with its end filled from the removal's bytes, and nothing of
-- the removal. Two bytes of the record at least are left, the push is later than the snapshot, and the
-- replay of the whole entries does not panic.
pub replay_aof-cut_tail :
    (es : List Entry) (uid : ℕ) (r : Record) (ts k : ℕ) (removed removed_ts snapshot_ts : ℕ)
    (store : Store) {s : Store}
    → All IsEntry es
    → uid < 2 ^ 32
    → ts < 2 ^ 64
    → 2 ≤ k
    → k < 17
    → snapshot_ts < ts
    → apply_all snapshot_ts es store ≡ some s
    → let tail = entry_bytes (del removed removed_ts) in
      IsTorn (torn_push uid r ts k)
      × (replay_aof (entries_bytes es ++ (torn_push uid r ts k ++ tail)) snapshot_ts store
          ≡ some (push_record s uid (spliced r k tail) ts))
unfolding replay_aof
replay_aof-cut_tail es uid r ts k removed removed_ts snapshot_ts store {s} i u t some_left cut late
      whole =
    let tail : List ℕ = entry_bytes (del removed removed_ts) in
    let rest : List ℕ = torn_push uid r ts k ++ tail in
    let bytes : List ℕ = entries_bytes es ++ rest in
    let fuel : ℕ = length bytes - length es - 1 in
    let at : IsAt bytes 0 (entries_bytes es ++ rest) = record { left = refl; size = omega arith } in
    let size : length rest ≡ 15 + k + 15 = omega (
      arith,
      length-append (torn_push uid r ts k) tail,
      length-take k (to_bytes r),
      length-to_bytes r,
    ) in
    let total : length bytes ≡ length (entries_bytes es) + length rest =
      length-append (entries_bytes es) rest in
    let enough : suc (length bytes) ≡ length es + suc (suc fuel) =
      omega (arith, size, total, length-entries_bytes es) in
    (
      torn_push-IsTorn uid r ts k cut,
      ap (λ n. replay_loop n bytes 0 snapshot_ts store) enough
          ∙ replay_loop-prefix (suc (suc fuel)) es rest snapshot_ts store i at
          ∙ ap
              (resume
                (replay_loop (suc (suc fuel)) bytes (0 + length (entries_bytes es)) snapshot_ts))
              whole
          ∙ replay_loop-torn_push (suc fuel) uid r ts k tail snapshot_ts s u t (omega arith)
              (omega arith) late
              (IsAt-next (entries_bytes es) rest (length (entries_bytes es)) refl at)
          ∙ resume-stop
              (replay_loop (suc fuel) bytes (0 + length (entries_bytes es) + 15 + 17) snapshot_ts)
              (λ s'.
                replay_loop-few fuel bytes (0 + length (entries_bytes es) + 15 + 17) snapshot_ts s'
                  (omega (arith, size, total)) (omega (arith, size, total)))
              (push_record s uid (spliced r k tail) ts),
    )
