-- ===== src/Recovery/Replay.antt =====
-- The replay of a file of whole entries, and perhaps a torn one at its end.
use lloogg.Prelude.{
  ℕ, zero, suc, ◌+◌, ◌≤◌, ◌<◌, ◌≡◌, refl, ap₂, ◌∙◌, Option, none, some, List, [], ◌∷◌, ◌++◌,
  append_assoc, arith, leb, if◌then◌else◌, length, from_le-to_le, All, length-append, le→ltb_false,
  IsAt, IsAt-next,
}
use lloogg.Record.{Record, IsTyped, to_bytes, of_bytes-to_bytes, length-to_bytes}
use lloogg.Constants.{opcode_push, opcode_del}
use lloogg.Store.{Store, push_record, erase}
use lloogg.Aof.Entry.{Entry, push, del, IsEntry, entry_ts, entry_bytes, entries_bytes}
use lloogg.Recovery.{apply_entry, apply_after, replay_loop, replay_aof}
use lloogg.Recovery.Round.{IsTorn, round, resume, replay_loop-round, replay_loop-torn}

-- What one entry does.
abbrev pub apply : Store → Entry → Option Store
apply s (push uid r ts) = push_record s uid r ts
apply s (del uid ts) = some (erase s uid)

-- What the entries do that the snapshot does not cover.
unfoldable pub apply_all : ℕ → List Entry → Store → Option Store
apply_all snapshot_ts [] s = some s
apply_all snapshot_ts (e ∷ es) s =
    elim (if leb (entry_ts e) snapshot_ts then some s else apply s e) [
      | none ↦ none
      | some s' ↦ apply_all snapshot_ts es s'
    ]

unfoldable pub apply_unless_covered : ℕ → Store → Entry → Option Store
apply_unless_covered snapshot_ts store e =
    if leb (entry_ts e) snapshot_ts then some store else apply store e

apply_after-push :
    (snapshot_ts : ℕ) (store : Store) (uid : ℕ) (r : Record) (ts : ℕ)
    → IsTyped r
    → apply_after snapshot_ts store opcode_push uid ts (to_bytes r)
      ≡ apply_unless_covered snapshot_ts store (push uid r ts)
unfolding apply_after apply_entry apply_unless_covered
apply_after-push snapshot_ts store uid r ts t = rw (length-to_bytes r, of_bytes-to_bytes r t)

apply_after-del :
    (snapshot_ts : ℕ) (store : Store) (uid ts : ℕ)
    → apply_after snapshot_ts store opcode_del uid ts []
      ≡ apply_unless_covered snapshot_ts store (del uid ts)
unfolding apply_after apply_entry apply_unless_covered
apply_after-del snapshot_ts store uid ts = refl

pub round-whole :
    (fuel : ℕ) (bytes : List ℕ) (pos snapshot_ts : ℕ) (store : Store) (opcode uid ts n : ℕ)
    (payload : List ℕ)
    → pos + 15 + n ≤ length bytes
    → round fuel bytes pos snapshot_ts store opcode uid ts n payload
      ≡ resume
          (replay_loop fuel bytes (pos + 15 + n) snapshot_ts)
          (apply_after snapshot_ts store opcode uid ts payload)
unfolding round
round-whole fuel bytes pos snapshot_ts store opcode uid ts n payload h = rw (
  le→ltb_false (length bytes) (pos + 15) (omega arith),
  le→ltb_false (length bytes) (pos + 15 + n) h,
)

-- A whole entry at `pos` is applied unless the snapshot covers it, and the loop goes on behind it.
pub replay_loop-entry :
    (fuel : ℕ) {bytes : List ℕ} {pos : ℕ} (more : List ℕ) (snapshot_ts : ℕ) (store : Store)
    (e : Entry)
    → IsEntry e
    → IsAt bytes pos (entry_bytes e ++ more)
    → replay_loop (suc fuel) bytes pos snapshot_ts store
      ≡ resume
          (replay_loop fuel bytes (pos + length (entry_bytes e)) snapshot_ts)
          (apply_unless_covered snapshot_ts store e)
unfolding to_bytes
replay_loop-entry fuel {bytes} {pos} more snapshot_ts store (push uid r ts) i a =
    let size : pos + 15 + 17 ≤ length bytes =
      omega (arith, a.size, length-append (entry_bytes (push uid r ts)) more) in
    let next : pos + 15 + 17 ≡ pos + length (entry_bytes (push uid r ts)) = omega arith in
    replay_loop-round fuel snapshot_ts store a
    ∙ ap₂ (λ u t. round fuel bytes pos snapshot_ts store opcode_push u t 17 (to_bytes r))
        (from_le-to_le 4 uid i.0) (from_le-to_le 8 ts i.1)
    ∙ round-whole fuel bytes pos snapshot_ts store opcode_push uid ts 17 (to_bytes r) size
    ∙ ap₂ (λ p o. resume (replay_loop fuel bytes p snapshot_ts) o) next
        (apply_after-push snapshot_ts store uid r ts i.2)
replay_loop-entry fuel {bytes} {pos} more snapshot_ts store (del uid ts) i a =
    let size : pos + 15 + 0 ≤ length bytes = omega (arith, a.size) in
    let next : pos + 15 + 0 ≡ pos + 15 = omega arith in
    replay_loop-round fuel snapshot_ts store a
    ∙ ap₂ (λ u t. round fuel bytes pos snapshot_ts store opcode_del u t 0 [])
        (from_le-to_le 4 uid i.0) (from_le-to_le 8 ts i.1)
    ∙ round-whole fuel bytes pos snapshot_ts store opcode_del uid ts 0 [] size
    ∙ ap₂ (λ p o. resume (replay_loop fuel bytes p snapshot_ts) o) next
        (apply_after-del snapshot_ts store uid ts)

resume-some :
    {f : Store → Option (Option Store)} {g : Store → Option Store}
    → ((s : Store) → f s ≡ some (g s))
    → (o : Option Store) → resume f o ≡ some (elim o [ none ↦ none | some s ↦ g s ])
resume-some h none = refl
resume-some h (some s) = h s

pub length-entries_bytes : (es : List Entry) → length es ≤ length (entries_bytes es)
length-entries_bytes [] = omega arith
length-entries_bytes (push uid r ts ∷ es) =
    omega (
      arith,
      length-entries_bytes es,
      length-append (entry_bytes (push uid r ts)) (entries_bytes es),
    )
length-entries_bytes (del uid ts ∷ es) =
    omega
      (arith, length-entries_bytes es, length-append (entry_bytes (del uid ts)) (entries_bytes es))

replay_loop-entries :
    (fuel : ℕ) {bytes : List ℕ} {pos : ℕ} (es : List Entry) (torn : List ℕ) (snapshot_ts : ℕ)
    (store : Store)
    → length es < fuel
    → All IsEntry es
    → IsTorn torn
    → IsAt bytes pos (entries_bytes es ++ torn)
    → replay_loop fuel bytes pos snapshot_ts store ≡ some (apply_all snapshot_ts es store)
unfolding apply_all apply_unless_covered
replay_loop-entries zero es torn snapshot_ts store f i t a = absurd (omega arith)
replay_loop-entries (suc fuel) [] torn snapshot_ts store f i t a =
    replay_loop-torn fuel snapshot_ts store a t
replay_loop-entries (suc fuel) {bytes} {pos} (e ∷ es) torn snapshot_ts store f i t a =
    let at : IsAt bytes pos (entry_bytes e ++ (entries_bytes es ++ torn)) = rw append_assoc at a in
    let behind : IsAt bytes (pos + length (entry_bytes e)) (entries_bytes es ++ torn) =
      IsAt-next (entry_bytes e) (entries_bytes es ++ torn) (length (entry_bytes e)) refl at in
    replay_loop-entry fuel (entries_bytes es ++ torn) snapshot_ts store e i.0 at
    ∙ resume-some (λ s. replay_loop-entries fuel es torn snapshot_ts s (omega arith) i.1 t behind)
        (apply_unless_covered snapshot_ts store e)

-- The replay of whole entries, and of a torn one at the end that a crash left, ends, applies the
-- entries that the snapshot does not cover, in order, and drops the torn one.
pub replay_aof_lem :
    (es : List Entry) (torn : List ℕ) (snapshot_ts : ℕ) (store : Store)
    → All IsEntry es
    → IsTorn torn
    → replay_aof (entries_bytes es ++ torn) snapshot_ts store
      ≡ some (apply_all snapshot_ts es store)
unfolding replay_aof
replay_aof_lem es torn snapshot_ts store i t =
    replay_loop-entries (suc (length (entries_bytes es ++ torn))) {bytes = entries_bytes es ++ torn}
      {pos = 0} es torn snapshot_ts store
      (omega (arith, length-entries_bytes es, length-append (entries_bytes es) torn)) i t
      (record { left = refl; size = omega arith })
