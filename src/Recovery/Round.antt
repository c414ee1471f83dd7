-- ===== src/Recovery/Round.antt =====
-- One round of the replay loop on the bytes from its position on.
use native.Mathlib.Decide.{dec_lt}
use lloogg.Prelude.{
  ℕ, suc, ◌+◌, ◌<◌, ◌≡◌, refl, sym, ap, ◌∙◌, ◌⊎◌, inl, inr, Option, none, some, List, [], arith,
  ltb, if◌then◌else◌, length, slice, take, get_or, from_le, IsAt, slice-IsAt, get_or-IsAt,
  slice-take, length-take,
}
use lloogg.Record.{to_bytes}
use lloogg.Store.{Store}
use lloogg.Aof.Entry.{Entry, push, del, entry_bytes}
use lloogg.Recovery.{apply_after, replay_loop}

-- The first bytes of an entry, not all of them.
pub record IsTorn (torn : List ℕ) : Type 0 where
  pub entry : Entry
  pub kept : ℕ
  pub short : kept < length (entry_bytes entry)
  pub torn_eq : torn ≡ take kept (entry_bytes entry)

-- Nothing at the end of a file is a torn entry.
pub IsTorn-nil : IsTorn []
IsTorn-nil = record { entry = del 0 0; kept = 0; short = omega arith; torn_eq = refl }

abbrev pub resume : (Store → Option (Option Store)) → Option Store → Option (Option Store)
resume next after = elim after [ none ↦ some none | some store ↦ next store ]

-- One round of the loop, from the fields that it reads.
unfoldable pub round : ℕ → List ℕ → ℕ → ℕ → Store → ℕ → ℕ → ℕ → ℕ → List ℕ → Option (Option Store)
round fuel bytes pos snapshot_ts store opcode uid write_ts payload_len payload =
    let next : Option (Option Store) =
      resume (replay_loop fuel bytes (pos + 15 + payload_len) snapshot_ts)
        (apply_after snapshot_ts store opcode uid write_ts payload) in
    if ltb (length bytes) (pos + 15)
    then some (some store)
    else if ltb (length bytes) (pos + 15 + payload_len)
    then some (some store)
    else next

replay_loop-fields :
    (fuel : ℕ) (bytes : List ℕ) (pos snapshot_ts : ℕ) (store : Store)
    → replay_loop (suc fuel) bytes pos snapshot_ts store
      ≡ round fuel bytes pos snapshot_ts store
          (get_or bytes pos 0)
          (from_le (slice bytes (pos + 1) 4))
          (from_le (slice bytes (pos + 5) 8))
          (from_le (slice bytes (pos + 13) 2))
          (slice bytes (pos + 15) (from_le (slice bytes (pos + 13) 2)))
unfolding replay_loop round apply_after
replay_loop-fields fuel bytes pos snapshot_ts store = refl

pub replay_loop-round :
    (fuel : ℕ) {bytes : List ℕ} {pos : ℕ} {rest : List ℕ} (snapshot_ts : ℕ) (store : Store)
    → IsAt bytes pos rest
    → replay_loop (suc fuel) bytes pos snapshot_ts store
      ≡ round fuel bytes pos snapshot_ts store
          (get_or rest 0 0)
          (from_le (slice rest 1 4))
          (from_le (slice rest 5 8))
          (from_le (slice rest 13 2))
          (slice rest 15 (from_le (slice rest 13 2)))
replay_loop-round fuel {bytes} {pos} {rest} snapshot_ts store a =
    replay_loop-fields fuel bytes pos snapshot_ts store
    ∙ rw (
      slice-IsAt a 13 2,
      slice-IsAt a 1 4,
      slice-IsAt a 5 8,
      get_or-IsAt a,
      slice-IsAt a 15 (from_le (slice rest 13 2)),
    )

torn_short :
    (e : Entry) (k : ℕ) (torn : List ℕ)
    → k < length (entry_bytes e)
    → torn ≡ take k (entry_bytes e)
    → (length torn < 15) ⊎ (length torn < 15 + from_le (slice torn 13 2))
unfolding to_bytes
torn_short (push uid r ts) k torn h e =
    let bs : List ℕ = entry_bytes (push uid r ts) in
    let size : length torn ≡ k = ap length e ∙ omega (arith, length-take k bs) in
    elim (dec_lt k 15) [
      | yes p ↦ inl (omega (arith, size))
      | no p ↦
          let declared : from_le (slice torn 13 2) ≡ 17 =
            ap (λ t. from_le (slice t 13 2)) e
            ∙ ap from_le (sym (slice-take k bs 13 2 (omega arith))) in
          inr (omega (arith, size, declared))
    ]
torn_short (del uid ts) k torn h e =
    inl (omega (arith, ap length e, length-take k (entry_bytes (del uid ts))))

-- Fewer bytes than a header, or than the payload that the header announces, end the loop.
pub round-torn :
    (fuel : ℕ) {bytes : List ℕ} {pos : ℕ} {rest : List ℕ} (snapshot_ts : ℕ) (store : Store)
    → IsAt bytes pos rest
    → (length rest < 15) ⊎ (length rest < 15 + from_le (slice rest 13 2))
    → replay_loop (suc fuel) bytes pos snapshot_ts store ≡ some (some store)
unfolding round
round-torn fuel {bytes} {pos} {rest} snapshot_ts store a h =
    replay_loop-round fuel snapshot_ts store a ∙ ground (arith, a.size)

pub replay_loop-torn :
    (fuel : ℕ) {bytes : List ℕ} {pos : ℕ} {torn : List ℕ} (snapshot_ts : ℕ) (store : Store)
    → IsAt bytes pos torn
    → IsTorn torn
    → replay_loop (suc fuel) bytes pos snapshot_ts store ≡ some (some store)
replay_loop-torn fuel {bytes} {pos} {torn} snapshot_ts store a t =
    round-torn fuel snapshot_ts store a (torn_short t.entry t.kept torn t.short t.torn_eq)
