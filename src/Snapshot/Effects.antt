-- ===== src/Snapshot/Effects.antt =====
-- The effects of `dump_to_path` of src/snapshot.rs on the directory, and the bytes that it writes.
use lloogg.Prelude.{
  ℕ, zero, suc, ◌+◌, ◌≡◌, refl, sym, ap, ◌∙◌, inl, inr, some, List, [], ◌∷◌, ◌++◌, map,
  append_assoc, append-nil, All, Option-cases,
}
use lloogg.Memory.{Memory}
use lloogg.Ring.{RingBuffer}
use lloogg.HashMap.{HashMap}
use lloogg.Snapshot.{dump_records, dump_keys}
use lloogg.Snapshot.Disk.{
  Directory, Effect, flushed, created, appended, renamed, affect, affected, record_writes,
  key_writes,
}

-- The effects on `snapshot.tmp` alone.
abbrev pub IsWriting : Effect → Type 0
IsWriting created = Unit
IsWriting (appended bytes) = Unit
IsWriting flushed = Unit
IsWriting renamed = ⊥

abbrev pub joined : List (List ℕ) → List ℕ
joined [] = []
joined (bytes ∷ rest) = bytes ++ joined rest

pub joined-append : (xs ys : List (List ℕ)) → joined (xs ++ ys) ≡ joined xs ++ joined ys
joined-append [] ys = refl
joined-append (x ∷ xs) ys = ap (λ t. x ++ t) (joined-append xs ys) ∙ sym (append_assoc x _ _)

pub joined-record_writes :
    (m : Memory) (b : RingBuffer) (i rounds : ℕ)
    → joined (record_writes m b i rounds) ≡ dump_records m b i rounds
unfolding record_writes dump_records
joined-record_writes m b i zero = refl
joined-record_writes m b i (suc rounds) = rw (joined-record_writes m b (i + 1) rounds)

pub joined-key_writes :
    (m : Memory) (entries : HashMap RingBuffer)
    → joined (key_writes m entries) ≡ dump_keys m entries
unfolding key_writes dump_keys
joined-key_writes m [] = refl
joined-key_writes m ((uid, b) ∷ entries) = rw (
  joined-append (record_writes m b 0 b.count) (key_writes m entries),
  joined-record_writes m b 0 b.count,
  joined-key_writes m entries,
)

pub affected-append :
    (d : Directory) (es fs : List Effect) → affected d (es ++ fs) ≡ affected (affected d es) fs
affected-append d [] fs = refl
affected-append d (e ∷ es) fs = affected-append (affect d e) es fs

pub bin-affect : (d : Directory) (e : Effect) → IsWriting e → (affect d e).bin ≡ d.bin
bin-affect d created w = refl
bin-affect d (appended bytes) w = refl
bin-affect d flushed w = elim (Option-cases d.tmp) [
  | inl no_file ↦ rw no_file
  | inr (t, held) ↦ rw held
]
bin-affect d renamed w = elim w [ ]

pub bin-affected :
    (d : Directory) (es : List Effect) → All IsWriting es → (affected d es).bin ≡ d.bin
bin-affected d [] w = refl
bin-affected d (e ∷ es) w = bin-affected (affect d e) es w.1 ∙ bin-affect d e w.0

-- What is appended waits in the buffer.
pub buffer-affected :
    (d : Directory) (ps : List (List ℕ))
    → ((affected d (map appended ps)).buffer ≡ d.buffer ++ joined ps)
      × ((affected d (map appended ps)).tmp ≡ d.tmp)
buffer-affected d [] = (sym (append-nil d.buffer), refl)
buffer-affected d (p ∷ ps) =
    let (more, same) = buffer-affected (affect d (appended p)) ps in
    (more ∙ append_assoc d.buffer p (joined ps), same)

tmp-flushed :
    (d : Directory) {t : List ℕ} → d.tmp ≡ some t → (affect d flushed).tmp ≡ some (t ++ d.buffer)
tmp-flushed d h = rw h

-- A file that is created, written and flushed.
pub tmp-affected :
    (d : Directory) (ps : List (List ℕ))
    → (affected d (created ∷ (map appended ps ++ flushed ∷ []))).tmp ≡ some (joined ps)
tmp-affected d ps =
    let opened : Directory = affect d created in
    let (held, same) = buffer-affected opened ps in
    ap (λ t. t.tmp) (affected-append opened (map appended ps) (flushed ∷ []))
    ∙ tmp-flushed (affected opened (map appended ps)) same
    ∙ ap some held

pub All-appended : (ps : List (List ℕ)) → All IsWriting (map appended ps)
All-appended [] = tt
All-appended (p ∷ ps) = (tt, All-appended ps)

pub bin-renamed : (d : Directory) {t : List ℕ} → d.tmp ≡ some t → (affect d renamed).bin ≡ some t
bin-renamed d h = rw h
