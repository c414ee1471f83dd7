-- ===== src/Snapshot/Writes.antt =====
-- The writes of `dump_to_path` of src/snapshot.rs, and its calls from the `flush` on.
use lloogg.Prelude.{
  length, ◌<◌, ℕ, ◌+◌, ◌≤◌, ◌≡◌, refl, ap, ◌∙◌, ◌⊎◌, inl, inr, Option, none, some, List, [], ◌∷◌,
  map, arith, take, All, Option-cases,
}
use lloogg.Snapshot.Effects.{IsWriting}
use lloogg.Snapshot.Disk.{
  Effect, flushed, appended, renamed, Disk, write_header, write_keys, or_fails, finish,
}

-- Writes that do not fail.
pub write_keys-whole :
    (disk : Disk) (i : ℕ) (ps : List (List ℕ))
    → ((j : ℕ) → i ≤ j → disk.write j ≡ none)
    → write_keys disk i ps ≡ map appended ps
unfolding write_keys
write_keys-whole disk i [] h = refl
write_keys-whole disk i (p ∷ ps) h =
    rw (write_keys, h i (omega arith), write_keys-whole disk (i + 1) ps (λ j l. h j (omega arith)))

module _ (disk : Disk) (i : ℕ) (p : List ℕ) (ps : List (List ℕ)) where
  write_header-takes :
      disk.write i ≡ none
      → write_header disk i (p ∷ ps)
        ≡ (appended p ∷ (write_header disk (i + 1) ps).0, (write_header disk (i + 1) ps).1)
  unfolding write_header
  write_header-takes h = rw (write_header, h)

  write_header-fails :
      {errno taken : ℕ}
      → disk.write i ≡ some (errno, taken)
      → write_header disk i (p ∷ ps) ≡ (appended (take taken p) ∷ [], some errno)
  unfolding write_header
  write_header-fails h = rw (write_header, h)

-- The header without an error.
pub write_header-whole :
    (disk : Disk) (i : ℕ) (ps : List (List ℕ))
    → ((j : ℕ) → i ≤ j → j < i + length ps → disk.write j ≡ none)
    → write_header disk i ps ≡ (map appended ps, none)
unfolding write_header
write_header-whole disk i [] h = refl
write_header-whole disk i (p ∷ ps) h =
    write_header-takes disk i p ps (h i (omega arith) (omega arith))
    ∙ ap (λ t. (appended p ∷ t.0, t.1))
        (write_header-whole disk (i + 1) ps (λ j l m. h j (omega arith) (omega arith)))

-- The header: an error, or all of it.
pub write_header-cases :
    (disk : Disk) (i : ℕ) (ps : List (List ℕ))
    → ((errno : ℕ) × ((write_header disk i ps).1 ≡ some errno)
        × All IsWriting (write_header disk i ps).0)
      ⊎ (write_header disk i ps ≡ (map appended ps, none))
unfolding write_header
write_header-cases disk i [] = inr refl
write_header-cases disk i (p ∷ ps) = elim (Option-cases (disk.write i)) [
  | inr ((errno, taken), fails) ↦
      let e = write_header-fails disk i p ps {errno = errno} {taken = taken} fails in
      inl (errno, ap (λ t. t.1) e, rw e (tt, tt))
  | inl takes ↦
      let e = write_header-takes disk i p ps takes in
      elim (write_header-cases disk (i + 1) ps) [
        | inl (errno, fails, writing) ↦ inl (errno, ap (λ t. t.1) e ∙ fails, rw e (tt, writing))
        | inr whole ↦ inr (e ∙ ap (λ t. (appended p ∷ t.0, t.1)) whole)
      ]
]

-- An error before the rename, or the rename of a file that is flushed.
abbrev pub IsFinish : List Effect × Option ℕ → Type 0
IsFinish r =
    ((errno : ℕ) × (fs : List Effect) × (r ≡ (fs, some errno)) × All IsWriting fs)
    ⊎ (r ≡ (flushed ∷ renamed ∷ [], none))

-- The same behind the flush.
abbrev IsFlushed : List Effect × Option ℕ → Type 0
IsFlushed r = ((errno : ℕ) × (r ≡ ([], some errno))) ⊎ (r ≡ (renamed ∷ [], none))

or_fails-IsFlushed :
    (o : Option ℕ) (rest : List Effect × Option ℕ) → IsFlushed rest → IsFlushed (or_fails o rest)
or_fails-IsFlushed (some errno) rest h = inl (errno, refl)
or_fails-IsFlushed none rest h = h

flushed-IsFinish :
    (o : Option ℕ) (rest : List Effect × Option ℕ)
    → IsFlushed rest
    → IsFinish (or_fails o (flushed ∷ rest.0, rest.1))
flushed-IsFinish (some errno) rest h = inl (errno, [], refl, tt)
flushed-IsFinish none rest (inl (errno, e)) =
    inl (errno, flushed ∷ [], ap (λ r. (flushed ∷ r.0, r.1)) e, (tt, tt))
flushed-IsFinish none rest (inr e) = inr (ap (λ r. (flushed ∷ r.0, r.1)) e)

pub finish-IsFinish : (disk : Disk) → IsFinish (finish disk)
unfolding finish
finish-IsFinish disk = flushed-IsFinish disk.flush _ (
    or_fails-IsFlushed disk.into_inner _
      (or_fails-IsFlushed disk.sync _ (or_fails-IsFlushed disk.rename _ (inr refl))))
