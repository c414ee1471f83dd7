-- ===== src/Snapshot/Atomic.antt =====
-- What a dump of src/snapshot.rs leaves of the old snapshot and the new one, whatever fails, and wherever
-- a crash cuts it off.
use lloogg.Prelude.{
  ℕ, zero, suc, ◌≤◌, ◌≡◌, refl, sym, ap, ◌∙◌, subst, ◌⊎◌, inl, inr, Option, none, some, List, [],
  ◌∷◌, ◌++◌, map, take, All, All-take, All-append, append_assoc, Option-cases,
}
use lloogg.Ring.{RingBuffer}
use lloogg.HashMap.{HashMap}
use lloogg.Store.{Store}
use lloogg.Snapshot.{dump_bytes}
use lloogg.Snapshot.Effects.{
  IsWriting, joined, joined-key_writes, affected-append, bin-affected, tmp-affected, All-appended,
  bin-renamed,
}
use lloogg.Snapshot.Writes.{write_keys-whole, write_header-cases, finish-IsFinish}
use lloogg.Snapshot.Disk.{
  Directory, Effect, flushed, created, appended, renamed, affected, Disk, header_writes, key_writes,
  write_header, write_keys, finish, dump_to_path,
}

take-last :
    (n : ℕ) (es : List Effect) (e : Effect)
    → (take n (es ++ e ∷ []) ≡ take n es) ⊎ (take n (es ++ e ∷ []) ≡ es ++ e ∷ [])
take-last zero es e = inl refl
take-last (suc zero) [] e = inr refl
take-last (suc (suc n)) [] e = inr refl
take-last (suc n) (x ∷ es) e = elim (take-last n es e) [
  | inl same ↦ inl (ap (λ t. x ∷ t) same)
  | inr all ↦ inr (ap (λ t. x ∷ t) all)
]

-- After `n` calls the snapshot is the old one or all of the new one. In the end it is the new one if no
-- error is returned, and the old one otherwise.
pub record IsAtomic (n : ℕ) (d : Directory) (whole : List ℕ) (dump : List Effect × Option ℕ)
    : Type 0 where
  pub crash :
      ((affected d (take n dump.0)).bin ≡ d.bin) ⊎ ((affected d (take n dump.0)).bin ≡ some whole)
  pub ended :
      ((errno : ℕ) × (dump.1 ≡ some errno) × ((affected d dump.0).bin ≡ d.bin))
      ⊎ ((dump.1 ≡ none) × ((affected d dump.0).bin ≡ some whole))

IsAtomic-writing :
    (n : ℕ) (d : Directory) (whole : List ℕ) (es : List Effect) (errno : ℕ)
    → All IsWriting es
    → IsAtomic n d whole (es, some errno)
IsAtomic-writing n d whole es errno w = record {
  crash = inl (bin-affected d (take n es) (All-take IsWriting n es w));
  ended = inl (errno, refl, bin-affected d es w);
}

IsAtomic-renamed :
    (n : ℕ) (d : Directory) (whole : List ℕ) (es : List Effect)
    → All IsWriting es
    → (affected d es).tmp ≡ some whole
    → IsAtomic n d whole (es ++ renamed ∷ [], none)
IsAtomic-renamed n d whole es w h =
    let all : (affected d (es ++ renamed ∷ [])).bin ≡ some whole =
      ap (λ t. t.bin) (affected-append d es (renamed ∷ [])) ∙ bin-renamed (affected d es) h in
    record {
      crash = elim (take-last n es renamed) [
        | inl before ↦ inl (
            ap (λ t. (affected d t).bin) before
            ∙ bin-affected d (take n es) (All-take IsWriting n es w))
        | inr after ↦ inr (ap (λ t. (affected d t).bin) after ∙ all)
      ];
      ended = inr (refl, all);
    }

module _ (disk : Disk) (store : Store) (order : HashMap RingBuffer) (snapshot_ts : ℕ) where
  abbrev headers : List Effect × Option ℕ
  headers = write_header disk 0 (header_writes store snapshot_ts)

  dump_to_path-header :
      (errno : ℕ)
      → disk.create ≡ none
      → headers.1 ≡ some errno
      → dump_to_path disk store order snapshot_ts ≡ (created ∷ headers.0, some errno)
  unfolding dump_to_path
  dump_to_path-header errno made fails = rw (dump_to_path, made, fails)

  pub dump_to_path-finish :
      disk.create ≡ none
      → headers.1 ≡ none
      → dump_to_path disk store order snapshot_ts ≡ (
        created
            ∷ (headers.0 ++ (write_keys disk 4 (key_writes store.mem order) ++ (finish disk).0)),
        (finish disk).1,
      )
  unfolding dump_to_path
  dump_to_path-finish made header = rw (dump_to_path, made, header)

written : Store → HashMap RingBuffer → ℕ → List (List ℕ)
written store order snapshot_ts = header_writes store snapshot_ts ++ key_writes store.mem order

joined-written :
    (store : Store) (order : HashMap RingBuffer) (snapshot_ts : ℕ)
    → joined (written store order snapshot_ts) ≡ dump_bytes store order snapshot_ts
unfolding written dump_bytes
joined-written store order snapshot_ts = rw (joined-key_writes store.mem order)

IsAtomic-finish :
    (disk : Disk) (store : Store) (order : HashMap RingBuffer) (snapshot_ts n : ℕ) (d : Directory)
    → IsAtomic n d (dump_bytes store order snapshot_ts) (
      created
          ∷ (map appended (header_writes store snapshot_ts)
              ++ (map appended (key_writes store.mem order) ++ (finish disk).0)),
      (finish disk).1,
    )
unfolding written
IsAtomic-finish disk store order snapshot_ts n d =
    let whole : List ℕ = dump_bytes store order snapshot_ts in
    let hs : List Effect = map appended (header_writes store snapshot_ts) in
    let ks : List Effect = map appended (key_writes store.mem order) in
    let writing : All IsWriting (hs ++ ks) = All-appended (written store order snapshot_ts) in
    let of_finish : List Effect × Option ℕ → Type 0 =
      λ f. IsAtomic n d whole (created ∷ (hs ++ (ks ++ f.0)), f.1) in
    elim (finish-IsFinish disk) [
      | inl (errno, fs, fails, quiet) ↦ subst of_finish (sym fails) (
          IsAtomic-writing n d whole (created ∷ (hs ++ (ks ++ fs))) errno (
            tt,
            subst (All IsWriting) (append_assoc hs ks fs)
                (All-append IsWriting (hs ++ ks) fs writing quiet),
          ))
      | inr done ↦
          let es : List Effect = created ∷ ((hs ++ ks) ++ flushed ∷ []) in
          let tmp : (affected d es).tmp ≡ some whole =
            tmp-affected d (written store order snapshot_ts)
            ∙ ap some (joined-written store order snapshot_ts) in
          subst of_finish (sym done) (
            subst (λ t. IsAtomic n d whole (created ∷ t, none))
              (append_assoc (hs ++ ks) (flushed ∷ []) (renamed ∷ [])
                ∙ append_assoc hs ks (flushed ∷ renamed ∷ []))
              (IsAtomic-renamed n d whole es
                (tt, All-append IsWriting (hs ++ ks) (flushed ∷ []) writing (tt, tt)) tmp))
    ]

-- A dump is atomic if no write of a key fails: whatever call fails, and wherever a crash cuts the dump
-- off, `snapshot.bin` holds what it held or the whole new snapshot, and the new one exactly if no error
-- is returned.
pub dump_to_path-IsAtomic :
    (disk : Disk) (store : Store) (order : HashMap RingBuffer) (snapshot_ts n : ℕ) (d : Directory)
    → ((i : ℕ) → 4 ≤ i → disk.write i ≡ none)
    → IsAtomic n d (dump_bytes store order snapshot_ts) (dump_to_path disk store order snapshot_ts)
unfolding dump_to_path
dump_to_path-IsAtomic disk store order snapshot_ts n d keys = elim (Option-cases disk.create) [
  | inr (errno, fails) ↦ rw (dump_to_path, fails) (IsAtomic-writing n d _ [] errno tt)
  | inl made ↦ elim (write_header-cases disk 0 (header_writes store snapshot_ts)) [
    | inl (errno, fails, writing) ↦
        rw (dump_to_path-header disk store order snapshot_ts errno made fails)
          (IsAtomic-writing n d _ (created ∷ _) errno (tt, writing))
    | inr header ↦
        rw
          (
            dump_to_path-finish disk store order snapshot_ts made (ap (λ h. h.1) header),
            ap (λ h. h.0) header,
            write_keys-whole disk 4 (key_writes store.mem order) keys,
          )
          (IsAtomic-finish disk store order snapshot_ts n d)
  ]
]
