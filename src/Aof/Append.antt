-- ===== src/Aof/Append.antt =====
-- `write_entry` of src/aof.rs in every mode of fsync.
use lloogg.Prelude.{
  ℕ, ◌+◌, ◌<◌, ◌≡◌, refl, ◌⊎◌, inl, inr, none, some, List, arith, length, Option-cases,
}
use lloogg.Constants.{aof_buf_size}
use lloogg.Config.{FsyncMode, always, everysec, never}
use lloogg.Aof.{AofWriter, Writes, pending, ring_write, write_entry, checked_write}
use lloogg.Aof.Log.{IsValid, ring_write-Appended}

-- What the append of an entry comes to: a valid ring, or a wait because the ring has no room.
abbrev pub Appends : Writes → AofWriter → List ℕ → Type 0
Appends writes w bytes =
    ((w' : AofWriter) × (write_entry writes w bytes ≡ some w') × IsValid w')
    ⊎ ((write_entry writes w bytes ≡ none) × (aof_buf_size < pending w + length bytes))

ring_write-Appends :
    (w : AofWriter) (bytes : List ℕ)
    → IsValid w
    → ((w' : AofWriter) × (ring_write w bytes ≡ some w') × IsValid w')
      ⊎ ((ring_write w bytes ≡ none) × (aof_buf_size < pending w + length bytes))
unfolding ring_write
ring_write-Appends w bytes v = elim (Option-cases (ring_write w bytes)) [
  | inr (w', done) ↦ inl (w', done, (ring_write-Appended w bytes v done).valid)
  | inl full ↦ inr (full, ground (arith, full))
]

write_entry-mode :
    (writes : Writes) (w : AofWriter) (bytes : List ℕ) (mode : FsyncMode)
    → w.fsync_mode ≡ mode
    → IsValid w
    → Appends writes w bytes
unfolding write_entry pending
write_entry-mode writes w bytes always e v = inl (
  record w { file = checked_write writes 0 w.file bytes },
  rw e,
  omega (arith, v.head, v.tail, v.room),
)
write_entry-mode writes w bytes everysec e v =
    let ring : write_entry writes w bytes ≡ ring_write w bytes = ground (arith, e) in
    rw ring (ring_write-Appends w bytes v)
write_entry-mode writes w bytes never e v =
    let ring : write_entry writes w bytes ≡ ring_write w bytes = ground (arith, e) in
    rw ring (ring_write-Appends w bytes v)

pub write_entry-cases :
    (writes : Writes) (w : AofWriter) (bytes : List ℕ) → IsValid w → Appends writes w bytes
write_entry-cases writes w bytes v = write_entry-mode writes w bytes w.fsync_mode refl v
