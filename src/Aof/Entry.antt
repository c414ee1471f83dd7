-- ===== src/Aof/Entry.antt =====
-- The entries of the append-only file and their bytes.
use lloogg.Prelude.{
  ℕ, ◌^◌, ◌≤◌, ◌<◌, ◌≡◌, refl, sym, ap, ◌∙◌, append_assoc, List, [], ◌∷◌, ◌++◌, length, to_le,
  arith,
}
use lloogg.Record.{Record, IsTyped, to_bytes, length-to_bytes}
use lloogg.Constants.{opcode_push, opcode_del}
use lloogg.Aof.{push_entry, del_entry}

-- What an entry says: a push or a removal, with the server's time.
pub data Entry : Type 0 where
  push : (uid : ℕ) (r : Record) (write_ts : ℕ) → Entry
  del : (uid write_ts : ℕ) → Entry

abbrev pub IsEntry : Entry → Type 0
IsEntry (push uid r ts) = (uid < 2 ^ 32) × (ts < 2 ^ 64) × IsTyped r
IsEntry (del uid ts) = (uid < 2 ^ 32) × (ts < 2 ^ 64)

abbrev pub entry_ts : Entry → ℕ
entry_ts (push uid r ts) = ts
entry_ts (del uid ts) = ts

-- opcode(1) uid(4) write_ts(8) payload_len(2) payload
abbrev pub entry_bytes : Entry → List ℕ
entry_bytes (push uid r ts) = opcode_push ∷ to_le 4 uid ++ to_le 8 ts ++ to_le 2 17 ++ to_bytes r
entry_bytes (del uid ts) = opcode_del ∷ to_le 4 uid ++ to_le 8 ts ++ to_le 2 0

abbrev pub entries_bytes : List Entry → List ℕ
entries_bytes [] = []
entries_bytes (e ∷ es) = entry_bytes e ++ entries_bytes es

-- The arrays that the writer fills field by field are the bytes of the entries.
pub push_entry-bytes :
    (uid : ℕ) (r : Record) (ts : ℕ) → push_entry uid r ts ≡ entry_bytes (push uid r ts)
unfolding push_entry
push_entry-bytes uid r ts = refl

pub del_entry-bytes : (uid ts : ℕ) → del_entry uid ts ≡ entry_bytes (del uid ts)
unfolding del_entry
del_entry-bytes uid ts = refl

pub length-entry_bytes-le : (e : Entry) → length (entry_bytes e) ≤ 32
length-entry_bytes-le (push uid r ts) = omega (arith, length-to_bytes r)
length-entry_bytes-le (del uid ts) = omega arith

pub entries_bytes-append :
    (es fs : List Entry) → entries_bytes (es ++ fs) ≡ entries_bytes es ++ entries_bytes fs
entries_bytes-append [] fs = refl
entries_bytes-append (e ∷ es) fs =
    ap (λ t. entry_bytes e ++ t) (entries_bytes-append es fs)
    ∙ sym (append_assoc (entry_bytes e) (entries_bytes es) (entries_bytes fs))
