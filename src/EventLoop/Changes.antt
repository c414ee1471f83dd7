-- ===== src/EventLoop/Changes.antt =====
-- The changes of the store, and what they append to the log.
use lloogg.Prelude.{
  ℕ, ◌≡◌, refl, sym, ap, ◌∙◌, inl, inr, Option-cases, Option, none, some, List, [], ◌∷◌, ◌++◌,
  append_assoc, append-nil, ◌<◌, ◌^◌, All, All-append,
}
use lloogg.Record.{Record}
use lloogg.Store.{Store, push_record, erase}
use lloogg.Ttl.{Candidate, evict}
use lloogg.Aof.{AofWriter, push_entry, del_entry}
use lloogg.Aof.Entry.{Entry, push, del, IsEntry}
use lloogg.Aof.Log.{log}

-- A push or a removal that a client asked for, at the server's time, or the eviction of a candidate.
pub data Change : Type 0 where
  pushed : (uid : ℕ) (r : Record) (now : ℕ) → Change
  removed : (uid now : ℕ) → Change
  evicted : (c : Candidate) → Change

-- What a change does to the store; `none` is the panic of a full store. The eviction of a candidate who
-- has pushed since does nothing.
abbrev pub change : Change → Store → Option Store
change (pushed uid r now) s = push_record s uid r now
change (removed uid now) s = some (erase s uid)
change (evicted c) s = some (evict s c)

abbrev pub changed : List Change → Store → Option Store
changed [] s = some s
changed (c ∷ cs) s = elim (change c s) [ none ↦ none | some s' ↦ changed cs s' ]

-- An eviction leaves no entry.
abbrev pub change_bytes : Change → List ℕ
change_bytes (pushed uid r now) = push_entry uid r now
change_bytes (removed uid now) = del_entry uid now
change_bytes (evicted c) = []

abbrev pub changes_bytes : List Change → List ℕ
changes_bytes [] = []
changes_bytes (c ∷ cs) = change_bytes c ++ changes_bytes cs

-- What the clock reads: a 64-bit number of nanoseconds that is not 0.
abbrev pub IsTime : ℕ → Type 0
IsTime now = (0 < now) × (now < 2 ^ 64)

-- A change of a 32-bit user, by a record that fits its types, at a time of the clock.
abbrev pub IsChange : Change → Type 0
IsChange (pushed uid r now) = IsEntry (push uid r now) × (0 < now)
IsChange (removed uid now) = IsEntry (del uid now) × (0 < now)
IsChange (evicted c) = Unit

-- The entries that the changes append.
abbrev pub entries_of : List Change → List Entry
entries_of [] = []
entries_of (pushed uid r now ∷ cs) = push uid r now ∷ entries_of cs
entries_of (removed uid now ∷ cs) = del uid now ∷ entries_of cs
entries_of (evicted c ∷ cs) = entries_of cs

-- The changes have led from one store to the other, and exactly what they append was appended to the log,
-- in their order.
pub record IsLogged (cs : List Change) (s : Store) (w : AofWriter) (s' : Store) (w' : AofWriter)
    : Type 0 where
  pub typed : All IsChange cs
  pub changed_eq : changed cs s ≡ some s'
  pub log_eq : log w' ≡ log w ++ changes_bytes cs
  pub mode : w'.fsync_mode ≡ w.fsync_mode

pub IsLogged-refl : (s : Store) (w : AofWriter) → IsLogged [] s w s w
IsLogged-refl s w = record {
  typed = tt;
  changed_eq = refl;
  log_eq = sym (append-nil (log w));
  mode = refl;
}

changed-append :
    (cs ds : List Change) (s : Store) {s' : Store}
    → changed cs s ≡ some s'
    → changed (cs ++ ds) s ≡ changed ds s'
changed-append [] ds s h = ap (λ o. elim o [ none ↦ none | some t ↦ changed ds t ]) h
changed-append (c ∷ cs) ds s {s'} h = elim (Option-cases (change c s)) [
  | inl full ↦ absurd (cc (rw (changed, full) at h))
  | inr (t, placed) ↦ rw (changed, placed) (changed-append cs ds t (rw (changed, placed) at h))
]

changes_bytes-append :
    (cs ds : List Change) → changes_bytes (cs ++ ds) ≡ changes_bytes cs ++ changes_bytes ds
changes_bytes-append [] ds = refl
changes_bytes-append (c ∷ cs) ds =
    ap (λ t. change_bytes c ++ t) (changes_bytes-append cs ds)
    ∙ sym (append_assoc (change_bytes c) (changes_bytes cs) (changes_bytes ds))

pub IsLogged-trans :
    {cs ds : List Change} {s s' s'' : Store} {w w' w'' : AofWriter}
    → IsLogged cs s w s' w'
    → IsLogged ds s' w' s'' w''
    → IsLogged (cs ++ ds) s w s'' w''
IsLogged-trans {cs} {ds} {s} {w = w} a b = record {
  typed = All-append IsChange cs ds a.typed b.typed;
  changed_eq = changed-append cs ds s a.changed_eq ∙ b.changed_eq;
  log_eq =
      b.log_eq
      ∙ ap (λ t. t ++ changes_bytes ds) a.log_eq
      ∙ append_assoc (log w) (changes_bytes cs) (changes_bytes ds)
      ∙ ap (λ t. log w ++ t) (sym (changes_bytes-append cs ds));
  mode = b.mode ∙ a.mode;
}

-- One change, and the bytes that were appended for it.
pub IsLogged-one :
    (c : Change) {s s' : Store} {w w' : AofWriter}
    → IsChange c
    → change c s ≡ some s'
    → log w' ≡ log w ++ change_bytes c
    → w'.fsync_mode ≡ w.fsync_mode
    → IsLogged (c ∷ []) s w s' w'
IsLogged-one c {w = w} typed placed more same = record {
  typed = (typed, tt);
  changed_eq = rw (changed, placed);
  log_eq = more ∙ ap (λ t. log w ++ t) (sym (append-nil (change_bytes c)));
  mode = same;
}
