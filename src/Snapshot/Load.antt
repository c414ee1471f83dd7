-- ===== src/Snapshot/Load.antt =====
-- `parse_snapshot` of src/snapshot.rs on the bytes of a snapshot: the loop over the records of a key.
use lloogg.Prelude.{
  ℕ, suc, ◌+◌, ◌≤◌, ◌≡◌, refl, sym, ap, ap₂, ◌∙◌, inr, none, some, List, [], ◌∷◌, ◌++◌, arith,
  length, All, subst, append_assoc, slice, take, IsAt, IsAt-next, le→ltb_false, length-append,
  take-append, ◌≢◌, ==-refl,
}
use mathlib.Core.Path.{fun_ext}
use lloogg.Record.{Record, IsTyped, to_bytes, of_bytes-to_bytes, length-to_bytes}
use lloogg.Commands.{records_bytes}
use lloogg.Store.{Store, push_record, len}
use lloogg.Store.Spec.{Logs, push_log}
use lloogg.Store.View.{HasLogs, view}
use lloogg.Store.Open.{IsCapacity}
use lloogg.Store.Push.{push_record_lem}
use lloogg.Snapshot.{parse_records}

-- What the pushes of records do to the logs, the first one first.
abbrev pub push_logs : ℕ → ℕ → List Record → ℕ → Logs → Logs
push_logs cap uid [] ts logs = logs
push_logs cap uid (r ∷ rs) ts logs = push_logs cap uid rs ts (push_log cap uid r ts logs)

-- A push for a user that has a log.
push_record-known :
    {slots cap : ℕ} {logs : Logs} {s : Store} (uid : ℕ) (r : Record) (ts : ℕ)
    → IsTyped r
    → IsCapacity cap
    → HasLogs slots cap logs s
    → logs uid ≢ none
    → (s' : Store) × (push_record s uid r ts ≡ some s')
      × HasLogs slots cap (push_log cap uid r ts logs) s'
      × (len s' ≡ len s)
push_record-known {slots} {cap} {logs} {s} uid r ts t c h known =
    let held : view s uid ≢ none = λ e. known (sym (ap (λ l. l uid) h.logs_eq) ∙ e) in
    let (s', pushed, p) =
      push_record_lem {slots = slots} {s = s} uid r ts t (subst IsCapacity (sym h.capacity) c)
        h.valid (inr held) in
    (
      s',
      pushed,
      record {
        valid = p.valid;
        capacity = p.capacity ∙ h.capacity;
        logs_eq = fun_ext p.logs ∙ ap₂ (λ n l. push_log n uid r ts l) h.capacity h.logs_eq;
      },
      p.len_known held,
    )

push_log-known :
    (cap uid : ℕ) (r : Record) (ts : ℕ) (logs : Logs) → push_log cap uid r ts logs uid ≢ none
push_log-known cap uid r ts logs h = ground (arith, ==-refl uid)

parse_records-record :
    (rounds : ℕ) {bytes : List ℕ} {pos : ℕ} (uid ts : ℕ) (r : Record) (more : List ℕ) (s : Store)
    {s' : Store}
    → IsTyped r
    → IsAt bytes pos (to_bytes r ++ more)
    → push_record s uid r ts ≡ some s'
    → parse_records (suc rounds) bytes pos uid ts s
      ≡ parse_records rounds bytes (pos + 17) uid ts s'
unfolding parse_records
parse_records-record rounds {bytes} {pos} uid ts r more s t a pushed =
    let size : pos + 17 ≤ length bytes =
      omega (arith, a.size, length-append (to_bytes r) more, length-to_bytes r) in
    let read : slice bytes pos 17 ≡ to_bytes r =
      ap (take 17) a.left ∙ take-append 17 (to_bytes r) more (sym (length-to_bytes r)) in
    rw (
      le→ltb_false (length bytes) (pos + 17) size,
      read,
      of_bytes-to_bytes r t,
      pushed,
      parse_records,
    )

-- The records of a key are pushed one by one.
pub parse_records-HasLogs :
    {slots cap : ℕ} {bytes : List ℕ} {pos : ℕ} (uid ts : ℕ) (rs : List Record) (more : List ℕ)
    {logs : Logs} {s : Store}
    → All IsTyped rs
    → IsCapacity cap
    → IsAt bytes pos (records_bytes rs ++ more)
    → HasLogs slots cap logs s
    → logs uid ≢ none
    → (s' : Store) × (next : ℕ) × (parse_records (length rs) bytes pos uid ts s ≡ some (s', next))
      × IsAt bytes next more
      × HasLogs slots cap (push_logs cap uid rs ts logs) s'
      × (len s' ≡ len s)
unfolding parse_records
parse_records-HasLogs {pos = pos} uid ts [] more {s = s} t c a h known = (s, pos, refl, a, h, refl)
parse_records-HasLogs {slots} {cap} {bytes} {pos} uid ts (r ∷ rs) more {logs} {s} t c a h known =
    let at : IsAt _ _ (to_bytes r ++ (records_bytes rs ++ more)) = rw append_assoc at a in
    let behind : IsAt _ _ (records_bytes rs ++ more) =
      IsAt-next (to_bytes r) (records_bytes rs ++ more) 17 (sym (length-to_bytes r)) at in
    let (s', pushed, h', same) = push_record-known uid r ts t.0 c h known in
    let (s'', next, ran, a'', h'', same') =
      parse_records-HasLogs {pos = pos + 17} uid ts rs more t.1 c behind h'
        (push_log-known cap uid r ts logs) in
    (
      s'',
      next,
      parse_records-record (length rs) uid ts r (records_bytes rs ++ more) s t.0 at pushed ∙ ran,
      a'',
      h'',
      same' ∙ same,
    )
