-- ===== src/Snapshot/Restore.antt =====
-- `parse_snapshot` of src/snapshot.rs on the bytes of a snapshot: the loop over the keys.
use mathlib.Core.Path.{fun_ext}
use lloogg.Prelude.{
  ℕ, suc, ◌+◌, ◌≤◌, ◌<◌, ◌≡◌, refl, sym, ap, ◌∙◌, inl, inr, none, some, List, [], ◌∷◌, ◌++◌, arith,
  length, All, slice, take, to_le, from_le, from_le-to_le, IsAt, slice-IsAt, IsAt-next,
  le→ltb_false, length-append, ◌==◌, ==-refl, ==_iff, Bool-cases, take_all, All-append, subst,
}
use lloogg.Record.{Record, IsTyped}
use lloogg.Ring.{RingBuffer}
use lloogg.HashMap.{HasUniqueKeys, lookup}
use lloogg.Commands.{records_bytes}
use lloogg.Store.{Store, get_or_create, len}
use lloogg.Store.Spec.{Logs, push_log, with_log}
use lloogg.Store.View.{HasLogs}
use lloogg.Store.Open.{IsCapacity}
use lloogg.Store.Plain.{IsPlain}
use lloogg.Store.Fresh.{get_or_create-HasLogs}
use lloogg.Snapshot.{parse_records, parse_keys}
use lloogg.Snapshot.Dump.{reverse}
use lloogg.Snapshot.Keys.{UserLogs, keys_bytes}
use lloogg.Snapshot.Load.{push_logs, parse_records-HasLogs}

abbrev pub last_time : List Record → ℕ → ℕ
last_time [] ts = 0
last_time (r ∷ rs) ts = ts

push_logs-snoc :
    (cap uid : ℕ) (rs : List Record) (r : Record) (ts : ℕ) (logs : Logs)
    → push_logs cap uid (rs ++ r ∷ []) ts logs
      ≡ push_log cap uid r ts (push_logs cap uid rs ts logs)
push_logs-snoc cap uid [] r ts logs = refl
push_logs-snoc cap uid (x ∷ rs) r ts logs =
    push_logs-snoc cap uid rs r ts (push_log cap uid x ts logs)

push_log-with_log :
    (cap uid : ℕ) (r : Record) (rs : List Record) (ts t : ℕ) (logs : Logs)
    → length (r ∷ rs) ≤ cap
    → push_log cap uid r ts (with_log uid (rs, t) logs) ≡ with_log uid (r ∷ rs, ts) logs
push_log-with_log cap uid r rs ts t logs h = fun_ext (λ u. elim (Bool-cases (uid == u)) [
  | inl same ↦ rw (same, ==-refl uid, take_all cap (r ∷ rs) h)
  | inr other ↦ rw other
])

-- The pushes of the records, the oldest first, make the log of an empty one.
push_logs-reverse :
    (cap uid : ℕ) (rs : List Record) (ts : ℕ) (logs : Logs)
    → length rs ≤ cap
    → push_logs cap uid (reverse rs) ts (with_log uid ([], 0) logs)
      ≡ with_log uid (rs, last_time rs ts) logs
push_logs-reverse cap uid [] ts logs h = refl
push_logs-reverse cap uid (r ∷ rs) ts logs h =
    push_logs-snoc cap uid (reverse rs) r ts (with_log uid ([], 0) logs)
    ∙ ap (push_log cap uid r ts) (push_logs-reverse cap uid rs ts logs (omega arith))
    ∙ push_log-with_log cap uid r rs ts (last_time rs ts) logs h

length-reverse : (rs : List Record) → length (reverse rs) ≡ length rs
length-reverse [] = refl
length-reverse (r ∷ rs) = omega (arith, length-append (reverse rs) (r ∷ []), length-reverse rs)

All-reverse : (rs : List Record) → All IsTyped rs → All IsTyped (reverse rs)
All-reverse [] h = tt
All-reverse (r ∷ rs) h = All-append IsTyped (reverse rs) (r ∷ []) (All-reverse rs h.1) (h.0, tt)

last_time-some : (rs : List Record) (ts : ℕ) → 0 < length rs → last_time rs ts ≡ ts
last_time-some [] ts h = absurd (omega arith)
last_time-some (r ∷ rs) ts h = refl

-- What the keys of a snapshot do to the logs.
abbrev pub restore : UserLogs → Logs → Logs
restore [] logs = logs
restore ((uid, entry) ∷ keys) logs = restore keys (with_log uid entry logs)

-- One round of the loop over the keys.
parse_keys-key :
    (cap rounds : ℕ) {bytes : List ℕ} {pos next uid ts : ℕ} {rs : List Record} (keys : UserLogs)
    (s : Store) {s1 s2 : Store} {b : RingBuffer}
    → IsPlain cap uid rs ts
    → cap < 65536
    → IsAt bytes pos (keys_bytes ((uid, (rs, ts)) ∷ keys))
    → get_or_create s uid ≡ some (s1, b)
    → parse_records (length rs) bytes (pos + 14) uid ts s1 ≡ some (s2, next)
    → parse_keys (suc rounds) bytes pos s ≡ parse_keys rounds bytes next s2
unfolding parse_keys
parse_keys-key cap rounds {bytes} {pos} {next} {uid} {ts} {rs} keys s p small a opened ran =
    let size : pos + 14 ≤ length bytes = omega (arith, a.size) in
    let user : from_le (slice bytes pos 4) ≡ uid =
      ap (λ t. from_le (take 4 t)) a.left ∙ from_le-to_le 4 uid p.user in
    let time : from_le (slice bytes (pos + 4) 8) ≡ ts =
      ap from_le (slice-IsAt a 4 8) ∙ from_le-to_le 8 ts p.time in
    let count : from_le (slice bytes (pos + 12) 2) ≡ length rs =
      ap from_le (slice-IsAt a 12 2) ∙ from_le-to_le 2 (length rs) (omega (arith, p.fits)) in
    rw (
      le→ltb_false (length bytes) (pos + 14) size,
      user,
      opened,
      user,
      time,
      count,
      ran,
      parse_keys,
    )

with_log-absent :
    (uid : ℕ) (entry : List Record × ℕ) (logs : Logs) (keys : UserLogs)
    → lookup uid keys ≡ none
    → All (λ e. logs e.0 ≡ none) keys
    → All (λ e. with_log uid entry logs e.0 ≡ none) keys
unfolding lookup
with_log-absent uid entry logs [] h absent = tt
with_log-absent uid entry logs ((k, e) ∷ keys) h absent = elim (Bool-cases (k == uid)) [
  | inl same ↦ absurd (ground arith)
  | inr other ↦
      (ground (arith, absent.0), with_log-absent uid entry logs keys (ground arith) absent.1)
]

pub parse_keys-HasLogs :
    {slots cap : ℕ} {bytes : List ℕ} {pos : ℕ} (keys : UserLogs) {logs : Logs} {s : Store}
    → All (λ e. IsPlain cap e.0 e.1.0 e.1.1) keys
    → HasUniqueKeys keys
    → All (λ e. logs e.0 ≡ none) keys
    → IsCapacity cap
    → IsAt bytes pos (keys_bytes keys)
    → HasLogs slots cap logs s
    → len s + length keys ≤ slots
    → (s' : Store) × (parse_keys (length keys) bytes pos s ≡ some s')
      × HasLogs slots cap (restore keys logs) s'
      × (len s' ≤ len s + length keys)
unfolding parse_keys
parse_keys-HasLogs [] {s = s} p u absent c a h room = (s, refl, h, omega arith)
parse_keys-HasLogs {slots} {cap} {bytes} {pos} ((uid, (rs, ts)) ∷ keys) {logs} {s} p u absent c a h
      room =
    let more : List ℕ = keys_bytes keys in
    let (s1, b, opened, h1, len1) = get_or_create-HasLogs uid c h absent.0 (omega arith) in
    let records_at : IsAt bytes (pos + 14) (records_bytes (reverse rs) ++ more) =
      IsAt-next (to_le 4 uid ++ to_le 8 ts ++ to_le 2 (length rs))
        (records_bytes (reverse rs) ++ more) 14 refl a in
    let (s2, next, ran, behind, h2, len2) =
      parse_records-HasLogs uid ts (reverse rs) more (All-reverse rs p.0.typed) c records_at h1
        (λ e. ground (arith, ==-refl uid)) in
    let h2' : HasLogs slots cap (with_log uid (rs, ts) logs) s2 =
      subst (λ l. HasLogs slots cap l s2)
        (push_logs-reverse cap uid rs ts logs p.0.fits
          ∙ ap (λ t. with_log uid (rs, t) logs) (last_time-some rs ts p.0.some_record))
        h2 in
    let (s3, done, h3, len3) =
      parse_keys-HasLogs {pos = next} keys p.1 u.1
        (with_log-absent uid (rs, ts) logs keys u.0 absent.1) c behind h2' (omega arith) in
    (
      s3,
      parse_keys-key cap (length keys) keys s p.0 c.small a opened
            (ap (λ n. parse_records n bytes (pos + 14) uid ts s1) (sym (length-reverse rs)) ∙ ran)
          ∙ done,
      h3,
      omega (arith, len1, len2, len3),
    )

pub restore-lookup :
    (keys : UserLogs) (logs : Logs) (u : ℕ)
    → HasUniqueKeys keys
    → restore keys logs u ≡ elim (lookup u keys) [ none ↦ logs u | some entry ↦ some entry ]
unfolding lookup
restore-lookup [] logs u h = refl
restore-lookup ((uid, entry) ∷ keys) logs u h =
    restore-lookup keys (with_log uid entry logs) u h.1 ∙ elim (Bool-cases (uid == u)) [
      | inl same ↦
          let absent : lookup u keys ≡ none = ground (arith, ==_iff uid u, h.0) in
          rw (same, absent, same)
      | inr other ↦
          let kept : with_log uid entry logs u ≡ logs u = rw other in
          rw other (ap (λ log. elim (lookup u keys) [ none ↦ log | some later ↦ some later ]) kept)
    ]
