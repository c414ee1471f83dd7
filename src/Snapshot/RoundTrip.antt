-- ===== src/Snapshot/RoundTrip.antt =====
-- The load of src/snapshot.rs behind its dump.
use native.Mathlib.Nat.{mod-eq_of_lt}
use mathlib.Core.Path.{fun_ext}
use lloogg.Prelude.{
  ℕ, ◌+◌, ◌%◌, ◌^◌, ◌≤◌, ◌<◌, ◌≡◌, refl, sym, ap, ap₂, ◌∙◌, none, some, List, [], ◌∷◌, ◌++◌, arith,
  length, All, to_le, from_le, from_le-to_le, IsAt, le→ltb_false, subst,
}
use lloogg.Constants.{magic_snapshot, snapshot_version}
use lloogg.Ring.{RingBuffer}
use lloogg.HashMap.{HashMap, lookup}
use lloogg.Store.{Store, len}
use lloogg.Store.Spec.{UserLog, Logs, no_logs}
use lloogg.Store.View.{HasLogs, view_of}
use lloogg.Store.Open.{IsCapacity}
use lloogg.Store.Plain.{IsPlain, IsPlainLog, ArePlain}
use lloogg.Snapshot.{dump_keys, dump_bytes, parse_keys, parse_snapshot}
use lloogg.Snapshot.Keys.{
  UserLogs, keys_bytes, logs_of, IsIteration, All-of_lookup, order-IsPlaced, dump_keys-bytes,
  lookup-logs_of, length-logs_of, logs_of-HasUniqueKeys,
}
use lloogg.Snapshot.Restore.{restore, parse_keys-HasLogs, restore-lookup}

abbrev snapshot_bytes : ℕ → ℕ → UserLogs → List ℕ
snapshot_bytes ts count keys =
    to_le 4 magic_snapshot
    ++ to_le 1 snapshot_version
    ++ to_le 8 ts
    ++ to_le 4 count
    ++ keys_bytes keys

snapshot_bytes-IsAt :
    (ts count : ℕ) (keys : UserLogs) → IsAt (snapshot_bytes ts count keys) 17 (keys_bytes keys)
snapshot_bytes-IsAt ts count keys = record { left = refl; size = omega arith }

parse_snapshot-keys :
    (ts count : ℕ) (keys : UserLogs) (fresh : Store) {s' : Store}
    → ts < 2 ^ 64
    → count < 2 ^ 32
    → parse_keys count (snapshot_bytes ts count keys) 17 fresh ≡ some s'
    → parse_snapshot (snapshot_bytes ts count keys) fresh ≡ some (ts, s')
unfolding parse_snapshot
parse_snapshot-keys ts count keys fresh h k ran =
    let size : 17 ≤ length (snapshot_bytes ts count keys) = omega arith in
    let keys_count : from_le (to_le 4 count) ≡ count = from_le-to_le 4 count k in
    let time : from_le (to_le 8 ts) ≡ ts = from_le-to_le 8 ts h in
    rw (le→ltb_false (length (snapshot_bytes ts count keys)) 17 size, keys_count, ran, time)

module _ {slots cap : ℕ} {logs : Logs} {s : Store} (order : HashMap RingBuffer)
    (h : HasLogs slots cap logs s) (i : IsIteration order s.map_of) where
  keys-lookup : (u : ℕ) → lookup u (logs_of s.mem order) ≡ logs u
  keys-lookup u =
      lookup-logs_of s.mem order u ∙ ap (view_of s.mem) (i.same u) ∙ ap (λ l. l u) h.logs_eq

  keys-ArePlain : ArePlain cap logs → All (λ e. IsPlain cap e.0 e.1.0 e.1.1) (logs_of s.mem order)
  keys-ArePlain plain =
      All-of_lookup (λ u e. IsPlain cap u e.0 e.1) (logs_of s.mem order)
        (logs_of-HasUniqueKeys s.mem order i.keys)
        (λ u e found. subst (IsPlainLog cap u) (sym (keys-lookup u) ∙ found) (plain u))

  restore-keys : restore (logs_of s.mem order) no_logs ≡ logs
  restore-keys = fun_ext (λ u.
      restore-lookup (logs_of s.mem order) no_logs u (logs_of-HasUniqueKeys s.mem order i.keys)
      ∙ ap (λ o. elim o [ none ↦ none | some entry ↦ some entry ]) (keys-lookup u)
      ∙ eta (logs u))
    where
      eta : (o : UserLog) → elim o [ none ↦ none | some entry ↦ some entry ] ≡ o
      eta none = refl
      eta (some entry) = refl

  dump_bytes-keys :
      (ts : ℕ)
      → len s < 2 ^ 32
      → dump_bytes s order ts
        ≡ snapshot_bytes ts (length (logs_of s.mem order)) (logs_of s.mem order)
  unfolding dump_bytes
  dump_bytes-keys ts small =
      let count : len s % 2 ^ 32 ≡ length (logs_of s.mem order) =
        mod-eq_of_lt small ∙ sym (length-logs_of s.mem order ∙ i.size) in
      let keys : dump_keys s.mem order ≡ keys_bytes (logs_of s.mem order) =
        dump_keys-bytes s.capacity s.mem order
          (order-IsPlaced s.capacity order s.map_of i h.valid.parts.placed) in
      ap₂
        (λ n bytes.
          to_le 4 magic_snapshot ++ to_le 1 snapshot_version ++ to_le 8 ts ++ to_le 4 n ++ bytes)
        count keys

no_logs-absent : (keys : UserLogs) → All (λ e. no_logs e.0 ≡ none) keys
no_logs-absent [] = tt
no_logs-absent (e ∷ keys) = (refl, no_logs-absent keys)

-- The load of a snapshot that was written of a valid store gives back its time and a valid store with
-- exactly the same logs, at most one user more for each user of the store. The dump goes over the
-- map in any order; the logs fit the snapshot's fields and hold a record each, there are less than
-- 2 ^ 32 of them, the capacity is one that a ring buffer admits and the same in both stores, and the
-- store that is loaded into has no logs and a slot for every user.
pub parse_snapshot-dump_bytes :
    {slots slots' cap : ℕ} {logs : Logs} {s fresh : Store} (order : HashMap RingBuffer) (ts : ℕ)
    → HasLogs slots cap logs s
    → IsIteration order s.map_of
    → ArePlain cap logs
    → IsCapacity cap
    → HasLogs slots' cap no_logs fresh
    → len fresh + len s ≤ slots'
    → len s < 2 ^ 32
    → ts < 2 ^ 64
    → (s' : Store) × (parse_snapshot (dump_bytes s order ts) fresh ≡ some (ts, s'))
      × HasLogs slots' cap logs s'
      × (len s' ≤ len fresh + len s)
parse_snapshot-dump_bytes {slots' = slots'} {cap} {s = s} {fresh} order ts h i plain c f room small
      word =
    let keys : UserLogs = logs_of s.mem order in
    let size : length keys ≡ len s = length-logs_of s.mem order ∙ i.size in
    let (s', ran, h', more) =
      parse_keys-HasLogs {slots = slots'} {pos = 17} keys {s = fresh}
        (keys-ArePlain order h i plain) (logs_of-HasUniqueKeys s.mem order i.keys)
        (no_logs-absent keys) c (snapshot_bytes-IsAt ts (length keys) keys) f
        (omega (arith, size)) in
    (
      s',
      ap (λ bytes. parse_snapshot bytes fresh) (dump_bytes-keys order h i ts small)
          ∙ parse_snapshot-keys ts (length keys) keys fresh word (omega (arith, size)) ran,
      subst (λ l. HasLogs slots' cap l s') (restore-keys order h i) h',
      omega (arith, size, more),
    )
