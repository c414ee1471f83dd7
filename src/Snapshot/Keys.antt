-- ===== src/Snapshot/Keys.antt =====
-- The part of a snapshot behind its header, as the bytes of the logs of the store.
use lloogg.Prelude.{
  ℕ, suc, ◌≡◌, refl, sym, ap, ◌∙◌, some, List, [], ◌∷◌, ◌++◌, arith, length, All, to_le, inl, inr,
  Bool-cases, ◌==◌, ==-refl, ==_iff,
}
use lloogg.Memory.{Memory}
use lloogg.Record.{Record}
use lloogg.Ring.{RingBuffer}
use lloogg.Ring.Newest.{contents, length-newest}
use lloogg.HashMap.{HashMap, HasUniqueKeys, lookup, All-lookup}
use lloogg.Commands.{records_bytes}
use lloogg.Store.Parts.{IsPlaced}
use lloogg.Store.View.{view_of}
use lloogg.Snapshot.{dump_keys}
use lloogg.Snapshot.Dump.{reverse, dump_records_lem}

-- A log with its user, records newest first, and the time of the last push.
abbrev pub UserLogs : Type 0
UserLogs = HashMap (List Record × ℕ)

abbrev pub logs_of : Memory → HashMap RingBuffer → UserLogs
logs_of m [] = []
logs_of m ((uid, b) ∷ entries) = (uid, (contents m b, b.last_write_ts)) ∷ logs_of m entries

-- uid(4) last_write_ts(8) count(2) records, the oldest first
abbrev pub keys_bytes : UserLogs → List ℕ
keys_bytes [] = []
keys_bytes ((uid, (rs, ts)) ∷ logs) =
    to_le 4 uid
    ++ to_le 8 ts
    ++ to_le 2 (length rs)
    ++ records_bytes (reverse rs)
    ++ keys_bytes logs

-- `order` holds the entries of `m`, perhaps in another order, as an iteration over the map gives them.
pub record IsIteration {ℓ} {V : Type ℓ} (order m : HashMap V) : Type ℓ where
  pub keys : HasUniqueKeys order
  pub same : (k : ℕ) → lookup k order ≡ lookup k m
  pub size : length order ≡ length m

pub All-of_lookup {ℓ κ} :
    {V : Type ℓ} (P : ℕ → V → Type κ) (m : HashMap V)
    → HasUniqueKeys m
    → ((k : ℕ) (v : V) → lookup k m ≡ some v → P k v)
    → All (λ e. P e.0 e.1) m
unfolding lookup
All-of_lookup P [] u h = tt
All-of_lookup P ((k, v) ∷ m) u h = (
  h k v (rw (==-refl k)),
  All-of_lookup P m u.1 (λ j w found. h j w (elim (Bool-cases (k == j)) [
    | inl same ↦ ground (arith, ==_iff k j)
    | inr other ↦ rw (other, found)
  ])),
)

pub order-IsPlaced :
    (cap : ℕ) (order m : HashMap RingBuffer)
    → IsIteration order m
    → All (λ e. IsPlaced cap e.1) m
    → All (λ e. IsPlaced cap e.1) order
order-IsPlaced cap order m i placed =
    All-of_lookup (λ k. IsPlaced cap) order i.keys
      (λ k b found. All-lookup (IsPlaced cap) k m placed (sym (i.same k) ∙ found))

pub dump_keys-bytes :
    (cap : ℕ) (m : Memory) (order : HashMap RingBuffer)
    → All (λ e. IsPlaced cap e.1) order
    → dump_keys m order ≡ keys_bytes (logs_of m order)
unfolding dump_keys
dump_keys-bytes cap m [] placed = refl
dump_keys-bytes cap m ((uid, b) ∷ order) placed = rw (
  length-newest m b 0 b.count,
  dump_records_lem m b placed.0.ring,
  dump_keys-bytes cap m order placed.1,
)

pub lookup-logs_of :
    (m : Memory) (order : HashMap RingBuffer) (u : ℕ)
    → lookup u (logs_of m order) ≡ view_of m (lookup u order)
unfolding lookup
lookup-logs_of m [] u = refl
lookup-logs_of m ((uid, b) ∷ order) u = elim (Bool-cases (uid == u)) [
  | inl same ↦ rw same
  | inr other ↦ rw (other, lookup-logs_of m order u)
]

pub length-logs_of :
    (m : Memory) (order : HashMap RingBuffer) → length (logs_of m order) ≡ length order
length-logs_of m [] = refl
length-logs_of m (e ∷ order) = ap suc (length-logs_of m order)

pub logs_of-HasUniqueKeys :
    (m : Memory) (order : HashMap RingBuffer)
    → HasUniqueKeys order
    → HasUniqueKeys (logs_of m order)
logs_of-HasUniqueKeys m [] u = tt
logs_of-HasUniqueKeys m ((uid, b) ∷ order) u =
    (lookup-logs_of m order uid ∙ ap (view_of m) u.0, logs_of-HasUniqueKeys m order u.1)
