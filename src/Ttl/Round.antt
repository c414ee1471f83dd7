-- ===== src/Ttl/Round.antt =====
-- A whole round of eviction: the candidates of src/event_loop.rs, the worker of src/ttl.rs, and the
-- eviction of src/event_loop.rs.
use lloogg.Prelude.{
  ℕ, suc, ◌+◌, ◌-◌, ◌*◌, ◌^◌, ◌≤◌, ◌<◌, ◌≡◌, refl, ap, ◌∙◌, inl, inr, none, some, List, [], ◌∷◌,
  arith, Option-cases, Bool-cases, ltb, ◌==◌, ==_iff, ==-refl, if◌then◌else◌, false,
}
use lloogg.Constants.{candidates_in_cap, expired_keys_cap, ttl_collect_interval_s}
use lloogg.Ring.{RingBuffer}
use lloogg.HashMap.{HashMap, HasUniqueKeys, lookup}
use lloogg.Store.{Store, len}
use lloogg.Store.Spec.{UserLog}
use lloogg.Store.View.{IsValid, view}
use lloogg.Snapshot.Keys.{IsIteration}
use lloogg.Spsc.{SpscQueue, queued}
use lloogg.Spsc.Fifo.{IsQueue, contents}
use lloogg.Ttl.{Candidate, drain_batch, drain_expired_keys, push_candidates, collect_ttl_candidates}
use lloogg.Ttl.Collect.{candidates, collected, passed_on}
use lloogg.Ttl.Evict.{stale, evicted, drain_expired_keys_lem}
use lloogg.Ttl.Keep.{push_candidates-IsQueue, drain_batch-IsQueue}
use lloogg.Ttl.Batch.{forwarded}

-- The log of a user at the time `now`, when a log whose last push is more than `ttl_ns` ago is gone.
abbrev pub unless_expired : (ttl_ns now : ℕ) → UserLog → UserLog
unless_expired ttl_ns now none = none
unless_expired ttl_ns now (some (records, ts)) =
    if ltb ttl_ns (now - ts) then none else some (records, ts)

module _ (now ttl_ns : ℕ) where
  abbrev late_ones : ℕ → HashMap RingBuffer → List Candidate
  late_ones i order = forwarded (λ j. now) i ttl_ns (candidates order)

  stale-absent :
      (i : ℕ) (order : HashMap RingBuffer) (u ts : ℕ)
      → lookup u order ≡ none
      → stale (late_ones i order) u ts ≡ false
  unfolding lookup
  stale-absent i [] u ts h = refl
  stale-absent i ((uid, b) ∷ order) u ts h = elim (Bool-cases (uid == u)) [
    | inl same ↦ absurd (ground arith)
    | inr other ↦
        let absent : lookup u order ≡ none = ground arith in
        let rest : stale (late_ones (i + 1) order) u ts ≡ false =
          stale-absent (i + 1) order u ts absent in
        elim (Bool-cases (ltb ttl_ns (now - b.last_write_ts))) [
          | inl late ↦ rw (late, other) rest
          | inr early ↦ rw early rest
        ]
  ]

  stale-found :
      (i : ℕ) (order : HashMap RingBuffer) (u : ℕ) {b : RingBuffer}
      → HasUniqueKeys order
      → lookup u order ≡ some b
      → stale (late_ones i order) u b.last_write_ts ≡ ltb ttl_ns (now - b.last_write_ts)
  unfolding lookup
  stale-found i [] u k h = absurd (cc)
  stale-found i ((uid, w) ∷ order) u {b} k h = elim (Bool-cases (uid == u)) [
    | inl same ↦
        let found : w ≡ b = ground arith in
        let absent : lookup u order ≡ none = ground (arith, ==_iff uid u, k.0) in
        let rest : stale (late_ones (i + 1) order) u b.last_write_ts ≡ false =
          stale-absent (i + 1) order u b.last_write_ts absent in
        rw found (elim (Bool-cases (ltb ttl_ns (now - b.last_write_ts))) [
          | inl late ↦ rw (late, same, ==-refl b.last_write_ts)
          | inr early ↦ rw early rest
        ])
    | inr other ↦
        let later : lookup u order ≡ some b = ground arith in
        let rest = stale-found (i + 1) order u {b = b} k.1 later in
        elim (Bool-cases (ltb ttl_ns (now - w.last_write_ts))) [
          | inl late ↦ rw (late, other) rest
          | inr early ↦ rw early rest
        ]
  ]

  evicted-late_ones :
      (s : Store) (order : HashMap RingBuffer) (u : ℕ)
      → IsIteration order s.map_of
      → evicted (late_ones 0 order) u (view s u) ≡ unless_expired ttl_ns now (view s u)
  evicted-late_ones s order u i = elim (Option-cases (lookup u s.map_of)) [
    | inl absent ↦ rw absent
    | inr (b, found) ↦ rw (found, stale-found 0 order u {b = b} i.keys (i.same u ∙ found))
  ]

-- A round of eviction removes exactly the logs whose last push is more than the TTL ago on the worker's
-- clock, and keeps every other log as it is: the event loop collects the candidates in any order of the
-- map, the worker passes on the late ones, and the event loop drains them, without a push in between.
-- The store is valid and has at most as many users as the queue to the event loop has slots, both queues
-- are empty, and the interval of the collection has gone by.
pub ttl_round_lem :
    {slots : ℕ} (s : Store) (order : HashMap RingBuffer) (now last clock ttl_ns : ℕ)
    (q r : SpscQueue Candidate)
    → IsValid slots s
    → IsIteration order s.map_of
    → IsQueue 13 q
    → IsQueue 12 r
    → contents candidates_in_cap q ≡ []
    → contents expired_keys_cap r ≡ []
    → len s ≤ expired_keys_cap
    → last + ttl_collect_interval_s * 1_000_000_000 ≤ now
    → now < 2 ^ 64
    → (q' r' r'' : SpscQueue Candidate) × (s' : Store) × (drain_batch
          (suc candidates_in_cap)
          (λ i. clock)
          0
          ttl_ns
          (collect_ttl_candidates now last order q).0
          r
        ≡ some (q', r'))
      × (drain_expired_keys (suc expired_keys_cap) r' s ≡ some (r'', s'))
      × IsValid slots s'
      × ((u : ℕ) → view s' u ≡ unless_expired ttl_ns clock (view s u))
ttl_round_lem {slots} s order now last clock ttl_ns q r v i iq ir empty_q empty_r few due word =
    let full = push_candidates order q in
    let i1 : IsQueue 13 full = push_candidates-IsQueue order q iq in
    let fuel : queued full < suc candidates_in_cap = omega (arith, i1.room) in
    let (q', r', ran, iq', ir') =
      drain_batch-IsQueue (suc candidates_in_cap) (λ j. clock) 0 ttl_ns full r i1 ir fuel in
    let passed : contents expired_keys_cap r' ≡ late_ones clock ttl_ns 0 order =
      passed_on order clock ttl_ns q r iq ir empty_q empty_r (omega (arith, i.size, few)) ran in
    let (r'', s', drained, gone, valid, logs) =
      drain_expired_keys_lem {slots = slots} (suc expired_keys_cap) r' s ir' v
        (omega (arith, ir'.room)) in
    (
      q',
      r',
      r'',
      s',
      ap (λ t. drain_batch (suc candidates_in_cap) (λ j. clock) 0 ttl_ns t r)
            (collected now last order q due word)
          ∙ ran,
      drained,
      valid,
      λ u.
          logs u
          ∙ ap (λ cs. evicted cs u (view s u)) passed
          ∙ evicted-late_ones clock ttl_ns s order u i,
    )
