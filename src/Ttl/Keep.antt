-- ===== src/Ttl/Keep.antt =====
-- The queues of src/ttl.rs and the store stay valid, and the loops end, on both sides of the queues.
use lloogg.Prelude.{
  ℕ, zero, suc, ◌+◌, ◌-◌, ◌*◌, ◌%◌, ◌^◌, ◌<◌, ◌≡◌, refl, ◌∙◌, inl, inr, some, [], ◌∷◌, arith,
  Option-cases, Bool-cases, ltb, ◌==◌, if◌then◌else◌, Bool, true, false,
}
use lloogg.Constants.{candidates_in_cap, expired_keys_cap, ttl_collect_interval_s}
use lloogg.Ring.{RingBuffer}
use lloogg.HashMap.{HashMap, lookup}
use lloogg.Store.{Store, get}
use lloogg.Store.View.{IsValid}
use lloogg.Store.Erase.{erase_lem}
use lloogg.Spsc.{SpscQueue, queued, push, pop}
use lloogg.Spsc.Fifo.{IsQueue, pop-IsQueue, push-IsQueue, pop-cases}
use lloogg.Ttl.{
  Candidate, drain_batch, evict, drain_expired_keys, push_candidates, collect_ttl_candidates,
}

pub evict-IsValid :
    {slots : ℕ} (s : Store) (c : Candidate)
    → IsValid slots s
    → IsValid slots (evict s c) × ((evict s c).capacity ≡ s.capacity)
unfolding evict get
evict-IsValid s c v = elim (Option-cases (lookup c.uid s.map_of)) [
  | inl absent ↦ rw (absent, evict) (v, refl)
  | inr (b, found) ↦ elim (Bool-cases (b.last_write_ts == c.last_write_ts)) [
    | inl same ↦ let e = erase_lem c.uid v in rw (found, same, evict) (e.valid, e.capacity)
    | inr later ↦ rw (found, later, evict) (v, refl)
  ]
]

pub drain_expired_keys-IsValid :
    {slots : ℕ} (fuel : ℕ) (q : SpscQueue Candidate) (s : Store)
    → IsQueue 12 q
    → IsValid slots s
    → queued q < fuel
    → (q' : SpscQueue Candidate) × (s' : Store) × (drain_expired_keys fuel q s ≡ some (q', s'))
      × IsQueue 12 q'
      × IsValid slots s'
      × (s'.capacity ≡ s.capacity)
unfolding drain_expired_keys
drain_expired_keys-IsValid zero q s i v h = absurd (omega arith)
drain_expired_keys-IsValid (suc fuel) q s i v h =
    let next = (pop expired_keys_cap q).1 in
    let i' : IsQueue 12 next = pop-IsQueue 12 q i in
    elim (pop-cases 12 q i) [
      | inl over ↦ (next, s, rw (over, drain_expired_keys), i', v, refl)
      | inr (c, took, less) ↦
          let (v', same) = evict-IsValid s c v in
          let (q', s', ran, kept, valid, same') =
            drain_expired_keys-IsValid fuel next (evict s c) i' v' (omega (arith, h, less)) in
          (q', s', rw (took, drain_expired_keys) ran, kept, valid, same' ∙ same)
    ]

pub push_candidates-IsQueue :
    (order : HashMap RingBuffer) (q : SpscQueue Candidate)
    → IsQueue 13 q
    → IsQueue 13 (push_candidates order q)
unfolding push_candidates
push_candidates-IsQueue [] q i = i
push_candidates-IsQueue ((uid, buf) ∷ order) q i =
    push_candidates-IsQueue order _ (push-IsQueue 13 q i _)

pub collect-IsQueue :
    (now last : ℕ) (order : HashMap RingBuffer) (q : SpscQueue Candidate)
    → IsQueue 13 q
    → IsQueue 13 (collect_ttl_candidates now last order q).0
unfolding collect_ttl_candidates
collect-IsQueue now last order q i =
    elim (Bool-cases
      (ltb ((now + 2 ^ 64 - last) % 2 ^ 64) (ttl_collect_interval_s * 1_000_000_000))) [
        | inl early ↦ rw early i
        | inr due ↦ rw due (push_candidates-IsQueue order q i)
      ]

forward-IsQueue :
    (b : Bool) (q : SpscQueue Candidate) (c : Candidate)
    → IsQueue 12 q
    → IsQueue 12 (if b then (push expired_keys_cap q c).1 else q)
forward-IsQueue true q c i = push-IsQueue 12 q i c
forward-IsQueue false q c i = i

-- The worker ends its batch, for any clock, and keeps both queues in step.
pub drain_batch-IsQueue :
    (fuel : ℕ) (now : ℕ → ℕ) (at ttl_ns : ℕ) (q r : SpscQueue Candidate)
    → IsQueue 13 q
    → IsQueue 12 r
    → queued q < fuel
    → (q' r' : SpscQueue Candidate) × (drain_batch fuel now at ttl_ns q r ≡ some (q', r'))
      × IsQueue 13 q'
      × IsQueue 12 r'
unfolding drain_batch
drain_batch-IsQueue zero now at ttl_ns q r i j h = absurd (omega arith)
drain_batch-IsQueue (suc fuel) now at ttl_ns q r i j h =
    let next = (pop candidates_in_cap q).1 in
    let i' : IsQueue 13 next = pop-IsQueue 13 q i in
    elim (pop-cases 13 q i) [
      | inl over ↦ (next, r, rw (over, drain_batch), i', j)
      | inr (c, took, less) ↦
          let (q', r', ran, i'', j') =
            drain_batch-IsQueue fuel now (at + 1) ttl_ns next _ i'
              (forward-IsQueue (ltb ttl_ns (now at - c.last_write_ts)) r c j)
              (omega (arith, h, less)) in
          (q', r', rw (took, drain_batch) ran, i'', j')
    ]
