-- ===== src/Ttl/Evict.antt =====
-- The eviction and the logs of the store.
use lloogg.Prelude.{
  ℕ, zero, suc, ◌<◌, ◌≡◌, refl, sym, ap, ◌∙◌, inl, inr, Bool, true, false, none, some, List, [],
  ◌∷◌, arith, ◌==◌, ◌&&◌, ◌||◌, if◌then◌else◌, ==_iff, Bool-cases, Option-cases, length,
}
use lloogg.Record.{Record}
use lloogg.HashMap.{lookup}
use lloogg.Ring.Newest.{contents}
use lloogg.Store.{Store, get, erase}
use lloogg.Store.Spec.{UserLog}
use lloogg.Store.View.{IsValid, view}
use lloogg.Store.Erase.{Erased, erase_lem}
use lloogg.Constants.{expired_keys_cap}
use lloogg.Spsc.{SpscQueue, queued, pop}
use lloogg.Spsc.Fifo.{
  contents as queue_contents, IsQueue, pop_fifo, pop-IsQueue, length-contents, fifo_pop,
}
use lloogg.Ttl.{Candidate, evict, drain_expired_keys}

-- Some candidate names the user with the time of the last push.
abbrev pub stale : List Candidate → ℕ → ℕ → Bool
stale [] u ts = false
stale (c ∷ cs) u ts = (c.uid == u && c.last_write_ts == ts) || stale cs u ts

-- The log of user `u` after the eviction.
abbrev pub evicted : List Candidate → ℕ → UserLog → UserLog
evicted cs u none = none
evicted cs u (some (records, ts)) = if stale cs u ts then none else some (records, ts)

evicted-cons :
    (c : Candidate) (cs : List Candidate) (u : ℕ) (log : UserLog)
    → evicted cs u (evicted (c ∷ []) u log) ≡ evicted (c ∷ cs) u log
evicted-cons c cs u none = refl
evicted-cons c cs u (some (records, ts)) = ground arith

-- A candidate of another user, or of another push, changes nothing.
evicted_other :
    (c : Candidate) (u : ℕ) (log : UserLog) → (c.uid == u) ≡ false → evicted (c ∷ []) u log ≡ log
evicted_other c u none h = refl
evicted_other c u (some (records, ts)) h = rw h

evicted_newer :
    (c : Candidate) (u : ℕ) (records : List Record) (ts : ℕ)
    → (c.last_write_ts == ts) ≡ false
    → evicted (c ∷ []) u (some (records, ts)) ≡ some (records, ts)
evicted_newer c u records ts h = ground arith

evicted_same :
    (c : Candidate) (u : ℕ) (records : List Record) (ts : ℕ)
    → (c.uid == u) ≡ true
    → (c.last_write_ts == ts) ≡ true
    → evicted (c ∷ []) u (some (records, ts)) ≡ none
evicted_same c u records ts h k = rw (h, k)

-- The guard of the code, at a user with a buffer and at one without.
pub evict-view :
    {slots : ℕ} (s : Store) (c : Candidate)
    → IsValid slots s
    → IsValid slots (evict s c) × ((u : ℕ) → view (evict s c) u ≡ evicted (c ∷ []) u (view s u))
unfolding evict get
evict-view {slots} s c v = elim (Option-cases (lookup c.uid s.map_of)) [
  | inl absent ↦
      rw (absent, evict)
        (
          v,
          λ u. elim (Bool-cases (c.uid == u)) [
            | inl own ↦
                let gone : lookup u s.map_of ≡ none = rw (← (==_iff c.uid u).0 own) absent in
                rw gone
            | inr other ↦ sym (evicted_other c u (view s u) other)
          ],
        )
  | inr (b, found) ↦ elim (Bool-cases (b.last_write_ts == c.last_write_ts)) [
    | inl same ↦
        let e : Erased slots s c.uid (erase s c.uid) = erase_lem c.uid v in
        rw (found, same, evict)
          (
            e.valid,
            λ u. e.logs u ∙ elim (Bool-cases (c.uid == u)) [
              | inl own ↦
                  let here : lookup u s.map_of ≡ some b = rw (← (==_iff c.uid u).0 own) found in
                  rw (own, here)
                    (sym (
                      evicted_same c u (contents s.mem b) b.last_write_ts own
                        (ground (arith, same))))
              | inr other ↦ rw other (sym (evicted_other c u (view s u) other))
            ],
          )
    | inr newer ↦
        rw (found, newer, evict)
          (
            v,
            λ u. elim (Bool-cases (c.uid == u)) [
              | inl own ↦
                  let here : lookup u s.map_of ≡ some b = rw (← (==_iff c.uid u).0 own) found in
                  rw here (
                    sym (
                      evicted_newer c u (contents s.mem b) b.last_write_ts (ground (arith, newer))))
              | inr other ↦ sym (evicted_other c u (view s u) other)
            ],
          )
  ]
]

-- What a pop does, for each content of the queue.
pub data Popped (q : SpscQueue Candidate) : List Candidate → Type 0 where
  at_end :
      (pop expired_keys_cap q).0 ≡ none
      → queue_contents expired_keys_cap (pop expired_keys_cap q).1 ≡ []
      → Popped q []
  one :
      {c : Candidate} {cs : List Candidate}
      → (pop expired_keys_cap q).0 ≡ some c
      → queue_contents expired_keys_cap (pop expired_keys_cap q).1 ≡ cs
      → Popped q (c ∷ cs)

pub Popped-of :
    (q : SpscQueue Candidate) (cs : List Candidate)
    → ((pop expired_keys_cap q).0, queue_contents expired_keys_cap (pop expired_keys_cap q).1)
      ≡ fifo_pop cs
    → Popped q cs
Popped-of q [] e = at_end (ap (λ p. p.0) e) (ap (λ p. p.1) e)
Popped-of q (c ∷ cs) e = one (ap (λ p. p.0) e) (ap (λ p. p.1) e)

evicted-nil : (u : ℕ) (log : UserLog) → evicted [] u log ≡ log
evicted-nil u none = refl
evicted-nil u (some (records, ts)) = refl

drain-evicted :
    {slots : ℕ} (fuel : ℕ) (q : SpscQueue Candidate) (s : Store) (cs : List Candidate)
    → IsQueue 12 q
    → IsValid slots s
    → queue_contents expired_keys_cap q ≡ cs
    → length cs < fuel
    → Popped q cs
    → (q' : SpscQueue Candidate) × (s' : Store) × (drain_expired_keys fuel q s ≡ some (q', s'))
      × (queue_contents expired_keys_cap q' ≡ [])
      × IsValid slots s'
      × ((u : ℕ) → view s' u ≡ evicted cs u (view s u))
unfolding drain_expired_keys
drain-evicted zero q s cs i v e h p = absurd (omega arith)
drain-evicted (suc fuel) q s [] i v e h (at_end over left) = (
  (pop expired_keys_cap q).1,
  s,
  rw (over, drain_expired_keys),
  left,
  v,
  λ u. sym (evicted-nil u (view s u)),
)
drain-evicted {slots} (suc fuel) q s (c ∷ cs) i v e h (one took left) =
    let next : SpscQueue Candidate = (pop expired_keys_cap q).1 in
    let i' : IsQueue 12 next = pop-IsQueue 12 q i in
    let (v', logs) = evict-view s c v in
    let (q', s', ran, empty, valid, logs') =
      drain-evicted {slots = slots} fuel next (evict s c) cs i' v' left (omega (arith, h))
        (Popped-of next cs (pop_fifo 12 next i' ∙ ap fifo_pop left)) in
    (
      q',
      s',
      rw (took, drain_expired_keys) ran,
      empty,
      valid,
      λ u. logs' u ∙ ap (evicted cs u) (logs u) ∙ evicted-cons c cs u (view s u),
    )

-- With fuel beyond the number of candidates, from a valid store and a queue whose counters are in step,
-- the eviction empties the queue, keeps the store valid, and removes exactly the logs whose last push
-- is the one that a candidate names: a user who has pushed since is kept.
pub drain_expired_keys_lem :
    {slots : ℕ} (fuel : ℕ) (q : SpscQueue Candidate) (s : Store)
    → IsQueue 12 q
    → IsValid slots s
    → queued q < fuel
    → (q' : SpscQueue Candidate) × (s' : Store) × (drain_expired_keys fuel q s ≡ some (q', s'))
      × (queue_contents expired_keys_cap q' ≡ [])
      × IsValid slots s'
      × ((u : ℕ) → view s' u ≡ evicted (queue_contents expired_keys_cap q) u (view s u))
drain_expired_keys_lem {slots} fuel q s i v h =
    drain-evicted {slots = slots} fuel q s (queue_contents expired_keys_cap q) i v refl
      (omega (arith, length-contents 12 q i, h))
      (Popped-of q (queue_contents expired_keys_cap q) (pop_fifo 12 q i))
