-- ===== src/Ttl/Batch.antt =====
-- What the worker of src/ttl.rs forwards, and what a round of eviction removes.
use lloogg.Prelude.{
  ℕ, zero, suc, ◌+◌, ◌-◌, ◌≤◌, ◌<◌, ◌≡◌, refl, sym, ap, ◌∙◌, inl, inr, none, some, List, [], ◌∷◌,
  ◌++◌, append_assoc, append-nil, arith, length, take, length-append, take_all, Bool-cases, ltb,
  leb, leb→le, if◌then◌else◌,
}
use lloogg.Constants.{candidates_in_cap, expired_keys_cap}
use lloogg.Spsc.{SpscQueue, queued, push, pop}
use lloogg.Spsc.Fifo.{
  IsQueue, contents, fifo_push, fifo_pop, push_fifo, pop_fifo, pop-IsQueue, push-IsQueue,
  length-contents,
}
use lloogg.Ttl.{Candidate, drain_batch}

-- The candidates whose last push is more than `ttl_ns` ago, the `i`-th clock for the first one.
abbrev pub forwarded : (now : ℕ → ℕ) (i ttl_ns : ℕ) → List Candidate → List Candidate
forwarded now i ttl_ns [] = []
forwarded now i ttl_ns (c ∷ cs) =
    if ltb ttl_ns (now i - c.last_write_ts)
    then c ∷ forwarded now (i + 1) ttl_ns cs
    else forwarded now (i + 1) ttl_ns cs

pub take-take_append :
    (n : ℕ) (xs ys : List Candidate) → take n (take n xs ++ ys) ≡ take n (xs ++ ys)
take-take_append zero xs ys = refl
take-take_append (suc n) [] ys = refl
take-take_append (suc n) (x ∷ xs) ys = ap (λ t. x ∷ t) (take-take_append n xs ys)

take-append_long : (n : ℕ) (xs ys : List Candidate) → n ≤ length xs → take n (xs ++ ys) ≡ take n xs
take-append_long zero xs ys h = refl
take-append_long (suc n) [] ys h = absurd (omega arith)
take-append_long (suc n) (x ∷ xs) ys h = ap (λ t. x ∷ t) (take-append_long n xs ys (omega arith))

-- A push into a full queue is lost.
pub fifo_push-take :
    (cap : ℕ) (xs : List Candidate) (x : Candidate)
    → length xs ≤ cap
    → (fifo_push cap xs x).1 ≡ take cap (xs ++ x ∷ [])
fifo_push-take cap xs x h = elim (Bool-cases (leb cap (length xs))) [
  | inl full ↦
      rw full
        (sym (take-append_long cap xs (x ∷ []) (leb→le cap (length xs) full) ∙ take_all cap xs h))
  | inr room ↦
      rw room (sym (take_all cap (xs ++ x ∷ []) (ground (arith, length-append xs (x ∷ []), room))))
]

contents-push :
    (r : SpscQueue Candidate) (c : Candidate)
    → IsQueue 12 r
    → contents expired_keys_cap (push expired_keys_cap r c).1
      ≡ take expired_keys_cap (contents expired_keys_cap r ++ c ∷ [])
contents-push r c j =
    ap (λ p. p.1) (push_fifo 12 r j c)
    ∙ fifo_push-take expired_keys_cap (contents expired_keys_cap r) c
        (omega (arith, length-contents 12 r j, j.room))

popped-nil :
    (q : SpscQueue Candidate)
    → IsQueue 13 q
    → contents candidates_in_cap q ≡ []
    → ((pop candidates_in_cap q).0 ≡ none)
      × (contents candidates_in_cap (pop candidates_in_cap q).1 ≡ [])
popped-nil q i e = let p = pop_fifo 13 q i ∙ ap fifo_pop e in (ap (λ p. p.0) p, ap (λ p. p.1) p)

popped-cons :
    (q : SpscQueue Candidate) {c : Candidate} {cs : List Candidate}
    → IsQueue 13 q
    → contents candidates_in_cap q ≡ c ∷ cs
    → ((pop candidates_in_cap q).0 ≡ some c)
      × (contents candidates_in_cap (pop candidates_in_cap q).1 ≡ cs)
popped-cons q i e = let p = pop_fifo 13 q i ∙ ap fifo_pop e in (ap (λ p. p.0) p, ap (λ p. p.1) p)

abbrev Batches :
    ℕ → (ℕ → ℕ) → ℕ → ℕ → SpscQueue Candidate → SpscQueue Candidate → List Candidate → Type 0
Batches fuel now at ttl_ns q r cs =
    (q' r' : SpscQueue Candidate) × (drain_batch fuel now at ttl_ns q r ≡ some (q', r'))
    × (contents candidates_in_cap q' ≡ [])
    × (contents expired_keys_cap r'
        ≡ take expired_keys_cap (contents expired_keys_cap r ++ forwarded now at ttl_ns cs))

batch_of :
    (fuel : ℕ) (now : ℕ → ℕ) (at ttl_ns : ℕ) (q r : SpscQueue Candidate) (cs : List Candidate)
    → IsQueue 13 q
    → IsQueue 12 r
    → contents candidates_in_cap q ≡ cs
    → length cs < fuel
    → Batches fuel now at ttl_ns q r cs
unfolding drain_batch
batch_of zero now at ttl_ns q r cs i j e h = absurd (omega arith)
batch_of (suc fuel) now at ttl_ns q r [] i j e h =
    let (over, left) = popped-nil q i e in
    (
      (pop candidates_in_cap q).1,
      r,
      rw (over, drain_batch),
      left,
      sym (
          ap (take expired_keys_cap) (append-nil (contents expired_keys_cap r))
          ∙ take_all expired_keys_cap (contents expired_keys_cap r)
              (omega (arith, length-contents 12 r j, j.room))),
    )
batch_of (suc fuel) now at ttl_ns q r (c ∷ cs) i j e h =
    let (took, left) = popped-cons q i e in
    let next = (pop candidates_in_cap q).1 in
    let i' : IsQueue 13 next = pop-IsQueue 13 q i in
    elim (Bool-cases (ltb ttl_ns (now at - c.last_write_ts))) [
      | inl late ↦
          let r1 = (push expired_keys_cap r c).1 in
          let (q', r', ran, empty, rest) =
            batch_of fuel now (at + 1) ttl_ns next r1 cs i' (push-IsQueue 12 r j c) left
              (omega (arith, h)) in
          (
            q',
            r',
            rw (took, late, drain_batch) ran,
            empty,
            rw late (
                rest
                ∙ ap (λ t. take expired_keys_cap (t ++ forwarded now (at + 1) ttl_ns cs))
                    (contents-push r c j)
                ∙ take-take_append expired_keys_cap (contents expired_keys_cap r ++ c ∷ [])
                    (forwarded now (at + 1) ttl_ns cs)
                ∙ ap (take expired_keys_cap) (
                    append_assoc (contents expired_keys_cap r) (c ∷ [])
                      (forwarded now (at + 1) ttl_ns cs))),
          )
      | inr early ↦
          let (q', r', ran, empty, rest) =
            batch_of fuel now (at + 1) ttl_ns next r cs i' j left (omega (arith, h)) in
          (q', r', rw (took, early, drain_batch) ran, empty, rw early rest)
    ]

-- A batch of the worker ends on fuel beyond the number of candidates, takes all of them, and passes on,
-- in order, exactly those whose last push is more than the TTL ago, as far as there is room in the queue
-- to the event loop. The counters of both queues are in step.
pub drain_batch_lem :
    (fuel : ℕ) (now : ℕ → ℕ) (ttl_ns : ℕ) (q r : SpscQueue Candidate)
    → IsQueue 13 q
    → IsQueue 12 r
    → queued q < fuel
    → (q' r' : SpscQueue Candidate) × (drain_batch fuel now 0 ttl_ns q r ≡ some (q', r'))
      × (contents candidates_in_cap q' ≡ [])
      × (contents expired_keys_cap r'
          ≡ take expired_keys_cap (
              contents expired_keys_cap r ++ forwarded now 0 ttl_ns (contents candidates_in_cap q)))
drain_batch_lem fuel now ttl_ns q r i j h =
    batch_of fuel now 0 ttl_ns q r (contents candidates_in_cap q) i j refl
      (omega (arith, length-contents 13 q i, h))
