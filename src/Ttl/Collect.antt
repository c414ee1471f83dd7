-- ===== src/Ttl/Collect.antt =====
-- The candidates that collect_ttl_candidates of src/event_loop.rs sends to the worker of src/ttl.rs,
-- and those the worker passes on.
use lloogg.Prelude.{
  ℕ, suc, ◌+◌, ◌-◌, ◌*◌, ◌^◌, ◌≤◌, ◌<◌, ◌≡◌, refl, sym, ap, ap₂, ◌∙◌, inl, inr, some, List, [], ◌∷◌,
  ◌++◌, append_assoc, append-nil, arith, length, take, take_all, result_only, Bool-cases, ltb,
}
use lloogg.Constants.{candidates_in_cap, expired_keys_cap, ttl_collect_interval_s}
use lloogg.Ring.{RingBuffer}
use lloogg.HashMap.{HashMap}
use lloogg.Spsc.{SpscQueue, push}
use lloogg.Spsc.Fifo.{IsQueue, contents, push_fifo, push-IsQueue, length-contents}
use lloogg.Ttl.{Candidate, drain_batch, push_candidates, collect_ttl_candidates}
use lloogg.Ttl.Keep.{push_candidates-IsQueue}
use lloogg.Ttl.Batch.{forwarded, take-take_append, fifo_push-take, drain_batch_lem}

abbrev pub candidates : HashMap RingBuffer → List Candidate
candidates [] = []
candidates ((uid, b) ∷ order) =
    record { uid = uid; last_write_ts = b.last_write_ts } ∷ candidates order

pub length-candidates : (order : HashMap RingBuffer) → length (candidates order) ≡ length order
length-candidates [] = refl
length-candidates (e ∷ order) = ap suc (length-candidates order)

length-forwarded :
    (now : ℕ → ℕ) (i ttl_ns : ℕ) (cs : List Candidate)
    → length (forwarded now i ttl_ns cs) ≤ length cs
length-forwarded now i ttl_ns [] = omega arith
length-forwarded now i ttl_ns (c ∷ cs) = elim (Bool-cases (ltb ttl_ns (now i - c.last_write_ts))) [
  | inl late ↦ rw late (omega (arith, length-forwarded now (i + 1) ttl_ns cs))
  | inr early ↦ rw early (omega (arith, length-forwarded now (i + 1) ttl_ns cs))
]

pub contents-push_candidates :
    (order : HashMap RingBuffer) (q : SpscQueue Candidate)
    → IsQueue 13 q
    → contents candidates_in_cap (push_candidates order q)
      ≡ take candidates_in_cap (contents candidates_in_cap q ++ candidates order)
unfolding push_candidates
contents-push_candidates [] q i = sym (
    ap (take candidates_in_cap) (append-nil (contents candidates_in_cap q))
    ∙ take_all candidates_in_cap (contents candidates_in_cap q)
        (omega (arith, length-contents 13 q i, i.room)))
contents-push_candidates ((uid, b) ∷ order) q i =
    let c : Candidate = record { uid = uid; last_write_ts = b.last_write_ts } in
    let pushed : contents candidates_in_cap (push candidates_in_cap q c).1
        ≡ take candidates_in_cap (contents candidates_in_cap q ++ c ∷ []) =
      ap (λ p. p.1) (push_fifo 13 q i c)
      ∙ fifo_push-take candidates_in_cap (contents candidates_in_cap q) c
          (omega (arith, length-contents 13 q i, i.room)) in
    contents-push_candidates order (push candidates_in_cap q c).1 (push-IsQueue 13 q i c)
    ∙ ap (λ t. take candidates_in_cap (t ++ candidates order)) pushed
    ∙ take-take_append candidates_in_cap (contents candidates_in_cap q ++ c ∷ []) (candidates order)
    ∙ ap (take candidates_in_cap)
        (append_assoc (contents candidates_in_cap q) (c ∷ []) (candidates order))

pub collected :
    (now last : ℕ) (order : HashMap RingBuffer) (q : SpscQueue Candidate)
    → last + ttl_collect_interval_s * 1_000_000_000 ≤ now
    → now < 2 ^ 64
    → (collect_ttl_candidates now last order q).0 ≡ push_candidates order q
unfolding collect_ttl_candidates
collected now last order q due word = ground arith

-- What a pass of the worker over the collected candidates leaves for the event loop.
pub passed_on :
    (order : HashMap RingBuffer) (clock ttl_ns : ℕ) (q r : SpscQueue Candidate)
    {q' r' : SpscQueue Candidate}
    → IsQueue 13 q
    → IsQueue 12 r
    → contents candidates_in_cap q ≡ []
    → contents expired_keys_cap r ≡ []
    → length order ≤ expired_keys_cap
    → drain_batch (suc candidates_in_cap) (λ i. clock) 0 ttl_ns (push_candidates order q) r
      ≡ some (q', r')
    → contents expired_keys_cap r' ≡ forwarded (λ j. clock) 0 ttl_ns (candidates order)
passed_on order clock ttl_ns q r iq ir empty_q empty_r few ran =
    let full = push_candidates order q in
    let i1 : IsQueue 13 full = push_candidates-IsQueue order q iq in
    let size : length (candidates order) ≤ expired_keys_cap =
      omega (arith, length-candidates order, few) in
    let held : contents candidates_in_cap full ≡ candidates order =
      contents-push_candidates order q iq
      ∙ ap (λ t. take candidates_in_cap (t ++ candidates order)) empty_q
      ∙ take_all candidates_in_cap (candidates order) (omega (arith, size)) in
    result_only
      (λ p.
        contents expired_keys_cap p.1
        ≡ take expired_keys_cap (
            contents expired_keys_cap r
            ++ forwarded (λ j. clock) 0 ttl_ns (contents candidates_in_cap full)))
      (let (q1, r1, done, none_left, rest) =
          drain_batch_lem (suc candidates_in_cap) (λ j. clock) ttl_ns full r i1 ir
            (omega (arith, i1.room)) in
        ((q1, r1), done, rest))
      ran
    ∙ ap₂ (λ a b. take expired_keys_cap (a ++ forwarded (λ j. clock) 0 ttl_ns b)) empty_r held
    ∙ take_all expired_keys_cap (forwarded (λ j. clock) 0 ttl_ns (candidates order))
        (omega (arith, size, length-forwarded (λ j. clock) 0 ttl_ns (candidates order)))
