-- ===== src/Spsc/Fifo.antt =====
-- The queue against a list.
use native.Mathlib.Nat.{pow-le-pow_right}
use lloogg.Prelude.{
  ◌⊎◌, ℕ, zero, suc, ◌+◌, ◌%◌, ◌^◌, ◌≤◌, ◌<◌, ◌≡◌, refl, sym, ap, ap₂, ◌∙◌, inl, inr, Bool, true,
  false, Option, none, some, List, [], ◌∷◌, ◌++◌, arith, length, leb, leb→gt, ==-false_of_ne,
  ==-refl, ◌==◌, Bool-cases, if◌then◌else◌,
}
use lloogg.Spsc.{SpscQueue, slot, queued, push, pop}
use lloogg.Spsc.Counter.{mod_apart, mod_next, mod_counter, slot-mask}

module _ {A : Type 0} where
  -- `n` items from the position `from` on.
  abbrev pub items : (ℕ → A) → ℕ → ℕ → ℕ → List A
  items buf cap from zero = []
  items buf cap from (suc n) = buf (from % cap) ∷ items buf cap (from + 1) n

  -- The items of a queue, the oldest one first.
  abbrev pub contents : ℕ → SpscQueue A → List A
  contents cap q = items q.buf cap q.tail (queued q)

  abbrev pub fifo_push : ℕ → List A → A → Bool × List A
  fifo_push cap xs x = if leb cap (length xs) then (false, xs) else (true, xs ++ x ∷ [])

  abbrev pub fifo_pop : List A → Option A × List A
  fifo_pop [] = (none, [])
  fifo_pop (x ∷ xs) = (some x, xs)

  -- The counters of a queue of capacity `2 ^ k`.
  pub record IsQueue (k : ℕ) (q : SpscQueue A) : Type 0 where
    pub small : k < 64
    pub head : q.head < 2 ^ 64
    pub tail : q.tail < 2 ^ 64
    pub room : queued q ≤ 2 ^ k

  length-items : (buf : ℕ → A) (cap from n : ℕ) → length (items buf cap from n) ≡ n
  length-items buf cap from zero = refl
  length-items buf cap from (suc n) = ap suc (length-items buf cap (from + 1) n)

  items-append :
      (buf : ℕ → A) (cap from n : ℕ)
      → items buf cap from (n + 1) ≡ items buf cap from n ++ buf ((from + n) % cap) ∷ []
  items-append buf cap from zero = let e : from + 0 ≡ from = omega arith in rw e
  items-append buf cap from (suc n) =
      let e : suc n + 1 ≡ suc (n + 1) = omega arith in
      let p : from + 1 + n ≡ from + suc n = omega arith in
      rw e (ap (λ t. buf (from % cap) ∷ t) (items-append buf cap (from + 1) n) ∙ rw p)

  items-cong :
      (buf : ℕ → A) (cap a b n : ℕ) → a % cap ≡ b % cap → items buf cap a n ≡ items buf cap b n
  items-cong buf cap a b zero e = refl
  items-cong buf cap a b (suc n) e =
      ap₂ ◌∷◌ (ap buf e) (items-cong buf cap (a + 1) (b + 1) n (mod_next a b cap e))

  -- A write to the slot behind `n` items changes none of them.
  items-write :
      (buf : ℕ → A) (cap from n k : ℕ) (x : A)
      → n + k < cap
      → items (λ i. if i == (from + n + k) % cap then x else buf i) cap from n
        ≡ items buf cap from n
  items-write buf cap from zero k x h = refl
  items-write buf cap from (suc n) k x h =
      let p : from + 1 + n + k ≡ from + suc n + k = omega arith in
      let far : from + suc n + k ≡ from + (suc n + k) = omega arith in
      let other : (from % cap == (from + suc n + k) % cap) ≡ false =
        ==-false_of_ne (from % cap) ((from + suc n + k) % cap) (λ e.
          mod_apart from (suc n + k) cap (omega arith) h (ap (λ t. t % cap) (sym far) ∙ sym e)) in
      let rest : items (λ i. if i == (from + 1 + n + k) % cap then x else buf i) cap (from + 1) n
          ≡ items buf cap (from + 1) n =
        items-write buf cap (from + 1) n k x (omega (arith, h)) in
      rw other (ap (λ t. buf (from % cap) ∷ t) (rw p at rest))

  module _ (k : ℕ) (q : SpscQueue A) (v : IsQueue k q) where
    queued_bounds : queued q < 2 ^ 64
    unfolding queued
    queued_bounds = omega arith

    -- The slot of `head` is the one behind the items.
    head_place : q.head % 2 ^ k ≡ (q.tail + queued q) % 2 ^ k
    unfolding queued
    head_place =
        let wrapped : q.head ≡ (q.tail + queued q) % 2 ^ 64 = omega (arith, v.head, v.tail) in
        ap (λ t. t % 2 ^ k) wrapped ∙ mod_counter (q.tail + queued q) k v.small

    abbrev pushed : A → SpscQueue A
    pushed x = record q {
      buf = λ i. if i == slot (2 ^ k) q.head then x else q.buf i;
      head = (q.head + 1) % 2 ^ 64;
    }

    abbrev popped : SpscQueue A
    popped = record q { tail = (q.tail + 1) % 2 ^ 64 }

    small_capacity : 2 ^ k ≤ 2 ^ 63
    small_capacity =
        let le : k ≤ 63 = omega (arith, v.small) in pow-le-pow_right {n = 2} (omega arith) le

    queued-pushed : (x : A) → queued q < 2 ^ k → queued (pushed x) ≡ queued q + 1
    unfolding queued
    queued-pushed x less = omega (arith, v.head, v.tail, small_capacity, less)

    queued-popped : (q.tail == q.head) ≡ false → queued q ≡ queued popped + 1
    unfolding queued
    queued-popped more = ground (arith, v.head, v.tail)

    queued_empty : (q.tail == q.head) ≡ true → queued q ≡ 0
    unfolding queued
    queued_empty empty = ground (arith, v.head, v.tail)

    contents-pushed :
        (x : A) → queued q < 2 ^ k → contents (2 ^ k) (pushed x) ≡ contents (2 ^ k) q ++ x ∷ []
    contents-pushed x less =
        let n : ℕ = queued q in
        let place : slot (2 ^ k) q.head ≡ (q.tail + n) % 2 ^ k = slot-mask q.head k ∙ head_place in
        let at : q.tail + n + 0 ≡ q.tail + n = omega arith in
        let buf' : ℕ → A = λ i. if i == (q.tail + n) % 2 ^ k then x else q.buf i in
        let kept : items buf' (2 ^ k) q.tail n ≡ items q.buf (2 ^ k) q.tail n =
          rw at at (items-write q.buf (2 ^ k) q.tail n 0 x (omega (arith, less))) in
        let last : buf' ((q.tail + n) % 2 ^ k) ≡ x = rw (==-refl ((q.tail + n) % 2 ^ k)) in
        ap
          (λ (p : ℕ). items (λ i. if i == p then x else q.buf i) (2 ^ k) q.tail (queued (pushed x)))
          place
        ∙ ap (items buf' (2 ^ k) q.tail) (queued-pushed x less)
        ∙ (items-append buf' (2 ^ k) q.tail n ∙ ap₂ (λ xs y. xs ++ y ∷ []) kept last)

    contents-popped :
        (q.tail == q.head) ≡ false
        → contents (2 ^ k) q ≡ q.buf (slot (2 ^ k) q.tail) ∷ contents (2 ^ k) popped
    contents-popped more =
        let n : ℕ = queued popped in
        let one_more : n + 1 ≡ suc n = omega arith in
        ap (items q.buf (2 ^ k) q.tail) (queued-popped more ∙ one_more)
        ∙ ap₂ ◌∷◌ (ap q.buf (sym (slot-mask q.tail k))) (
            items-cong q.buf (2 ^ k) (q.tail + 1) ((q.tail + 1) % 2 ^ 64) n
              (sym (mod_counter (q.tail + 1) k v.small)))

    -- On a queue of `2 ^ k` slots whose counters are in step, a push is that of a first-in first-out
    -- list of at most `2 ^ k` items: a full queue refuses the item and stays as it is.
    pub push_fifo :
        (x : A)
        → ((push (2 ^ k) q x).0, contents (2 ^ k) (push (2 ^ k) q x).1)
          ≡ fifo_push (2 ^ k) (contents (2 ^ k) q) x
    unfolding push
    push_fifo x = elim (Bool-cases (leb (2 ^ k) (queued q))) [
      | inl full ↦ rw (length-items q.buf (2 ^ k) q.tail (queued q), full)
      | inr room ↦
          rw (length-items q.buf (2 ^ k) q.tail (queued q), room)
            (ap (λ xs. (true, xs)) (contents-pushed x (leb→gt (2 ^ k) (queued q) room)))
    ]

    -- On a queue of `2 ^ k` slots whose counters are in step, a pop is that of a first-in first-out
    -- list: it takes the oldest item, or none from an empty queue.
    pub pop_fifo :
        ((pop (2 ^ k) q).0, contents (2 ^ k) (pop (2 ^ k) q).1) ≡ fifo_pop (contents (2 ^ k) q)
    unfolding pop
    pop_fifo = elim (Bool-cases (q.tail == q.head)) [
      | inl empty ↦ rw (empty, queued_empty empty)
      | inr more ↦ rw (more, contents-popped more)
    ]

    pub pop-IsQueue : IsQueue k (pop (2 ^ k) q).1
    unfolding pop
    pop-IsQueue = elim (Bool-cases (q.tail == q.head)) [
      | inl empty ↦ rw empty v
      | inr more ↦ rw more (record {
        small = v.small;
        head = v.head;
        tail = omega arith;
        room = omega (arith, v.room, queued-popped more);
      })
    ]

    pub push-IsQueue : (x : A) → IsQueue k (push (2 ^ k) q x).1
    unfolding push
    push-IsQueue x = elim (Bool-cases (leb (2 ^ k) (queued q))) [
      | inl full ↦ rw full v
      | inr room ↦ rw room (record {
        small = v.small;
        head = omega arith;
        tail = v.tail;
        room = omega (
          arith,
          leb→gt (2 ^ k) (queued q) room,
          queued-pushed x (leb→gt (2 ^ k) (queued q) room),
        );
      })
    ]

    -- A pop finds nothing, or leaves one item less.
    pub pop-cases :
        ((pop (2 ^ k) q).0 ≡ none)
        ⊎ ((x : A) × ((pop (2 ^ k) q).0 ≡ some x) × (queued q ≡ queued (pop (2 ^ k) q).1 + 1))
    unfolding pop
    pop-cases = elim (Bool-cases (q.tail == q.head)) [
      | inl empty ↦ rw empty (inl refl)
      | inr more ↦ rw more (inr (_, refl, queued-popped more))
    ]

    pub length-contents : length (contents (2 ^ k) q) ≡ queued q
    length-contents = length-items q.buf (2 ^ k) q.tail (queued q)
