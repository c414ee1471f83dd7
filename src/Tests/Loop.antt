-- ===== src/Tests/Loop.antt =====
-- A connection that is read and written, a queue of candidates and an eviction.
use lloogg.Prelude.{
  ℕ, ◌-◌, ◌^◌, ◌≡◌, refl, ap, some, List, [], ◌++◌, arith, length, take, drop, length-take, min,
  map, All, IsByte, suc, ◌%◌, ◌∷◌, subst,
}
use lloogg.Constants.{expired_keys_cap}
use lloogg.Store.{Store}
use lloogg.Store.View.{IsValid, view}
use lloogg.Connection
use lloogg.Connection.{Connection, write_ok_response}
use lloogg.Commands.Frame
use lloogg.Spsc.{SpscQueue, queued, push, pop}
use lloogg.Spsc.Fifo.{contents, fifo_push, fifo_pop, IsQueue, push_fifo, pop_fifo}
use lloogg.Ttl.{Candidate, drain_expired_keys}
use lloogg.Ttl.Evict.{evicted, drain_expired_keys_lem}
use lloogg.EventLoop.{Sockets, got, Ended, read_loop}
use lloogg.EventLoop.Open.{IsOpen}
use lloogg.EventLoop.Receive.{IsBounded, IsEnded, read_loop_lem}
use lloogg.EventLoop.Send.{IsStream}
use lloogg.Tests.Stores.{two_slots, two_slots-IsValid}
use lloogg.Tests.Logs.{requesting}

-- A peer whose bytes are read two at a time, and that takes one byte at a time.
abbrev pub slow : Sockets (List ℕ)
slow = record {
  read = λ net fd len. (got (map (λ b. b % 256) (take (min len 2) net)), drop (min len 2) net);
  write = λ net fd bytes. (got (min 1 (length bytes)), net ++ take (min 1 (length bytes)) bytes);
}

wrapped :
    (bs : List ℕ)
    → (length (map (λ b. b % 256) bs) ≡ length bs) × All IsByte (map (λ b. b % 256) bs)
wrapped [] = (refl, tt)
wrapped (b ∷ bs) = (ap suc (wrapped bs).0, (omega arith, (wrapped bs).1))

pub slow-IsBounded : IsBounded slow
slow-IsBounded net fd len bytes e =
    let (size, small) = wrapped (take (min len 2) net) in
    let same : map (λ b. b % 256) (take (min len 2) net) ≡ bytes = ground arith in
    (
      omega (arith, length-take (min len 2) net, ap length same, size),
      subst (All IsByte) same small,
    )

abbrev pub accepted : Connection
accepted = Connection.new 2 (λ x. 0) 5

pub accepted-IsOpen : IsOpen 64 accepted
unfolding Connection.new
accepted-IsOpen = record { size = refl; room_eq = refl; bytes = omega arith; at = omega arith }

read_loop_example :
    (e : Ended) × (net' : List ℕ) × (read_loop slow 27 (Frame.encode (Frame.del 7)) 5 accepted
      ≡ some (e, net'))
    × IsEnded 64 e
unfolding Connection.new
read_loop_example =
    read_loop_lem slow 27 (Frame.encode (Frame.del 7)) 5 accepted slow-IsBounded accepted-IsOpen
      (omega arith)

pub slow-IsStream : (fd : ℕ) → IsStream slow fd (λ net. net)
slow-IsStream fd = record {
  taken = λ net bytes n e h.
      let same : min 1 (length bytes) ≡ n = ground arith in
      (omega (arith, same, h), omega (arith, same), ap (λ k. net ++ take k bytes) same);
  refused = λ net bytes e. absurd (cc);
}

abbrev answering : Connection
answering = write_ok_response (requesting (Frame.del 7))

-- A queue of four slots that is full, with a counter about to wrap around.
abbrev wrapping : SpscQueue ℕ
wrapping = record { buf = λ i. i; head = 1; tail = 2 ^ 64 - 3 }

wrapping-IsQueue : IsQueue 2 wrapping
unfolding queued
wrapping-IsQueue = record {
  small = omega arith;
  head = omega arith;
  tail = omega arith;
  room = omega arith;
}

push_fifo_example :
    ((push (2 ^ 2) wrapping 9).0, contents (2 ^ 2) (push (2 ^ 2) wrapping 9).1)
    ≡ fifo_push (2 ^ 2) (contents (2 ^ 2) wrapping) 9
push_fifo_example = push_fifo 2 wrapping wrapping-IsQueue 9

pop_fifo_example :
    ((pop (2 ^ 2) wrapping).0, contents (2 ^ 2) (pop (2 ^ 2) wrapping).1)
    ≡ fifo_pop (contents (2 ^ 2) wrapping)
pop_fifo_example = pop_fifo 2 wrapping wrapping-IsQueue

-- Two candidates for eviction.
abbrev expired : SpscQueue Candidate
expired = record { buf = λ i. record { uid = i; last_write_ts = 9 }; head = 2; tail = 0 }

expired-IsQueue : IsQueue 12 expired
unfolding queued
expired-IsQueue = record {
  small = omega arith;
  head = omega arith;
  tail = omega arith;
  room = omega arith;
}

drain_expired_keys_example :
    (q' : SpscQueue Candidate) × (s' : Store) × (drain_expired_keys 3 expired two_slots
      ≡ some (q', s'))
    × (contents expired_keys_cap q' ≡ [])
    × IsValid 2 s'
    × ((u : ℕ) → view s' u ≡ evicted (contents expired_keys_cap expired) u (view two_slots u))
unfolding queued
drain_expired_keys_example =
    drain_expired_keys_lem 3 expired two_slots expired-IsQueue two_slots-IsValid (omega arith)
