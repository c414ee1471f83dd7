-- ===== src/EventLoop/Rounds.antt =====
-- The rounds of the event loop from a serving state.
use lloogg.Prelude.{
  ℕ, ◌+◌, ◌≤◌, ◌<◌, ◌≡◌, refl, ◌∙◌, inl, inr, some, List, [], ◌∷◌, ◌==◌, Bool-cases,
}
use lloogg.Constants.{aof_buf_size, IsCompiledN}
use lloogg.Outcome.{Outcome, done, waits, panics}
use lloogg.Store.{len}
use lloogg.Aof.{pending}
use lloogg.EventLoop.{EventLoop, Sockets}
use lloogg.EventLoop.Accept.{accept_connections}
use lloogg.EventLoop.Receive.{IsBounded}
use lloogg.EventLoop.Send.{IsStream}
use lloogg.EventLoop.Serving.{IsServing, IsHandled}
use lloogg.EventLoop.Events.{handle_read-IsHandled, handle_write-IsHandled}
use lloogg.EventLoop.Phases.{accept_connections-IsServing, prepare-IsServing}
use lloogg.EventLoop.Tick.{Event, Tick, prepare, handle_event, handle_events, tick}

-- What the sockets promise: a read returns bytes, and no more than it was asked for, and a write takes one
-- byte at least and passes on what it takes.
pub record ArePosix {S : Type 0} (sockets : Sockets S) : Type 0 where
  pub delivered : (fd : ℕ) → S → List ℕ
  pub bounded : IsBounded sockets
  pub stream : (fd : ℕ) → IsStream sockets fd (delivered fd)

module _ {S : Type 0} {slots n : ℕ} (c : IsCompiledN n) (sockets : Sockets S)
    (posix : ArePosix sockets) where
  pub handle_event-IsHandled :
      (e : Event) (l : EventLoop S)
      → IsServing slots n l
      → (o : Outcome (EventLoop S)) × (handle_event sockets n e l ≡ some o) × IsHandled slots n l o
  unfolding handle_event
  handle_event-IsHandled e l h = elim (Bool-cases (e.fd == l.listen_fd)) [
    | inl listening ↦ (
      done (accept_connections n e.accepted l),
      rw listening,
      accept_connections-IsServing e.accepted l h,
    )
    | inr other ↦ elim (Bool-cases e.is_readable) [
      | inl reads ↦
          let (o, ran, k) = handle_read-IsHandled c sockets e.writes e.now e.fd l posix.bounded h in
          (o, rw (other, reads) ran, k)
      | inr no_read ↦ elim (Bool-cases e.is_writable) [
        | inl writes ↦
            let (o, ran, k) =
              handle_write-IsHandled c sockets e.fd l (posix.delivered e.fd) (posix.stream e.fd)
                h in
            (o, rw (other, no_read, writes) ran, k)
        | inr no_write ↦ (done l, rw (other, no_read, no_write), h)
      ]
    ]
  ]

-- How the events of a round end: the event loop serves on, or after some of them, which it has handled,
-- it waits because the ring has no room for an entry, or panics because a new user finds no slot.
abbrev pub IsRound : {S : Type 0} → ℕ → ℕ → Sockets S → EventLoop S → Outcome (EventLoop S) → Type 0
IsRound slots n sockets l (done l') = IsServing slots n l'
IsRound {S} slots n sockets l waits =
    (before : List Event) × (m : EventLoop S) × (handle_events sockets n before l ≡ some (done m))
    × IsServing slots n m
    × (aof_buf_size < pending m.aof + 32)
IsRound {S} slots n sockets l panics =
    (before : List Event) × (m : EventLoop S) × (handle_events sockets n before l ≡ some (done m))
    × IsServing slots n m
    × (slots ≤ len m.store)

module _ {S : Type 0} (slots n : ℕ) (sockets : Sockets S) where
  handle_events-done :
      (e : Event) (es : List Event) (l : EventLoop S) {m : EventLoop S}
      → handle_event sockets n e l ≡ some (done m)
      → handle_events sockets n (e ∷ es) l ≡ handle_events sockets n es m
  unfolding handle_events
  handle_events-done e es l ran = rw (ran, handle_events)

  -- The first event, and the events behind it.
  IsRound-cons :
      (e : Event) (l m : EventLoop S) (o : Outcome (EventLoop S))
      → handle_event sockets n e l ≡ some (done m)
      → IsRound slots n sockets m o
      → IsRound slots n sockets l o
  IsRound-cons e l m (done l') ran r = r
  IsRound-cons e l m waits ran (before, k, handled, h, short) =
      (e ∷ before, k, handle_events-done e before l ran ∙ handled, h, short)
  IsRound-cons e l m panics ran (before, k, handled, h, short) =
      (e ∷ before, k, handle_events-done e before l ran ∙ handled, h, short)

  handle_events-nil : (l : EventLoop S) → handle_events sockets n [] l ≡ some (done l)
  unfolding handle_events
  handle_events-nil l = refl

  abbrev Rounds : List Event → EventLoop S → Type 0
  Rounds es l =
      (o : Outcome (EventLoop S)) × (handle_events sockets n es l ≡ some o)
      × IsRound slots n sockets l o

  -- The events behind the first are handled from where it left the event loop.
  Rounds-cons :
      (e : Event) (es : List Event) (l : EventLoop S) (first : Outcome (EventLoop S))
      → handle_event sockets n e l ≡ some first
      → IsServing slots n l
      → IsHandled slots n l first
      → ((m : EventLoop S) → IsServing slots n m → Rounds es m)
      → Rounds (e ∷ es) l
  unfolding handle_events
  Rounds-cons e es l (done m) ran h k rest =
      let (o, handled, r) = rest m k in
      (o, handle_events-done e es l ran ∙ handled, IsRound-cons e l m o ran r)
  Rounds-cons e es l waits ran h k rest =
      (waits, rw (handle_events, ran), ([], l, handle_events-nil l, h, k))
  Rounds-cons e es l panics ran h k rest =
      (panics, rw (handle_events, ran), ([], l, handle_events-nil l, h, k))

module _ {S : Type 0} {slots n : ℕ} (c : IsCompiledN n) (sockets : Sockets S)
    (posix : ArePosix sockets) where
  handle_events-IsRound :
      (es : List Event) (l : EventLoop S) → IsServing slots n l → Rounds slots n sockets es l
  handle_events-IsRound [] l h = (done l, handle_events-nil slots n sockets l, h)
  handle_events-IsRound (e ∷ es) l h =
      let (first, ran, k) = handle_event-IsHandled c sockets posix e l h in
      Rounds-cons slots n sockets e es l first ran h k (λ m. handle_events-IsRound es m)

  -- A round of the event loop, from a serving state and with sockets that keep their promises, always
  -- comes to an end within the fuel that its loops have, whatever events, bytes, times and forks it
  -- meets. It leaves a serving state, or, after events that it has handled, it waits because the ring has
  -- no room for one entry, or panics because a new user finds no slot; nothing else goes wrong.
  pub tick_lem :
      (t : Tick) (l : EventLoop S)
      → IsServing slots n l
      → (prepared : EventLoop S) × (o : Outcome (EventLoop S)) × (prepare t l ≡ some prepared)
        × (tick sockets n t l ≡ some o)
        × IsServing slots n prepared
        × IsRound slots n sockets prepared o
  unfolding tick
  tick_lem t l h =
      let (prepared, ran, h') = prepare-IsServing t l h in
      let (o, handled, r) = handle_events-IsRound t.events prepared h' in
      (prepared, o, ran, rw (tick, ran) handled, h', r)
