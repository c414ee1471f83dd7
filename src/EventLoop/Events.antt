-- ===== src/EventLoop/Events.antt =====
-- The handlers of events from a serving state.
use lloogg.Prelude.{
  ℕ, zero, suc, ◌<◌, ◌≡◌, refl, ap, sym, ◌∙◌, All, IsByte, inl, inr, some, List, arith, length,
  subst, Bool, true, false, Bool-cases, Option-cases,
}
use lloogg.Constants.{wbuf_size, IsCompiledN}
use lloogg.Outcome.{Outcome, done, waits}
use lloogg.HashMap.{lookup, insert, All-lookup}
use lloogg.Aof.{Writes}
use lloogg.Connection.{Connection, State, read_header, read_payload, process, write_response}
use lloogg.EventLoop.{
  EventLoop, Sockets, Ended, waits, leaves, closes, fails, is_process, is_write_response,
  write_loop,
}
use lloogg.EventLoop.Dispatch.{handle_close}
use lloogg.EventLoop.Handlers.{read_ended, handle_read, write_ended, handle_write}
use lloogg.EventLoop.Open.{IsAt, IsOpen}
use lloogg.EventLoop.Receive.{IsBounded, IsEnded, read_loop_lem}
use lloogg.EventLoop.Send.{IsStream, IsSending, IsSent, write_loop_lem}
use lloogg.EventLoop.Serving.{IsServing, IsHandled, AreOpen, insert-AreOpen, remove-AreOpen}
use lloogg.EventLoop.Process.{process_command-IsHandled}

-- A connection that is being sent to stays open however the loop ends.
waiting-IsOpen :
    {room : ℕ} {conn next : Connection}
    → IsOpen room conn
    → IsSending next
    → next.rbuf ≡ conn.rbuf
    → next.wbuf ≡ conn.wbuf
    → IsOpen room next
waiting-IsOpen i s rbuf_eq wbuf_eq = record {
  size = ap length rbuf_eq ∙ i.size;
  room_eq = ap length wbuf_eq ∙ i.room_eq;
  bytes = subst (All IsByte) (sym rbuf_eq) i.bytes;
  at = rw s.state (s.more, s.fits);
}

sent-IsOpen :
    {room : ℕ} {conn next : Connection}
    → IsOpen room conn
    → next.state ≡ read_header
    → next.rbuf_pos ≡ 0
    → next.rbuf ≡ conn.rbuf
    → next.wbuf ≡ conn.wbuf
    → IsOpen room next
sent-IsOpen i state pos rbuf_eq wbuf_eq = record {
  size = ap length rbuf_eq ∙ i.size;
  room_eq = ap length wbuf_eq ∙ i.room_eq;
  bytes = subst (All IsByte) (sym rbuf_eq) i.bytes;
  at = rw state (omega (arith, pos));
}

is_write_response-state : (s : State) → is_write_response s ≡ true → s ≡ write_response
is_write_response-state read_header e = absurd (cc)
is_write_response-state read_payload e = absurd (cc)
is_write_response-state process e = absurd (cc)
is_write_response-state write_response e = refl

write_loop-idle :
    {S : Type 0} (sockets : Sockets S) (fuel : ℕ) (net : S) (fd : ℕ) (conn : Connection)
    → 0 < fuel
    → is_write_response conn.state ≡ false
    → write_loop sockets fuel net fd conn ≡ some (leaves conn, net)
unfolding write_loop
write_loop-idle sockets zero net fd conn h e = absurd (omega arith)
write_loop-idle sockets (suc fuel) net fd conn h e = rw (e, write_loop)

module _ {S : Type 0} {slots n : ℕ} where
  -- New connections and a new state of the kernel.
  with_connections :
      {l l' : EventLoop S}
      → IsServing slots n l
      → AreOpen (wbuf_size n) l'.connections
      → l' ≡ record l { connections = l'.connections; net = l'.net; calls = l'.calls }
      → IsServing slots n l'
  with_connections {l} {l'} h all_open same = rw same (record {
    store = h.store;
    capacity = h.capacity;
    aof = h.aof;
    connections = all_open;
    candidates_in = h.candidates_in;
    expired_out = h.expired_out;
  })

  handle_close-IsServing :
      (fd : ℕ) (l : EventLoop S) → IsServing slots n l → IsServing slots n (handle_close fd l)
  unfolding handle_close
  handle_close-IsServing fd l h =
      with_connections h (remove-AreOpen (wbuf_size n) fd l.connections h.connections) refl

  pub kept-IsServing :
      (fd : ℕ) (conn : Connection) (net : S) (l : EventLoop S)
      → IsServing slots n l
      → IsOpen (wbuf_size n) conn
      → IsServing slots n (record l { connections = insert fd conn l.connections; net = net })
  kept-IsServing fd conn net l h i =
      with_connections h (insert-AreOpen (wbuf_size n) fd conn l.connections i h.connections) refl

module _ {S : Type 0} {slots n : ℕ} (c : IsCompiledN n) (sockets : Sockets S) where
  read_ended-IsHandled :
      (writes : Writes) (now fd : ℕ) (l : EventLoop S) (ended : Ended) (net : S)
      → IsServing slots n l
      → IsEnded (wbuf_size n) ended
      → IsHandled slots n l (read_ended sockets n writes now fd l (ended, net))
  unfolding read_ended
  read_ended-IsHandled writes now fd l (waits conn) net h e = kept-IsServing fd conn net l h e
  read_ended-IsHandled writes now fd l (leaves conn) net h e =
      elim (Bool-cases (is_process conn.state)) [
        | inl complete ↦ rw complete (
            process_command-IsHandled c writes now fd
              (record l { connections = insert fd conn l.connections; net = net })
              (kept-IsServing fd conn net l h e.0))
        | inr partial ↦ rw partial (kept-IsServing fd conn net l h e.0)
      ]
  read_ended-IsHandled writes now fd l closes net h e =
      handle_close-IsServing fd (record l { net = net }) (with_connections h h.connections refl)
  read_ended-IsHandled writes now fd l fails net h e = absurd (omega arith)

  pub handle_read-IsHandled :
      (writes : Writes) (now fd : ℕ) (l : EventLoop S)
      → IsBounded sockets
      → IsServing slots n l
      → (o : Outcome (EventLoop S)) × (handle_read sockets 27 n writes now fd l ≡ some o)
        × IsHandled slots n l o
  unfolding handle_read
  handle_read-IsHandled writes now fd l b h = elim (Option-cases (lookup fd l.connections)) [
    | inl absent ↦ (done l, rw (handle_read, absent), h)
    | inr (conn, found) ↦
        let i : IsOpen (wbuf_size n) conn =
          All-lookup (IsOpen (wbuf_size n)) fd l.connections h.connections found in
        let (ended, net, ran, e) = read_loop_lem sockets 27 l.net fd conn b i (omega arith) in
        (
          read_ended sockets n writes now fd l (ended, net),
          rw (handle_read, found, ran),
          read_ended-IsHandled writes now fd l ended net h e,
        )
  ]

  write_ended-IsHandled :
      (fd : ℕ) (l : EventLoop S) (conn : Connection) (was_sending : Bool) (delivered : S → List ℕ)
      (all : List ℕ) (ended : Ended) (net : S)
      → IsServing slots n l
      → IsOpen (wbuf_size n) conn
      → IsSent delivered all conn.rbuf conn.wbuf ended net
      → IsHandled slots n l (write_ended sockets fd l was_sending (ended, net))
  unfolding write_ended
  write_ended-IsHandled fd l conn was_sending delivered all (waits next) net h i e =
      kept-IsServing fd next net l h (waiting-IsOpen i e.0 e.2 e.3)
  write_ended-IsHandled fd l conn was_sending delivered all (leaves next) net h i e =
      with_connections h
        (insert-AreOpen (wbuf_size n) fd next l.connections (sent-IsOpen i e.1 e.2 e.3 e.4)
          h.connections)
        refl
  write_ended-IsHandled fd l conn was_sending delivered all closes net h i e =
      handle_close-IsServing fd (record l { net = net }) (with_connections h h.connections refl)
  write_ended-IsHandled fd l conn was_sending delivered all fails net h i e = absurd (omega arith)

  pub handle_write-IsHandled :
      (fd : ℕ) (l : EventLoop S) (delivered : S → List ℕ)
      → IsStream sockets fd delivered
      → IsServing slots n l
      → (o : Outcome (EventLoop S)) × (handle_write sockets (wbuf_size n) fd l ≡ some o)
        × IsHandled slots n l o
  unfolding handle_write
  handle_write-IsHandled fd l delivered d h = elim (Option-cases (lookup fd l.connections)) [
    | inl absent ↦ (done l, rw (handle_write, absent), h)
    | inr (conn, found) ↦
        let i : IsOpen (wbuf_size n) conn =
          All-lookup (IsOpen (wbuf_size n)) fd l.connections h.connections found in
        elim (Bool-cases (is_write_response conn.state)) [
          | inr idle ↦
              let ran = write_loop-idle sockets (wbuf_size n) l.net fd conn (omega arith) idle in
              (
                done (record l { connections = insert fd conn l.connections }),
                rw (handle_write, found, ran, idle, write_ended),
                kept-IsServing fd conn l.net l h i,
              )
          | inl sending ↦
              let state = is_write_response-state conn.state sending in
              let at : IsAt write_response conn = subst (λ s. IsAt s conn) state i.at in
              let (ended, net, ran, e) =
                write_loop_lem sockets (wbuf_size n) l.net fd delivered conn d
                  (record { state = state; more = at.0; fits = at.1 }) refl
                  (omega (arith, at.1, i.room_eq)) in
              (
                write_ended sockets fd l (is_write_response conn.state) (ended, net),
                rw (handle_write, found, ran),
                write_ended-IsHandled fd l conn (is_write_response conn.state) delivered _ ended net
                    h i e,
              )
        ]
  ]
