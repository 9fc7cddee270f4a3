-- ===== src/Net/Events/Buffers/Loop.antt =====
-- The buffers of the connections under the event loop.
use vwnet_lib.Base.{
  ℕ, ◌≤◌, ◌<◌, ◌^◌, ◌≡◌, refl, ap, inl, inr, Bool, true, false, List, [], ◌∷◌, nat_eq, length,
  if◌then◌else◌, Option-cases,
}
use vwnet_lib.Net.State.{
  Sys, Handlers, on_net, get_context, make_nonblock, add_event, set_event, clear_context_event,
}
use vwnet_lib.Net.Socket.{Inbound, Outbound}
use vwnet_lib.Net.Read.{ReadEnd, read_end, handle_read}
use vwnet_lib.Net.Read.Loop.{IsBounded}
use vwnet_lib.Net.Read.Results.{LeavesBelow}
use vwnet_lib.Net.Write.{handle_write}
use vwnet_lib.Net.Events.Ends.{read_loop-keep, read_end-keep, write_end-keep}
use vwnet_lib.Net.Events.{
  Accepted, accept_one, handle_accept, Event, incoming_connections, ready, run_ready, run_event,
  run_events,
}
use vwnet_lib.Net.Events.Buffers.{
  SameBuffers, buf_in, update_context-SameBuffers, Buffered, SameBuffers-Buffered,
  clear_context_event-Buffered, create_context-Buffered, put_read_buf-Buffered, read_loop-IsShort,
  BlocksFit,
}

-- The events that accept connections give them blocks of the buffer's size.
abbrev pub EventFits :
    ℕ → {A : Type 0} {h : Handlers A} {ki : Inbound} {ko : Outbound} → Event h ki ko → Type 0
EventFits size (incoming_connections conns) = BlocksFit size conns
EventFits size (ready fd events ci co errno fuel) = Unit

abbrev pub EventsFit :
    ℕ → {A : Type 0} {h : Handlers A} {ki : Inbound} {ko : Outbound} → List (Event h ki ko) → Type 0
EventsFit size [] = Unit {0}
EventsFit size (event ∷ rest) = EventFits size event × EventsFit size rest

-- What the virtual functions leave alone.
pub record KeepsBuffers {A : Type 0} (h : Handlers A) : Type 0 where
  pub processing :
      (fd : ℕ) (bytes : List ℕ) (s : Sys A) → SameBuffers s.net (h.process_data fd bytes s).1.net
  pub connecting : (fd : ℕ) (s : Sys A) → SameBuffers s.net (h.on_connect fd s).net
  pub losing : (fd : ℕ) (s : Sys A) → SameBuffers s.net (h.on_disconnect fd s).net
  pub failing : (fd err : ℕ) (s : Sys A) → SameBuffers s.net (h.on_error fd err s).net

module _ (m size : ℕ) (short_size : m ≤ size) (some_size : 0 < m) (small : size < 2 ^ 64) where
  module _ {A : Type 0} (h : Handlers A) (k : KeepsBuffers h) (bounded : IsBounded h) where
    abbrev Good : Sys A → Type 0
    Good s = Buffered m size s.net

    clearing :
        (fd events : ℕ) (s : Sys A) → Good s → Good (on_net (clear_context_event fd events) s)
    clearing fd events s i = clear_context_event-Buffered m size fd events s.net i

    losing : (fd : ℕ) (s : Sys A) → Good s → Good (h.on_disconnect fd s)
    losing fd s i = SameBuffers-Buffered m size (k.losing fd s) i

    failing : (fd err : ℕ) (s : Sys A) → Good s → Good (h.on_error fd err s)
    failing fd err s i = SameBuffers-Buffered m size (k.failing fd err s) i

    accept_one-Buffered :
        (conn : Accepted) (s : Sys A)
        → length conn.block ≡ size
        → Good s
        → Good (accept_one h conn s)
    unfolding accept_one make_nonblock add_event set_event get_context
    accept_one-Buffered conn s fits i =
        let accepted = SameBuffers-Buffered m size (k.connecting conn.conn_fd _) (
          create_context-Buffered m size short_size some_size small conn.conn_fd conn.cli_addr
            conn.block s.net fits i) in
        record { sized = accepted.sized; each = accepted.each }

    handle_accept-Buffered :
        (conns : List Accepted) (s : Sys A)
        → BlocksFit size conns
        → Good s
        → Good (handle_accept h conns s)
    unfolding handle_accept
    handle_accept-Buffered [] s fits i = i
    handle_accept-Buffered (conn ∷ conns) s (fits, rest) i =
        handle_accept-Buffered conns _ rest (accept_one-Buffered conn s fits i)

    handle_write-Buffered :
        (ko : Outbound) (fuel fd events : ℕ) (c : ko.Conn) (s : Sys A)
        → Good s
        → Good (handle_write ko h fuel fd events c s).1
    unfolding handle_write
    handle_write-Buffered ko fuel fd events c s i = elim (Option-cases (get_context fd s.net)) [
      | inl e ↦ rw (e, handle_write) i
      | inr (ctxt, e) ↦
          rw (e, handle_write)
            (write_end-keep h losing failing clearing ko _ fd events _
              (SameBuffers-Buffered m size (update_context-SameBuffers fd _ ctxt s.net e refl) i))
    ]

    module _ (ki : Inbound) (leaves : (fd : ℕ) → LeavesBelow ki h bounded size fd m) where
      flagged :
          (e : ReadEnd) (fd events : ℕ) (s : Sys A) → Good s → Good (read_end ki h e fd events s)
      unfolding get_context
      flagged e fd events s i =
          read_end-keep h losing failing clearing ki e fd events s
            (λ past. record { sized = i.sized; each = i.each }) i

      handle_read-Buffered :
          (fuel fd events : ℕ) (c : ki.Conn) (s : Sys A)
          → Good s
          → Good (handle_read ki h fuel fd events c s).1
      unfolding handle_read
      handle_read-Buffered fuel fd events c s i = elim (Option-cases (get_context fd s.net)) [
        | inl e ↦ rw (e, handle_read) i
        | inr (ctxt, e) ↦
            rw (e, handle_read)
              (flagged _ fd events _ (
                put_read_buf-Buffered m size ki h fd _ _
                  (read_loop-IsShort m size short_size some_size small h bounded ki fuel
                    s.net.buf_size fd ctxt.read_buf c s i.sized (leaves fd)
                    (i.each fd ctxt.read_buf (ap buf_in e)))
                  (read_loop-keep h
                    (λ fd' bytes s'. SameBuffers-Buffered m size (k.processing fd' bytes s')) ki
                    fuel s.net.buf_size fd ctxt.read_buf _ c s i)))
      ]

      module _ (ko : Outbound) where
        run_event-Buffered :
            (event : Event h ki ko) (s : Sys A)
            → EventFits size event
            → Good s
            → Good (run_event h ki ko event s)
        unfolding run_event run_ready
        run_event-Buffered (incoming_connections conns) s fits i =
            handle_accept-Buffered conns s fits i
        run_event-Buffered (ready fd events ci co errno fuel) s fits i =
            branch _ _ _ (clearing fd events (h.on_disconnect fd s) (losing fd s i)) (
              branch _ _ _ (clearing fd events (h.on_error fd errno s) (failing fd errno s i))
                (writes _ _ (reads _)))
          where
            branch : (b : Bool) (x y : Sys A) → Good x → Good y → Good (if b then x else y)
            branch true x y px py = px
            branch false x y px py = py

            reads : (b : Bool) → Good (if b then (handle_read ki h fuel fd events ci s).1 else s)
            reads b = branch b _ _ (handle_read-Buffered fuel fd events ci s i) i

            writes :
                (b : Bool) (s' : Sys A)
                → Good s'
                → Good (if b then (handle_write ko h fuel fd events co s').1 else s')
            writes b s' i' = branch b _ _ (handle_write-Buffered ko fuel fd events co s' i') i'

        pub run_events-Buffered :
            (events : List (Event h ki ko)) (s : Sys A)
            → EventsFit size events
            → Good s
            → Good (run_events h ki ko events s)
        unfolding run_events
        run_events-Buffered [] s fits i = i
        run_events-Buffered (event ∷ rest) s (fits, more) i =
            run_events-Buffered rest _ more (run_event-Buffered event s fits i)
