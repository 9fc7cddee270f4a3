-- ===== src/Net/Events/Keep.antt =====
-- What the virtual functions keep the whole of the event loop keeps.
use vwnet_lib.Base.{
  ℕ, arith, ◌≡◌, ◌≢◌, refl, sym, ◌∙◌, some, find-erase, nat_eq, length, inl, inr, List, [], ◌∷◌,
  Option-cases, if_both,
}
use vwnet_lib.Net.State.{
  Net, ReadBuf, NetContext, Sys, Handlers, on_net, get_context, update_context, create_context,
  make_nonblock, add_event, set_event, clear_context_event, delete_event, delete_context,
}
use vwnet_lib.Net.Socket.{Inbound, Outbound}
use vwnet_lib.Net.Read.{size_remain, overrun, read_loop, put_read_buf, handle_read}
use vwnet_lib.Net.Events.Buffers.{
  SameBuffers, buf_of, same_contexts, update_context-SameBuffers, BlocksFit,
}
use vwnet_lib.Net.Events.Buffers.Loop.{EventFits, EventsFit}
use vwnet_lib.Net.Write.{handle_write}
use vwnet_lib.Net.Events.Ends.{read_end-keep, write_end-keep}
use vwnet_lib.Net.Events.{
  Accepted, accept_one, handle_accept, Event, incoming_connections, ready, run_ready, run_event,
  run_events,
}

-- The library's own changes do not touch what an access out of bounds sets, nor what `malloc` does,
-- and no connection gets another buffer by them.
pub record IsQuiet (n n' : Net) : Type 0 where
  pub same_undefined : n'.undefined ≡ n.undefined
  pub same_mallocs : n'.mallocs ≡ n.mallocs
  pub same_size : n'.buf_size ≡ n.buf_size
  pub old_bufs : (fd : ℕ) (b : ReadBuf) → buf_of fd n' ≡ some b → buf_of fd n ≡ some b

pub SameBuffers-IsQuiet :
    {n n' : Net}
    → n'.undefined ≡ n.undefined
    → n'.mallocs ≡ n.mallocs
    → SameBuffers n n'
    → IsQuiet n n'
SameBuffers-IsQuiet same_undefined same_mallocs same = record {
  same_undefined = same_undefined;
  same_mallocs = same_mallocs;
  same_size = same.same_size;
  old_bufs = λ fd b e. sym (same.same_bufs fd) ∙ e;
}

clear_context_event-IsQuiet :
    (fd events : ℕ) (n : Net) → IsQuiet n (clear_context_event fd events n)
unfolding clear_context_event delete_event set_event delete_context get_context
clear_context_event-IsQuiet fd events n = record {
  same_undefined = ground arith;
  same_mallocs = ground arith;
  same_size = ground arith;
  old_bufs = λ j b e. ground (arith, find-erase fd j n.contexts);
}

module _ {A : Type 0} (h : Handlers A) where
  -- A property of the state that the virtual functions, quiet changes, a new connection with a block of
  -- `size` bytes and the reads of a connection keep, where a read does not write past the buffer.
  pub record Keeps (size : ℕ) (P : Sys A → Type 0) : Type 1 where
    pub connecting : (fd : ℕ) (s : Sys A) → P s → P (h.on_connect fd s)
    pub losing : (fd : ℕ) (s : Sys A) → P s → P (h.on_disconnect fd s)
    pub failing : (fd err : ℕ) (s : Sys A) → P s → P (h.on_error fd err s)
    pub quiet : (s : Sys A) (n : Net) → IsQuiet s.net n → P s → P (record s { net = n })
    pub creating :
        (fd remote : ℕ) (block : List ℕ) (s : Sys A)
        → length block ≡ size
        → P s
        → P (on_net (create_context fd remote block) s)
    pub reading :
        (ki : Inbound) (fuel fd : ℕ) (ctxt : NetContext) (c : ki.Conn) (s : Sys A)
        → get_context fd s.net ≡ some ctxt
        → P s
        → let b = ctxt.read_buf in
          let out = read_loop ki h fuel s.net.buf_size fd b (size_remain s.net.buf_size b) c s in
          (out.0 ≢ overrun) × P (on_net (put_read_buf ki h fd out.1) out.3)

  module _ {size : ℕ} {P : Sys A → Type 0} (k : Keeps size P) where
    pub clearing : (fd events : ℕ) (s : Sys A) → P s → P (on_net (clear_context_event fd events) s)
    clearing fd events s p = k.quiet s _ (clear_context_event-IsQuiet fd events s.net) p

    pub handle_accept-keep :
        (conns : List Accepted) (s : Sys A)
        → BlocksFit size conns
        → P s
        → P (handle_accept h conns s)
    unfolding handle_accept accept_one make_nonblock add_event set_event
    handle_accept-keep [] s fits p = p
    handle_accept-keep (conn ∷ rest) s (fits, more) p = handle_accept-keep rest _ more (
        k.quiet _ _ (SameBuffers-IsQuiet refl refl (same_contexts refl refl))
          (k.connecting conn.conn_fd _ (k.creating conn.conn_fd conn.cli_addr conn.block s fits p)))

    module _ (ki : Inbound) where
      handle_read-keep :
          (fuel fd events : ℕ) (c : ki.Conn) (s : Sys A)
          → P s
          → P (handle_read ki h fuel fd events c s).1
      unfolding handle_read
      handle_read-keep fuel fd events c s p = elim (Option-cases (get_context fd s.net)) [
        | inl e ↦ rw (e, handle_read) p
        | inr (ctxt, e) ↦
            let (within, kept) = k.reading ki fuel fd ctxt c s e p in
            rw (e, handle_read)
              (read_end-keep h k.losing k.failing clearing ki _ fd events _
                (λ past. absurd (within past)) kept)
      ]

    module _ (ko : Outbound) where
      handle_write-keep :
          (fuel fd events : ℕ) (c : ko.Conn) (s : Sys A)
          → P s
          → P (handle_write ko h fuel fd events c s).1
      unfolding handle_write update_context
      handle_write-keep fuel fd events c s p = elim (Option-cases (get_context fd s.net)) [
        | inl e ↦ rw (e, handle_write) p
        | inr (ctxt, e) ↦
            rw (e, handle_write)
              (write_end-keep h k.losing k.failing clearing ko _ fd events _ (
                k.quiet s _
                  (SameBuffers-IsQuiet refl refl
                    (update_context-SameBuffers fd _ ctxt s.net e refl))
                  p))
      ]

    module _ (ki : Inbound) (ko : Outbound) where
      pub run_ready-keep :
          (fd events : ℕ) (ci : ki.Conn) (co : ko.Conn) (fuel : ℕ) (s : Sys A)
          → P s
          → P (run_ready h ki ko fd events ci co fuel s)
      unfolding run_ready
      run_ready-keep fd events ci co fuel s p =
          let reads = if_both P _ (handle_read-keep ki fuel fd events ci s p) p in
          if_both P _ (handle_write-keep ko fuel fd events co _ reads) reads

      run_event-keep :
          (event : Event h ki ko) (s : Sys A)
          → EventFits size event
          → P s
          → P (run_event h ki ko event s)
      unfolding run_event
      run_event-keep (incoming_connections conns) s fits p = handle_accept-keep conns s fits p
      run_event-keep (ready fd events ci co errno fuel) s fits p =
          if_both P _ (clearing fd events _ (k.losing fd s p)) (
            if_both P _ (clearing fd events _ (k.failing fd errno s p))
              (run_ready-keep fd events ci co fuel s p))

      -- Whatever events come, in whatever order.
      pub run_events-keep :
          (events : List (Event h ki ko)) (s : Sys A)
          → EventsFit size events
          → P s
          → P (run_events h ki ko events s)
      unfolding run_events
      run_events-keep [] s fits p = p
      run_events-keep (event ∷ rest) s (fits, more) p =
          run_events-keep rest _ more (run_event-keep event s fits p)
