-- ===== src/Net/Events.antt =====
-- EpollNetTcpServer::handle_accept, and the events of a connection that EpollNet::Run hands out. A
-- handler runs as one step: it holds the lock of the part of the state that it is about.
pub mod Ends
pub mod Keep
pub mod Buffers
use vwnet_lib.Base.{
  ℕ, ◌||◌, Bool, true, false, not, List, [], ◌∷◌, Option, none, some, bit_and, ◌==◌, if◌then◌else◌,
}
use vwnet_lib.Net.State.{
  Sys, Handlers, on_net, epollin, epollout, epollerr, epollhup, epollrdhup, create_context,
  make_nonblock, add_event, clear_context_event,
}
use vwnet_lib.Net.Socket.{Inbound, Outbound}
use vwnet_lib.Net.Read.{handle_read}
use vwnet_lib.Net.Write.{handle_write}

-- A connection that `accept` returns, with the block that its buffer gets.
pub record Accepted : Type 0 where
  pub conn_fd : ℕ
  pub cli_addr : ℕ
  pub block : List ℕ

abbrev pub has_bit : ℕ → ℕ → Bool
has_bit events bit = not (bit_and events bit == 0)

module _ {A : Type 0} (h : Handlers A) where
  -- What is done for one connection.
  unfoldable pub accept_one : Accepted → Sys A → Sys A
  accept_one conn s =
      on_net (λ n. add_event conn.conn_fd epollin (make_nonblock conn.conn_fd n))
        (h.on_connect conn.conn_fd
          (on_net (create_context conn.conn_fd conn.cli_addr conn.block) s))

  -- The connections that `accept` returns before it returns -1.
  unfoldable pub handle_accept : List Accepted → Sys A → Sys A
  handle_accept [] s = s
  handle_accept (conn ∷ rest) s = handle_accept rest (accept_one conn s)

  -- EpollNetTcp::on_epoll_rdhup
  abbrev pub on_epoll_rdhup : ℕ → Sys A → Sys A
  on_epoll_rdhup fd s = h.on_disconnect fd s

  module _ (ki : Inbound) (ko : Outbound) where
    -- What `epoll_wait` reports: connections to accept, or `events` for the descriptor of a
    -- connection, with the socket at each end, errno, and fuel for the loops.
    pub data Event : Type 0 where
      incoming_connections : List Accepted → Event
      ready : ℕ → ℕ → ki.Conn → ko.Conn → ℕ → ℕ → Event

    -- Reading and writing, as the bits say.
    unfoldable pub run_ready : ℕ → ℕ → ki.Conn → ko.Conn → ℕ → Sys A → Sys A
    run_ready fd events ci co fuel s =
        let s' = if has_bit events epollin then (handle_read ki h fuel fd events ci s).1 else s in
        if has_bit events epollout then (handle_write ko h fuel fd events co s').1 else s'

    -- The chain of tests in the loop of EpollNet::Run, for a descriptor without a registered handler.
    unfoldable pub run_event : Event → Sys A → Sys A
    run_event (incoming_connections conns) s = handle_accept conns s
    run_event (ready fd events ci co errno fuel) s =
        if has_bit events epollrdhup
        then on_net (clear_context_event fd events) (on_epoll_rdhup fd s)
        else if has_bit events epollerr || has_bit events epollhup
        then on_net (clear_context_event fd events) (h.on_error fd errno s)
        else run_ready fd events ci co fuel s

    unfoldable pub run_events : List Event → Sys A → Sys A
    run_events [] s = s
    run_events (event ∷ rest) s = run_events rest (run_event event s)
