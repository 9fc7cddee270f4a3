-- ===== src/Net/Run.antt =====
-- EpollNet::Run: the loop on what `epoll_wait` reports, between the set-up and the tear-down. A task
-- that is committed to the thread pool runs at once, as one step.
pub mod Keep
pub mod Stop
pub mod Release
pub mod Members
pub mod Owned
pub mod Connections
pub mod Lifetime
use vwnet_lib.Base.{
  ℕ, ◌||◌, Bool, true, false, List, [], ◌∷◌, Option, none, some, ℤ, pos, int_eq, Map, find, nat_eq,
  int_eq_instance, if◌then◌else◌,
}
use vwnet_lib.Net.State.{
  Sys, Handlers, FdHandler, handle_accept, handle_file_notify, on_net, epollerr, epollhup,
  epollrdhup, clear_context_event, delete_all_contexts,
}
use vwnet_lib.Net.Socket.{Inbound, Outbound}
use vwnet_lib.Net.Command.{
  CommandResult, read_failed, quit, unsupported, committed, is_unterminated, handle_command,
}
use vwnet_lib.Net.Events.{Accepted, has_bit, on_epoll_rdhup, run_ready}
use vwnet_lib.Net.Setup.{Service, setup_epoll, clear_epoll, setup_command_fd, clear_command_fd}

module _ {A : Type 0} (h : Handlers A) (ki : Inbound) (ko : Outbound) where
  -- One of the events that `epoll_wait` reports, with what its descriptor has for a handler: the
  -- bytes in the pipe of commands, connections to accept, or the socket's two directions.
  pub record Report : Type 0 where
    pub fd : ℕ
    pub events : ℕ
    pub errno : ℕ
    pub fuel : ℕ
    pub cmd_bytes : List ℕ
    pub conns : List Accepted
    pub inbound : ki.Conn
    pub outbound : ko.Conn

  -- The functions that the derived class registers: for commands, and for the files it watches.
  pub record RegisteredHandlers : Type 0 where
    pub commands : Map ℤ (List ℕ → Sys A → Sys A)
    pub notify : ℕ → Sys A → Sys A

  module _ (reg : RegisteredHandlers) where
    -- The handler of a descriptor, or reading and writing.
    unfoldable pub run_handler : Report → Sys A → Sys A
    run_handler r s = elim (find r.fd s.net.fd_handlers) [
      | none ↦ run_ready h ki ko r.fd r.events r.inbound r.outbound r.fuel s
      | some handle_accept ↦ vwnet_lib.Net.Events.handle_accept h r.conns s
      | some handle_file_notify ↦ reg.notify r.fd s
    ]

    unfoldable pub run_io : Report → Sys A → Sys A
    run_io r s =
        if has_bit r.events epollrdhup
        then on_net (clear_context_event r.fd r.events) (on_epoll_rdhup h r.fd s)
        else if has_bit r.events epollerr || has_bit r.events epollhup
        then on_net (clear_context_event r.fd r.events) (h.on_error r.fd r.errno s)
        else run_handler r s

    -- The handler of a command, from the thread pool.
    unfoldable pub run_committed : ℤ → List ℕ → Sys A → Sys A
    run_committed cmd para s = elim (find cmd reg.commands) [ none ↦ s | some fun ↦ fun para s ]

    -- `handle_command`: whether the service goes on, and the state.
    unfoldable pub after_command : CommandResult → Sys A → Bool × Sys A
    after_command quit s = (false, s)
    after_command (committed cmd para) s = (true, run_committed cmd para s)
    after_command _ s = (true, s)

    -- What making a string of the record does.
    abbrev pub take_record : List ℕ → Sys A → Sys A
    take_record bytes s =
        if is_unterminated bytes then on_net (λ n. record n { undefined = true }) s else s

    unfoldable pub run_report : ℤ → Report → Sys A → Bool × Sys A
    run_report cmd_fd r s =
        if int_eq cmd_fd (pos r.fd)
        then after_command (handle_command reg.commands r.cmd_bytes r.errno)
            (take_record r.cmd_bytes s)
        else (true, run_io r s)

    -- The `for` over the events, which a quit leaves.
    unfoldable pub run_reports : ℤ → List Report → Sys A → Bool × Sys A
    run_reports cmd_fd [] s = (true, s)
    run_reports cmd_fd (r ∷ rest) s =
        let (is_running, s') = run_report cmd_fd r s in
        let after = run_reports cmd_fd rest s' in if is_running then after else (false, s')

    -- The `while` over what `epoll_wait` gives; no event is an error of it, and ends the loop.
    unfoldable pub run_loop : ℤ → List (List Report) → Sys A → Sys A
    run_loop cmd_fd [] s = s
    run_loop cmd_fd ([] ∷ waits) s = s
    run_loop cmd_fd ((r ∷ rest) ∷ waits) s =
        let (is_running, s') = run_reports cmd_fd (r ∷ rest) s in
        let after = run_loop cmd_fd waits s' in if is_running then after else s'

    -- What follows the set-up: the loop and the tear-down.
    unfoldable pub serve : ℤ → List (List Report) → Service A → Service A
    serve cmd_fd waits s =
        let s₁ = clear_command_fd cmd_fd (record s { sys = run_loop cmd_fd waits s.sys }) in
        clear_epoll (record s₁ { sys = on_net delete_all_contexts s₁.sys })

    unfoldable pub run_net :
        (Service A → Bool × Service A) → List (List Report) → Service A → Service A
    run_net start_service waits s =
        let (ready, s₁) = setup_epoll s in
        let (started, s₂) = start_service s₁ in
        let (cmd_fd, s₃) = setup_command_fd s₂ in
        if s.init_done
        then if ready then if started then serve cmd_fd waits s₃ else s₂ else s₁
        else s
