-- ===== src/Net/Setup.antt =====
-- EpollNet: Init, the descriptors that Run sets up and clears, and the services of the TCP classes.
-- What the kernel answers is part of the state: `fds` are the answers to the coming calls that make a
-- descriptor (`none` is -1, also when there are no more), `oks` say of the other calls whether they
-- succeed. What `close` and `unlink` return is not looked at.
use vwnet_lib.Base.{
  ℕ, ◌+◌, ◌*◌, ◌%◌, ◌^◌, Bool, true, false, List, [], ◌∷◌, Option, none, some, ℤ, pos, negsuc,
  int_eq, length, ltb, ◌==◌, if◌then◌else◌,
}
use vwnet_lib.Net.State.{
  Net, Sys, Handlers, on_net, handle_accept, epollin, make_nonblock, add_event, create_context,
  registry_fd_handler,
}

-- The calls that make a descriptor, those that answer whether they have succeeded, and the others.
pub data OsCall : Type 0 where
  epoll_create open_socket open_read open_write : OsCall
  set_reuse bind listen connect access mkfifo set_keep_alive : OsCall
  close : ℤ → OsCall
  unlink : OsCall

-- The members of class EpollNet that the set-up is about, with the calls made, the latest first.
pub record Service (A : Type 0) : Type 0 where
  pub sys : Sys A
  pub epollfd : ℤ
  pub svr_sfd : ℤ
  pub cmdfd : ℤ
  pub svr_addr : ℕ
  pub init_done : Bool
  pub thread_num : ℕ
  pub fds : List (Option ℕ)
  pub oks : List Bool
  pub trace : List (OsCall × ℤ)

abbrev pub next_fd : List (Option ℕ) → ℤ × List (Option ℕ)
next_fd [] = (negsuc 0, [])
next_fd (none ∷ rest) = (negsuc 0, rest)
next_fd (some fd ∷ rest) = (pos fd, rest)

abbrev pub next_ok : List Bool → Bool × List Bool
next_ok [] = (false, [])
next_ok (ok ∷ rest) = (ok, rest)

-- `> 0` and `== -1`
abbrev pub is_positive : ℤ → Bool
is_positive (pos n) = ltb 0 n
is_positive (negsuc n) = false

abbrev pub failed : ℤ → Bool
failed fd = int_eq fd (negsuc 0)

-- `sockaddr_in` as a number: the host that `inet_addr` finds, 0 for any, and the port.
abbrev pub sock_addr : (List ℕ → ℕ) → List ℕ → ℕ → ℕ
sock_addr inet_addr ip_addr port =
    let host = if length ip_addr == 0 then 0 else inet_addr ip_addr in host * 2 ^ 16 + port % 2 ^ 16

module _ {A : Type 0} where
  -- A call that makes a descriptor, one that can fail, and one whose result is not looked at.
  abbrev pub new_fd : OsCall → Service A → ℤ × Service A
  new_fd call s =
      let (fd, rest) = next_fd s.fds in (fd, record s { fds = rest; trace = (call, fd) ∷ s.trace })

  abbrev pub try_call : OsCall → Service A → Bool × Service A
  try_call call s =
      let (ok, rest) = next_ok s.oks in
      let result = if ok then pos 0 else negsuc 0 in
      (ok, record s { oks = rest; trace = (call, result) ∷ s.trace })

  abbrev pub call_os : OsCall → Service A → Service A
  call_os call s = record s { trace = (call, pos 0) ∷ s.trace }

  -- A call on a negative descriptor fails and does nothing.
  abbrev pub at_fd : ℤ → (ℕ → Sys A → Sys A) → Service A → Service A
  at_fd (pos fd) f s = record s { sys = f fd s.sys }
  at_fd (negsuc n) f s = s

  abbrev pub net_at : ℤ → (ℕ → Net → Net) → Service A → Service A
  net_at fd f s = at_fd fd (λ n. on_net (f n)) s

  -- Set; the number of threads is a `uint16_t`.
  unfoldable pub set_sizes : ℕ → ℕ → Service A → Service A
  set_sizes buf_size thread_num s = record s {
    sys = on_net (λ n. record n { buf_size = buf_size }) s.sys;
    thread_num = thread_num % 2 ^ 16;
  }

  -- ~EpollNet
  unfoldable pub destroy : Service A → Service A
  destroy s =
      let s₁ = if is_positive s.epollfd then call_os (close s.epollfd) s else s in
      if is_positive s₁.svr_sfd then call_os (close s₁.svr_sfd) s₁ else s₁

  unfoldable pub setup_epoll : Service A → Bool × Service A
  setup_epoll s =
      let s₁ = if is_positive s.epollfd then call_os (close s.epollfd) s else s in
      let (fd, s₂) = new_fd epoll_create s₁ in
      let s₃ = record s₂ { epollfd = fd } in if failed fd then (false, s₃) else (true, s₃)

  unfoldable pub clear_epoll : Service A → Service A
  clear_epoll s =
      if is_positive s.epollfd then record (call_os (close s.epollfd) s) { epollfd = pos 0 } else s

  -- The writing end of the pipe, `fd` being the reading end.
  unfoldable pub open_writer : ℤ → Service A → ℤ × Service A
  open_writer fd s =
      let (cmdfd, s₁) = new_fd open_write s in
      let s₂ = record s₁ { cmdfd = cmdfd } in
      if failed cmdfd
      then (negsuc 2, call_os unlink (call_os (close fd) s₂))
      else (fd, net_at fd (λ n. add_event n epollin) s₂)

  unfoldable pub open_pipe : Service A → ℤ × Service A
  open_pipe s =
      let (fd, s₁) = new_fd open_read s in
      if failed fd then (negsuc 1, call_os unlink s₁) else open_writer fd s₁

  unfoldable pub make_fifo : Service A → ℤ × Service A
  make_fifo s = let (made, s₁) = try_call mkfifo s in if made then open_pipe s₁ else (negsuc 0, s₁)

  unfoldable pub setup_command_fd : Service A → ℤ × Service A
  setup_command_fd s =
      let (exists, s₁) = try_call access s in make_fifo (if exists then call_os unlink s₁ else s₁)

  unfoldable pub clear_command_fd : ℤ → Service A → Service A
  clear_command_fd fd s =
      let s₁ = if is_positive s.cmdfd then call_os (close s.cmdfd) s else s in
      if is_positive fd then call_os unlink (call_os (close fd) s₁) else s₁

  unfoldable pub new_socket : ℕ → Service A → Service A
  new_socket addr s =
      let s₁ = if is_positive s.svr_sfd then call_os (close s.svr_sfd) s else s in
      let (fd, s₂) = new_fd open_socket s₁ in record s₂ { svr_sfd = fd; svr_addr = addr }

  -- Init, with the virtual do_bind.
  unfoldable pub init :
      (List ℕ → ℕ) → (Service A → Bool × Service A) → List ℕ → ℕ → Service A → Bool × Service A
  init inet_addr do_bind ip_addr port s =
      let (reuse, s₁) = try_call set_reuse (new_socket (sock_addr inet_addr ip_addr port) s) in
      let (bound, s₂) = do_bind s₁ in
      if reuse
      then (bound, record s₂ { init_done = bound })
      else (false, record s₁ { init_done = false })

  -- EpollNet::do_bind, and that of class EpollNetTcpServer.
  abbrev pub net_do_bind : Service A → Bool × Service A
  net_do_bind s = (true, s)

  unfoldable pub server_do_bind : Service A → Bool × Service A
  server_do_bind s =
      let (ok, s₁) = try_call bind s in
      if ok then (true, net_at s.svr_sfd make_nonblock s₁) else (false, s₁)

  -- EpollNetTcpServer::start_service
  unfoldable pub server_start_service : Service A → Bool × Service A
  server_start_service s =
      let (ok, s₁) = try_call listen s in
      if ok
      then (true, net_at s.svr_sfd (λ fd. registry_fd_handler fd handle_accept) s₁)
      else (false, s₁)

  -- EpollNetTcpClient::start_service; the connection's buffer gets `block`.
  unfoldable pub client_start_service : Handlers A → List ℕ → Service A → Bool × Service A
  client_start_service h block s =
      let (ok, s₁) = try_call connect s in
      let s₂ = net_at s.svr_sfd make_nonblock s₁ in
      let s₃ = net_at s.svr_sfd (λ fd. create_context fd s.svr_addr block) s₂ in
      let s₄ = net_at s.svr_sfd (λ fd. add_event fd epollin) s₃ in
      if ok then (true, at_fd s.svr_sfd h.on_connect s₄) else (false, s₁)
