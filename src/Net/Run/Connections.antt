-- ===== src/Net/Run/Connections.antt =====
-- The connections: none is left when Run has returned.
use vwnet_lib.Base.{
  ℕ, ◌≡◌, refl, ap, ◌∙◌, Bool, true, false, List, [], ℤ, pos, negsuc, if_both, if◌then◌else◌,
}
use vwnet_lib.Net.State.{
  Net, Handlers, delete_all_contexts, make_nonblock, add_event, set_event, registry_fd_handler,
  handle_accept,
}
use vwnet_lib.Net.Socket.{Inbound, Outbound}
use vwnet_lib.Net.Setup.{
  Service, is_positive, setup_epoll, clear_epoll, setup_command_fd, destroy, new_socket, sock_addr,
  try_call, set_reuse, init, net_at, bind, listen, next_ok, server_do_bind, server_start_service,
}
use vwnet_lib.Net.Run.{Report, RegisteredHandlers, serve, run_net}

module _ {A : Type 0} where
  abbrev pub NoConnection : Service A → Type 0
  NoConnection s = s.sys.net.contexts ≡ []

  -- A do_bind makes no connection, nor does a start_service that fails.
  abbrev pub BindsNone : (Service A → Bool × Service A) → Type 0
  BindsNone do_bind = (s : Service A) → NoConnection s → NoConnection (do_bind s).1

  abbrev pub StartsNone : (Service A → Bool × Service A) → Type 0
  StartsNone start_service =
      (s : Service A)
      → NoConnection s
      → (start_service s).0 ≡ false
      → NoConnection (start_service s).1

  clear_epoll-sys : (s : Service A) → (clear_epoll s).sys ≡ s.sys
  unfolding clear_epoll
  clear_epoll-sys s = if_both (λ (t : Service A). t.sys ≡ s.sys) (is_positive s.epollfd) refl refl

  pub destroy-sys : (s : Service A) → (destroy s).sys ≡ s.sys
  unfolding destroy
  destroy-sys s =
      let closed = if_both (λ (t : Service A). t.sys ≡ s.sys) (is_positive s.epollfd) refl refl in
      if_both (λ (t : Service A). t.sys ≡ s.sys) _ closed closed

  setup_epoll-sys : (s : Service A) → (setup_epoll s).1.sys ≡ s.sys
  unfolding setup_epoll
  setup_epoll-sys s =
      let closed = if_both (λ (t : Service A). t.sys ≡ s.sys) (is_positive s.epollfd) refl refl in
      if_both (λ (out : Bool × Service A). out.1.sys ≡ s.sys) _ closed closed

  new_socket-sys : (addr : ℕ) (s : Service A) → (new_socket addr s).sys ≡ s.sys
  unfolding new_socket
  new_socket-sys addr s =
      if_both (λ (t : Service A). t.sys ≡ s.sys) (is_positive s.svr_sfd) refl refl

  net_at-NoConnection :
      (fd : ℤ) (f : ℕ → Net → Net) (s : Service A)
      → ((j : ℕ) → (f j s.sys.net).contexts ≡ s.sys.net.contexts)
      → NoConnection s
      → NoConnection (net_at fd f s)
  net_at-NoConnection (pos fd) f s same none = same fd ∙ none
  net_at-NoConnection (negsuc n) f s same none = none

  pub server_do_bind-BindsNone : BindsNone server_do_bind
  unfolding server_do_bind make_nonblock
  server_do_bind-BindsNone s none =
      if_both (λ (out : Bool × Service A). NoConnection out.1) (next_ok s.oks).0
        (net_at-NoConnection s.svr_sfd make_nonblock (try_call bind s).1 (λ fd. refl) none) none

  pub server_start_service-StartsNone : StartsNone server_start_service
  unfolding server_start_service registry_fd_handler make_nonblock add_event set_event
  server_start_service-StartsNone s none denied =
      if_both (λ (out : Bool × Service A). NoConnection out.1) (next_ok s.oks).0
        (net_at-NoConnection s.svr_sfd (λ fd. registry_fd_handler fd handle_accept)
          (try_call listen s).1 (λ fd. refl) none)
        none

  pub init-NoConnection :
      (inet_addr : List ℕ → ℕ) (do_bind : Service A → Bool × Service A) (ip_addr : List ℕ)
      (port : ℕ) (s : Service A)
      → BindsNone do_bind
      → NoConnection s
      → NoConnection (init inet_addr do_bind ip_addr port s).1
  unfolding init
  init-NoConnection inet_addr do_bind ip_addr port s binds none =
      let addr = sock_addr inet_addr ip_addr port in
      let made : NoConnection (try_call set_reuse (new_socket addr s)).1 =
        ap (λ x. x.net.contexts) (new_socket-sys addr s) ∙ none in
      if_both (λ (out : Bool × Service A). NoConnection out.1) _ (binds _ made) made

  module _ (h : Handlers A) (ki : Inbound) (ko : Outbound) (reg : RegisteredHandlers h ki ko) where
    serve-NoConnection :
        (cmd_fd : ℤ) (waits : List (List (Report h ki ko))) (s : Service A)
        → NoConnection (serve h ki ko reg cmd_fd waits s)
    unfolding serve delete_all_contexts
    serve-NoConnection cmd_fd waits s = ap (λ x. x.net.contexts) (clear_epoll-sys _)

    pub run_net-NoConnection :
        (start_service : Service A → Bool × Service A) (waits : List (List (Report h ki ko)))
        (s : Service A)
        → StartsNone start_service
        → NoConnection s
        → NoConnection (run_net h ki ko reg start_service waits s)
    unfolding run_net
    run_net-NoConnection start_service waits s starts none =
        let set_up : NoConnection (setup_epoll s).1 =
          ap (λ x. x.net.contexts) (setup_epoll-sys s) ∙ none in
        let (ready, s₁) = setup_epoll s in
        let (started, s₂) = start_service s₁ in
        let (cmd_fd, s₃) = setup_command_fd s₂ in
        chosen s.init_done ready started (serve h ki ko reg cmd_fd waits s₃) s₂ s₁ s
          (serve-NoConnection cmd_fd waits s₃) (starts s₁ set_up) set_up none
      where
        chosen :
            (done ready started : Bool) (t₃ t₂ t₁ t₀ : Service A)
            → NoConnection t₃
            → (started ≡ false → NoConnection t₂)
            → NoConnection t₁
            → NoConnection t₀
            → NoConnection
                (if done then (if ready then (if started then t₃ else t₂) else t₁) else t₀)
        chosen false ready started t₃ t₂ t₁ t₀ p₃ p₂ p₁ p₀ = p₀
        chosen true false started t₃ t₂ t₁ t₀ p₃ p₂ p₁ p₀ = p₁
        chosen true true false t₃ t₂ t₁ t₀ p₃ p₂ p₁ p₀ = p₂ refl
        chosen true true true t₃ t₂ t₁ t₀ p₃ p₂ p₁ p₀ = p₃
