-- ===== src/Net/Run/Lifetime.antt =====
-- From the constructor to the destructor: Init, Run with whatever events, ~EpollNet.
use vwnet_lib.Base.{
  ℕ, ◌≡◌, refl, ap, ◌∙◌, inl, inr, ◌⊎◌, Bool, true, false, List, [], ℤ, pos, negsuc, arith,
  Bool-cases, if_both,
}
use vwnet_lib.Net.State.{Sys, Handlers}
use vwnet_lib.Net.Socket.{Inbound, Outbound}
use vwnet_lib.Net.Setup.{
  Service, is_positive, setup_epoll, clear_epoll, setup_command_fd, clear_command_fd, destroy, init,
}
use vwnet_lib.Net.Run.{Report, RegisteredHandlers, run_loop, serve, run_net}
use vwnet_lib.Net.Run.Release.{
  opened, has_fifo, all_positive, int_eq_refl, NoPipe, Pipe, setup_command_fd-Pipe,
}
use vwnet_lib.Net.Run.Members.{KeepsFds, Beside, setup_command_fd-Beside}
use vwnet_lib.Net.Run.Connections.{
  NoConnection, BindsNone, StartsNone, destroy-sys, init-NoConnection, run_net-NoConnection,
}
use vwnet_lib.Net.Run.Owned.{Owns, IsNew, SameFds-Owns, init-Owns, setup_epoll-Owns, destroy-Owns}

module _ {A : Type 0} where
  setup_epoll-cmdfd : (s : Service A) → (setup_epoll s).1.cmdfd ≡ s.cmdfd
  unfolding setup_epoll
  setup_epoll-cmdfd s = ground arith

  clear_command_fd-Owns :
      (s t : Service A) (fd : ℤ)
      → Owns s
      → s.cmdfd ≡ pos 0
      → Beside s t
      → NoPipe s fd t ⊎ Pipe s fd t
      → Owns (clear_command_fd fd t)
  unfolding clear_command_fd
  clear_command_fd-Owns s t fd i no_cmd b (inl p) =
      let no_writer : is_positive t.cmdfd ≡ false = closed p.no_writer in
      rw (no_writer, p.negative)
        (record {
          owned = rw (p.none_open, b.kept_epollfd, b.kept_svr_sfd) i.owned;
          no_fifo = p.no_fifo;
          positive = b.kept_positive;
        })
    where
      closed : (t.cmdfd ≡ s.cmdfd) ⊎ (t.cmdfd ≡ negsuc 0) → is_positive t.cmdfd ≡ false
      closed (inl same) = ap is_positive (same ∙ no_cmd)
      closed (inr failure) = ap is_positive failure
  clear_command_fd-Owns s t fd i no_cmd b (inr p) =
      rw (p.writer, p.reader)
        (record {
          owned =
              rw (p.both_open, int_eq_refl t.cmdfd, int_eq_refl fd, b.kept_epollfd, b.kept_svr_sfd)
                i.owned;
          no_fifo = refl;
          positive = b.kept_positive;
        })

  clear_epoll-Owns : (s : Service A) → Owns s → Owns (clear_epoll s)
  unfolding clear_epoll
  clear_epoll-Owns s i = elim (Bool-cases (is_positive s.epollfd)) [
    | inl epoll ↦ rw epoll (record {
      owned = rw (i.owned, epoll, int_eq_refl s.epollfd);
      no_fifo = i.no_fifo;
      positive = i.positive;
    })
    | inr no_epoll ↦ rw no_epoll i
  ]

  module _ (h : Handlers A) (ki : Inbound) (ko : Outbound) (reg : RegisteredHandlers h ki ko) where
    serve-Owns :
        (waits : List (List (Report h ki ko))) (s : Service A)
        → Owns s
        → s.cmdfd ≡ pos 0
        → let (cmd_fd, s') = setup_command_fd s in Owns (serve h ki ko reg cmd_fd waits s')
    unfolding serve
    serve-Owns waits s i no_cmd =
        let (cmd_fd, s') = setup_command_fd s in
        let u =
          clear_command_fd cmd_fd (record s' { sys = run_loop h ki ko reg cmd_fd waits s'.sys }) in
        let beside = setup_command_fd-Beside s i.positive in
        let i' : Owns u =
          clear_command_fd-Owns s _ cmd_fd i no_cmd
            (record {
              kept_epollfd = beside.kept_epollfd;
              kept_svr_sfd = beside.kept_svr_sfd;
              kept_positive = beside.kept_positive;
            })
            (after_loop (setup_command_fd-Pipe s i.positive)) in
        clear_epoll-Owns _
          (record { owned = i'.owned; no_fifo = i'.no_fifo; positive = i'.positive })
      where
        after_loop :
            {fd : ℤ} {t : Service A} {x : Sys A}
            → NoPipe s fd t ⊎ Pipe s fd t
            → NoPipe s fd (record t { sys = x }) ⊎ Pipe s fd (record t { sys = x })
        after_loop (inl p) = inl (record {
          negative = p.negative;
          no_writer = p.no_writer;
          none_open = p.none_open;
          no_fifo = p.no_fifo;
        })
        after_loop (inr p) = inr (record {
          reader = p.reader;
          writer = p.writer;
          both_open = p.both_open;
          fifo = p.fifo;
        })

    run_net-Owns :
        (start_service : Service A → Bool × Service A) (waits : List (List (Report h ki ko)))
        (s : Service A)
        → KeepsFds start_service
        → Owns s
        → s.epollfd ≡ pos 0
        → s.cmdfd ≡ pos 0
        → Owns (run_net h ki ko reg start_service waits s)
    unfolding run_net
    run_net-Owns start_service waits s keeps i none_yet no_cmd =
        let s₁ = (setup_epoll s).1 in
        let i₁ = setup_epoll-Owns s i none_yet in
        let started = keeps s₁ in
        let i₂ = SameFds-Owns started i₁ in
        let no_cmd₂ : (start_service s₁).1.cmdfd ≡ pos 0 =
          started.same_cmdfd ∙ (setup_epoll-cmdfd s ∙ no_cmd) in
        if_both Owns s.init_done
          (if_both Owns (setup_epoll s).0
            (if_both Owns (start_service s₁).0 (serve-Owns waits _ i₂ no_cmd₂) i₂) i₁)
          i

    -- For an object of a class whose do_bind and start_service neither open nor close a descriptor and
    -- leave no connection where they fail, without connections at first: whatever the kernel answers to
    -- the calls of Init, Run and the destructor, whatever epoll_wait reports meanwhile, and whichever
    -- step fails, if the descriptor 0 is not given out, then at the end each descriptor that Init and the
    -- set-up of Run got from socket, epoll_create or open is closed, no fifo that they made is left, and
    -- no connection has a context any more.
    pub destroy-run_net :
        (inet_addr : List ℕ → ℕ) (do_bind start_service : Service A → Bool × Service A)
        (ip_addr : List ℕ) (port : ℕ) (waits : List (List (Report h ki ko))) (s : Service A)
        → KeepsFds do_bind
        → KeepsFds start_service
        → BindsNone do_bind
        → StartsNone start_service
        → IsNew s
        → NoConnection s
        → all_positive s.fds ≡ true
        → let s' =
            destroy
              (run_net h ki ko reg start_service waits (init inet_addr do_bind ip_addr port s).1) in
          (opened s'.trace ≡ []) × (has_fifo s'.trace ≡ false) × (s'.sys.net.contexts ≡ [])
    destroy-run_net inet_addr do_bind start_service ip_addr port waits s binds starts binds_none
          starts_none new none positive =
        let (i, none_yet, no_cmd) = init-Owns inet_addr do_bind ip_addr port s binds new positive in
        let (closed, no_fifo) =
          destroy-Owns _ (run_net-Owns start_service waits _ starts i none_yet no_cmd) in
        (
          closed,
          no_fifo,
          ap (λ x. x.net.contexts) (destroy-sys _)
              ∙ run_net-NoConnection h ki ko reg start_service waits _ starts_none
                  (init-NoConnection inet_addr do_bind ip_addr port s binds_none none),
        )
