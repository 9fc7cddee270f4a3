-- ===== src/Net/Run/Keep.antt =====
-- What the virtual functions and the registered ones keep the whole of Run keeps.
use vwnet_lib.Base.{
  ℕ, arith, ◌≡◌, refl, inl, inr, Bool, true, false, List, [], ◌∷◌, Option, none, some, ℤ, pos,
  negsuc, find, nat_eq, int_eq_instance, if_both, if◌then◌else◌, Option-cases,
}
use vwnet_lib.Net.State.{
  FdHandler, Net, Sys, Handlers, handle_accept, handle_file_notify, delete_all_contexts, add_event,
  set_event, epollin, get_context,
}
use vwnet_lib.Net.Events.Buffers.{BlocksFit, same_contexts}
use vwnet_lib.Net.Socket.{Inbound, Outbound}
use vwnet_lib.Net.Command.{
  CommandResult, read_failed, quit, unsupported, committed, is_unterminated,
}
use vwnet_lib.Net.Events.Keep.{
  IsQuiet, SameBuffers-IsQuiet, Keeps, clearing, handle_accept-keep, run_ready-keep,
}
use vwnet_lib.Net.Setup.{
  Service, is_positive, net_at, setup_epoll, clear_epoll, open_writer, open_pipe, make_fifo,
  setup_command_fd, clear_command_fd,
}
use vwnet_lib.Net.Run.{
  Report, RegisteredHandlers, run_handler, run_io, run_committed, after_command, run_report,
  run_reports, run_loop, serve, run_net,
}
use vwnet_lib.Net.Events.{run_ready}

-- Each connection that is accepted gets a block of the buffer's size, and a record from the pipe has a
-- zero byte, as those of Command have.
abbrev pub ReportFits :
    {A : Type 0} (h : Handlers A) (ki : Inbound) (ko : Outbound) → ℕ → Report h ki ko → Type 0
ReportFits h ki ko size r = BlocksFit size r.conns × (is_unterminated r.cmd_bytes ≡ false)

abbrev pub ReportsFit :
    {A : Type 0} (h : Handlers A) (ki : Inbound) (ko : Outbound)
    → ℕ
    → List (Report h ki ko)
    → Type 0
ReportsFit h ki ko size [] = Unit {0}
ReportsFit h ki ko size (r ∷ rest) = ReportFits h ki ko size r × ReportsFit h ki ko size rest

abbrev pub WaitsFit :
    {A : Type 0} (h : Handlers A) (ki : Inbound) (ko : Outbound)
    → ℕ
    → List (List (Report h ki ko))
    → Type 0
WaitsFit h ki ko size [] = Unit {0}
WaitsFit h ki ko size (reports ∷ waits) =
    ReportsFit h ki ko size reports × WaitsFit h ki ko size waits

module _ {A : Type 0} (h : Handlers A) {size : ℕ} {P : Sys A → Type 0} (k : Keeps h size P) where
  -- The set-up of the pipe and the tear-down change the network quietly at most.
  abbrev Holds : Service A → Type 0
  Holds s = P s.sys

  pub net_at-keep :
      (fd : ℤ) (f : ℕ → Net → Net) (s : Service A)
      → ((j : ℕ) (n : Net) → IsQuiet n (f j n))
      → P s.sys
      → P (net_at fd f s).sys
  net_at-keep (pos fd) f s quiet p = k.quiet s.sys _ (quiet fd s.sys.net) p
  net_at-keep (negsuc n) f s quiet p = p

  add_event-IsQuiet : (event fd : ℕ) (n : Net) → IsQuiet n (add_event fd event n)
  unfolding add_event set_event
  add_event-IsQuiet event fd n = SameBuffers-IsQuiet refl refl (same_contexts refl refl)

  abbrev Gives : ℤ × Service A → Type 0
  Gives out = P out.1.sys

  open_writer-keep : (fd : ℤ) (s : Service A) → P s.sys → P (open_writer fd s).1.sys
  unfolding open_writer
  open_writer-keep fd s p =
      if_both Gives _ p (net_at-keep fd (λ n. add_event n epollin) _ (add_event-IsQuiet epollin) p)

  open_pipe-keep : (s : Service A) → P s.sys → P (open_pipe s).1.sys
  unfolding open_pipe
  open_pipe-keep s p = if_both Gives _ p (open_writer-keep _ _ p)

  make_fifo-keep : (s : Service A) → P s.sys → P (make_fifo s).1.sys
  unfolding make_fifo
  make_fifo-keep s p = if_both Gives _ (open_pipe-keep _ p) p

  setup_command_fd-keep : (s : Service A) → P s.sys → P (setup_command_fd s).1.sys
  unfolding setup_command_fd
  setup_command_fd-keep s p = make_fifo-keep _ (if_both Holds _ p p)

  clear_command_fd-keep : (fd : ℤ) (s : Service A) → P s.sys → P (clear_command_fd fd s).sys
  unfolding clear_command_fd
  clear_command_fd-keep fd s p =
      let cleared = if_both Holds (is_positive s.cmdfd) p p in if_both Holds _ cleared cleared

  clear_epoll-keep : (s : Service A) → P s.sys → P (clear_epoll s).sys
  unfolding clear_epoll
  clear_epoll-keep s p = if_both Holds _ p p

  setup_epoll-keep : (s : Service A) → P s.sys → P (setup_epoll s).1.sys
  unfolding setup_epoll
  setup_epoll-keep s p =
      let closed = if_both Holds (is_positive s.epollfd) p p in
      if_both (λ (out : Bool × Service A). P out.1.sys) _ closed closed

  delete_all_contexts-IsQuiet : (n : Net) → IsQuiet n (delete_all_contexts n)
  unfolding delete_all_contexts get_context find
  delete_all_contexts-IsQuiet n = record {
    same_undefined = refl;
    same_mallocs = refl;
    same_size = refl;
    old_bufs = λ fd b e. absurd (ground arith);
  }

  module _ (ki : Inbound) (ko : Outbound) (reg : RegisteredHandlers h ki ko)
      (commands : (cmd : ℤ) (fun : List ℕ → Sys A → Sys A)
        → find cmd reg.commands ≡ some fun
        → (para : List ℕ) (s : Sys A) → P s
        → P (fun para s))
      (notifies : (fd : ℕ) (s : Sys A) → P s → P (reg.notify fd s)) where
    run_handler-keep :
        (r : Report h ki ko) (s : Sys A)
        → BlocksFit size r.conns
        → P s
        → P (run_handler h ki ko reg r s)
    unfolding run_handler
    run_handler-keep r s fits p = by_handler (find r.fd s.net.fd_handlers)
      where
        by_handler :
            (handler : Option FdHandler)
            → P (elim handler [
              | none ↦ run_ready h ki ko r.fd r.events r.inbound r.outbound r.fuel s
              | some handle_accept ↦ vwnet_lib.Net.Events.handle_accept h r.conns s
              | some handle_file_notify ↦ reg.notify r.fd s
            ])
        by_handler none = run_ready-keep h k ki ko r.fd r.events r.inbound r.outbound r.fuel s p
        by_handler (some handle_accept) = handle_accept-keep h k r.conns s fits p
        by_handler (some handle_file_notify) = notifies r.fd s p

    run_io-keep :
        (r : Report h ki ko) (s : Sys A) → BlocksFit size r.conns → P s → P (run_io h ki ko reg r s)
    unfolding run_io
    run_io-keep r s fits p = if_both P _ (clearing h k r.fd r.events _ (k.losing r.fd s p)) (
        if_both P _ (clearing h k r.fd r.events _ (k.failing r.fd r.errno s p))
          (run_handler-keep r s fits p))

    after_command-keep :
        (result : CommandResult) (s : Sys A) → P s → P (after_command h ki ko reg result s).1
    unfolding after_command run_committed
    after_command-keep read_failed s p = p
    after_command-keep quit s p = p
    after_command-keep unsupported s p = p
    after_command-keep (committed cmd para) s p = elim (Option-cases (find cmd reg.commands)) [
      | inl e ↦ rw (e, run_committed) p
      | inr (fun, e) ↦ rw (e, run_committed) (commands cmd fun e para s p)
    ]

    run_report-keep :
        (cmd_fd : ℤ) (r : Report h ki ko) (s : Sys A)
        → ReportFits h ki ko size r
        → P s
        → P (run_report h ki ko reg cmd_fd r s).1
    unfolding run_report
    run_report-keep cmd_fd r s (fits, ended) p =
        if_both (λ (out : Bool × Sys A). P out.1) _ (after_command-keep _ _ (rw ended p))
          (run_io-keep r s fits p)

    run_reports-keep :
        (cmd_fd : ℤ) (reports : List (Report h ki ko)) (s : Sys A)
        → ReportsFit h ki ko size reports
        → P s
        → P (run_reports h ki ko reg cmd_fd reports s).1
    unfolding run_reports
    run_reports-keep cmd_fd [] s fits p = p
    run_reports-keep cmd_fd (r ∷ rest) s (fits, more) p =
        let now = run_report-keep cmd_fd r s fits p in
        if_both (λ (out : Bool × Sys A). P out.1) _ (run_reports-keep cmd_fd rest _ more now) now

    pub run_loop-keep :
        (cmd_fd : ℤ) (waits : List (List (Report h ki ko))) (s : Sys A)
        → WaitsFit h ki ko size waits
        → P s
        → P (run_loop h ki ko reg cmd_fd waits s)
    unfolding run_loop
    run_loop-keep cmd_fd [] s fits p = p
    run_loop-keep cmd_fd ([] ∷ waits) s fits p = p
    run_loop-keep cmd_fd ((r ∷ rest) ∷ waits) s (fits, more) p =
        let now = run_reports-keep cmd_fd (r ∷ rest) s fits p in
        if_both P _ (run_loop-keep cmd_fd waits _ more now) now

    serve-keep :
        (cmd_fd : ℤ) (waits : List (List (Report h ki ko))) (s : Service A)
        → WaitsFit h ki ko size waits
        → P s.sys
        → P (serve h ki ko reg cmd_fd waits s).sys
    unfolding serve
    serve-keep cmd_fd waits s fits p = clear_epoll-keep _ (
        k.quiet _ _ (delete_all_contexts-IsQuiet _)
          (clear_command_fd-keep cmd_fd _ (run_loop-keep cmd_fd waits s.sys fits p)))

    -- Whatever epoll_wait reports, and whatever the kernel answers.
    pub run_net-keep :
        (start_service : Service A → Bool × Service A) (waits : List (List (Report h ki ko)))
        (s : Service A)
        → WaitsFit h ki ko size waits
        → ((t : Service A) → P t.sys → P (start_service t).1.sys)
        → P s.sys
        → P (run_net h ki ko reg start_service waits s).sys
    unfolding run_net
    run_net-keep start_service waits s fits starts p =
        let p₁ = setup_epoll-keep s p in
        let p₂ = starts _ p₁ in
        chosen s.init_done _ _ _ _ _ s (serve-keep _ waits _ fits (setup_command_fd-keep _ p₂)) p₂
          p₁ p
      where
        chosen :
            (done ready started : Bool) (t₃ t₂ t₁ t₀ : Service A)
            → P t₃.sys
            → P t₂.sys
            → P t₁.sys
            → P t₀.sys
            → P (if done then (if ready then (if started then t₃ else t₂) else t₁) else t₀).sys
        chosen false ready started t₃ t₂ t₁ t₀ p₃ p₂ p₁ p₀ = p₀
        chosen true false started t₃ t₂ t₁ t₀ p₃ p₂ p₁ p₀ = p₁
        chosen true true false t₃ t₂ t₁ t₀ p₃ p₂ p₁ p₀ = p₂
        chosen true true true t₃ t₂ t₁ t₀ p₃ p₂ p₁ p₀ = p₃
