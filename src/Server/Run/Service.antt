-- ===== src/Server/Run/Service.antt =====
-- The server under the whole of Run: its set-up, every event, its commands and files, its tear-down.
use vwnet_lib.Base.{
  ℕ, ◌≡◌, ◌≤◌, ◌<◌, ◌^◌, refl, subst, Bool, true, false, List, [], ◌∷◌, Option, none, some, ℤ, pos,
  int_eq, find, emplace, int_eq_instance, if◌then◌else◌, if_both, inl, inr, Bool-cases, ◌||◌, ◌&&◌,
  negsuc, ltb, length,
}
use vwnet_lib.Net.State.{
  Net, Sys, handle_accept, registry_fd_handler, make_nonblock, add_event, set_event,
}
use vwnet_lib.Net.Socket.{Inbound, Outbound}
use vwnet_lib.Net.Setup.{Service, next_ok, server_start_service}
use vwnet_lib.Net.Events.Keep.{IsQuiet, SameBuffers-IsQuiet}
use vwnet_lib.Net.Run.{Report, RegisteredHandlers, run_net}
use vwnet_lib.Net.Run.Keep.{WaitsFit, net_at-keep, run_net-keep}
use vwnet_lib.Server.State.{BseClientContext, Bse}
use vwnet_lib.Server.Process.{bse_handlers}
use vwnet_lib.Server.Process.Invariant.{ServerInv}
use vwnet_lib.Server.Playback.{send_jnl_file, handle_file_notify}
use vwnet_lib.Server.Playback.Health.{
  send_jnl_file-SafeServer, handle_file_notify-SafeServer, command_kick-SafeServer,
}
use vwnet_lib.Server.Commands.{play_each, command_playback, add_command}
use vwnet_lib.Server.Config.{KeepAlivePara, bse_start_service}
use vwnet_lib.Server.Run.{IsFresh}
use vwnet_lib.Server.Run.Safe.{SafeServer, SafeServer-ServerInv, IsFresh-SafeServer, bse-Keeps}
use vwnet_lib.Venues.Messages.{sizeof_login_request}
use vwnet_lib.Net.Events.Buffers.{same_contexts}

-- The functions that class BSESimulator registers; `reads` is what the descriptor of a watch gives.
abbrev pub bse_registered :
    (ki : Inbound) (ko : Outbound)
    → ℕ
    → ℕ
    → (ℕ → List (ℕ × ℕ))
    → RegisteredHandlers bse_handlers ki ko
bse_registered ki ko rounds fuel reads = record {
  commands = add_command rounds fuel [];
  notify = λ fd. handle_file_notify (reads fd) fd;
}

module _ (size : ℕ) where
  play_each-SafeServer :
      (rounds fuel : ℕ) (target_code : ℤ) (contexts : List (ℤ × BseClientContext)) (s : Sys Bse)
      → SafeServer size s
      → SafeServer size (play_each rounds fuel target_code contexts s).1
  unfolding play_each
  play_each-SafeServer rounds fuel target_code [] s inv = inv
  play_each-SafeServer rounds fuel target_code ((code, it) ∷ rest) s inv =
      let played = send_jnl_file-SafeServer size rounds fuel it s inv in
      let (ended, sent) = send_jnl_file rounds fuel it s in
      chosen
        ((int_eq target_code (negsuc 0) || int_eq target_code code) && ltb 0 (length it.jnl_file))
        ended sent.app.quit_current_task (play_each rounds fuel target_code rest s)
        (play_each rounds fuel target_code rest sent) sent
        (play_each-SafeServer rounds fuel target_code rest s inv)
        (play_each-SafeServer rounds fuel target_code rest sent played) played
    where
      chosen :
          (here ended quitting : Bool) (skipped further : Bool × Sys Bse) (sent : Sys Bse)
          → SafeServer size skipped.1
          → SafeServer size further.1
          → SafeServer size sent
          → let out : Bool × Sys Bse =
              if here
              then (if ended then (if quitting then (true, sent) else further) else (false, sent))
              else skipped in
            SafeServer size out.1
      chosen false ended quitting skipped further sent p q t = p
      chosen true false quitting skipped further sent p q t = t
      chosen true true true skipped further sent p q t = t
      chosen true true false skipped further sent p q t = q

  command_playback-SafeServer :
      (rounds fuel : ℕ) (para : List ℕ) (s : Sys Bse)
      → SafeServer size s
      → SafeServer size (command_playback rounds fuel para s).1
  unfolding command_playback
  command_playback-SafeServer rounds fuel para s inv =
      play_each-SafeServer rounds fuel _ s.app.client_context s inv

  -- What a handler of a command, if there is one, keeps.
  abbrev Kept : Option (List ℕ → Sys Bse → Sys Bse) → Type 0
  Kept none = Unit {0}
  Kept (some fun) = (para : List ℕ) (s : Sys Bse) → SafeServer size s → SafeServer size (fun para s)

  add_command-Kept : (rounds fuel : ℕ) (cmd : ℤ) → Kept (find cmd (add_command rounds fuel []))
  unfolding find emplace add_command
  add_command-Kept rounds fuel cmd =
      if_both Kept (int_eq (pos 2) cmd) (command_playback-SafeServer rounds fuel) (
        if_both Kept (int_eq (pos 3) cmd) (λ para s inv. inv)
          (if_both Kept (int_eq (pos 4) cmd) (λ para s inv. command_kick-SafeServer size _ s inv)
            tt))

  registry-IsQuiet : (fd : ℕ) (n : Net) → IsQuiet n (registry_fd_handler fd handle_accept n)
  unfolding registry_fd_handler make_nonblock add_event set_event
  registry-IsQuiet fd n = SameBuffers-IsQuiet refl refl (same_contexts refl refl)

  module _ (long : sizeof_login_request ≤ size) (small : size < 2 ^ 64) where
    server-SafeServer :
        (s : Service Bse) → SafeServer size s.sys → SafeServer size (server_start_service s).1.sys
    unfolding server_start_service
    server-SafeServer s inv = elim (Bool-cases (next_ok s.oks).0) [
      | inl ok ↦ rw ok (
          net_at-keep bse_handlers (bse-Keeps size long small) s.svr_sfd
            (λ fd. registry_fd_handler fd handle_accept) _ registry-IsQuiet inv)
      | inr denied ↦ rw denied inv
    ]

    start-SafeServer :
        (setting : KeepAlivePara) (s : Service Bse)
        → SafeServer size s.sys
        → SafeServer size (bse_start_service setting s).1.sys
    unfolding bse_start_service
    start-SafeServer setting s inv = elim (Bool-cases setting.enable) [
      | inl enabled ↦ rw enabled (server-SafeServer _ inv)
      | inr disabled ↦ rw disabled (server-SafeServer s inv)
    ]

-- From a server whose accounts stand under their codes and that has no client and no connection yet,
-- with buffers that have room for the longest message, whatever the kernel answers to Run's set-up and
-- whatever epoll_wait reports (connections to accept, each with a block of the buffer's size, bytes,
-- errors, closes, records of commands that have a zero byte, changed files, the end), while malloc does
-- not fail: when Run returns the maps are in order, and `undefined` is not set, that is, no read has gone
-- past the end of a connection's buffer, no send has copied more than it was given, and no client was
-- erased from a set without it.
pub run_net-ServerInv :
    (ki : Inbound) (ko : Outbound) (rounds fuel : ℕ) (reads : ℕ → List (ℕ × ℕ))
    (setting : KeepAlivePara) (waits : List (List (Report bse_handlers ki ko))) (s : Service Bse)
    (size : ℕ)
    → IsFresh s.sys
    → s.sys.net.contexts ≡ []
    → s.sys.net.buf_size ≡ size
    → sizeof_login_request ≤ size
    → size < 2 ^ 64
    → WaitsFit bse_handlers ki ko size waits
    → ServerInv
        (run_net bse_handlers ki ko
          (bse_registered ki ko rounds fuel reads)
          (bse_start_service setting)
          waits
          s).sys
run_net-ServerInv ki ko rounds fuel reads setting waits s size fresh none_yet sized long small fit =
    SafeServer-ServerInv size _ (
      run_net-keep bse_handlers (bse-Keeps size long small) ki ko
        (bse_registered ki ko rounds fuel reads)
        (λ cmd fun e. subst (Kept size) e (add_command-Kept size rounds fuel cmd))
        (λ fd t inv. handle_file_notify-SafeServer size (reads fd) fd t inv)
        (bse_start_service setting) waits s fit
        (λ t inv. start-SafeServer size long small setting t inv)
        (IsFresh-SafeServer size s.sys fresh none_yet sized))
