-- ===== src/Tests/Run.antt =====
-- The server's life: a configuration, Run, a command from the console, and Stop.
use vwnet_lib.Base.{
  ℕ, ◌≡◌, refl, true, false, List, [], ◌∷◌, ◌++◌, none, some, arith, pos, int_eq_instance, length,
}
use vwnet_lib.Venues.Trim.{ltrim, rtrim, trim}
use vwnet_lib.Net.Command.{command_text, command}
use vwnet_lib.Net.Setup.{Service, init, destroy, server_do_bind}
use vwnet_lib.Net.Run.{Report, RegisteredHandlers, run_net, run_report, run_reports, run_loop}
use vwnet_lib.Net.Run.Release.{opened, has_fifo}
use vwnet_lib.Net.Run.Members.{server_do_bind-KeepsFds}
use vwnet_lib.Net.Run.Owned.{IsNew}
use vwnet_lib.Net.Run.Lifetime.{destroy-run_net}
use vwnet_lib.Net.Run.Stop.{run_loop-command}
use vwnet_lib.Server.State.{Bse}
use vwnet_lib.Server.Process.{bse_handlers}
use vwnet_lib.Server.Playback.{command_kick}
use vwnet_lib.Server.Commands.{kick_fd, add_command}
use vwnet_lib.Server.Config.{KeepAlivePara, bse_start_service}
use vwnet_lib.Server.Config.Start.{bse_start_service-KeepsFds}
use vwnet_lib.Server.Console.{run_line, pipe_records}
use vwnet_lib.Server.Console.Kick.{run_report-run_line}
use vwnet_lib.Server.Process.Invariant.{ServerInv}
use vwnet_lib.Server.Run.{IsFresh}
use vwnet_lib.Server.Run.Service.{bse_registered, run_net-ServerInv}
use vwnet_lib.Net.Run.Connections.{server_do_bind-BindsNone}
use vwnet_lib.Server.Config.Start.{bse_start_service-StartsNone}
use vwnet_lib.Tests.Data.{
  block, five_a_read, three_a_write, server, connected, login_bytes, account_keyed,
}

-- The kernel gives out 3, 4, ..., and every call succeeds, but for the second end of the pipe.
abbrev pub new_service : Service Bse
new_service = record {
  sys = server;
  epollfd = pos 0;
  svr_sfd = pos 0;
  cmdfd = pos 0;
  svr_addr = 0;
  init_done = false;
  thread_num = 2;
  fds = some 3 ∷ (some 4 ∷ (some 5 ∷ (none ∷ [])));
  oks = true ∷ (true ∷ (true ∷ (true ∷ (true ∷ (true ∷ (true ∷ (true ∷ (true ∷ []))))))));
  trace = [];
}

abbrev unconnected : Service Bse
unconnected = record new_service {
  sys = record server { net = record server.net { contexts = [] } };
}

unconnected-IsNew : IsNew unconnected
unconnected-IsNew = record {
  no_epollfd = refl;
  no_svr_sfd = refl;
  no_cmdfd = refl;
  no_trace = refl;
}

unconnected-IsFresh : IsFresh unconnected.sys
unconnected-IsFresh = record {
  keyed = account_keyed;
  no_socks = refl;
  no_contexts = refl;
  healthy = record { defined = refl; blocks = refl };
}

abbrev registered : RegisteredHandlers bse_handlers five_a_read three_a_write
registered = record { commands = add_command 10 10 []; notify = λ fd s. s }

abbrev pub alive : KeepAlivePara
alive = record { enable = true; idle = pos 30; interval = pos 3; count = pos 2 }

-- A connection at the listening socket, whose descriptor is 3.
abbrev accepted_one : List (List (Report bse_handlers five_a_read three_a_write))
accepted_one =
    (record {
      fd = 3;
      events = 1;
      errno = 0;
      fuel = 90;
      cmd_bytes = [];
      conns = record { conn_fd = 6; cli_addr = 1; block = block } ∷ [];
      inbound = [];
      outbound = ([], 9);
    }
      ∷ [])
    ∷ []

abbrev run_once : Service Bse
run_once = destroy (
    run_net bse_handlers five_a_read three_a_write registered (bse_start_service alive) accepted_one
      (init length server_do_bind [] 8000 unconnected).1)

destroy-run_net_example :
    (opened run_once.trace ≡ [])
    × (has_fifo run_once.trace ≡ false)
    × (run_once.sys.net.contexts ≡ [])
destroy-run_net_example =
    destroy-run_net bse_handlers five_a_read three_a_write registered length server_do_bind
      (bse_start_service alive) [] 8000 accepted_one unconnected server_do_bind-KeepsFds
      (bse_start_service-KeepsFds alive) server_do_bind-BindsNone
      (bse_start_service-StartsNone alive) unconnected-IsNew refl refl

-- An event of the pipe of commands.
abbrev piped : List ℕ → Report bse_handlers five_a_read three_a_write
piped bytes = record {
  fd = 7;
  events = 1;
  errno = 0;
  fuel = 90;
  cmd_bytes = bytes;
  conns = [];
  inbound = [];
  outbound = ([], 9);
}

run_loop-command_example :
    run_loop bse_handlers five_a_read three_a_write registered
      (pos 7)
      ((piped (command 4 (53 ∷ [])) ∷ (piped (command 1 []) ∷ (piped (command 3 []) ∷ []))) ∷ [])
      connected
    ≡ (run_reports bse_handlers five_a_read three_a_write registered
        (pos 7)
        (piped (command 4 (53 ∷ [])) ∷ [])
        connected).1
run_loop-command_example =
    run_loop-command bse_handlers five_a_read three_a_write registered (piped (command 1 []))
      (piped (command 4 (53 ∷ [])) ∷ []) (piped (command 3 []) ∷ []) [] connected refl

-- "k 5" and a space.
abbrev kick_five : List ℕ
kick_five = 107 ∷ (32 ∷ (53 ∷ (32 ∷ [])))

typed : trim kick_five ≡ 107 ∷ (32 ∷ (53 ∷ []))
unfolding trim rtrim ltrim
typed = refl

run_report-run_line_example :
    (pipe_records (run_line kick_five []) ≡ command 4 (53 ∷ []) ∷ [])
    × (run_report bse_handlers five_a_read three_a_write registered
          (pos 7)
          (piped (command 4 (53 ∷ [])))
          connected
        ≡ (true, command_kick (kick_fd (53 ∷ [])) connected))
unfolding command_text
run_report-run_line_example =
    run_report-run_line five_a_read three_a_write registered 10 10 kick_five [] [] 53 (piped [])
      connected typed (omega arith) refl refl

-- A connection, its log-in, an order to kick it, and Stop.
abbrev waits : List (List (Report bse_handlers five_a_read three_a_write))
waits =
    (record {
      fd = 6;
      events = 1;
      errno = 0;
      fuel = 90;
      cmd_bytes = [];
      conns = [];
      inbound = login_bytes;
      outbound = ([], 9);
    }
      ∷ [])
    ∷ ((piped (command 4 (53 ∷ [])) ∷ (piped (command 1 []) ∷ [])) ∷ [])

run_net-ServerInv_example :
    ServerInv
      (run_net bse_handlers five_a_read three_a_write
        (bse_registered five_a_read three_a_write 10 10 (λ fd. []))
        (bse_start_service alive)
        (accepted_one ++ waits)
        unconnected).sys
unfolding command command_text
run_net-ServerInv_example =
    run_net-ServerInv five_a_read three_a_write 10 10 (λ fd. []) alive (accepted_one ++ waits)
      unconnected 100 unconnected-IsFresh refl refl (omega arith) (omega arith)
      ((((refl, tt), refl), tt), ((((tt, refl), tt)), (((tt, refl), ((tt, refl), tt)), tt)))
