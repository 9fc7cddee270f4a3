-- ===== src/Server/Console/Kick.antt =====
-- A line of the console on its way to the handler of its command.
use vwnet_lib.Base.{
  ℕ, ◌≤◌, ◌≡◌, refl, ap, ◌∙◌, true, false, List, [], ◌∷◌, some, ℤ, pos, find, emplace, int_eq,
  length, ==_refl, int_eq_instance,
}
use vwnet_lib.Venues.Trim.{trim}
use vwnet_lib.Net.State.{Sys}
use vwnet_lib.Net.Socket.{Inbound, Outbound}
use vwnet_lib.Net.Command.{command_text, command, committed, is_unterminated, handle_command}
use vwnet_lib.Net.Command.Parse.{no_zero, is_unterminated-command, handle_command-command}
use vwnet_lib.Net.Run.{Report, RegisteredHandlers, run_committed, after_command, run_report}
use vwnet_lib.Server.State.{Bse}
use vwnet_lib.Server.Process.{bse_handlers}
use vwnet_lib.Server.Playback.{command_kick}
use vwnet_lib.Server.Commands.{kick_fd, add_command}
use vwnet_lib.Server.Console.{
  give_command, get_parameter, cmd_proc, run_trimmed, run_line, pipe_records,
}

-- The letters with a parameter, the number of the command, and what its handler does.
kick_handler :
    (rounds fuel : ℕ)
    → find (pos 4) (add_command rounds fuel []) ≡ some (λ para. command_kick (kick_fd para))
unfolding find emplace add_command
kick_handler rounds fuel = refl

kick_line :
    (cmd_line input para : List ℕ) (ch : ℕ)
    → trim cmd_line ≡ 107 ∷ 32 ∷ ch ∷ para
    → run_line cmd_line input ≡ give_command 4 (ch ∷ para)
unfolding run_line run_trimmed cmd_proc get_parameter
kick_line cmd_line input para ch typed = rw typed refl

module _ (ki : Inbound) (ko : Outbound) (reg : RegisteredHandlers bse_handlers ki ko)
    (rounds fuel : ℕ) where
  report_committed :
      (r : Report bse_handlers ki ko) (s : Sys Bse) (para : List ℕ) (cmd : ℤ)
      (fun : List ℕ → Sys Bse → Sys Bse)
      → handle_command reg.commands r.cmd_bytes r.errno ≡ committed cmd para
      → find cmd reg.commands ≡ some fun
      → is_unterminated r.cmd_bytes ≡ false
      → run_report bse_handlers ki ko reg (pos r.fd) r s ≡ (true, fun para s)
  unfolding run_report after_command run_committed
  report_committed r s para cmd fun arrives known ended =
      let here : int_eq (pos r.fd) (pos r.fd) ≡ true = ==_refl r.fd in
      rw (here, arrives, ended) (rw (known, run_committed) refl)

  -- If the console's line is `k` and a parameter, up to white space around it, and the parameter has no
  -- zero byte and at most thirteen characters: the line writes one record into the pipe, the one of the
  -- command 4 with the parameter; and an event of the pipe with this record, with the commands that
  -- add_command registers, runs command_kick on the descriptor that the parameter spells, and the
  -- service goes on.
  pub run_report-run_line :
      (cmd_line input para : List ℕ) (ch : ℕ) (r : Report bse_handlers ki ko) (s : Sys Bse)
      → trim cmd_line ≡ 107 ∷ 32 ∷ ch ∷ para
      → length (command_text 4 (ch ∷ para)) ≤ 15
      → no_zero (ch ∷ para) ≡ true
      → reg.commands ≡ add_command rounds fuel []
      → let sent = command 4 (ch ∷ para) in
        (pipe_records (run_line cmd_line input) ≡ sent ∷ [])
        × (run_report bse_handlers ki ko reg (pos r.fd) (record r { cmd_bytes = sent }) s
            ≡ (true, command_kick (kick_fd (ch ∷ para)) s))
  run_report-run_line cmd_line input para ch r s typed fits clean known =
      let there : find (pos 4) reg.commands ≡ some (λ p. command_kick (kick_fd p)) =
        ap (find (pos 4)) known ∙ kick_handler rounds fuel in
      (
        unfold pipe_records in ap pipe_records (kick_line cmd_line input para ch typed),
        report_committed (record r { cmd_bytes = command 4 (ch ∷ para) }) s (ch ∷ para) (pos 4)
            (λ p. command_kick (kick_fd p))
            (handle_command-command reg.commands 4 (ch ∷ para) r.errno _ fits clean refl there)
            there (is_unterminated-command 4 (ch ∷ para) fits clean),
      )
