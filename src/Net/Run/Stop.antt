-- ===== src/Net/Run/Stop.antt =====
-- What Stop does to the loop of Run.
use vwnet_lib.Base.{
  ℕ, ◌≡◌, refl, inl, inr, true, false, List, [], ◌∷◌, ◌++◌, ℤ, pos, int_eq, Map, Bool-cases,
  ==_refl,
}
use vwnet_lib.Venues.Trim.{ltrim}
use vwnet_lib.Net.State.{Sys, Handlers}
use vwnet_lib.Net.Socket.{Inbound, Outbound}
use vwnet_lib.Net.Command.{
  command_text, command, quit, is_unterminated, handle_command, split_command, run_command,
}
use vwnet_lib.Net.Run.{Report, RegisteredHandlers, after_command, run_report, run_reports, run_loop}

-- What Stop writes is read as quit, whatever the handlers are.
handle_command-quit :
    {H : Type 0} (handlers : Map ℤ H) (errno : ℕ)
    → handle_command handlers (command 1 []) errno ≡ quit
unfolding handle_command split_command run_command command command_text ltrim
handle_command-quit handlers errno = refl

quit_terminated : is_unterminated (command 1 []) ≡ false
unfolding command command_text
quit_terminated = refl

module _ {A : Type 0} (h : Handlers A) (ki : Inbound) (ko : Outbound)
    (reg : RegisteredHandlers h ki ko) where
  report-quit :
      (r : Report h ki ko) (s : Sys A)
      → r.cmd_bytes ≡ command 1 []
      → run_report h ki ko reg (pos r.fd) r s ≡ (false, s)
  unfolding run_report after_command
  report-quit r s e =
      let here : int_eq (pos r.fd) (pos r.fd) ≡ true = ==_refl r.fd in
      rw (here, e, handle_command-quit reg.commands r.errno, quit_terminated)

  reports-quit :
      (r : Report h ki ko) (before after : List (Report h ki ko)) (s : Sys A)
      → r.cmd_bytes ≡ command 1 []
      → run_reports h ki ko reg (pos r.fd) (before ++ (r ∷ after)) s
        ≡ (false, (run_reports h ki ko reg (pos r.fd) before s).1)
  unfolding run_reports
  reports-quit r [] after s e = rw (report-quit r s e)
  reports-quit r (b ∷ before) after s e =
      elim (Bool-cases (run_report h ki ko reg (pos r.fd) b s).0) [
        | inl on ↦ rw on (reports-quit r before after _ e)
        | inr off ↦ rw off
      ]

  -- If the command that Stop writes is read from the pipe of commands on an event of a wait, the loop of
  -- Run ends with the state after the events before it in that wait: those behind it, and all later
  -- waits, are not looked at. If one of the events before it is itself a quit, the state is the one at
  -- that quit.
  pub run_loop-command :
      (r : Report h ki ko) (before after : List (Report h ki ko))
      (waits : List (List (Report h ki ko))) (s : Sys A)
      → r.cmd_bytes ≡ command 1 []
      → run_loop h ki ko reg (pos r.fd) ((before ++ (r ∷ after)) ∷ waits) s
        ≡ (run_reports h ki ko reg (pos r.fd) before s).1
  unfolding run_loop
  run_loop-command r [] after waits s e = rw (reports-quit r [] after s e)
  run_loop-command r (b ∷ before) after waits s e = rw (reports-quit r (b ∷ before) after s e)
