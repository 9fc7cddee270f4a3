-- ===== src/Server/Commands.antt =====
-- The commands of the server: command_list, command_playback and add_command. Printing is a value.
pub mod Listing
use vwnet_lib.Base.{
  ℕ, Bool, true, false, ◌||◌, ◌&&◌, List, [], ◌∷◌, Option, none, some, ℤ, pos, negsuc, int_eq, Map,
  find, emplace, assign, insert, int_eq_instance, nat_eq, length, ltb, ◌==◌, if◌then◌else◌, not,
}
use vwnet_lib.Net.State.{Net, NetContext, Sys, get_context}
use vwnet_lib.Net.Command.{atoi}
use vwnet_lib.Net.Run.{RegisteredHandlers}
use vwnet_lib.Net.Socket.{Inbound, Outbound}
use vwnet_lib.Server.State.{BseAccount, BseClientContext, Bse, no_code}
use vwnet_lib.Server.Process.{bse_handlers}
use vwnet_lib.Server.Playback.{send_jnl_file, handle_file_notify, command_kick}

-- The clients of each code, `onlines`: the first one makes the set, a further one joins it.
unfoldable pub group_client : ℕ → ℤ → Map ℤ (List ℕ) → Map ℤ (List ℕ)
group_client fd code onlines = elim (find code onlines) [
  | none ↦ emplace code (insert fd []) onlines
  | some on ↦ assign code (insert fd on) onlines
]

unfoldable pub group_clients : Map ℕ ℤ → Map ℤ (List ℕ) → Map ℤ (List ℕ)
group_clients [] onlines = onlines
group_clients ((fd, code) ∷ rest) onlines = group_clients rest (group_client fd code onlines)

-- A line for a client: the descriptor, and the peer's address where there is a context.
pub record ClientLine : Type 0 where
  pub fd : ℕ
  pub peer : Option ℕ

-- What is printed for a code: the account's name, empty for none, and whether the clients have logged
-- in (`~`) or not (`*`).
pub record CodeLines : Type 0 where
  pub code : ℤ
  pub name : List ℕ
  pub logged_in : Bool
  pub clients : List ClientLine

abbrev peer_of : Option NetContext → Option ℕ
peer_of none = none
peer_of (some ctxt) = some ctxt.rt_saddr

abbrev name_of : Option BseAccount → List ℕ
name_of none = []
name_of (some account) = account.name

unfoldable pub client_lines : Net → List ℕ → List ClientLine
client_lines n [] = []
client_lines n (fd ∷ fds) =
    record { fd = fd; peer = peer_of (get_context fd n) } ∷ client_lines n fds

unfoldable pub code_lines : Sys Bse → Map ℤ (List ℕ) → List CodeLines
code_lines s [] = []
code_lines s ((code, fds) ∷ onlines) =
    record {
      code = code;
      name = name_of (find code s.app.accounts);
      logged_in = not (int_eq code no_code);
      clients = client_lines s.net fds;
    }
    ∷ code_lines s onlines

-- Without clients it says so: there is no line.
unfoldable pub command_list : Sys Bse → List CodeLines
command_list s = code_lines s (group_clients s.app.sock_lookup [])

-- The loop over the contexts; whether it has ended.
unfoldable pub play_each : ℕ → ℕ → ℤ → Map ℤ BseClientContext → Sys Bse → Bool × Sys Bse
play_each rounds fuel target_code [] s = (true, s)
play_each rounds fuel target_code ((code, it) ∷ rest) s =
    let (ended, s') = send_jnl_file rounds fuel it s in
    let skipped = play_each rounds fuel target_code rest s in
    let further = play_each rounds fuel target_code rest s' in
    if (int_eq target_code (negsuc 0) || int_eq target_code code) && ltb 0 (length it.jnl_file)
    then if ended then if s'.app.quit_current_task then (true, s') else further else (false, s')
    else skipped

unfoldable pub command_playback : ℕ → ℕ → List ℕ → Sys Bse → Bool × Sys Bse
command_playback rounds fuel para s =
    let target_code = if length para == 0 then negsuc 0 else atoi para in
    play_each rounds fuel target_code s.app.client_context s

-- The descriptor that command_kick makes of its parameter: no client has a negative one.
abbrev pub kick_fd : List ℕ → Option ℕ
kick_fd [] = none
kick_fd (ch ∷ para) = elim (atoi (ch ∷ para)) [ pos fd ↦ some fd | negsuc n ↦ none ]

abbrev pub cmd_playback : ℤ
cmd_playback = pos 2

abbrev pub cmd_list : ℤ
cmd_list = pos 3

abbrev pub cmd_kickoff : ℤ
cmd_kickoff = pos 4

-- add_command: what each command does to the state.
unfoldable pub add_command :
    ℕ → ℕ → Map ℤ (List ℕ → Sys Bse → Sys Bse) → Map ℤ (List ℕ → Sys Bse → Sys Bse)
add_command rounds fuel commands =
    emplace cmd_kickoff (λ para. command_kick (kick_fd para))
      (emplace cmd_list (λ para s. s)
        (emplace cmd_playback (λ para s. (command_playback rounds fuel para s).1) commands))
