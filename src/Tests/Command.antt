-- ===== src/Tests/Command.antt =====
-- Commands through the pipe.
use vwnet_lib.Base.{ℕ, ℤ, ◌≡◌, refl, [], ◌∷◌, arith, pos, negsuc, Map, find, int_eq_instance}
use vwnet_lib.Venues.Trim.{ltrim}
use vwnet_lib.Net.Command.{
  command_text, command, split_command, atoi, quit, committed, run_command, handle_command,
}
use vwnet_lib.Net.Command.Parse.{handle_command-command}

abbrev handlers : Map ℤ ℕ
handlers = (pos 2, 20) ∷ ((pos 4, 40) ∷ [])

-- "4|12"
handle_command-command_example :
    handle_command handlers (command 4 (49 ∷ 50 ∷ [])) 0 ≡ committed (pos 4) (49 ∷ 50 ∷ [])
unfolding find command_text
handle_command-command_example =
    handle_command-command handlers 4 (49 ∷ 50 ∷ []) 0 40 (omega arith) refl refl refl

quits : handle_command handlers (command 1 []) 0 ≡ quit
unfolding handle_command command command_text split_command run_command ltrim
quits = refl

negative : atoi (32 ∷ 45 ∷ 49 ∷ 50 ∷ 120 ∷ []) ≡ negsuc 11
unfolding ltrim
negative = refl
