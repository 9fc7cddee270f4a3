-- ===== src/Server/Console.antt =====
-- The console of the server's main: a line that is typed, and what it does. A command that asks for a
-- confirmation reads the next line, `input`.
pub mod Kick
use vwnet_lib.Base.{
  ℕ, Bool, true, false, ◌||◌, ◌&&◌, List, [], ◌∷◌, Option, none, some, ltb, ◌==◌, bytes_eq, length,
  if◌then◌else◌,
}
use vwnet_lib.Venues.Trim.{trim}
use vwnet_lib.Net.Command.{command}

-- What stands before and behind the first space.
abbrev pub split_space : List ℕ → Option (List ℕ × List ℕ)
split_space [] = none
split_space (ch ∷ s) =
    let rest = split_space s in
    if ch == 32
    then some ([], s)
    else elim rest [ none ↦ none | some (front, back) ↦ some (ch ∷ front, back) ]

-- The text behind the first space; a space at the very end has none.
unfoldable pub get_parameter : List ℕ → List ℕ
get_parameter cmd = elim (split_space cmd) [ none ↦ [] | some (front, para) ↦ para ]

-- 'y'
abbrev pub confirm_command : List ℕ → Bool
confirm_command input = bytes_eq input (121 ∷ [])

-- What a line does: print, cancel the current task, give Command a number and a parameter, or stop the
-- server, which cancels the task, too.
pub data ConsoleAction : Type 0 where
  print_usage print_version declined cancel stop : ConsoleAction
  give_command : ℕ → List ℕ → ConsoleAction

-- The functions in `cmd_proc`, by their letter.
unfoldable pub cmd_proc : ℕ → List ℕ → List ℕ → ConsoleAction
cmd_proc letter cmd input =
    if letter == 113
    then (if confirm_command input then stop else declined)
    else if letter == 99
    then (if confirm_command input then cancel else declined)
    else if letter == 112
    then give_command 2 (get_parameter cmd)
    else if letter == 108
    then give_command 3 []
    else if letter == 118
    then print_version
    else if letter == 107
    then give_command 4 (get_parameter cmd)
    else print_usage

-- A line is a letter, or a letter and a space and more.
unfoldable pub run_trimmed : List ℕ → List ℕ → ConsoleAction
run_trimmed [] input = print_usage
run_trimmed (letter ∷ []) input = cmd_proc letter (letter ∷ []) input
run_trimmed (letter ∷ ch ∷ rest) input =
    if ch == 32 then cmd_proc letter (letter ∷ ch ∷ rest) input else print_usage

unfoldable pub run_line : List ℕ → List ℕ → ConsoleAction
run_line cmd_line input = run_trimmed (trim cmd_line) input

-- The loop: what the lines do, up to the one that stops the server.
unfoldable pub console : List (List ℕ × List ℕ) → List ConsoleAction
console [] = []
console ((cmd_line, input) ∷ lines) =
    let rest = console lines in
    elim (run_line cmd_line input) [ stop ↦ stop ∷ [] | action ↦ action ∷ rest ]

-- What Command writes into the pipe for it.
unfoldable pub pipe_records : ConsoleAction → List (List ℕ)
pipe_records (give_command cmd para) = command cmd para ∷ []
pipe_records stop = command 1 [] ∷ []
pipe_records _ = []
