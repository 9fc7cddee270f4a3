-- ===== src/Net/Command.antt =====
-- EpollNet::Command and handle_command: commands as records of sixteen bytes in a pipe. A command
-- that is written has a number of at least 0; a number beyond an `int` is not modelled.
pub mod Parse
use vwnet_lib.Base.{
  ℕ, zero, suc, ◌+◌, ◌-◌, ◌*◌, ◌/◌, ◌%◌, Bool, true, false, not, ◌||◌, ◌&&◌, List, [], ◌∷◌, ◌++◌,
  Option, none, some, ℤ, pos, negsuc, Map, find, int_eq_instance, int_eq, take, drop, length,
  replicate, before_nul, ltb, leb, ◌==◌, if◌then◌else◌,
}
use vwnet_lib.Venues.Trim.{ltrim}
use vwnet_lib.Net.Socket.{eagain}

abbrev pub cmd_quit : ℤ
cmd_quit = pos 1

abbrev pub max_cmd_size : ℕ
max_cmd_size = 16

-- '|'
abbrev pub cmd_delimiter : ℕ
cmd_delimiter = 124

abbrev decimal : ℕ → ℕ → List ℕ
decimal zero n = []
decimal (suc fuel) n =
    let front = decimal fuel (n / 10) in
    if ltb n 10 then (48 + n) ∷ [] else front ++ ((48 + n % 10) ∷ [])

-- `%d`: as many rounds as the number itself are enough.
abbrev pub print_int : ℕ → List ℕ
print_int n = decimal (suc n) n

-- The text that `snprintf` makes, and the record that is written: at most fifteen characters, and zeros.
unfoldable pub command_text : ℕ → List ℕ → List ℕ
command_text cmd [] = print_int cmd
command_text cmd (ch ∷ para) = print_int cmd ++ (cmd_delimiter ∷ before_nul (ch ∷ para))

unfoldable pub command : ℕ → List ℕ → List ℕ
command cmd para =
    let text = take (max_cmd_size - 1) (command_text cmd para) in
    text ++ replicate (max_cmd_size - length text) 0

abbrev pub is_digit : ℕ → Bool
is_digit ch = leb 48 ch && leb ch 57

abbrev pub number_from : ℕ → List ℕ → ℕ
number_from n [] = n
number_from n (ch ∷ s) =
    let rest = number_from (n * 10 + (ch - 48)) s in if is_digit ch then rest else n

abbrev negate : ℕ → ℤ
negate zero = pos 0
negate (suc n) = negsuc n

abbrev signed : List ℕ → ℤ
signed [] = pos 0
signed (ch ∷ s) =
    if ch == 45
    then negate (number_from 0 s)
    else if ch == 43
    then pos (number_from 0 s)
    else pos (number_from 0 (ch ∷ s))

-- `atoi`: white space, a sign, digits.
abbrev pub atoi : List ℕ → ℤ
atoi s = signed (ltrim s)

-- The text before the first delimiter, and what stands behind it; `none` without a delimiter.
abbrev pub split_at : List ℕ → Option (List ℕ × List ℕ)
split_at [] = none
split_at (ch ∷ s) =
    let rest = split_at s in
    if ch == cmd_delimiter
    then some ([], s)
    else elim rest [ none ↦ none | some (front, back) ↦ some (ch ∷ front, back) ]

-- `input_cmd` and `input_para`: a delimiter at the very end is not one.
unfoldable pub split_command : List ℕ → List ℕ × List ℕ
split_command cmd_line = elim (split_at cmd_line) [
  | none ↦ (cmd_line, [])
  | some (input_cmd, input_para) ↦
      if length input_para == 0 then (cmd_line, []) else (input_cmd, input_para)
]

-- What comes of a command; `committed` goes to the thread pool with its parameter.
pub data CommandResult : Type 0 where
  read_failed quit unsupported : CommandResult
  committed : ℤ → List ℕ → CommandResult

unfoldable pub run_command : {H : Type 0} → Map ℤ H → ℤ → List ℕ → CommandResult
run_command handlers cmd input_para =
    if int_eq cmd cmd_quit
    then quit
    else elim (find cmd handlers) [ none ↦ unsupported | some fun ↦ committed cmd input_para ]

-- `cmd_line = cmd_buf` reads on behind a record that has no zero byte.
abbrev pub is_unterminated : List ℕ → Bool
is_unterminated bytes = leb max_cmd_size (length (before_nul bytes))

-- `bytes` is what `read` gave, empty for a result of at most 0.
unfoldable pub handle_command : {H : Type 0} → Map ℤ H → List ℕ → ℕ → CommandResult
handle_command handlers bytes errno =
    let (input_cmd, input_para) = split_command (before_nul bytes) in
    if length bytes == 0 && not (errno == eagain)
    then read_failed
    else run_command handlers (atoi input_cmd) input_para
