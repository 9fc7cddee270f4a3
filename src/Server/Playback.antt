-- ===== src/Server/Playback.antt =====
-- send_jnl_file, send_for_account and the commands that use them. Sleeping and printing are left out;
-- the clients of an account do not change while its journal is played back.
pub mod Rate
pub mod Complete
pub mod Health
use vwnet_lib.Base.{
  leb, not, bit_and, ℕ, zero, suc, ◌+◌, ◌-◌, ◌*◌, ◌/◌, Bool, true, false, ◌||◌, ◌&&◌, List, [], ◌∷◌,
  Option, none, some, ℤ, pos, negsuc, Map, find, nat_eq, int_eq, take, drop, length, ltb, ◌==◌,
  if◌then◌else◌,
}
use vwnet_lib.Net.State.{Net, Sys, on_net, disconnect}
use vwnet_lib.Net.Write.{send_data}
use vwnet_lib.Server.State.{
  PlayRound, JnlRead, read_fails, read_whole, read_short, BseClientContext, Bse, File, missing,
  unreadable, unmappable, mapped, on_app,
}
use vwnet_lib.Server.Files.{map_file, is_not_positive, send_data_all}

abbrev dft_buf_size : ℕ
dft_buf_size = 1024 * 1024 * 4

abbrev slice_per_sec : ℕ
slice_per_sec = 200

-- `jnl_buf_size` and `rate_size`
abbrev pub jnl_buf_size : ℤ → ℕ
jnl_buf_size (pos rate) = if ltb 0 rate then rate else dft_buf_size
jnl_buf_size (negsuc n) = dft_buf_size

abbrev pub rate_size : ℤ → ℕ
rate_size (pos rate) = if ltb 0 rate then rate / slice_per_sec else dft_buf_size
rate_size (negsuc n) = dft_buf_size

-- The function `senddata`: `send_rate_size` bytes of the memory at `p_buf`, with whether its loop has
-- ended.
unfoldable pub part_loop : ℕ → ℕ → List ℕ → ℕ → ℕ → Net → Bool × ℕ × Net
part_loop zero fd p_buf send_rate_size done_n n = (false, done_n, n)
part_loop (suc fuel) fd p_buf send_rate_size done_n n =
    let (sent_n, n') = send_data fd (drop done_n p_buf) (send_rate_size - done_n) true n in
    let rest = part_loop fuel fd p_buf send_rate_size (done_n + sent_n) n' in
    let sent = if is_not_positive sent_n then (true, done_n, n') else rest in
    if ltb done_n send_rate_size then sent else (true, done_n, n)

-- A round for each byte, and one for the test.
unfoldable pub senddata : ℕ → List ℕ → ℕ → Net → ℕ × Net
senddata fd p_buf send_rate_size n =
    let (_, done_n, n') = part_loop (suc send_rate_size) fd p_buf send_rate_size 0 n in (done_n, n')

-- The loop of the rate control for one client, over the bytes `chunk` that were read.
unfoldable pub rate_loop : ℕ → ℕ → ℕ → List ℕ → ℕ → Net → Bool × ℕ × Net
rate_loop zero fd rate chunk sent_size n = (false, sent_size, n)
rate_loop (suc fuel) fd rate chunk sent_size n =
    let remain_size = length chunk - sent_size in
    let send_rate_size = if ltb rate remain_size then rate else remain_size in
    let (done_n, n') = senddata fd (drop sent_size chunk) send_rate_size n in
    let rest = rate_loop fuel fd rate chunk (sent_size + done_n) n' in
    if ltb sent_size (length chunk) then rest else (true, sent_size, n)

-- The loop over the clients.
unfoldable pub clients_loop : ℕ → List ℕ → ℕ → List ℕ → Net → Bool × Net
clients_loop fuel [] rate chunk n = (true, n)
clients_loop fuel (c_fd ∷ c_fds) rate chunk n =
    let (ended, sent_size, n') = rate_loop fuel c_fd rate chunk 0 n in
    let rest = clients_loop fuel c_fds rate chunk n' in if ended then rest else (false, n')

abbrev pub next_round : List PlayRound → PlayRound × List PlayRound
next_round [] = (record { jnl_read = read_whole; cancelled = false }, [])
next_round (round ∷ later) = (round, later)

-- What is read of the rest of the file; an error and the end of the file end the loop alike.
abbrev pub jnl_chunk : JnlRead → ℕ → List ℕ → List ℕ
jnl_chunk read_fails buf_size bytes = []
jnl_chunk read_whole buf_size bytes = take buf_size bytes
jnl_chunk (read_short n) buf_size bytes = take n (take buf_size bytes)

-- The loop over the file, which reads at most `jnl_buf_size` bytes at a time.
unfoldable pub play_loop : ℕ → ℕ → BseClientContext → List ℕ → ℕ → Sys Bse → Bool × Sys Bse
play_loop zero fuel account bytes process_size s = (false, s)
play_loop (suc rounds) fuel account bytes process_size s =
    let (round, later) = next_round s.app.play_rounds in
    let chunk =
      jnl_chunk round.jnl_read (jnl_buf_size account.jnl_rate) (drop process_size bytes) in
    let was_read : Sys Bse = on_app (λ a. record a { play_rounds = later }) s in
    let (ended, n) =
      clients_loop fuel account.clients_fd (rate_size account.jnl_rate) chunk s.net in
    let cancelled = s.app.quit_current_task || round.cancelled in
    let sent : Sys Bse =
      record (on_app (λ a. record a { quit_current_task = cancelled }) was_read) { net = n } in
    let rest = play_loop rounds fuel account bytes (process_size + length chunk) sent in
    let quit : Sys Bse = on_app (λ a. record a { quit_current_task = true }) was_read in
    if ltb process_size (length bytes)
    then if length chunk == 0
      then (true, was_read)
      else if length account.clients_fd == 0
      then (true, quit)
      else if ended
      then if cancelled then (true, sent) else rest
      else (false, sent)
    else (true, s)

-- An `unmappable` file has no bytes to read.
unfoldable pub send_jnl_file : ℕ → ℕ → BseClientContext → Sys Bse → Bool × Sys Bse
send_jnl_file rounds fuel account s = elim (s.app.files account.jnl_file) [
  | missing ↦ (true, s)
  | unreadable f_size ↦ (true, s)
  | unmappable f_size ↦ (true, on_app (λ a. record a { quit_current_task = false }) s)
  | mapped bytes ↦
      play_loop rounds fuel account bytes 0 (on_app (λ a. record a { quit_current_task = false }) s)
]

send_to_all : List ℕ → List ℕ → Net → Net
send_to_all [] bytes n = n
send_to_all (c_fd ∷ fd_set) bytes n = send_to_all fd_set bytes (send_data_all c_fd bytes n).1

unfoldable pub send_for_account : BseClientContext → Sys Bse → Sys Bse
unfolding send_to_all
send_for_account account s = elim (map_file (s.app.files account.pb_file)) [
  | none ↦ s
  | some bytes ↦ on_net (send_to_all account.clients_fd bytes) s
]

notify_each : ℕ → Map ℤ BseClientContext → Sys Bse → Sys Bse
notify_each fd [] s = s
notify_each fd ((code, it) ∷ rest) s =
    notify_each fd rest (if it.notify_fd == fd then send_for_account it s else s)

abbrev sizeof_inotify_event : ℕ
sizeof_inotify_event = 16

abbrev in_close_write : ℕ
in_close_write = 8

-- `if_modified` after the loop of reads: `ret` and the mask of the first event, of each read before the
-- one that gives nothing.
unfoldable pub file_modified : List (ℕ × ℕ) → Bool
file_modified [] = false
file_modified ((ret, mask) ∷ events) =
    let later = file_modified events in
    if leb sizeof_inotify_event ret then not (bit_and mask in_close_write == 0) || later else false

unfoldable pub handle_file_notify : List (ℕ × ℕ) → ℕ → Sys Bse → Sys Bse
unfolding notify_each file_modified
handle_file_notify events fd s =
    if file_modified events then notify_each fd s.app.client_context s else s

-- With the descriptor that `atoi` makes of the parameter; `none` for no parameter.
unfoldable pub command_kick : Option ℕ → Sys Bse → Sys Bse
command_kick none s = s
command_kick (some c_fd) s = elim (find c_fd s.app.sock_lookup) [
  | none ↦ s
  | some code ↦ on_net (disconnect c_fd) s
]
