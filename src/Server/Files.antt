-- ===== src/Server/Files.antt =====
-- Files sent to a client: map_file, send_data_all and send_query_file.
pub mod Sending
pub mod Buffers
use vwnet_lib.Base.{
  ℕ, zero, suc, ◌+◌, ◌-◌, ◌*◌, ◌^◌, Bool, true, false, ◌||◌, List, [], ◌∷◌, Option, none, some,
  drop, length, ltb, leb, ◌==◌, if◌then◌else◌,
}
use vwnet_lib.Net.State.{Net, Sys}
use vwnet_lib.Net.Write.{send_data}
use vwnet_lib.Server.State.{Bse, File, missing, unreadable, unmappable, mapped}

abbrev pub map_size_limit : ℕ
map_size_limit = 1024 * 1024 * 128

-- The mapped bytes, or the null pointer.
unfoldable pub map_file : File → Option (List ℕ)
map_file missing = none
map_file (unreadable f_size) = none
map_file (unmappable f_size) = none
map_file (mapped bytes) = if ltb map_size_limit (length bytes) then none else some bytes

-- `sent_n <= 0`, where `sent_n` is the `size_t` read as a signed number.
abbrev pub is_not_positive : ℕ → Bool
is_not_positive sent_n = sent_n == 0 || leb (2 ^ 63) sent_n

-- The loop of send_data_all, with whether it has ended.
unfoldable pub send_rest : ℕ → ℕ → List ℕ → ℕ → Net → Bool × ℕ × Net
send_rest zero fd bytes done_n n = (false, done_n, n)
send_rest (suc fuel) fd bytes done_n n =
    let (sent_n, n') = send_data fd (drop done_n bytes) (length bytes - done_n) true n in
    let rest = send_rest fuel fd bytes (done_n + sent_n) n' in
    let sent = if is_not_positive sent_n then (true, done_n, n') else rest in
    if ltb done_n (length bytes) then sent else (true, done_n, n)

-- A round for each byte, and one for the test.
unfoldable pub send_data_all : ℕ → List ℕ → Net → ℕ × Net
send_data_all fd bytes n =
    let (_, done_n, n') = send_rest (suc (length bytes)) fd bytes 0 n in (done_n, n')

unfoldable pub send_query_file : ℕ → List ℕ → Sys Bse → Sys Bse
send_query_file fd query_file s = elim (map_file (s.app.files query_file)) [
  | none ↦ s
  | some bytes ↦ record s { net = (send_data_all fd bytes s.net).1 }
]
