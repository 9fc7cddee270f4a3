-- ===== src/Tests/Server.antt =====
-- The server's maps, its messages, and a log-in that comes in pieces of five bytes.
use vwnet_lib.Base.{
  ◌+◌, ◌<◌, ◌≡◌, ◌≢◌, ◌⊎◌, refl, true, List, [], ◌∷◌, ◌++◌, arith, take, drop, length, some, none,
  find, int_eq_instance, nat_eq, member, pos,
}
use vwnet_lib.Venues.Messages.{login_request_at, sizeof_login_request}
use vwnet_lib.Net.State.{ReadBuf, Sys}
use vwnet_lib.Net.Read.{contents, full, no_fuel, read_loop}
use vwnet_lib.Net.Read.Buffer.{BufInv}
use vwnet_lib.Net.Read.Results.{Streamed, read_loop_ends, read_loop-Streamed, read_loop-ne-full}
use vwnet_lib.Net.Framing.{frame_loop, frames}
use vwnet_lib.Net.Write.{send_data}
use vwnet_lib.Net.Write.Send.{IsHealthy, Queued}
use vwnet_lib.Net.Events.{Event, incoming_connections, ready, run_events}
use vwnet_lib.Server.State.{
  Bse, BseAccount, create_client_context, clear_client_context, on_disconnect, no_code,
}
use vwnet_lib.Server.State.Registry.{
  LoggedIn, create_client_context-LoggedIn, LoggedOut, clear_client_context-LoggedOut, clients_of,
}
use vwnet_lib.Server.State.Invariant.{Registered}
use vwnet_lib.Server.State.Health.{on_disconnect-IsHealthy}
use vwnet_lib.Server.Files.{send_rest, send_data_all}
use vwnet_lib.Server.Files.Sending.{send_data_all-Queued}
use vwnet_lib.Server.Process.{login_refused, handle_login, process_data, bse_handlers}
use vwnet_lib.Server.Process.Framing.{
  process_data-IsBounded, process_data-IsIncremental, process_data_leaves,
}
use vwnet_lib.Server.Process.Invariant.{ServerInv, process_data-ServerInv}
use vwnet_lib.Server.Process.Login.{Names, answered, handle_login-LoggedIn}
use vwnet_lib.Server.Run.{IsFresh, Handled, read_loop-Handled}
use vwnet_lib.Server.Run.Safe.{run_events-ServerInv}
use vwnet_lib.Server.Run.Relogin.{relogin_stale}
use vwnet_lib.Tests.Data.{
  five_a_read, three_a_write, account, other_account, account_keyed, block, net, server, connected,
  login_bytes,
}

abbrev empty_buf : ReadBuf
empty_buf = record { r_buf = block; r_data = 0; r_size = 0 }

empty_buf-BufInv : BufInv 100 empty_buf 100
empty_buf-BufInv = record { block = refl; room = omega arith; small = omega arith }

empty_idle : process_data 5 (contents empty_buf) connected ≡ (0, connected)
unfolding process_data frames frame_loop
empty_idle = refl

read_loop-Handled_example :
    Handled five_a_read 100 5 empty_buf login_bytes connected
      (read_loop five_a_read bse_handlers 90 100 5 empty_buf 100 login_bytes connected)
read_loop-Handled_example =
    read_loop-Handled five_a_read 90 100 5 empty_buf 100 login_bytes connected empty_buf-BufInv
      (omega arith) empty_idle (omega arith) (omega arith)

read_loop_ends_example :
    (read_loop five_a_read bse_handlers 90 100 5 empty_buf 100 login_bytes connected).0 ≢ no_fuel
read_loop_ends_example =
    read_loop_ends five_a_read bse_handlers process_data-IsBounded 100 5 90 empty_buf 100
      login_bytes connected empty_buf-BufInv (omega arith)

read_loop-Streamed_example :
    Streamed five_a_read bse_handlers process_data-IsBounded 100 5 empty_buf login_bytes connected
      (read_loop five_a_read bse_handlers 90 100 5 empty_buf 100 login_bytes connected)
read_loop-Streamed_example =
    read_loop-Streamed five_a_read bse_handlers process_data-IsBounded 100 5
      process_data-IsIncremental 90 empty_buf 100 login_bytes connected empty_buf-BufInv empty_idle

read_loop-ne-full_example :
    let out = read_loop five_a_read bse_handlers 90 100 5 empty_buf 100 login_bytes connected in
    (out.0 ≢ full) × (length (contents out.1) < 80)
read_loop-ne-full_example =
    read_loop-ne-full five_a_read bse_handlers process_data-IsBounded 100 5 80 90 empty_buf 100
      login_bytes connected (omega arith) (process_data_leaves 5) empty_buf-BufInv (omega arith)

process_data-IsIncremental_example :
    let first = process_data 5 (take 50 login_bytes) connected in
    let second =
      process_data 5 (drop first.0 (take 50 login_bytes) ++ drop 50 login_bytes) first.1 in
    process_data 5 (take 50 login_bytes ++ drop 50 login_bytes) connected
    ≡ (first.0 + second.0, second.1)
process_data-IsIncremental_example =
    process_data-IsIncremental 5 (take 50 login_bytes) (drop 50 login_bytes) connected

process_data_leaves_example :
    length login_bytes < (process_data 5 login_bytes connected).0 + sizeof_login_request
process_data_leaves_example = process_data_leaves 5 login_bytes connected

server-Registered : Registered connected.app
unfolding find
server-Registered = record {
  keyed = account_keyed;
  no_guests = refl;
  listed = λ fd code e ne. absurd (ne (ground arith));
}

connected-ServerInv : ServerInv connected
connected-ServerInv = record {
  registered = server-Registered;
  healthy = record { defined = refl; blocks = refl };
}

process_data-ServerInv_example : ServerInv (process_data 5 login_bytes connected).1
process_data-ServerInv_example = process_data-ServerInv 5 login_bytes connected connected-ServerInv

handle_login-LoggedIn_example :
    let request = login_request_at login_bytes in
    let out = handle_login 5 request connected in
    ((acc : BseAccount) × Names request connected.app acc
      × LoggedIn 5 acc connected.app out.app
      × (out ≡ answered 5 request 0 (create_client_context 5 acc connected)))
    ⊎ (((acc : BseAccount) → ¬ Names request connected.app acc)
        × (out ≡ answered 5 request login_refused connected))
handle_login-LoggedIn_example = handle_login-LoggedIn 5 (login_request_at login_bytes) connected

create_client_context-LoggedIn_example :
    LoggedIn 5 account connected.app (create_client_context 5 account connected).app
create_client_context-LoggedIn_example = create_client_context-LoggedIn 5 account connected

clear_client_context-LoggedOut_example :
    LoggedOut 5
      (pos 7)
      (create_client_context 5 account connected).app
      (clear_client_context 5 (pos 7) (create_client_context 5 account connected)).app
clear_client_context-LoggedOut_example =
    clear_client_context-LoggedOut 5 (pos 7) (create_client_context 5 account connected)

on_disconnect-IsHealthy_example : IsHealthy (on_disconnect 5 connected).net
on_disconnect-IsHealthy_example =
    on_disconnect-IsHealthy 5 connected server-Registered (record { defined = refl; blocks = refl })

relogin_stale_example :
    let gone =
      on_disconnect 5
        (create_client_context 5 other_account (create_client_context 5 account connected)) in
    (member 5 (clients_of (find (pos 7) gone.app.client_context)) ≡ true)
    × (find 5 gone.app.sock_lookup ≡ none)
relogin_stale_example =
    relogin_stale 5 no_code account other_account connected known (λ e. ground arith)
  where
    known : find 5 connected.app.sock_lookup ≡ some no_code
    known = unfold find in refl

abbrev unconnected : Sys Bse
unconnected = record server { net = record server.net { contexts = [] } }

unconnected-IsFresh : IsFresh unconnected
unconnected-IsFresh = record {
  keyed = account_keyed;
  no_socks = refl;
  no_contexts = refl;
  healthy = record { defined = refl; blocks = refl };
}

-- A connection, a log-in, and the end of the connection.
abbrev events : List (Event bse_handlers five_a_read three_a_write)
events =
    incoming_connections (record { conn_fd = 6; cli_addr = 1; block = block } ∷ [])
    ∷ (ready 6 1 login_bytes ([], 9) 0 90 ∷ (ready 6 0x2001 [] ([], 9) 0 90 ∷ []))

run_events-ServerInv_example :
    ServerInv (run_events bse_handlers five_a_read three_a_write events unconnected)
run_events-ServerInv_example =
    run_events-ServerInv five_a_read three_a_write events unconnected 100 unconnected-IsFresh refl
      refl (omega arith) (omega arith) ((refl, tt), (tt, (tt, tt)))

send_data_all-Queued_example :
    ((send_rest 4 5 (1 ∷ 2 ∷ 3 ∷ []) 0 net).0 ≡ true)
    × Queued 5
        (1 ∷ 2 ∷ 3 ∷ [])
        net
        (send_data_all 5 (1 ∷ 2 ∷ 3 ∷ []) net).0
        (send_data_all 5 (1 ∷ 2 ∷ 3 ∷ []) net).1
unfolding send_data_all send_rest send_data find
send_data_all-Queued_example = send_data_all-Queued 5 (1 ∷ 2 ∷ 3 ∷ []) net (omega arith) refl
