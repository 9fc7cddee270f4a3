-- ===== src/Tests/Buffers.antt =====
-- A read of a connection that the server has accepted.
use vwnet_lib.Base.{◌≡◌, ◌≢◌, refl, List, [], ◌∷◌, some, arith, find, emplace, nat_eq}
use vwnet_lib.Net.State.{
  NetContext, Sys, get_context, new_context, create_context, make_nonblock, add_event, set_event,
}
use vwnet_lib.Net.Read.{size_remain, read_loop, full, overrun, no_fuel}
use vwnet_lib.Net.Events.{
  Event, incoming_connections, accept_one, handle_accept, run_event, run_events,
}
use vwnet_lib.Net.Events.Buffers.{IsShort}
use vwnet_lib.Server.State.{Bse, on_connect}
use vwnet_lib.Server.Process.{bse_handlers}
use vwnet_lib.Server.Run.Buffers.{run_events-read_loop}
use vwnet_lib.Tests.Data.{five_a_read, three_a_write, block, net, bse, login_bytes}

abbrev lonely : Sys Bse
lonely = record { net = record net { contexts = [] }; app = bse }

abbrev one_accepted : List (Event bse_handlers five_a_read three_a_write)
one_accepted = incoming_connections (record { conn_fd = 6; cli_addr = 1; block = block } ∷ []) ∷ []

abbrev accepted_context : NetContext
accepted_context = record {
  read_buf = record { r_buf = block; r_data = 0; r_size = 0 };
  w_req_q = [];
  rt_saddr = 1;
}

is_there :
    get_context 6 (run_events bse_handlers five_a_read three_a_write one_accepted lonely).net
    ≡ some accepted_context
unfolding get_context run_events run_event handle_accept accept_one on_connect create_context
    new_context make_nonblock add_event set_event find emplace
is_there = refl

run_events-read_loop_example :
    let b = accepted_context.read_buf in
    let out =
      read_loop five_a_read bse_handlers 90 100 6 b
        (size_remain 100 b)
        login_bytes
        (run_events bse_handlers five_a_read three_a_write one_accepted lonely) in
    (out.0 ≢ overrun) × (out.0 ≢ full) × (out.0 ≢ no_fuel) × IsShort 80 100 out.1
run_events-read_loop_example =
    run_events-read_loop five_a_read three_a_write one_accepted lonely 100 90 6 accepted_context
      login_bytes refl refl (omega arith) (omega arith) ((refl, tt), tt) is_there (omega arith)
