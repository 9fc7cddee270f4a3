-- ===== src/Tests/Client.antt =====
-- The client's log-in, its journal, a short reply, and a message that is too long.
use vwnet_lib.Base.{
  ℕ, ◌≡◌, ◌≢◌, refl, true, List, [], ◌∷◌, ◌++◌, inl, arith, pos, some, none, nat_eq, find, length,
  int_eq_instance,
}
use vwnet_lib.Venues.Messages.{
  feed_login, login_request_at, login_request_image, header_at, format_data32,
}
use vwnet_lib.Venues.Endian.{reverse_endian32}
use vwnet_lib.Net.State.{Sys, ReadBuf}
use vwnet_lib.Net.Read.{contents, no_fuel, read_loop}
use vwnet_lib.Client.Main.{asks_quit, client_console}
use vwnet_lib.Venues.Trim.{trim, ltrim, rtrim}
use vwnet_lib.Client.Stream.{read_loop_too_long}
use vwnet_lib.Server.Process.{accepted}
use vwnet_lib.Client.State.{ClientAccount, BseClient, login_request, to_unsigned}
use vwnet_lib.Client.Process.{process_step, process_data, client_handlers}
use vwnet_lib.Client.Login.{accepted-login_request}
use vwnet_lib.Client.Journal.{FeedMessage, feed_images, process_data-feed_images}
use vwnet_lib.Client.Reply.{process_step_short_reply}
use vwnet_lib.Net.Write.Send.{waiting}
use vwnet_lib.Net.Setup.{Service, client_start_service}
use vwnet_lib.Server.State.Registry.{LoggedIn}
use vwnet_lib.Client.Handshake.{client_start_service-LoggedIn}
use vwnet_lib.Tests.Data.{account, bse, net, connected, block, five_a_read}

abbrev client_account : ClientAccount
client_account = record {
  code = pos 7;
  name = [];
  pwd = 49 ∷ [];
  ts = 49 ∷ 50 ∷ [];
  jnl_file = [];
  query_msgs = pos 2006 ∷ [];
}

abbrev client : Sys BseClient
client = record {
  net = net;
  app = record {
    account = client_account;
    jnl_open = true;
    jnl_text = 1 ∷ [];
    can_open = true;
    sock_list = 5 ∷ [];
  };
}

accepted-login_request_example :
    accepted
      (login_request_at (login_request_image (login_request feed_login client_account) ++ []))
      bse
    ≡ some account
unfolding find
accepted-login_request_example =
    accepted-login_request client_account bse account [] refl refl (omega arith) refl refl refl

abbrev messages : List FeedMessage
messages = record { type = 2001; body = 1 ∷ 2 ∷ 3 ∷ [] } ∷ (record { type = 2002; body = [] } ∷ [])

process_data-feed_images_example : process_data 5 (feed_images messages ++ (0 ∷ 0 ∷ [])) client ≡ (
  length (feed_images messages),
  record client { app = record client.app { jnl_text = (1 ∷ []) ++ feed_images messages } },
)
process_data-feed_images_example =
    process_data-feed_images 5 messages (0 ∷ 0 ∷ []) client
      (
        record {
          type_fits = omega arith;
          size_fits = omega arith;
          no_login = refl;
          no_logoff = refl;
          no_reply = refl;
        },
        (
          record {
            type_fits = omega arith;
            size_fits = omega arith;
            no_login = refl;
            no_logoff = refl;
            no_reply = refl;
          },
          tt,
        ),
      )
      refl (inl (omega arith))

process_step_short_reply_example :
    (process_step 5 (0 ∷ 0 ∷ 0 ∷ 4 ∷ 0 ∷ 0 ∷ 7 ∷ 9 ∷ []) client).1.net.undefined ≡ true
unfolding header_at format_data32 reverse_endian32
process_step_short_reply_example =
    process_step_short_reply 5 (0 ∷ 0 ∷ 0 ∷ 4 ∷ 0 ∷ 0 ∷ 7 ∷ 9 ∷ []) client (omega arith)
      (omega arith) (omega arith) refl

abbrev client_buf : ReadBuf
client_buf = record { r_buf = block; r_data = 0; r_size = 0 }

-- The beginning of a message of 1004 bytes.
abbrev long_message : List ℕ
long_message = 0 ∷ 0 ∷ 3 ∷ 232 ∷ 0 ∷ 0 ∷ 7 ∷ 209 ∷ 1 ∷ 2 ∷ []

read_loop_too_long_example :
    let out = read_loop five_a_read client_handlers 11 100 5 client_buf 100 long_message client in
    (out.0 ≢ no_fuel) × (out.3 ≡ client) × (contents out.1 ++ out.2 ≡ long_message)
unfolding header_at format_data32 reverse_endian32
read_loop_too_long_example =
    read_loop_too_long five_a_read 100 5 11 client_buf 100 long_message client
      (record { block = refl; room = omega arith; small = omega arith }) (omega arith) (omega arith)
      (omega arith)

-- The client, not connected yet.
abbrev to_connect : Service BseClient
to_connect = record {
  sys = record client { net = record net { contexts = [] } };
  epollfd = pos 3;
  svr_sfd = pos 4;
  cmdfd = pos 0;
  svr_addr = 8000;
  init_done = true;
  thread_num = 2;
  fds = [];
  oks = true ∷ [];
  trace = [];
}

nothing_there : find 4 to_connect.sys.net.contexts ≡ none
unfolding find
nothing_there = refl

same_account : find (pos (to_unsigned 16 client_account.code)) bse.accounts ≡ some account
unfolding find
same_account = refl

client_start_service-LoggedIn_example :
    let sent = waiting 4 (client_start_service client_handlers [] to_connect).1.sys.net in
    LoggedIn 5 account connected.app (vwnet_lib.Server.Process.process_data 5 sent connected).1.app
client_start_service-LoggedIn_example =
    client_start_service-LoggedIn [] 4 to_connect refl refl nothing_there
      (record { defined = refl; blocks = refl }) 5 account connected same_account refl (omega arith)
      refl refl refl

-- A line with a space before the 'q' stops the clients.
stops : client_console ((104 ∷ []) ∷ ((32 ∷ 113 ∷ []) ∷ [])) ≡ true
unfolding client_console asks_quit trim ltrim rtrim
stops = refl
