-- ===== src/Client/Handshake.antt =====
-- A client that connects, and the server that reads what it sends.
use vwnet_lib.Base.{
  ℕ, ◌≤◌, ◌≡◌, ◌≢◌, refl, sym, ap, subst, ◌∙◌, true, false, List, [], append-nil, reverse, none,
  some, arith, pos, find, int_eq_instance, drop, drop_all, take_all, length, find-emplace, ==_refl,
  nat_eq,
}
use vwnet_lib.Venues.Endian.Laws.{reverse_endian32_twice}
use vwnet_lib.Venues.Trim.{starts_space}
use vwnet_lib.Venues.Messages.{
  feed_login, format_data32, login_request_at, login_request_image, login_reply_at,
  query_request_at, query_reply_at,
}
use vwnet_lib.Venues.Messages.RoundTrip.{login_request_at-image, length-images}
use vwnet_lib.Net.State.{
  Sys, Net, get_context, create_context, new_context, make_nonblock, add_event, set_event, epollin,
}
use vwnet_lib.Net.Write.{send_data}
use vwnet_lib.Net.Write.Send.{
  waiting, IsHealthy, send_data-Queued, send_data-IsHealthy, send_data_accepts,
}
use vwnet_lib.Net.Setup.{Service, next_ok, client_start_service}
use vwnet_lib.Client.Process.{client_handlers}
use vwnet_lib.Net.Framing.{frame_loop, frames, frame_loop-step, frame_loop_idle}
use vwnet_lib.Server.State.{Bse, BseAccount}
use vwnet_lib.Server.State.Registry.{LoggedIn, create_client_context-LoggedIn}
use vwnet_lib.Server.Process.{
  accepted, handle_login, calc_msg_size, dispatch, process_step, process_data,
}
use vwnet_lib.Server.Process.Framing.{first_type, process_step_whole}
use vwnet_lib.Client.State.{
  ClientAccount, BseClient, to_unsigned, login_request, send_login, on_connect,
}
use vwnet_lib.Client.Login.{no_nul, login_request-LoginRequestFits, accepted-login_request}

-- The bytes of a log-in.
abbrev pub login_bytes : ClientAccount → List ℕ
login_bytes account = login_request_image (login_request feed_login account)

module _ (account : ClientAccount) where
  request_back : login_request_at (login_bytes account) ≡ login_request feed_login account
  request_back =
      ap login_request_at (sym (append-nil (login_bytes account)))
      ∙ login_request_at-image (login_request feed_login account) []
          (login_request-LoginRequestFits feed_login account)

  type_back : first_type (login_bytes account) ≡ feed_login
  unfolding login_request_at login_request format_data32
  type_back =
      ap (λ r. format_data32 r.type) request_back ∙ reverse_endian32_twice feed_login (omega arith)

  length-login_bytes : length (login_bytes account) ≡ 80
  length-login_bytes =
      (length-images (login_request feed_login account) (login_reply_at []) (query_request_at [])
        (query_reply_at []) (login_request-LoginRequestFits feed_login account)).0

  module _ (fd : ℕ) (s : Sys Bse) where
    step_login :
        process_step fd (login_bytes account) s
        ≡ (80, dispatch fd feed_login (login_bytes account) s)
    unfolding calc_msg_size
    step_login =
        let size : calc_msg_size (first_type (login_bytes account)) ≡ 80 =
          ap calc_msg_size type_back in
        process_step_whole fd (login_bytes account) s (omega (arith, length-login_bytes))
          (omega (arith, length-login_bytes, size))
        ∙ rw type_back refl

    no_bytes : (t : Sys Bse) → process_step fd [] t ≡ (0, t)
    unfolding process_step
    no_bytes t = refl

    process_data-login_bytes :
        process_data fd (login_bytes account) s
        ≡ (80, dispatch fd feed_login (login_bytes account) s)
    unfolding process_data frames
    process_data-login_bytes =
        let xs = login_bytes account in
        let after = dispatch fd feed_login xs s in
        let rest : frame_loop (process_step fd) (length xs) (drop 80 xs) after ≡ (0, after) =
          rw (drop_all 80 xs (omega (arith, length-login_bytes)))
            (frame_loop_idle (process_step fd) (length xs) [] after (no_bytes after)) in
        let taken : (process_step fd xs s).0 ≢ 0 = rw step_login (λ e. absurd (omega arith)) in
        frame_loop-step (process_step fd) (length xs) xs s (omega (arith, length-login_bytes)) taken
        ∙ rw step_login (rw rest refl)

    login_bytes-LoggedIn :
        (found : BseAccount)
        → accepted (login_request feed_login account) s.app ≡ some found
        → LoggedIn fd found s.app (process_data fd (login_bytes account) s).1.app
    unfolding dispatch handle_login
    login_bytes-LoggedIn found known =
        rw (process_data-login_bytes, request_back, known)
          (create_client_context-LoggedIn fd found s)

-- The client's side: what waits for the socket once it is connected.
module _ (block : List ℕ) (fd : ℕ) (s : Service BseClient) (socket : s.svr_sfd ≡ pos fd)
    (connects : (next_ok s.oks).0 ≡ true) (new_fd : find fd s.sys.net.contexts ≡ none)
    (healthy : IsHealthy s.sys.net) where
  abbrev before_connect : Net
  before_connect =
      add_event fd epollin (create_context fd s.svr_addr block (make_nonblock fd s.sys.net))

  started :
      (client_start_service client_handlers block s).1.sys
      ≡ on_connect fd (record s.sys { net = before_connect })
  unfolding client_start_service
  started = rw (connects, socket) refl

  context_there : get_context fd before_connect ≡ some (new_context block s.svr_addr)
  unfolding get_context create_context make_nonblock add_event set_event
  context_there =
      find-emplace fd fd (new_context block s.svr_addr) s.sys.net.contexts
      ∙ rw (==_refl fd, new_fd) refl

  before-IsHealthy : IsHealthy before_connect
  unfolding create_context make_nonblock add_event set_event
  before-IsHealthy = record { defined = healthy.defined; blocks = healthy.blocks }

  waiting-on_connect :
      waiting fd (on_connect fd (record s.sys { net = before_connect })).net
      ≡ login_bytes s.sys.app.account
  unfolding on_connect send_login new_context
  waiting-on_connect =
      let bytes = login_bytes s.sys.app.account in
      let long = length-login_bytes s.sys.app.account in
      let out = send_data fd bytes 80 true before_connect in
      let queued =
        send_data-Queued fd bytes 80 true before_connect (omega (arith, long))
          (send_data-IsHealthy fd bytes 80 true before_connect (omega (arith, long))
            before-IsHealthy).defined in
      let all =
        send_data_accepts fd bytes 80 true before_connect _ context_there before-IsHealthy in
      queued.here ∙ rw (context_there, all, take_all 80 bytes (omega (arith, long))) refl

  -- Let a client connect with a socket that has no context yet, with nothing undefined and no failing
  -- malloc; and let the server have an account under the client's code (as a uint16_t) with the client's
  -- password, of at most 64 bytes, none of them zero, that neither begins nor ends with white space. Then
  -- the bytes that wait to be written at the client, when the server reads them on whatever descriptor,
  -- log the client in there under that account.
  pub client_start_service-LoggedIn :
      (server_fd : ℕ) (found : BseAccount) (server : Sys Bse)
      → find (pos (to_unsigned 16 s.sys.app.account.code)) server.app.accounts ≡ some found
      → found.pwd ≡ s.sys.app.account.pwd
      → length s.sys.app.account.pwd ≤ 64
      → no_nul s.sys.app.account.pwd ≡ true
      → starts_space s.sys.app.account.pwd ≡ false
      → starts_space (reverse s.sys.app.account.pwd) ≡ false
      → let sent = waiting fd (client_start_service client_handlers block s).1.sys.net in
        LoggedIn server_fd found server.app (process_data server_fd sent server).1.app
  client_start_service-LoggedIn server_fd found server known same fits clean front back =
      let account = s.sys.app.account in
      let sent : waiting fd (client_start_service client_handlers block s).1.sys.net
          ≡ login_bytes account =
        ap (λ t. waiting fd t.net) started ∙ waiting-on_connect in
      subst
        (λ bytes. LoggedIn server_fd found server.app (process_data server_fd bytes server).1.app)
        (sym sent)
        (login_bytes-LoggedIn account server_fd server found (
          subst (λ r. accepted r server.app ≡ some found)
            (ap login_request_at (append-nil _) ∙ request_back account)
            (accepted-login_request account server.app found [] known same fits clean front back)))
