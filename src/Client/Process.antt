-- ===== src/Client/Process.antt =====
-- BSEClient::process_data. A reply is read as a struct of its type whatever size its header gives; a
-- read past the bytes that have arrived sets `undefined`.
use vwnet_lib.Base.{
  ℕ, ◌+◌, true, ◌||◌, List, [], ◌∷◌, ◌++◌, ℤ, take, length, ltb, leb, ◌==◌, if◌then◌else◌,
}
use vwnet_lib.Venues.Messages.{
  feed_login, feed_logoff, query_reply_ok, query_reply_err, format_data16, format_data32,
  ph_size_bytes, sizeof_packet_header, sizeof_login_reply, sizeof_query_reply, sizeof_query_request,
  header_at, login_reply_at, query_request_image,
}
use vwnet_lib.Net.State.{Net, Sys, Handlers, on_net}
use vwnet_lib.Net.Write.{send_data}
use vwnet_lib.Net.Framing.{frames}
use vwnet_lib.Client.State.{BseClient, on_client, to_unsigned, on_connect, on_disconnect, on_error}

abbrev reads : ℕ → List ℕ → Sys BseClient → Sys BseClient
reads n bytes s = on_net (λ m. record m { undefined = m.undefined || ltb (length bytes) n }) s

-- The loop over `query_msgs`.
unfoldable pub send_queries : ℕ → List ℤ → Net → Net
send_queries fd [] n = n
send_queries fd (msg_type ∷ rest) n =
    send_queries fd rest
      (send_data fd
        (query_request_image
          (record { type = format_data32 (to_unsigned 32 msg_type); unique_id = 0 }))
        sizeof_query_request true n).1

unfoldable pub handle_login_reply : ℕ → List ℕ → Sys BseClient → Sys BseClient
handle_login_reply fd bytes s =
    let flag = format_data16 (login_reply_at bytes).success_flag in
    let s' = reads sizeof_login_reply bytes s in
    if flag == 0 then on_net (send_queries fd s.app.account.query_msgs) s' else s'

-- `fwrite` writes all bytes.
unfoldable pub save_jnl : List ℕ → BseClient → BseClient
save_jnl bytes a = if a.jnl_open then record a { jnl_text = a.jnl_text ++ bytes } else a

unfoldable pub dispatch : ℕ → ℕ → ℕ → List ℕ → Sys BseClient → Sys BseClient
dispatch fd type size_process bytes s =
    if type == feed_login
    then handle_login_reply fd bytes s
    else if type == feed_logoff
    then s
    else if type == query_reply_err || type == query_reply_ok
    then reads sizeof_query_reply bytes s
    else on_client (save_jnl (take size_process bytes)) s

-- One round of the loop.
unfoldable pub process_step : ℕ → List ℕ → Sys BseClient → ℕ × Sys BseClient
process_step fd bytes s =
    let header = header_at bytes in
    let size_expect = format_data32 header.size + ph_size_bytes in
    if leb sizeof_packet_header (length bytes)
    then if leb size_expect (length bytes)
      then (size_expect, dispatch fd (format_data32 header.type) size_expect bytes s)
      else (0, s)
    else (0, s)

unfoldable pub process_data : ℕ → List ℕ → Sys BseClient → ℕ × Sys BseClient
process_data fd bytes s = frames (process_step fd) bytes s

-- The virtual functions of class BSEClient.
abbrev pub client_handlers : Handlers BseClient
client_handlers = record {
  process_data = process_data;
  on_connect = on_connect;
  on_disconnect = on_disconnect;
  on_error = on_error;
}
