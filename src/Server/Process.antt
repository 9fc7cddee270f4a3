-- ===== src/Server/Process.antt =====
-- process_data and the handlers of the three kinds of message.
pub mod Framing
pub mod Invariant
pub mod Login
use vwnet_lib.Base.{
  before_nul, ℕ, zero, suc, ◌+◌, ◌-◌, ◌^◌, Bool, true, false, List, [], ◌∷◌, Option, none, some, ℤ,
  pos, negsuc, find, nat_eq, int_eq_instance, slice, length, ltb, leb, ◌==◌, bytes_eq,
  if◌then◌else◌,
}
use vwnet_lib.Venues.Endian.{load_le}
use vwnet_lib.Venues.Trim.{trim}
use vwnet_lib.Venues.Messages.{
  feed_login, feed_logoff, query_reply_ok, query_reply_err, format_data16, format_data32,
  ph_size_bytes, ph_msg_type_bytes, PacketHeader, LoginRequest, LoginReply, QueryRequest,
  QueryReply, sizeof_login_request, sizeof_login_reply, sizeof_query_request, sizeof_query_reply,
  login_reply_image, query_reply_image, login_request_at, query_request_at,
}
use vwnet_lib.Net.State.{Net, Sys, Handlers, on_net}
use vwnet_lib.Net.Write.{send_data}
use vwnet_lib.Net.Framing.{frames}
use vwnet_lib.Server.State.{
  AcType, admin, broadcast, query, BseAccount, BseClientContext, Bse, create_client_context,
  on_connect, on_disconnect, on_error,
}
use vwnet_lib.Server.Files.{send_query_file}

-- A struct is sent from the stack: nothing of the caller's lies behind it.
abbrev pub send_struct : ℕ → List ℕ → ℕ → Sys Bse → Sys Bse
send_struct fd image size = on_net (λ n. (send_data fd image size true n).1)

-- `login_flag = -2` in a uint16_t
abbrev pub login_refused : ℕ
login_refused = 2 ^ 16 - 2

abbrev pub login_reply : ℕ → ℕ → ℕ → LoginReply
login_reply type code flag = record {
  header = record {
    size = format_data32 (sizeof_login_reply - ph_size_bytes);
    type = format_data32 type;
  };
  client_code = format_data16 code;
  success_flag = format_data16 flag;
}

-- The account that a login request names, if the password is the account's.
unfoldable pub accepted : LoginRequest → Bse → Option BseAccount
accepted request a =
    let pwd = trim (before_nul request.password) in
    elim (find (pos (format_data16 request.client_code)) a.accounts) [
      | none ↦ none
      | some account ↦ if bytes_eq account.pwd pwd then some account else none
    ]

unfoldable pub handle_login : ℕ → LoginRequest → Sys Bse → Sys Bse
handle_login fd request s =
    let code = format_data16 request.client_code in
    let (login_flag, s') : ℕ × Sys Bse = elim (accepted request s.app) [
      | none ↦ (login_refused, s)
      | some account ↦ (0, create_client_context fd account s)
    ] in
    send_struct fd (login_reply_image (login_reply feed_login code login_flag)) sizeof_login_reply
      s'

unfoldable pub handle_logoff : ℕ → LoginRequest → Sys Bse → Sys Bse
handle_logoff fd request s =
    let code = format_data16 request.client_code in
    send_struct fd (login_reply_image (login_reply feed_logoff code 0)) sizeof_login_reply s

-- The conversion of a uint32_t to the `int` keys of the maps.
abbrev pub to_int : ℕ → ℤ
to_int word = if ltb word (2 ^ 31) then pos word else negsuc (2 ^ 32 - word - 1)

-- The query file of a context for a message type; the empty path for none.
unfoldable pub context_query_file : BseClientContext → ℕ → List ℕ
context_query_file it msg_type = elim it.type [
  | query ↦ elim (find (to_int msg_type) it.q_files) [ none ↦ [] | some file ↦ file ]
  | _ ↦ []
]

unfoldable pub find_query_file : ℕ → ℕ → Bse → List ℕ
find_query_file fd msg_type a = elim (find fd a.sock_lookup) [
  | none ↦ []
  | some code ↦ elim (find code a.client_context) [
    | none ↦ []
    | some it ↦ context_query_file it msg_type
  ]
]

abbrev query_reply : ℕ → ℕ → QueryReply
query_reply type val = record {
  header = record {
    size = format_data32 (sizeof_query_reply - ph_size_bytes);
    type = format_data32 type;
  };
  result = format_data32 val;
}

unfoldable pub answer_query : ℕ → List ℕ → Sys Bse → Sys Bse
answer_query fd [] s =
    send_struct fd (query_reply_image (query_reply query_reply_err 1)) sizeof_query_reply s
answer_query fd (ch ∷ query_file) s =
    send_query_file fd (ch ∷ query_file)
      (send_struct fd (query_reply_image (query_reply query_reply_ok 10)) sizeof_query_reply s)

unfoldable pub handle_request : ℕ → QueryRequest → Sys Bse → Sys Bse
handle_request fd request s =
    answer_query fd (find_query_file fd (format_data32 request.type) s.app) s

unfoldable pub calc_msg_size : ℕ → ℕ
calc_msg_size type =
    if type == feed_login
    then sizeof_login_request
    else if type == feed_logoff
    then sizeof_login_request
    else sizeof_query_request

unfoldable pub dispatch : ℕ → ℕ → List ℕ → Sys Bse → Sys Bse
dispatch fd msg_type bytes s =
    if msg_type == feed_login
    then handle_login fd (login_request_at bytes) s
    else if msg_type == feed_logoff
    then handle_logoff fd (login_request_at bytes) s
    else handle_request fd (query_request_at bytes) s

-- One round of the loop: how many bytes it processes, and the state after it.
unfoldable pub process_step : ℕ → List ℕ → Sys Bse → ℕ × Sys Bse
process_step fd bytes s =
    let msg_type = format_data32 (load_le (slice bytes 0 4)) in
    let size_expect = calc_msg_size msg_type in
    if leb ph_msg_type_bytes (length bytes)
    then if leb size_expect (length bytes)
      then (size_expect, dispatch fd msg_type bytes s)
      else (0, s)
    else (0, s)

unfoldable pub process_data : ℕ → List ℕ → Sys Bse → ℕ × Sys Bse
process_data fd bytes s = frames (process_step fd) bytes s

-- The virtual functions of class BSESimulator.
abbrev pub bse_handlers : Handlers Bse
bse_handlers = record {
  process_data = process_data;
  on_connect = on_connect;
  on_disconnect = on_disconnect;
  on_error = on_error;
}
