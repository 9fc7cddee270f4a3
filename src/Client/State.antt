-- ===== src/Client/State.antt =====
-- The client's account, its sockets and its journal file, and the calls that connect, log in and
-- log off.
use vwnet_lib.Base.{
  ℕ, ◌-◌, ◌%◌, ◌^◌, Bool, true, false, List, [], ◌∷◌, ◌++◌, ℤ, pos, negsuc, insert, remove, length,
  replicate, strncpy, ltb, if◌then◌else◌,
}
use vwnet_lib.Venues.Messages.{
  feed_login, feed_logoff, format_data16, format_data32, password_bytes, timestamp_bytes,
  LoginRequest, login_request_image, sizeof_login_request,
}
use vwnet_lib.Net.State.{Sys, on_net}
use vwnet_lib.Net.Write.{send_data}

-- struct client_account
pub record ClientAccount : Type 0 where
  pub code : ℤ
  pub name : List ℕ
  pub pwd : List ℕ
  pub ts : List ℕ
  pub jnl_file : List ℕ
  pub query_msgs : List ℤ

-- class BSEClient: `jnl_file_` as whether it is open and what the file holds; `can_open` says whether
-- `fopen` succeeds.
pub record BseClient : Type 0 where
  pub account : ClientAccount
  pub jnl_open : Bool
  pub jnl_text : List ℕ
  pub can_open : Bool
  pub sock_list : List ℕ

abbrev pub on_client : (BseClient → BseClient) → Sys BseClient → Sys BseClient
on_client f s = record s { app = f s.app }

-- The conversions of an `int` to uint16_t and uint32_t.
abbrev pub to_unsigned : ℕ → ℤ → ℕ
to_unsigned w (pos n) = n % 2 ^ w
to_unsigned w (negsuc n) = 2 ^ w - 1 - n % 2 ^ w

-- The password with space padding at the right.
unfoldable pub padded : List ℕ → List ℕ
padded password =
    if ltb (length password) password_bytes
    then password ++ replicate (password_bytes - length password) 32
    else password

unfoldable pub login_request : ℕ → ClientAccount → LoginRequest
unfolding padded
login_request msg_type account = record {
  type = format_data32 msg_type;
  client_code = format_data16 (to_unsigned 16 account.code);
  filler = 0;
  password = strncpy password_bytes (padded account.pwd);
  timestamp = strncpy timestamp_bytes account.ts;
}

unfoldable pub send_login : ℕ → Sys BseClient → Sys BseClient
send_login fd s =
    on_net
      (λ n.
        (send_data fd (login_request_image (login_request feed_login s.app.account))
          sizeof_login_request true n).1)
      s

unfoldable pub send_logoff : ℕ → Sys BseClient → Sys BseClient
send_logoff fd s =
    on_net
      (λ n.
        (send_data fd (login_request_image (login_request feed_logoff s.app.account))
          sizeof_login_request true n).1)
      s

unfoldable pub close_jnl_file : BseClient → BseClient
close_jnl_file a = record a { jnl_open = false }

unfoldable pub on_connect : ℕ → Sys BseClient → Sys BseClient
on_connect fd s =
    let s₁ = on_client (λ a. record a { sock_list = insert fd a.sock_list }) s in
    on_client (λ a. record a { jnl_open = a.can_open }) (send_login fd s₁)

unfoldable pub on_disconnect : ℕ → Sys BseClient → Sys BseClient
unfolding close_jnl_file
on_disconnect fd s =
    on_client (λ a. close_jnl_file (record a { sock_list = remove fd a.sock_list })) s

unfoldable pub on_error : ℕ → ℕ → Sys BseClient → Sys BseClient
unfolding close_jnl_file
on_error fd err s =
    on_client (λ a. close_jnl_file (record a { sock_list = remove fd a.sock_list })) s

logoff_all : List ℕ → Sys BseClient → Sys BseClient
unfolding send_logoff
logoff_all [] s = s
logoff_all (fd ∷ fds) s = logoff_all fds (send_logoff fd s)

-- `handle_quit` up to its `Stop`.
unfoldable pub handle_quit : Sys BseClient → Sys BseClient
unfolding logoff_all
handle_quit s = logoff_all s.app.sock_list s
