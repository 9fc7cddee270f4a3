-- ===== src/Server/Process/Invariant.antt =====
-- The handlers keep the server's maps in order and do not set `undefined`.
use vwnet_lib.Base.{
  before_nul, ℕ, ◌≤◌, ◌≡◌, inl, inr, true, List, [], ◌∷◌, some, arith, pos, find, nat_eq,
  int_eq_instance, length, leb, ◌==◌, bytes_eq_sound, Bool-cases, Option-cases,
}
use vwnet_lib.Venues.Trim.{trim}
use vwnet_lib.Venues.Messages.{
  feed_login, feed_logoff, LoginRequest, LoginReply, QueryReply, format_data16, login_reply_image,
  query_reply_image,
}
use vwnet_lib.Net.State.{Sys}
use vwnet_lib.Net.Write.Send.{IsHealthy, send_data-IsHealthy}
use vwnet_lib.Net.Framing.{frames_keep}
use vwnet_lib.Server.State.{BseAccount, Bse, create_client_context}
use vwnet_lib.Server.State.Invariant.{Registered, create_client_context-Registered}
use vwnet_lib.Server.State.Health.{create_client_context-IsHealthy}
use vwnet_lib.Server.Files.Sending.{send_query_file-IsHealthy, app-send_query_file}
use vwnet_lib.Server.Process.Framing.{first_type}
use vwnet_lib.Server.Process.{
  accepted, handle_login, handle_logoff, answer_query, handle_request, dispatch, calc_msg_size,
  process_step, process_data,
}

-- The maps are in order, and `undefined` is not set.
pub record ServerInv (s : Sys Bse) : Type 0 where
  pub registered : Registered s.app
  pub healthy : IsHealthy s.net

pub accepted_lem :
    (request : LoginRequest) (a : Bse) (account : BseAccount)
    → accepted request a ≡ some account
    → (find (pos (format_data16 request.client_code)) a.accounts ≡ some account)
      × (account.pwd ≡ trim (before_nul request.password))
unfolding accepted
accepted_lem request a account e =
    ground (arith, bytes_eq_sound account.pwd (trim (before_nul request.password)))

login_reply-long : (r : LoginReply) → 12 ≤ length (login_reply_image r)
unfolding login_reply_image
login_reply-long r = omega arith

query_reply-long : (r : QueryReply) → 12 ≤ length (query_reply_image r)
unfolding query_reply_image
query_reply-long r = omega arith

handle_login-ServerInv :
    (fd : ℕ) (request : LoginRequest) (s : Sys Bse)
    → ServerInv s
    → ServerInv (handle_login fd request s)
unfolding handle_login
handle_login-ServerInv fd request s inv = elim (Option-cases (accepted request s.app)) [
  | inl e ↦
      rw (e, handle_login)
        (record {
          registered = inv.registered;
          healthy = send_data-IsHealthy fd _ 12 true s.net (login_reply-long _) inv.healthy;
        })
  | inr (account, e) ↦
      let code : account.code ≡ pos (format_data16 request.client_code) =
        inv.registered.keyed _ account (accepted_lem request s.app account e).0 in
      rw (e, handle_login)
        (record {
          registered =
              create_client_context-Registered fd account s (λ f. ground (arith, code))
                inv.registered;
          healthy =
              send_data-IsHealthy fd _ 12 true (create_client_context fd account s).net
                (login_reply-long _) (create_client_context-IsHealthy fd account s inv.healthy);
        })
]

handle_logoff-ServerInv :
    (fd : ℕ) (request : LoginRequest) (s : Sys Bse)
    → ServerInv s
    → ServerInv (handle_logoff fd request s)
unfolding handle_logoff
handle_logoff-ServerInv fd request s inv = record {
  registered = inv.registered;
  healthy = send_data-IsHealthy fd _ 12 true s.net (login_reply-long _) inv.healthy;
}

answer_query-ServerInv :
    (fd : ℕ) (query_file : List ℕ) (s : Sys Bse)
    → ServerInv s
    → ServerInv (answer_query fd query_file s)
unfolding answer_query
answer_query-ServerInv fd [] s inv = record {
  registered = inv.registered;
  healthy = send_data-IsHealthy fd _ 12 true s.net (query_reply-long _) inv.healthy;
}
answer_query-ServerInv fd (ch ∷ query_file) s inv = record {
  registered = rw app-send_query_file inv.registered;
  healthy =
      send_query_file-IsHealthy fd (ch ∷ query_file) _
        (send_data-IsHealthy fd _ 12 true s.net (query_reply-long _) inv.healthy);
}

dispatch-ServerInv :
    (fd msg_type : ℕ) (bytes : List ℕ) (s : Sys Bse)
    → ServerInv s
    → ServerInv (dispatch fd msg_type bytes s)
unfolding dispatch handle_request
dispatch-ServerInv fd msg_type bytes s inv = elim (Bool-cases (msg_type == feed_login)) [
  | inl login ↦ rw login (handle_login-ServerInv fd _ s inv)
  | inr other ↦ elim (Bool-cases (msg_type == feed_logoff)) [
    | inl logoff ↦ rw (other, logoff) (handle_logoff-ServerInv fd _ s inv)
    | inr rest ↦ rw (other, rest) (answer_query-ServerInv fd _ s inv)
  ]
]

process_step-ServerInv :
    (fd : ℕ) (bytes : List ℕ) (s : Sys Bse) → ServerInv s → ServerInv (process_step fd bytes s).1
unfolding process_step
process_step-ServerInv fd bytes s inv = elim (Bool-cases (leb 4 (length bytes))) [
  | inl four ↦ elim (Bool-cases (leb (calc_msg_size (first_type bytes)) (length bytes))) [
    | inl whole ↦ rw (four, whole) (dispatch-ServerInv fd (first_type bytes) bytes s inv)
    | inr part ↦ rw (four, part) inv
  ]
  | inr few ↦ rw few inv
]

-- If the server's maps are in order, `undefined` is not set and no malloc fails, that is so after
-- process_data on whatever bytes a client sends: send_data copies no byte beyond those that it is
-- given, and no erase is of a client that is not in the set. (A trim's isspace of a byte of 0x80 or
-- above, undefined in the C standard and defined in glibc, does not set it.)
pub process_data-ServerInv :
    (fd : ℕ) (bytes : List ℕ) (s : Sys Bse) → ServerInv s → ServerInv (process_data fd bytes s).1
unfolding process_data
process_data-ServerInv fd bytes s inv =
    frames_keep (process_step fd) ServerInv (process_step-ServerInv fd) bytes s inv
