-- ===== src/Client/Reply.antt =====
-- A log-in reply that is shorter than its struct.
use vwnet_lib.Base.{
  ℕ, ◌+◌, ◌≤◌, ◌<◌, ◌≡◌, inl, inr, true, false, ◌||◌, List, [], ◌∷◌, arith, ℤ, length, ltb, le→leb,
  ◌==◌, Bool-cases,
}
use vwnet_lib.Venues.Messages.{
  feed_login, format_data16, format_data32, header_at, login_reply_at, ph_size_bytes,
}
use vwnet_lib.Net.State.{Net, Sys}
use vwnet_lib.Net.Write.Send.{send_data_defined}
use vwnet_lib.Client.State.{BseClient}
use vwnet_lib.Client.Process.{send_queries, handle_login_reply, dispatch, process_step}

send_queries_defined :
    (fd : ℕ) (query_msgs : List ℤ) (n : Net)
    → (send_queries fd query_msgs n).undefined ≡ false
    → n.undefined ≡ false
unfolding send_queries
send_queries_defined fd [] n ok = ok
send_queries_defined fd (msg_type ∷ rest) n ok =
    send_data_defined fd _ _ _ n (send_queries_defined fd rest _ ok)

send_queries_undefined :
    (fd : ℕ) (query_msgs : List ℤ) (n : Net)
    → n.undefined ≡ true
    → (send_queries fd query_msgs n).undefined ≡ true
send_queries_undefined fd query_msgs n e =
    elim (Bool-cases (send_queries fd query_msgs n).undefined) [
      | inl undefined ↦ undefined
      | inr defined ↦ ground (arith, send_queries_defined fd query_msgs n defined)
    ]

handle_login_reply_short :
    (fd : ℕ) (bytes : List ℕ) (s : Sys BseClient)
    → length bytes < 12
    → (handle_login_reply fd bytes s).net.undefined ≡ true
unfolding handle_login_reply
handle_login_reply_short fd bytes s short =
    elim (Bool-cases (format_data16 (login_reply_at bytes).success_flag == 0)) [
      | inl success ↦ rw success (send_queries_undefined fd s.app.account.query_msgs _ read_past)
      | inr refused ↦ rw refused read_past
    ]
  where
    read_past : (s.net.undefined || ltb (length bytes) 12) ≡ true
    read_past = ground arith

-- A message with a log-in reply's type whose header gives it less than the struct's 12 bytes, and
-- which has arrived without more behind it, is taken as a reply and read past its end.
pub process_step_short_reply :
    (fd : ℕ) (bytes : List ℕ) (s : Sys BseClient)
    → 8 ≤ length bytes
    → length bytes < 12
    → format_data32 (header_at bytes).size + ph_size_bytes ≤ length bytes
    → format_data32 (header_at bytes).type ≡ feed_login
    → (process_step fd bytes s).1.net.undefined ≡ true
unfolding process_step dispatch
process_step_short_reply fd bytes s enough short whole login =
    rw
      (
        login,
        le→leb 8 (length bytes) enough,
        le→leb (format_data32 (header_at bytes).size + 4) (length bytes) whole,
      )
      (handle_login_reply_short fd bytes s short)
