-- ===== src/Server/Run/Buffers.antt =====
-- The buffers of the server's connections, whatever events come.
use vwnet_lib.Base.{
  ℕ, ◌≤◌, ◌<◌, ◌^◌, ◌≡◌, ◌≢◌, refl, ap, inl, inr, true, List, [], ◌∷◌, some, arith, ◌==◌, nat_eq,
  int_eq_instance, length, leb, Bool-cases, Option-cases,
}
use vwnet_lib.Venues.Messages.{LoginRequest, sizeof_login_request, feed_login, feed_logoff}
use vwnet_lib.Net.State.{NetContext, Sys, get_context}
use vwnet_lib.Net.Framing.{frames_keep}
use vwnet_lib.Net.Events.Buffers.{SameBuffers, SameBuffers-refl, SameBuffers-trans}
use vwnet_lib.Net.Events.Buffers.Loop.{KeepsBuffers}
use vwnet_lib.Server.State.{Bse, on_connect}
use vwnet_lib.Server.State.Invariant.{on_error-on_disconnect}
use vwnet_lib.Server.Process.Framing.{first_type}
use vwnet_lib.Server.Process.{
  accepted, handle_login, handle_logoff, answer_query, handle_request, dispatch, calc_msg_size,
  process_step, process_data, bse_handlers,
}
use vwnet_lib.Net.Socket.{Inbound, Outbound}
use vwnet_lib.Net.Read.{size_remain, read_loop, full, overrun, no_fuel}
use vwnet_lib.Net.Read.Buffer.{size_remain-BufInv}
use vwnet_lib.Net.Read.Results.{read_loop-Sound, read_loop_ends, read_loop-ne-full}
use vwnet_lib.Net.Events.{Event, run_events}
use vwnet_lib.Net.Events.Buffers.{
  buf_in, Buffered, IsShort, no_contexts-Buffered, read_loop-IsShort,
}
use vwnet_lib.Net.Events.Buffers.Loop.{EventsFit, run_events-Buffered}
use vwnet_lib.Server.Process.Framing.{process_data-IsBounded, process_data_leaves}
use vwnet_lib.Server.Files.Buffers.{send_data-SameBuffers, send_query_file-SameBuffers}
use vwnet_lib.Server.State.Buffers.{create_client_context-SameBuffers, on_disconnect-SameBuffers}

handle_login-SameBuffers :
    (fd : ℕ) (request : LoginRequest) (s : Sys Bse)
    → SameBuffers s.net (handle_login fd request s).net
unfolding handle_login
handle_login-SameBuffers fd request s = elim (Option-cases (accepted request s.app)) [
  | inl e ↦ rw (e, handle_login) (send_data-SameBuffers fd _ 12 true s.net)
  | inr (account, e) ↦
      rw (e, handle_login)
        (SameBuffers-trans (create_client_context-SameBuffers fd account s)
          (send_data-SameBuffers fd _ 12 true _))
]

answer_query-SameBuffers :
    (fd : ℕ) (query_file : List ℕ) (s : Sys Bse)
    → SameBuffers s.net (answer_query fd query_file s).net
unfolding answer_query
answer_query-SameBuffers fd [] s = send_data-SameBuffers fd _ 12 true s.net
answer_query-SameBuffers fd (ch ∷ query_file) s =
    SameBuffers-trans (send_data-SameBuffers fd _ 12 true s.net)
      (send_query_file-SameBuffers fd (ch ∷ query_file) _)

dispatch-SameBuffers :
    (fd msg_type : ℕ) (bytes : List ℕ) (s : Sys Bse)
    → SameBuffers s.net (dispatch fd msg_type bytes s).net
unfolding dispatch handle_request handle_logoff
dispatch-SameBuffers fd msg_type bytes s = elim (Bool-cases (msg_type == feed_login)) [
  | inl login ↦ rw login (handle_login-SameBuffers fd _ s)
  | inr other ↦ elim (Bool-cases (msg_type == feed_logoff)) [
    | inl logoff ↦ rw (other, logoff) (send_data-SameBuffers fd _ 12 true s.net)
    | inr rest ↦ rw (other, rest) (answer_query-SameBuffers fd _ s)
  ]
]

process_step-SameBuffers :
    (fd : ℕ) (bytes : List ℕ) (s : Sys Bse) → SameBuffers s.net (process_step fd bytes s).1.net
unfolding process_step
process_step-SameBuffers fd bytes s = elim (Bool-cases (leb 4 (length bytes))) [
  | inl four ↦ elim (Bool-cases (leb (calc_msg_size (first_type bytes)) (length bytes))) [
    | inl whole ↦ rw (four, whole) (dispatch-SameBuffers fd (first_type bytes) bytes s)
    | inr part ↦ rw (four, part) (SameBuffers-refl s.net)
  ]
  | inr few ↦ rw few (SameBuffers-refl s.net)
]

process_data-SameBuffers :
    (fd : ℕ) (bytes : List ℕ) (s : Sys Bse) → SameBuffers s.net (process_data fd bytes s).1.net
unfolding process_data
process_data-SameBuffers fd bytes s =
    frames_keep (process_step fd) (λ t. SameBuffers s.net t.net)
      (λ xs t same. SameBuffers-trans same (process_step-SameBuffers fd xs t)) bytes s
      (SameBuffers-refl s.net)

-- No virtual function of the server touches a read buffer.
pub bse-KeepsBuffers : KeepsBuffers bse_handlers
bse-KeepsBuffers = record {
  processing = process_data-SameBuffers;
  connecting = λ fd s. unfold on_connect in SameBuffers-refl s.net;
  losing = on_disconnect-SameBuffers;
  failing = λ fd err s. rw (on_error-on_disconnect fd err s) (on_disconnect-SameBuffers fd s);
}

-- Whatever connections, bytes, errors and closes come in whatever order to a server without
-- connections whose buffers have room for the longest message, each accepted with a block of the
-- buffer's size: a read of any connection, whatever its socket holds, writes within the block, does
-- not end for want of room, ends by itself with more fuel than there are bytes on their way, and
-- leaves a whole block with less than one message in it.
pub run_events-read_loop :
    (ki : Inbound) (ko : Outbound) (events : List (Event bse_handlers ki ko)) (s : Sys Bse)
    (size fuel fd : ℕ) (ctxt : NetContext) (c : ki.Conn)
    → s.net.contexts ≡ []
    → s.net.buf_size ≡ size
    → sizeof_login_request ≤ size
    → size < 2 ^ 64
    → EventsFit size events
    → get_context fd (run_events bse_handlers ki ko events s).net ≡ some ctxt
    → length (ki.incoming c) < fuel
    → let b = ctxt.read_buf in
      let out =
        read_loop ki bse_handlers fuel size fd b
          (size_remain size b)
          c
          (run_events bse_handlers ki ko events s) in
      (out.0 ≢ overrun)
      × (out.0 ≢ full)
      × (out.0 ≢ no_fuel)
      × IsShort sizeof_login_request size out.1
run_events-read_loop ki ko events s size fuel fd ctxt c none_yet sized long small fits here enough =
    let s' = run_events bse_handlers ki ko events s in
    let b = ctxt.read_buf in
    let good : Buffered sizeof_login_request size s'.net =
      run_events-Buffered sizeof_login_request size long (omega arith) small bse_handlers
        bse-KeepsBuffers process_data-IsBounded ki process_data_leaves ko events s fits
        (no_contexts-Buffered _ size s.net none_yet sized) in
    let short : IsShort sizeof_login_request size b = good.each fd b (ap buf_in here) in
    let inv = size_remain-BufInv size b short.block short.fits small in
    let remain = size_remain size b in
    (
      (read_loop-Sound ki bse_handlers process_data-IsBounded size fd fuel b remain c s'
          inv).in_bounds,
      (read_loop-ne-full ki bse_handlers process_data-IsBounded size fd sizeof_login_request fuel b
          remain c s' long (process_data_leaves fd) inv short.few).0,
      read_loop_ends ki bse_handlers process_data-IsBounded size fd fuel b remain c s' inv enough,
      read_loop-IsShort sizeof_login_request size long (omega arith) small bse_handlers
          process_data-IsBounded ki fuel size fd b c s' refl (process_data_leaves fd) short,
    )
