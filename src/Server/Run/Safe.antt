-- ===== src/Server/Run/Safe.antt =====
-- The server under its event loop: its maps, its buffers, and what would be undefined.
use vwnet_lib.Base.{
  ℕ, ◌≤◌, ◌<◌, ◌^◌, ◌≡◌, ◌≢◌, sym, ap, ◌∙◌, inl, inr, List, [], true, some, arith, length,
  Option-cases,
}
use vwnet_lib.Venues.Messages.{sizeof_login_request}
use vwnet_lib.Net.State.{
  Net, ReadBuf, NetContext, Sys, on_net, get_context, update_context, create_context,
}
use vwnet_lib.Net.Socket.{Inbound, Outbound}
use vwnet_lib.Net.Read.{overrun, size_remain, read_loop, put_read_buf}
use vwnet_lib.Net.Read.Buffer.{size_remain-BufInv}
use vwnet_lib.Net.Read.Results.{read_loop-Sound}
use vwnet_lib.Net.Write.{send_data}
use vwnet_lib.Net.Write.Send.{IsHealthy, send_data-IsHealthy}
use vwnet_lib.Net.Events.{Event, run_events}
use vwnet_lib.Net.Events.Ends.{read_loop-keep}
use vwnet_lib.Net.Events.Keep.{IsQuiet, Keeps, run_events-keep}
use vwnet_lib.Net.Events.Buffers.{
  buf_in, SameBuffers, Buffered, IsShort, no_contexts-Buffered, SameBuffers-Buffered,
  create_context-Buffered, put_read_buf-Buffered, read_loop-IsShort,
}
use vwnet_lib.Net.Events.Buffers.Loop.{EventsFit}
use vwnet_lib.Server.State.{Bse}
use vwnet_lib.Server.State.Invariant.{Registered, on_error-on_disconnect}
use vwnet_lib.Server.Files.{send_rest}
use vwnet_lib.Server.Files.Sending.{send_rest-IsHealthy}
use vwnet_lib.Server.Files.Buffers.{send_data-SameBuffers, send_rest-SameBuffers}
use vwnet_lib.Server.Process.{bse_handlers, process_data}
use vwnet_lib.Server.Process.Framing.{process_data-IsBounded, process_data_leaves}
use vwnet_lib.Server.Process.Invariant.{ServerInv, process_data-ServerInv}
use vwnet_lib.Server.Run.{IsFresh, IsFresh-ServerInv, on_connect-ServerInv, on_disconnect-ServerInv}
use vwnet_lib.Server.Run.Buffers.{bse-KeepsBuffers}

module _ (size : ℕ) where
  -- `undefined` is not set, no malloc fails, and each buffer is a whole block with less than one message.
  pub record IsSafe (n : Net) : Type 0 where
    pub healthy : IsHealthy n
    pub buffered : Buffered sizeof_login_request size n

  pub SameBuffers-IsSafe : {n n' : Net} → SameBuffers n n' → IsHealthy n' → IsSafe n → IsSafe n'
  SameBuffers-IsSafe same healthy safe = record {
    healthy = healthy;
    buffered = SameBuffers-Buffered _ size same safe.buffered;
  }

  pub send_data-IsSafe :
      (fd : ℕ) (memory : List ℕ) (len : ℕ) (n : Net)
      → len ≤ length memory
      → IsSafe n
      → IsSafe (send_data fd memory len true n).1
  send_data-IsSafe fd memory len n fits safe =
      SameBuffers-IsSafe (send_data-SameBuffers fd memory len true n)
        (send_data-IsHealthy fd memory len true n fits safe.healthy) safe

  pub send_rest-IsSafe :
      (fuel fd : ℕ) (bytes : List ℕ) (done_n : ℕ) (n : Net)
      → IsSafe n
      → IsSafe (send_rest fuel fd bytes done_n n).2
  send_rest-IsSafe fuel fd bytes done_n n safe =
      SameBuffers-IsSafe (send_rest-SameBuffers fuel fd bytes done_n n)
        (send_rest-IsHealthy fuel fd bytes done_n n safe.healthy) safe

  -- The maps are in order, and the network is safe.
  pub record SafeServer (s : Sys Bse) : Type 0 where
    pub registered : Registered s.app
    pub safe : IsSafe s.net

  pub SafeServer-ServerInv : (s : Sys Bse) → SafeServer s → ServerInv s
  SafeServer-ServerInv s i = record { registered = i.registered; healthy = i.safe.healthy }

  same-SafeServer :
      (s s' : Sys Bse)
      → SameBuffers s.net s'.net
      → (ServerInv s → ServerInv s')
      → SafeServer s
      → SafeServer s'
  same-SafeServer s s' same kept i =
      let inv = kept (SafeServer-ServerInv s i) in
      record { registered = inv.registered; safe = SameBuffers-IsSafe same inv.healthy i.safe }

  pub IsFresh-SafeServer :
      (s : Sys Bse) → IsFresh s → s.net.contexts ≡ [] → s.net.buf_size ≡ size → SafeServer s
  IsFresh-SafeServer s fresh none_yet sized =
      let inv = IsFresh-ServerInv s fresh in
      record {
        registered = inv.registered;
        safe = record {
          healthy = inv.healthy;
          buffered = no_contexts-Buffered _ size s.net none_yet sized;
        };
      }

  processing :
      (fd : ℕ) (bytes : List ℕ) (s : Sys Bse)
      → SafeServer s
      → SafeServer (process_data fd bytes s).1
  processing fd bytes s =
      same-SafeServer s _ (bse-KeepsBuffers.processing fd bytes s)
        (process_data-ServerInv fd bytes s)

  quiet-SafeServer :
      (s : Sys Bse) (n : Net) → IsQuiet s.net n → SafeServer s → SafeServer (record s { net = n })
  quiet-SafeServer s n q i = record {
    registered = i.registered;
    safe = record {
      healthy = record {
        defined = q.same_undefined ∙ i.safe.healthy.defined;
        blocks = q.same_mallocs ∙ i.safe.healthy.blocks;
      };
      buffered = record {
        sized = q.same_size ∙ i.safe.buffered.sized;
        each = λ fd b e. i.safe.buffered.each fd b (q.old_bufs fd b e);
      };
    };
  }

  put_read_buf-IsHealthy :
      (ki : Inbound) (fd : ℕ) (b : ReadBuf) (n : Net)
      → IsHealthy n
      → IsHealthy (put_read_buf ki bse_handlers fd b n)
  unfolding put_read_buf update_context
  put_read_buf-IsHealthy ki fd b n h = elim (Option-cases (get_context fd n)) [
    | inl e ↦ rw (e, put_read_buf) h
    | inr (ctxt, e) ↦ rw (e, put_read_buf) (record { defined = h.defined; blocks = h.blocks })
  ]

  module _ (long : sizeof_login_request ≤ size) (small : size < 2 ^ 64) where
    reading :
        (ki : Inbound) (fuel fd : ℕ) (ctxt : NetContext) (c : ki.Conn) (s : Sys Bse)
        → get_context fd s.net ≡ some ctxt
        → SafeServer s
        → let b = ctxt.read_buf in
          let out =
            read_loop ki bse_handlers fuel s.net.buf_size fd b (size_remain s.net.buf_size b) c s in
          (out.0 ≢ overrun) × SafeServer (on_net (put_read_buf ki bse_handlers fd out.1) out.3)
    reading ki fuel fd ctxt c s e i =
        let b = ctxt.read_buf in
        let sized = i.safe.buffered.sized in
        let short : IsShort sizeof_login_request size b = i.safe.buffered.each fd b (ap buf_in e) in
        let remain = size_remain s.net.buf_size b in
        let inv =
          size_remain-BufInv s.net.buf_size b (short.block ∙ sym sized)
            (omega (arith, short.fits, sized)) (omega (arith, small, sized)) in
        let looped : SafeServer (read_loop ki bse_handlers fuel s.net.buf_size fd b remain c s).3 =
          read_loop-keep bse_handlers processing ki fuel s.net.buf_size fd b remain c s i in
        (
          (read_loop-Sound ki bse_handlers process_data-IsBounded s.net.buf_size fd fuel b remain c
              s inv).in_bounds,
          record {
            registered = looped.registered;
            safe = record {
              healthy = put_read_buf-IsHealthy ki fd _ _ looped.safe.healthy;
              buffered =
                  put_read_buf-Buffered sizeof_login_request size ki bse_handlers fd _ _
                    (read_loop-IsShort sizeof_login_request size long (omega arith) small
                      bse_handlers process_data-IsBounded ki fuel s.net.buf_size fd b c s sized
                      (process_data_leaves fd) short)
                    looped.safe.buffered;
            };
          },
        )

    pub bse-Keeps : Keeps bse_handlers size SafeServer
    bse-Keeps = record {
      connecting = λ fd s.
          same-SafeServer s _ (bse-KeepsBuffers.connecting fd s) (on_connect-ServerInv fd s);
      losing =
          λ fd s. same-SafeServer s _ (bse-KeepsBuffers.losing fd s) (on_disconnect-ServerInv fd s);
      failing = λ fd err s.
          same-SafeServer s _ (bse-KeepsBuffers.failing fd err s)
            (λ inv. rw (on_error-on_disconnect fd err s) (on_disconnect-ServerInv fd s inv));
      quiet = quiet-SafeServer;
      creating = λ fd remote block s fits i. record {
        registered = i.registered;
        safe = record {
          healthy =
              unfold create_context in
              record { defined = i.safe.healthy.defined; blocks = i.safe.healthy.blocks };
          buffered =
              create_context-Buffered sizeof_login_request size long (omega arith) small fd remote
                block s.net fits i.safe.buffered;
        };
      };
      reading = reading;
    }

-- From a server whose accounts stand under their codes and that has no connection yet, with buffers
-- that have room for the longest message, whatever connections (each with a block of the buffer's
-- size), bytes, errors and closes come in whatever order, while malloc does not fail: the maps are in
-- order, and `undefined` is not set, that is, no read has gone past the end of a connection's buffer,
-- no send has copied more than it was given, and no client was erased from a set without it.
pub run_events-ServerInv :
    (ki : Inbound) (ko : Outbound) (events : List (Event bse_handlers ki ko)) (s : Sys Bse)
    (size : ℕ)
    → IsFresh s
    → s.net.contexts ≡ []
    → s.net.buf_size ≡ size
    → sizeof_login_request ≤ size
    → size < 2 ^ 64
    → EventsFit size events
    → ServerInv (run_events bse_handlers ki ko events s)
run_events-ServerInv ki ko events s size fresh none_yet sized long small fit =
    SafeServer-ServerInv size _ (
      run_events-keep bse_handlers (bse-Keeps size long small) ki ko events s fit
        (IsFresh-SafeServer size s fresh none_yet sized))
