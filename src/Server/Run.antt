-- ===== src/Server/Run.antt =====
-- The server under its event loop, and under the reads of one connection.
pub mod Buffers
pub mod Safe
pub mod Relogin
pub mod Service
use vwnet_lib.Base.{
  ℕ, ◌+◌, ◌≤◌, ◌<◌, ◌≡◌, ◌≢◌, refl, sym, ap, subst, ◌∙◌, List, [], ◌∷◌, ◌++◌, none, some, arith, ℤ,
  Map, find, int_eq_instance, nat_eq, drop, length, length-append, length-drop,
}
use vwnet_lib.Venues.Messages.{sizeof_login_request}
use vwnet_lib.Net.State.{Net, ReadBuf, Sys}
use vwnet_lib.Net.Socket.{Inbound, Outbound}
use vwnet_lib.Net.Read.{contents, ReadEnd, full, overrun, no_fuel, read_loop}
use vwnet_lib.Net.Read.Buffer.{BufInv}
use vwnet_lib.Net.Read.Results.{
  Sound, Streamed, IsIdle, left_over-idle, read_loop-Sound, read_loop_ends, read_loop-Streamed,
  read_loop-ne-full,
}
use vwnet_lib.Net.Write.Send.{IsHealthy}
use vwnet_lib.Net.Events.{Event, run_events}
use vwnet_lib.Net.Events.Keep.{IsQuiet, Keeps, run_events-keep}
use vwnet_lib.Server.State.{BseAccount, Bse, on_connect, on_error, on_disconnect, no_code}
use vwnet_lib.Server.State.Invariant.{
  Registered, on_connect-Registered, on_disconnect-Registered, on_error-on_disconnect,
}
use vwnet_lib.Server.State.Health.{on_disconnect-IsHealthy}
use vwnet_lib.Server.Process.{bse_handlers, process_data}
use vwnet_lib.Server.Process.Framing.{
  process_data-IsBounded, process_data-IsIncremental, process_data_leaves,
}
use vwnet_lib.Server.Process.Invariant.{ServerInv, process_data-ServerInv}

pub on_connect-ServerInv : (fd : ℕ) (s : Sys Bse) → ServerInv s → ServerInv (on_connect fd s)
on_connect-ServerInv fd s inv = record {
  registered = on_connect-Registered fd s inv.registered;
  healthy = unfold on_connect in inv.healthy;
}

pub on_disconnect-ServerInv : (fd : ℕ) (s : Sys Bse) → ServerInv s → ServerInv (on_disconnect fd s)
on_disconnect-ServerInv fd s inv = record {
  registered = on_disconnect-Registered fd s inv.registered;
  healthy = on_disconnect-IsHealthy fd s inv.registered inv.healthy;
}

-- The state that the constructor leaves once the accounts are read: no client, and `undefined` not set.
pub record IsFresh (s : Sys Bse) : Type 0 where
  pub keyed : (c : ℤ) (acc : BseAccount) → find c s.app.accounts ≡ some acc → acc.code ≡ c
  pub no_socks : s.app.sock_lookup ≡ []
  pub no_contexts : s.app.client_context ≡ []
  pub healthy : IsHealthy s.net

pub IsFresh-ServerInv : (s : Sys Bse) → IsFresh s → ServerInv s
unfolding find
IsFresh-ServerInv s fresh = record {
  registered = record {
    keyed = fresh.keyed;
    no_guests = rw fresh.no_contexts;
    listed = λ fd code e ne. absurd (ground (arith, fresh.no_socks));
  };
  healthy = fresh.healthy;
}

-- What handling the bytes of one connection comes to: no access past the buffer, an end other than
-- want of room, the effect of one look at all bytes received, and a buffer with less than one
-- message in it.
pub record Handled (k : Inbound) (buf_size fd : ℕ) (b : ReadBuf) (c : k.Conn) (s : Sys Bse)
    (out : ReadEnd × ReadBuf × k.Conn × Sys Bse) : Type 0 where
  pub in_bounds : out.0 ≢ overrun
  pub ends : out.0 ≢ no_fuel
  pub has_room : out.0 ≢ full
  pub streamed : Streamed k bse_handlers process_data-IsBounded buf_size fd b c s out
  pub idle : IsIdle k bse_handlers process_data-IsBounded buf_size fd out.1 out.3
  pub few : length (contents out.1) < sizeof_login_request

-- For the server's read loop with a sound buffer of at least 80 bytes (the longest message) in
-- which less than one message waits, with more fuel than there are bytes on their way: it never
-- writes past the buffer, ends, does not end for want of room, has the effect of one process_data
-- on all the bytes it received, and leaves less than one message in the buffer.
pub read_loop-Handled :
    (k : Inbound) (fuel buf_size fd : ℕ) (b : ReadBuf) (remain : ℕ) (c : k.Conn) (s : Sys Bse)
    → BufInv buf_size b remain
    → sizeof_login_request ≤ buf_size
    → IsIdle k bse_handlers process_data-IsBounded buf_size fd b s
    → length (contents b) < sizeof_login_request
    → length (k.incoming c) < fuel
    → Handled k buf_size fd b c s (read_loop k bse_handlers fuel buf_size fd b remain c s)
read_loop-Handled k fuel buf_size fd b remain c s inv fits idle few enough = record {
  in_bounds =
      (read_loop-Sound k bse_handlers process_data-IsBounded buf_size fd fuel b remain c s
        inv).in_bounds;
  ends =
      read_loop_ends k bse_handlers process_data-IsBounded buf_size fd fuel b remain c s inv enough;
  has_room =
      (read_loop-ne-full k bse_handlers process_data-IsBounded buf_size fd sizeof_login_request fuel
        b remain c s fits (process_data_leaves fd) inv few).0;
  streamed = streamed;
  idle = rw streamed.left (after (contents b ++ streamed.received) _ _ streamed.as_one);
  few = rw streamed.left (short (contents b ++ streamed.received) _ _ streamed.as_one);
}
  where
    streamed :
        Streamed k bse_handlers process_data-IsBounded buf_size fd b c s
          (read_loop k bse_handlers fuel buf_size fd b remain c s)
    streamed =
        read_loop-Streamed k bse_handlers process_data-IsBounded buf_size fd
          process_data-IsIncremental fuel b remain c s inv idle

    after :
        (xs : List ℕ) (n : ℕ) (t : Sys Bse)
        → process_data fd xs s ≡ (n, t)
        → process_data fd (drop n xs) t ≡ (0, t)
    after xs n t e =
        subst (λ p. process_data fd (drop p.0 xs) p.1 ≡ (0, p.1)) e
          (left_over-idle k bse_handlers process_data-IsBounded buf_size fd
            process_data-IsIncremental xs s)

    short :
        (xs : List ℕ) (n : ℕ) (t : Sys Bse)
        → process_data fd xs s ≡ (n, t)
        → length (drop n xs) < sizeof_login_request
    short xs n t e = omega (arith, length-drop n xs, process_data_leaves fd xs s, ap (λ p. p.0) e)
