-- ===== src/Client/Stream.antt =====
-- The read loop of EpollNetTcp::handle_read with the client's process_data.
use vwnet_lib.Base.{
  ℕ, suc, ◌+◌, ◌≤◌, ◌<◌, ◌≡◌, ◌≢◌, refl, sym, ap, ap₂, ◌∙◌, List, ◌++◌, append_assoc, arith, subst,
  drop, length, leb, slice-append, inl, inr, Bool-cases,
}
use vwnet_lib.Venues.Messages.{format_data32, header_at, ph_size_bytes}
use vwnet_lib.Net.State.{ReadBuf, Sys}
use vwnet_lib.Net.Socket.{Inbound}
use vwnet_lib.Net.Framing.{frames, frames-fits, frame_loop_idle}
use vwnet_lib.Net.Read.{contents, ReadEnd, no_fuel, read_loop}
use vwnet_lib.Net.Read.Buffer.{BufInv}
use vwnet_lib.Net.Read.Loop.{IsBounded, Rounds, read_loop-Rounds}
use vwnet_lib.Net.Read.Results.{read_loop_ends}
use vwnet_lib.Client.State.{BseClient}
use vwnet_lib.Client.Process.{process_step, process_data, client_handlers}
use vwnet_lib.Client.Journal.{IsPartial, IsPartial-process_step}

step_fits :
    (fd : ℕ) (bytes : List ℕ) (s : Sys BseClient) → (process_step fd bytes s).0 ≤ length bytes
unfolding process_step
step_fits fd bytes s = ground arith

-- The client's process_data never claims more bytes than it was given.
pub client-IsBounded : IsBounded client_handlers
unfolding process_data
client-IsBounded fd bytes s = frames-fits (process_step fd) (step_fits fd) bytes s

-- The stream starts with a message that is longer than the buffer.
record TooLong (buf_size : ℕ) (stream : List ℕ) : Type 0 where
  pub has_header : 8 ≤ length stream
  pub longer : buf_size < format_data32 (header_at stream).size + ph_size_bytes

header_at-append : (xs ys : List ℕ) → 8 ≤ length xs → header_at (xs ++ ys) ≡ header_at xs
unfolding header_at
header_at-append xs ys enough =
    rw (slice-append xs ys 0 4 (omega arith), slice-append xs ys 4 4 (omega arith))

-- The part of it that the buffer holds is not processed.
TooLong-idle :
    (buf_size fd : ℕ) (xs ys : List ℕ) (s : Sys BseClient)
    → TooLong buf_size (xs ++ ys)
    → length xs ≤ buf_size
    → process_data fd xs s ≡ (0, s)
unfolding process_data frames
TooLong-idle buf_size fd xs ys s long held =
    frame_loop_idle (process_step fd) (suc (length xs)) xs s
      (IsPartial-process_step fd xs partial s)
  where
    partial : IsPartial xs
    partial = elim (Bool-cases (leb 8 (length xs))) [
      | inl header ↦
          let same : header_at (xs ++ ys) ≡ header_at xs = header_at-append xs ys (ground arith) in
          inr (omega (arith, long.longer, held, ap (λ h. format_data32 h.size) same))
      | inr few ↦ inl (ground arith)
    ]

module _ (k : Inbound) (buf_size fd : ℕ) where
  open k use {Conn, incoming}

  -- Nothing was handled, and no byte has left the buffer and the connection.
  record Stuck (b : ReadBuf) (c : Conn) (s : Sys BseClient)
      (out : ReadEnd × ReadBuf × Conn × Sys BseClient) : Type 0 where
    pub untouched : out.3 ≡ s
    pub same_stream : contents out.1 ++ incoming out.2 ≡ contents b ++ incoming c

  stream-round :
      (b : ReadBuf) (c c' : Conn) (bytes given : List ℕ)
      → incoming c ≡ bytes ++ incoming c'
      → given ≡ contents b ++ bytes
      → contents b ++ incoming c ≡ given ++ incoming c'
  stream-round b c c' bytes given e g =
      rw (e, g) (sym (append_assoc (contents b) bytes (incoming c')))

  Stuck-round :
      (b b' : ReadBuf) (c c' : Conn) (s : Sys BseClient) (bytes given : List ℕ)
      (out : ReadEnd × ReadBuf × Conn × Sys BseClient)
      → incoming c ≡ bytes ++ incoming c'
      → given ≡ contents b ++ bytes
      → contents b' ≡ drop (process_data fd given s).0 given
      → process_data fd given s ≡ (0, s)
      → TooLong buf_size (contents b ++ incoming c)
      → (TooLong buf_size (contents b' ++ incoming c')
          → Stuck b' c' (process_data fd given s).1 out)
      → Stuck b c s out
  Stuck-round b b' c c' s bytes given out e g d idle long ih =
      let rest = ih (subst (TooLong buf_size) stream long) in
      record {
        untouched = rest.untouched ∙ ap (λ r. r.1) idle;
        same_stream = rest.same_stream ∙ sym stream;
      }
    where
      stream : contents b ++ incoming c ≡ contents b' ++ incoming c'
      stream =
          stream-round b c c' bytes given e g
          ∙ ap (λ xs. xs ++ incoming c') (sym (d ∙ ap (λ r. drop r.0 given) idle))

  Stuck-rounds :
      Rounds k client_handlers client-IsBounded buf_size fd
        (λ _ b _ c s out. TooLong buf_size (contents b ++ incoming c) → Stuck b c s out)
  Stuck-rounds = record {
    at_fuel = λ b remain c s inv long. record { untouched = refl; same_stream = refl };
    at_full = λ fuel b remain c s inv e long. record { untouched = refl; same_stream = refl };
    at_error = λ fuel b remain c s b' room errno c' inv same e long. record {
      untouched = refl;
      same_stream = ap₂ (λ xs ys. xs ++ ys) same (sym (k.error_stream c room errno c' e));
    };
    at_closed = λ fuel b remain c s b' room c' inv same e long. record {
      untouched = refl;
      same_stream = ap₂ (λ xs ys. xs ++ ys) same (sym e);
    };
    round = λ fuel b remain c s bytes given c' b' remain' out e pos g held d ih long.
        Stuck-round b b' c c' s bytes given out e g d
          (TooLong-idle buf_size fd given (incoming c') s
            (subst (TooLong buf_size) (stream-round b c c' bytes given e g) long) held)
          long ih;
  }

  -- For the client with a sound buffer, the bytes of which and the bytes on their way start with a
  -- message that is longer than the buffer: with more fuel than there are bytes on their way, the
  -- read loop ends without handling anything, and every byte is still in the buffer or on its way.
  pub read_loop_too_long :
      (fuel : ℕ) (b : ReadBuf) (remain : ℕ) (c : Conn) (s : Sys BseClient)
      → BufInv buf_size b remain
      → 8 ≤ length (contents b ++ incoming c)
      → buf_size < format_data32 (header_at (contents b ++ incoming c)).size + ph_size_bytes
      → length (incoming c) < fuel
      → let out = read_loop k client_handlers fuel buf_size fd b remain c s in
        (out.0 ≢ no_fuel)
        × (out.3 ≡ s)
        × (contents out.1 ++ incoming out.2 ≡ contents b ++ incoming c)
  read_loop_too_long fuel b remain c s inv header longer enough =
      let stuck =
        read_loop-Rounds k client_handlers client-IsBounded buf_size fd Stuck-rounds fuel b remain c
          s inv (record { has_header = header; longer = longer }) in
      (
        read_loop_ends k client_handlers client-IsBounded buf_size fd fuel b remain c s inv enough,
        stuck.untouched,
        stuck.same_stream,
      )
