-- ===== src/Net/Read/Results.antt =====
-- What a run of the read loop of EpollNetTcp::handle_read achieves.
use vwnet_lib.Base.{
  ℕ, ◌+◌, ◌≤◌, ◌<◌, ◌≡◌, ◌≢◌, refl, sym, ap, ap₂, ◌∙◌, List, [], ◌++◌, append-nil, append_assoc,
  arith, drop, length, length-append, length-drop, drop-append, drop-add,
}
use vwnet_lib.Net.State.{ReadBuf, Sys, Handlers}
use vwnet_lib.Net.Socket.{Inbound}
use vwnet_lib.Net.Read.{contents, ReadEnd, full, closed, overrun, no_fuel, read_loop}
use vwnet_lib.Net.Read.Buffer.{BufInv}
use vwnet_lib.Net.Read.Loop.{IsBounded, IsIncremental, Rounds, read_loop-Rounds}

module _ (k : Inbound) {A : Type 0} (h : Handlers A) (bounded : IsBounded h) (buf_size fd : ℕ) where
  open k use {Conn, read, incoming}

  abbrev Ends : Type 0
  Ends = ReadEnd × ReadBuf × Conn × Sys A

  -- The buffer is sound, and nothing was written past its end.
  pub record Sound (out : ReadEnd × ReadBuf × Conn × Sys A) : Type 0 where
    pub in_bounds : out.0 ≢ overrun
    pub remain : ℕ
    pub sound : BufInv buf_size out.1 remain

  Sound-rounds : Rounds k h bounded buf_size fd (λ _ _ _ _ _ out. Sound out)
  Sound-rounds = record {
    at_fuel = λ b remain c s inv. record { in_bounds = λ e. cc; remain = remain; sound = inv };
    at_full =
        λ fuel b remain c s inv e. record { in_bounds = λ e. cc; remain = remain; sound = inv };
    at_error = λ fuel b remain c s b' room errno c' inv same e. record {
      in_bounds = λ e'. ground arith;
      remain = room;
      sound = inv;
    };
    at_closed = λ fuel b remain c s b' room c' inv same e. record {
      in_bounds = λ e'. cc;
      remain = room;
      sound = inv;
    };
    round = λ fuel b remain c s bytes given c' b' remain' out e pos g held d ih. ih;
  }

  -- From a sound buffer, with a process_data that claims no more bytes than it is given, the read
  -- loop never writes past the end of the buffer, and leaves it sound.
  pub read_loop-Sound :
      (fuel : ℕ) (b : ReadBuf) (remain : ℕ) (c : Conn) (s : Sys A)
      → BufInv buf_size b remain
      → Sound (read_loop k h fuel buf_size fd b remain c s)
  read_loop-Sound = read_loop-Rounds k h bounded buf_size fd Sound-rounds

  end-rounds :
      Rounds k h bounded buf_size fd
        (λ fuel _ _ c _ out. length (incoming c) < fuel → out.0 ≢ no_fuel)
  end-rounds = record {
    at_fuel = λ b remain c s inv few. absurd (omega arith);
    at_full = λ fuel b remain c s inv e few e'. cc;
    at_error = λ fuel b remain c s b' room errno c' inv same e few e'. ground arith;
    at_closed = λ fuel b remain c s b' room c' inv same e few e'. cc;
    round = λ fuel b remain c s bytes given c' b' remain' out e pos g held d ih few.
        ih (omega (arith, ap length e, length-append bytes (incoming c')));
  }

  -- From a sound buffer, with a process_data that claims no more bytes than it is given, more
  -- rounds than there are bytes on their way are enough: the loop does not run out of fuel.
  pub read_loop_ends :
      (fuel : ℕ) (b : ReadBuf) (remain : ℕ) (c : Conn) (s : Sys A)
      → BufInv buf_size b remain
      → length (incoming c) < fuel
      → (read_loop k h fuel buf_size fd b remain c s).0 ≢ no_fuel
  read_loop_ends = read_loop-Rounds k h bounded buf_size fd end-rounds

  -- From the buffer `b` and the state `s`, the bytes `received` were read, and the state and the
  -- buffer at the end are those that one call of `process_data` on all the bytes leaves.
  pub record Streamed (b : ReadBuf) (c : Conn) (s : Sys A) (out : ReadEnd × ReadBuf × Conn × Sys A)
      : Type 0 where
    pub received : List ℕ
    pub processed : ℕ
    pub taken : incoming c ≡ received ++ incoming out.2
    pub as_one : h.process_data fd (contents b ++ received) s ≡ (processed, out.3)
    pub left : contents out.1 ≡ drop processed (contents b ++ received)

  -- Nothing can be processed yet of the bytes in the buffer.
  abbrev pub IsIdle : ReadBuf → Sys A → Type 0
  IsIdle b s = h.process_data fd (contents b) s ≡ (0, s)

  module _ (incremental : IsIncremental h) where
    Streamed-nothing :
        (b b' : ReadBuf) (c c' : Conn) (s : Sys A) (e : ReadEnd)
        → IsIdle b s
        → contents b' ≡ contents b
        → incoming c ≡ incoming c'
        → Streamed b c s (e, b', c', s)
    Streamed-nothing b b' c c' s e idle same taken = record {
      received = [];
      processed = 0;
      taken = taken;
      as_one = rw append-nil idle;
      left = rw append-nil same;
    }

    -- What `process_data` leaves over it does not process without more bytes.
    pub left_over-idle :
        (xs : List ℕ) (s : Sys A)
        → let step = h.process_data fd xs s in
          h.process_data fd (drop step.0 xs) step.1 ≡ (0, step.1)
    left_over-idle xs s =
        ap₂ (λ n t. (n, t)) (omega (arith, ap (λ r. r.0) whole)) (sym (ap (λ r. r.1) whole))
      where
        step : ℕ × Sys A
        step = h.process_data fd xs s

        whole :
            let second = h.process_data fd (drop step.0 xs) step.1 in
            h.process_data fd xs s ≡ (step.0 + second.0, second.1)
        whole = simp append-nil at (incremental fd xs [] s)

    Streamed-round :
        (b b' : ReadBuf) (c c' : Conn) (s : Sys A) (bytes given : List ℕ)
        (out : ReadEnd × ReadBuf × Conn × Sys A)
        → incoming c ≡ bytes ++ incoming c'
        → given ≡ contents b ++ bytes
        → contents b' ≡ drop (h.process_data fd given s).0 given
        → Streamed b' c' (h.process_data fd given s).1 out
        → Streamed b c s out
    Streamed-round b b' c c' s bytes given out e g d rest = record {
      received = bytes ++ rest.received;
      processed = step.0 + rest.processed;
      taken = e ∙ ap (λ t. bytes ++ t) rest.taken ∙ sym (append_assoc bytes rest.received _);
      as_one = rw (
        ← append_assoc (contents b) bytes rest.received,
        ← g,
        incremental fd given rest.received s,
        ← d,
        rest.as_one,
      );
      left =
          rw
            (
              ← append_assoc (contents b) bytes rest.received,
              ← g,
              ← drop-add step.0 rest.processed (given ++ rest.received),
              drop-append step.0 given rest.received (bounded fd given s),
              ← d,
            )
            rest.left;
    }
      where
        step : ℕ × Sys A
        step = h.process_data fd given s

    Streamed-rounds :
        Rounds k h bounded buf_size fd (λ _ b _ c s out. IsIdle b s → Streamed b c s out)
    Streamed-rounds = record {
      at_fuel = λ b remain c s inv idle. Streamed-nothing b b c c s no_fuel idle refl refl;
      at_full = λ fuel b remain c s inv e idle. Streamed-nothing b b c c s full idle refl refl;
      at_error = λ fuel b remain c s b' room errno c' inv same e idle.
          Streamed-nothing b b' c c' s _ idle same (k.error_stream c room errno c' e);
      at_closed = λ fuel b remain c s b' room c' inv same e idle.
          Streamed-nothing b b' c c' s closed idle same e;
      round = λ fuel b remain c s bytes given c' b' remain' out e pos g held d ih idle.
          Streamed-round b b' c c' s bytes given out e g d (ih (rw d (left_over-idle given s)));
    }

    -- From a sound buffer of which nothing can be processed yet, with a process_data that is
    -- bounded and treats pieces of a stream as the whole, the read loop leaves the state and the
    -- unprocessed bytes that one call of process_data on all the bytes leaves, however the stream
    -- is cut into reads.
    pub read_loop-Streamed :
        (fuel : ℕ) (b : ReadBuf) (remain : ℕ) (c : Conn) (s : Sys A)
        → BufInv buf_size b remain
        → IsIdle b s
        → Streamed b c s (read_loop k h fuel buf_size fd b remain c s)
    read_loop-Streamed = read_loop-Rounds k h bounded buf_size fd Streamed-rounds

  -- `process_data` leaves over less than `m` bytes.
  abbrev pub LeavesBelow : ℕ → Type 0
  LeavesBelow m = (bytes : List ℕ) (s : Sys A) → length bytes < (h.process_data fd bytes s).0 + m

  room_rounds :
      (m : ℕ)
      → m ≤ buf_size
      → LeavesBelow m
      → Rounds k h bounded buf_size fd (λ _ b _ _ _ out.
        length (contents b) < m → (out.0 ≢ full) × (length (contents out.1) < m))
  room_rounds m fits leaves = record {
    at_fuel = λ b remain c s inv few. (λ e'. cc, few);
    at_full = λ fuel b remain c s inv e few. absurd (omega arith);
    at_error = λ fuel b remain c s b' room errno c' inv same e few.
        (λ e'. ground arith, omega (arith, ap length same));
    at_closed =
        λ fuel b remain c s b' room c' inv same e few. (λ e'. cc, omega (arith, ap length same));
    round = λ fuel b remain c s bytes given c' b' remain' out e pos g held d ih few. ih (
        omega (
          arith,
          ap length d,
          length-drop (h.process_data fd given s).0 given,
          leaves given s,
          bounded fd given s,
        ));
  }

  -- If process_data leaves over less than m bytes, m is at most the size of the buffer, and less
  -- than m bytes wait in a sound buffer, the read loop does not stop for want of room, and leaves
  -- less than m bytes.
  pub read_loop-ne-full :
      (m fuel : ℕ) (b : ReadBuf) (remain : ℕ) (c : Conn) (s : Sys A)
      → m ≤ buf_size
      → LeavesBelow m
      → BufInv buf_size b remain
      → length (contents b) < m
      → let out = read_loop k h fuel buf_size fd b remain c s in
        (out.0 ≢ full) × (length (contents out.1) < m)
  read_loop-ne-full m fuel b remain c s fits leaves inv few =
      read_loop-Rounds k h bounded buf_size fd (room_rounds m fits leaves) fuel b remain c s inv few
