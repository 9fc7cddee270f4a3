-- ===== src/Net/Read/Loop.antt =====
-- The read loop as a whole, over any class that derives from EpollNetTcp.
use vwnet_lib.Base.{
  ℕ, zero, suc, ◌+◌, ◌≤◌, ◌<◌, ◌≡◌, refl, ap, ◌∙◌, inl, inr, List, [], ◌∷◌, ◌++◌, arith, drop,
  length, leb, ◌==◌, true, if◌then◌else◌, Bool-cases, Option-cases,
}
use vwnet_lib.Net.State.{ReadBuf, Sys, Handlers, sub_size}
use vwnet_lib.Net.Socket.{Inbound, ReadResult, got, read_error, would_block}
use vwnet_lib.Net.Read.{
  contents, make_room, store, settle, ReadEnd, full, drained, closed, no_fuel, broken, after_read,
  read_loop,
}
use vwnet_lib.Net.Read.Buffer.{
  BufInv, length-contents, make_room-some, make_room-none, store-BufInv, contents-store,
  settle-BufInv,
}

-- What handle_read relies on of `process_data`: it does not claim more bytes than it is given.
abbrev pub IsBounded : {A : Type 0} → Handlers A → Type 0
IsBounded {A} h =
    (fd : ℕ) (bytes : List ℕ) (s : Sys A) → (h.process_data fd bytes s).0 ≤ length bytes

-- Messages are found whatever pieces the stream comes in: bytes processed in two calls, the second
-- with what the first has left over, are processed as in one.
abbrev pub IsIncremental : {A : Type 0} → Handlers A → Type 0
IsIncremental {A} h =
    (fd : ℕ) (xs ys : List ℕ) (s : Sys A)
    → let first = h.process_data fd xs s in
      let second = h.process_data fd (drop first.0 xs ++ ys) first.1 in
      h.process_data fd (xs ++ ys) s ≡ (first.0 + second.0, second.1)

module _ (k : Inbound) {A : Type 0} (h : Handlers A) (bounded : IsBounded h) (buf_size fd : ℕ) where
  open k use {Conn, read, incoming}

  abbrev pub Out : Type 0
  Out = ReadEnd × ReadBuf × Conn × Sys A

  -- The parts of an induction over the rounds of the loop: a property of the fuel, the state that
  -- the loop is started in and its result holds at each end, and is kept by a round before it.
  pub record Rounds (P : ℕ → ReadBuf → ℕ → Conn → Sys A → Out → Type 0) : Type 0 where
    pub at_fuel :
        (b : ReadBuf) (remain : ℕ) (c : Conn) (s : Sys A)
        → BufInv buf_size b remain
        → P 0 b remain c s (no_fuel, b, c, s)
    pub at_full :
        (fuel : ℕ) (b : ReadBuf) (remain : ℕ) (c : Conn) (s : Sys A)
        → BufInv buf_size b remain
        → length (contents b) ≡ buf_size
        → P (suc fuel) b remain c s (full, b, c, s)
    pub at_error :
        (fuel : ℕ) (b : ReadBuf) (remain : ℕ) (c : Conn) (s : Sys A) (b' : ReadBuf) (room errno : ℕ)
        (c' : Conn)
        → BufInv buf_size b' room
        → contents b' ≡ contents b
        → read c room ≡ (read_error errno, c')
        → P
            (suc fuel)
            b
            remain
            c
            s
            ((if would_block errno then drained else broken errno), b', c', s)
    pub at_closed :
        (fuel : ℕ) (b : ReadBuf) (remain : ℕ) (c : Conn) (s : Sys A) (b' : ReadBuf) (room : ℕ)
        (c' : Conn)
        → BufInv buf_size b' room
        → contents b' ≡ contents b
        → incoming c ≡ incoming c'
        → P (suc fuel) b remain c s (closed, b', c', s)
    pub round :
        (fuel : ℕ) (b : ReadBuf) (remain : ℕ) (c : Conn) (s : Sys A) (bytes given : List ℕ)
        (c' : Conn) (b' : ReadBuf) (remain' : ℕ) (out : Out)
        → incoming c ≡ bytes ++ incoming c'
        → 0 < length bytes
        → given ≡ contents b ++ bytes
        → length given ≤ buf_size
        → let step = h.process_data fd given s in
          contents b' ≡ drop step.0 given
          → P fuel b' remain' c' step.1 out
          → P (suc fuel) b remain c s out

  module _ {P : ℕ → ReadBuf → ℕ → Conn → Sys A → Out → Type 0} (r : Rounds P) where
    after_read-Rounds :
        (loop : ReadBuf → ℕ → Conn → Sys A → Out) (fuel : ℕ) (b : ReadBuf) (remain : ℕ) (c : Conn)
        (s : Sys A)
        → ((b' : ReadBuf) (remain' : ℕ) (c' : Conn) (s' : Sys A)
            → BufInv buf_size b' remain'
            → P fuel b' remain' c' s' (loop b' remain' c' s'))
        → (b' : ReadBuf) (room : ℕ)
        → BufInv buf_size b' room × (0 < room) × (contents b' ≡ contents b)
        → (x : ReadResult) (c' : Conn) → read c room ≡ (x, c')
        → P (suc fuel) b remain c s (after_read k h loop buf_size fd b' room s x c')
    unfolding after_read
    after_read-Rounds loop fuel b remain c s ih b' room found (read_error errno) c' e =
        r.at_error fuel b remain c s b' room errno c' found.0 found.2 e
    after_read-Rounds loop fuel b remain c s ih b' room found (got bytes) c' e =
        elim (Bool-cases (length bytes == 0)) [
          | inl nothing ↦ rw nothing (
              r.at_closed fuel b remain c s b' room c' found.0 found.2
                (rw (k.read_stream c room bytes c' e, nil bytes nothing)))
          | inr some_bytes ↦
              rw (some_bytes, within)
                (r.round fuel b remain c s bytes (contents stored) c' _ _ _
                  (k.read_stream c room bytes c' e) (ground (arith, some_bytes)) joined held
                  settled.1 (ih _ _ c' _ settled.0))
        ]
      where
        nil : (xs : List ℕ) → (length xs == 0) ≡ true → xs ≡ []
        nil [] p = refl
        nil (x ∷ xs) p = ground arith

        stored : ReadBuf
        stored = store b' bytes

        joined : contents stored ≡ contents b ++ bytes
        joined = contents-store buf_size b' room bytes found.0 ∙ ap (λ t. t ++ bytes) found.2

        fits : length bytes ≤ room
        fits = k.read_fits c room bytes c' e

        within : leb (b'.r_data + b'.r_size + length bytes) (length b'.r_buf) ≡ true
        within = ground (arith, fits, found.0)

        sound : BufInv buf_size stored (sub_size room (length bytes))
        sound = store-BufInv buf_size b' room bytes found.0 fits

        held : length (contents stored) ≤ buf_size
        held = omega (arith, length-contents sound, sound.room)

        byte_p : ℕ
        byte_p = (h.process_data fd (contents stored) s).0

        settled :
            let (b'', remain') = settle buf_size stored (sub_size room (length bytes)) byte_p in
            BufInv buf_size b'' remain' × (contents b'' ≡ drop byte_p (contents stored))
        settled =
            settle-BufInv buf_size stored (sub_size room (length bytes)) byte_p sound
              (omega (arith, bounded fd (contents stored) s, length-contents sound))

    pub read_loop-Rounds :
        (fuel : ℕ) (b : ReadBuf) (remain : ℕ) (c : Conn) (s : Sys A)
        → BufInv buf_size b remain
        → P fuel b remain c s (read_loop k h fuel buf_size fd b remain c s)
    unfolding read_loop
    read_loop-Rounds zero b remain c s inv = r.at_fuel b remain c s inv
    read_loop-Rounds (suc fuel) b remain c s inv =
        elim (Option-cases (make_room buf_size b remain)) [
          | inl e ↦
              rw (e, read_loop)
                (r.at_full fuel b remain c s inv (make_room-none buf_size b remain inv e))
          | inr (p, e) ↦
              rw (e, read_loop)
                (after_read-Rounds (read_loop k h fuel buf_size fd) fuel b remain c s
                  (λ b' remain' c' s' inv'. read_loop-Rounds fuel b' remain' c' s' inv') p.0 p.1
                  (make_room-some buf_size b remain inv e) (read c p.1).0 (read c p.1).1 refl)
        ]
