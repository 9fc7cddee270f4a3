-- ===== src/Net/Read.antt =====
-- EpollNetTcp::handle_read. The buffer is held under `r_mutex` while the loop runs: it is a local
-- value, and is written back when the loop has ended.
pub mod Buffer
pub mod Loop
pub mod Results
use vwnet_lib.Base.{
  ℕ, true, zero, suc, ◌+◌, ◌-◌, ◌<◌, List, [], Option, none, some, slice, write_at, length, ltb,
  leb, ◌==◌, if◌then◌else◌,
}
use vwnet_lib.Net.State.{
  Net, NetContext, ReadBuf, Sys, Handlers, on_net, sub_size, get_context, update_context,
  clear_context_event,
}
use vwnet_lib.Net.Socket.{Inbound, ReadResult, got, read_error, would_block}

-- The unprocessed bytes, from `r_data` on.
abbrev pub contents : ReadBuf → List ℕ
contents b = slice b.r_buf b.r_data b.r_size

-- `size_remain` at the start of the handler.
unfoldable pub size_remain : ℕ → ReadBuf → ℕ
size_remain buf_size b = sub_size buf_size (b.r_data + b.r_size)

-- With no room behind the data it is moved to the beginning; `none` if it is there already.
unfoldable pub make_room : ℕ → ReadBuf → ℕ → Option (ReadBuf × ℕ)
make_room buf_size b remain =
    if remain == 0
    then if ltb 0 b.r_data
      then some (
        record { r_buf = write_at b.r_buf 0 (contents b); r_data = 0; r_size = b.r_size },
        sub_size buf_size b.r_size,
      )
      else none
    else some (b, remain)

-- The kernel writes the bytes at `r_data + r_size`.
unfoldable pub store : ReadBuf → List ℕ → ReadBuf
store b bytes = record b {
  r_buf = write_at b.r_buf (b.r_data + b.r_size) bytes;
  r_size = b.r_size + length bytes;
}

-- What follows `process_data`: the buffer and `size_remain` after `byte_p` bytes are processed.
unfoldable pub settle : ℕ → ReadBuf → ℕ → ℕ → ReadBuf × ℕ
settle buf_size b remain byte_p =
    let r_size = sub_size b.r_size byte_p in
    if byte_p == 0
    then (b, remain)
    else if r_size == 0
    then (record { r_buf = b.r_buf; r_data = 0; r_size = 0 }, buf_size)
    else (record { r_buf = b.r_buf; r_data = b.r_data + byte_p; r_size = r_size }, remain)

-- How the loop ends: the `break`s in the order of the text; `overrun` stands for a `read` past the
-- end of the buffer and `no_fuel` for a loop that goes on.
pub data ReadEnd : Type 0 where
  full drained closed overrun no_fuel : ReadEnd
  broken : ℕ → ReadEnd

module _ (k : Inbound) {A : Type 0} (h : Handlers A) where
  open k use {Conn, read}

  -- The body of the loop from the result of `read` on; `loop` are the rounds that follow.
  unfoldable pub after_read :
      (ReadBuf → ℕ → Conn → Sys A → ReadEnd × ReadBuf × Conn × Sys A)
      → ℕ
      → ℕ
      → ReadBuf
      → ℕ
      → Sys A
      → ReadResult
      → Conn
      → ReadEnd × ReadBuf × Conn × Sys A
  after_read loop buf_size fd b room s (read_error errno) c =
      ((if would_block errno then drained else broken errno), b, c, s)
  after_read loop buf_size fd b room s (got bytes) c =
      let stored = store b bytes in
      let (byte_p, s') = h.process_data fd (contents stored) s in
      let (b', remain) = settle buf_size stored (sub_size room (length bytes)) byte_p in
      let rest = loop b' remain c s' in
      if length bytes == 0
      then (closed, b, c, s)
      else if leb (b.r_data + b.r_size + length bytes) (length b.r_buf)
      then rest
      else (overrun, b, c, s)

  unfoldable pub read_loop :
      ℕ → ℕ → ℕ → ReadBuf → ℕ → Conn → Sys A → ReadEnd × ReadBuf × Conn × Sys A
  unfolding after_read
  read_loop zero buf_size fd b remain c s = (no_fuel, b, c, s)
  read_loop (suc fuel) buf_size fd b remain c s = elim (make_room buf_size b remain) [
    | none ↦ (full, b, c, s)
    | some (b', room) ↦
        let (r, c') = read c room in
        after_read (read_loop fuel buf_size fd) buf_size fd b' room s r c'
  ]

  -- The calls before the `break`s that give the connection up; a write past the buffer is undefined.
  unfoldable pub read_end : ReadEnd → ℕ → ℕ → Sys A → Sys A
  read_end (broken errno) fd events s =
      on_net (clear_context_event fd events) (h.on_error fd errno s)
  read_end closed fd events s = on_net (clear_context_event fd events) (h.on_disconnect fd s)
  read_end overrun fd events s = on_net (λ n. record n { undefined = true }) s
  read_end _ fd events s = s

  -- The context's buffer, if the context is still there.
  unfoldable pub put_read_buf : ℕ → ReadBuf → Net → Net
  put_read_buf fd b n = elim (get_context fd n) [
    | none ↦ n
    | some ctxt ↦ update_context fd (record ctxt { read_buf = b }) n
  ]

  unfoldable pub handle_read : ℕ → ℕ → ℕ → Conn → Sys A → Conn × Sys A
  unfolding read_loop read_end put_read_buf
  handle_read fuel fd events c s = elim (get_context fd s.net) [
    | none ↦ (c, s)
    | some ctxt ↦
        let size = s.net.buf_size in
        let (e, b, c', s') =
          read_loop fuel size fd ctxt.read_buf (size_remain size ctxt.read_buf) c s in
        (c', read_end e fd events (on_net (put_read_buf fd b) s'))
  ]
