-- ===== src/Net/Write.antt =====
-- EpollNetTcp::handle_write and send_data: the queue of write requests of a connection. The queue
-- is a local value of the loop, which `w_mutex` guards, and is written back when the loop has ended.
pub mod Loop
pub mod Send
use vwnet_lib.Base.{
  ℕ, zero, suc, ◌+◌, ◌-◌, ◌<◌, Bool, true, false, ◌||◌, List, [], ◌∷◌, ◌++◌, Option, none, some,
  take, drop, length, ltb, ◌==◌, if◌then◌else◌, bit_or,
}
use vwnet_lib.Net.State.{
  Net, NetContext, WReq, Sys, Handlers, on_net, sub_size, get_context, update_context, modify_event,
  clear_context_event, epollin, epollout,
}
use vwnet_lib.Net.Socket.{Outbound, WriteResult, wrote, write_error, would_block}

-- The bytes that wait to be written, in order.
abbrev pub pending : List WReq → List ℕ
pending [] = []
pending (w ∷ q) = w.bytes ++ pending q

-- How the loop ends: by its test, by the `break`s in the order of the text, or not at all.
pub data WriteEnd : Type 0 where
  emptied blocked closed no_fuel : WriteEnd
  broken : ℕ → WriteEnd

module _ (k : Outbound) where
  open k use {Conn, write}

  -- The body of the loop from the result of `write` on; `loop` are the rounds that follow.
  unfoldable pub after_write :
      (List WReq → Conn → WriteEnd × List WReq × Conn)
      → WReq
      → List WReq
      → WriteResult
      → Conn
      → WriteEnd × List WReq × Conn
  after_write loop w q (write_error errno) c =
      ((if would_block errno then blocked else broken errno), w ∷ q, c)
  after_write loop w q (wrote w_byte) c =
      let size = sub_size (length w.bytes) w_byte in
      let q' = if size == 0 then q else record w { bytes = drop w_byte w.bytes } ∷ q in
      let rest = loop q' c in if w_byte == 0 then (closed, w ∷ q, c) else rest

  unfoldable pub write_loop : ℕ → List WReq → Conn → WriteEnd × List WReq × Conn
  unfolding after_write
  write_loop zero q c = (no_fuel, q, c)
  write_loop (suc fuel) [] c = (emptied, [], c)
  write_loop (suc fuel) (w ∷ q) c =
      let (r, c') = write c w.bytes in after_write (write_loop fuel) w q r c'

  module _ {A : Type 0} (h : Handlers A) where
    -- The calls before the `break`s that give the connection up.
    unfoldable pub write_end : WriteEnd → ℕ → ℕ → Sys A → Sys A
    write_end (broken errno) fd events s =
        on_net (clear_context_event fd events) (h.on_error fd errno s)
    write_end closed fd events s = on_net (clear_context_event fd events) (h.on_disconnect fd s)
    write_end _ fd events s = s

    unfoldable pub handle_write : ℕ → ℕ → ℕ → Conn → Sys A → Conn × Sys A
    unfolding write_loop write_end
    handle_write fuel fd events c s = elim (get_context fd s.net) [
      | none ↦ (c, s)
      | some ctxt ↦
          let (e, q, c') = write_loop fuel ctxt.w_req_q c in
          let s' = on_net (update_context fd (record ctxt { w_req_q = q })) s in
          (c', write_end e fd events s')
    ]

-- Whether the next call of `malloc` succeeds; it does where `mallocs` says nothing.
abbrev pub malloc : Net → Bool × Net
malloc n = elim n.mallocs [ [] ↦ (true, n) | ok ∷ rest ↦ (ok, record n { mallocs = rest }) ]

-- `memcpy(in_buf, data, size)` from the memory at `data`; to read past its end is undefined.
unfoldable pub copy_in : List ℕ → ℕ → Net → WReq × Net
copy_in memory size n = (
  record { copied = true; bytes = take size memory },
  record n { undefined = n.undefined || ltb (length memory) size },
)

-- The end of send_data: the request joins the queue, and the descriptor is watched for writing.
unfoldable pub enqueue : ℕ → NetContext → WReq → Net → Net
unfolding modify_event update_context
enqueue fd ctxt new_w_req n =
    modify_event fd (bit_or epollin epollout)
      (update_context fd (record ctxt { w_req_q = ctxt.w_req_q ++ (new_w_req ∷ []) }) n)

-- The branch of send_data that copies: if there is no block of `size` bytes it asks for one of
-- `buf_size`, and copies as many.
unfoldable pub send_copy : ℕ → NetContext → List ℕ → ℕ → Net → ℕ × Net
unfolding copy_in enqueue
send_copy fd ctxt memory size n =
    let (ok, n₁) = malloc n in
    let (again, n₂) = malloc n₁ in
    let (req, n₃) = copy_in memory size n₁ in
    let (small, n₄) = copy_in memory n.buf_size n₂ in
    if ok
    then (size, enqueue fd ctxt req n₃)
    else if again
    then (n.buf_size, enqueue fd ctxt small n₄)
    else (0, n₂)

-- `memory` is what lies at `data`, of which `size` bytes are to be sent.
unfoldable pub send_data : ℕ → List ℕ → ℕ → Bool → Net → ℕ × Net
unfolding get_context send_copy
send_data fd memory size copy_data n = elim (get_context fd n) [
  | none ↦ (0, n)
  | some ctxt ↦
      if copy_data
      then send_copy fd ctxt memory size n
      else (size, enqueue fd ctxt (record { copied = false; bytes = take size memory }) n)
]
