-- ===== src/Net/Events/Ends.antt =====
-- The loop of reads, and the two ways of giving a connection up, for a property of the state that the
-- virtual functions keep.
use vwnet_lib.Base.{
  ℕ, ◌≡◌, refl, true, ◌+◌, zero, suc, inl, inr, List, length, leb, ◌==◌, Bool-cases, Option-cases,
}
use vwnet_lib.Net.State.{ReadBuf, Sys, Handlers, on_net, clear_context_event}
use vwnet_lib.Net.Socket.{Inbound, Outbound, ReadResult, got, read_error}
use vwnet_lib.Net.Read.{
  make_room, store, contents, ReadEnd, full, drained, closed, overrun, no_fuel, broken, after_read,
  read_loop, read_end,
}
use vwnet_lib.Net.Write.{WriteEnd, emptied, blocked, write_end, write_loop, handle_write}
use vwnet_lib.Net.Write

module _ {A : Type 0} (h : Handlers A) {P : Sys A → Type 0}
    (processing : (fd : ℕ) (bytes : List ℕ) (s : Sys A)
      → P s
      → P (h.process_data fd bytes s).1) where
  module _ (ki : Inbound) where
    after_read-keep :
        (loop : ReadBuf → ℕ → ki.Conn → Sys A → ReadEnd × ReadBuf × ki.Conn × Sys A)
        → ((b : ReadBuf) (remain : ℕ) (c : ki.Conn) (s : Sys A) → P s → P (loop b remain c s).3)
        → (buf_size fd : ℕ) (b : ReadBuf) (room : ℕ) (s : Sys A) (x : ReadResult) (c : ki.Conn)
        → P s
        → P (after_read ki h loop buf_size fd b room s x c).3
    unfolding after_read
    after_read-keep loop rest buf_size fd b room s (read_error errno) c p = p
    after_read-keep loop rest buf_size fd b room s (got bytes) c p =
        elim (Bool-cases (length bytes == 0)) [
          | inl nothing ↦ rw nothing p
          | inr some_bytes ↦
              elim (Bool-cases (leb (b.r_data + b.r_size + length bytes) (length b.r_buf))) [
                | inl within ↦
                    rw (some_bytes, within)
                      (rest _ _ c _ (processing fd (contents (store b bytes)) s p))
                | inr past ↦ rw (some_bytes, past) p
              ]
        ]

    pub read_loop-keep :
        (fuel buf_size fd : ℕ) (b : ReadBuf) (remain : ℕ) (c : ki.Conn) (s : Sys A)
        → P s
        → P (read_loop ki h fuel buf_size fd b remain c s).3
    unfolding read_loop
    read_loop-keep zero buf_size fd b remain c s p = p
    read_loop-keep (suc fuel) buf_size fd b remain c s p =
        elim (Option-cases (make_room buf_size b remain)) [
          | inl e ↦ rw (e, read_loop) p
          | inr ((b', room), e) ↦
              rw (e, read_loop)
                (after_read-keep (read_loop ki h fuel buf_size fd) (read_loop-keep fuel buf_size fd)
                  buf_size fd b' room s (ki.read c room).0 (ki.read c room).1 p)
        ]

module _ {A : Type 0} (h : Handlers A) {P : Sys A → Type 0}
    (losing : (fd : ℕ) (s : Sys A) → P s → P (h.on_disconnect fd s))
    (failing : (fd err : ℕ) (s : Sys A) → P s → P (h.on_error fd err s))
    (clearing : (fd events : ℕ) (s : Sys A)
      → P s
      → P (on_net (clear_context_event fd events) s)) where
  module _ (ki : Inbound) where
    pub read_end-keep :
        (e : ReadEnd) (fd events : ℕ) (s : Sys A)
        → (e ≡ overrun → P (on_net (λ n. record n { undefined = true }) s))
        → P s
        → P (read_end ki h e fd events s)
    unfolding read_end
    read_end-keep (broken errno) fd events s past p = clearing fd events _ (failing fd errno s p)
    read_end-keep closed fd events s past p = clearing fd events _ (losing fd s p)
    read_end-keep full fd events s past p = p
    read_end-keep drained fd events s past p = p
    read_end-keep overrun fd events s past p = past refl
    read_end-keep no_fuel fd events s past p = p

  module _ (ko : Outbound) where
    pub write_end-keep :
        (e : WriteEnd) (fd events : ℕ) (s : Sys A) → P s → P (write_end ko h e fd events s)
    unfolding write_end
    write_end-keep (Write.broken errno) fd events s p = clearing fd events _ (failing fd errno s p)
    write_end-keep Write.closed fd events s p = clearing fd events _ (losing fd s p)
    write_end-keep emptied fd events s p = p
    write_end-keep blocked fd events s p = p
    write_end-keep Write.no_fuel fd events s p = p
