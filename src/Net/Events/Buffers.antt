-- ===== src/Net/Events/Buffers.antt =====
-- The buffers of the connections: what writes them, and what keeps them in bounds.
pub mod Loop
use vwnet_lib.Base.{
  ℕ, ◌+◌, ◌≤◌, ◌<◌, ◌^◌, ◌≡◌, ◌≢◌, refl, sym, ap, subst, ◌∙◌, inl, inr, Bool, true, false, List, [],
  ◌∷◌, Option, none, some, arith, ==_iff, ==_refl, ◌==◌, find, emplace, erase, assign, find-emplace,
  find-assign, find-erase, nat_eq, length, or_else, replaced, if◌then◌else◌, Bool-cases,
  Option-cases,
}
use vwnet_lib.Net.State.{
  Net, ReadBuf, NetContext, Sys, Handlers, on_net, get_context, update_context, create_context,
  new_context, make_nonblock, add_event, set_event, clear_context_event, delete_event,
  delete_context,
}
use vwnet_lib.Net.Socket.{Inbound, Outbound}
use vwnet_lib.Net.Read.{contents, size_remain, put_read_buf, read_loop, handle_read, full, overrun}
use vwnet_lib.Net.Read.Buffer.{BufInv, size_remain-BufInv}
use vwnet_lib.Net.Read.Loop.{IsBounded}
use vwnet_lib.Net.Read.Results.{Sound, LeavesBelow, read_loop-Sound, read_loop-ne-full}
use vwnet_lib.Net.Write.{write_loop, handle_write}
use vwnet_lib.Net.Events.Ends.{read_loop-keep, read_end-keep, write_end-keep}
use vwnet_lib.Net.Events.{
  Accepted, accept_one, handle_accept, Event, incoming_connections, ready, run_ready, run_event,
  run_events,
}

abbrev pub buf_in : Option NetContext → Option ReadBuf
buf_in none = none
buf_in (some ctxt) = some ctxt.read_buf

-- The buffer of the connection `fd`.
abbrev pub buf_of : ℕ → Net → Option ReadBuf
buf_of fd n = buf_in (get_context fd n)

-- The same connections with the same buffers.
pub record SameBuffers (n n' : Net) : Type 0 where
  pub same_size : n'.buf_size ≡ n.buf_size
  pub same_bufs : (fd : ℕ) → buf_of fd n' ≡ buf_of fd n

pub SameBuffers-refl : (n : Net) → SameBuffers n n
SameBuffers-refl n = record { same_size = refl; same_bufs = λ fd. refl }

pub SameBuffers-trans : {n n' n'' : Net} → SameBuffers n n' → SameBuffers n' n'' → SameBuffers n n''
SameBuffers-trans p q = record {
  same_size = q.same_size ∙ p.same_size;
  same_bufs = λ fd. q.same_bufs fd ∙ p.same_bufs fd;
}

pub same_contexts :
    {n n' : Net} → n'.buf_size ≡ n.buf_size → n'.contexts ≡ n.contexts → SameBuffers n n'
unfolding get_context
same_contexts size contexts = record {
  same_size = size;
  same_bufs = λ fd. ap (λ m. buf_in (find fd m)) contexts;
}

-- A context is written back with its buffer.
pub update_context-SameBuffers :
    (fd : ℕ) (ctxt old : NetContext) (n : Net)
    → get_context fd n ≡ some old
    → ctxt.read_buf ≡ old.read_buf
    → SameBuffers n (update_context fd ctxt n)
unfolding update_context get_context
update_context-SameBuffers fd ctxt old n e same = record {
  same_size = refl;
  same_bufs = λ j. ground (arith, find-assign fd j ctxt n.contexts);
}

-- Each connection is accepted with a block of the buffer's size.
abbrev pub BlocksFit : ℕ → List Accepted → Type 0
BlocksFit size [] = Unit {0}
BlocksFit size (conn ∷ conns) = (length conn.block ≡ size) × BlocksFit size conns

module _ (m size : ℕ) where
  -- A block of the buffer's size, the data within it, and less than `m` bytes of data.
  pub record IsShort (b : ReadBuf) : Type 0 where
    pub block : length b.r_buf ≡ size
    pub fits : b.r_data + b.r_size ≤ size
    pub few : length (contents b) < m

  -- Every connection's buffer is so.
  pub record Buffered (n : Net) : Type 0 where
    pub sized : n.buf_size ≡ size
    pub each : (fd : ℕ) (b : ReadBuf) → buf_of fd n ≡ some b → IsShort b

  pub no_contexts-Buffered : (n : Net) → n.contexts ≡ [] → n.buf_size ≡ size → Buffered n
  unfolding get_context find
  no_contexts-Buffered n none_yet sized = record {
    sized = sized;
    each = λ fd b e. absurd (ground (arith, none_yet));
  }

  pub SameBuffers-Buffered : {n n' : Net} → SameBuffers n n' → Buffered n → Buffered n'
  SameBuffers-Buffered same h = record {
    sized = same.same_size ∙ h.sized;
    each = λ fd b e. h.each fd b (sym (same.same_bufs fd) ∙ e);
  }

  pub clear_context_event-Buffered :
      (fd events : ℕ) (n : Net) → Buffered n → Buffered (clear_context_event fd events n)
  unfolding clear_context_event delete_event set_event delete_context get_context
  clear_context_event-Buffered fd events n h = record {
    sized = ground (arith, h.sized);
    each = λ j b e. ground (arith, find-erase fd j n.contexts, h.each j b);
  }

  replaced_short :
      (new : NetContext) (old : Option NetContext) (b : ReadBuf)
      → IsShort new.read_buf
      → buf_in (replaced old new) ≡ some b
      → IsShort b
  replaced_short new none b short e = absurd (ground arith)
  replaced_short new (some ctxt) b short e = subst IsShort (ground arith) short

  update_context-Buffered :
      (fd : ℕ) (ctxt : NetContext) (n : Net)
      → IsShort ctxt.read_buf
      → Buffered n
      → Buffered (update_context fd ctxt n)
  unfolding update_context get_context
  update_context-Buffered fd ctxt n short i = record {
    sized = i.sized;
    each = λ j b e. elim (Bool-cases (fd == j)) [
      | inl same ↦
          replaced_short ctxt (find fd n.contexts) b short
            (sym (ap buf_in (find-assign fd j ctxt n.contexts ∙ rw same refl)) ∙ e)
      | inr other ↦
          i.each j b (sym (ap buf_in (find-assign fd j ctxt n.contexts ∙ rw other refl)) ∙ e)
    ];
  }

  pub put_read_buf-Buffered :
      (ki : Inbound) {A : Type 0} (h : Handlers A) (fd : ℕ) (b : ReadBuf) (n : Net)
      → IsShort b
      → Buffered n
      → Buffered (put_read_buf ki h fd b n)
  unfolding put_read_buf
  put_read_buf-Buffered ki h fd b n short i = elim (Option-cases (get_context fd n)) [
    | inl e ↦ rw (e, put_read_buf) i
    | inr (ctxt, e) ↦
        rw (e, put_read_buf) (update_context-Buffered fd (record ctxt { read_buf = b }) n short i)
  ]

  module _ (short_size : m ≤ size) (some_size : 0 < m) (small : size < 2 ^ 64) where
    pub create_context-Buffered :
        (fd remote : ℕ) (block : List ℕ) (n : Net)
        → length block ≡ size
        → Buffered n
        → Buffered (create_context fd remote block n)
    unfolding create_context new_context get_context
    create_context-Buffered fd remote block n fits i = record {
      sized = i.sized;
      each = λ j b e. elim (Bool-cases (fd == j)) [
        | inl same ↦
            let at : find j (emplace fd (new_context block remote) n.contexts)
                ≡ some (or_else (find fd n.contexts) (new_context block remote)) =
              find-emplace fd j (new_context block remote) n.contexts ∙ rw same refl in
            new_short (find fd n.contexts) b (λ b' e'. i.each fd b' e') (sym (ap buf_in at) ∙ e)
        | inr other ↦
            let at : find j (emplace fd (new_context block remote) n.contexts) ≡ find j n.contexts =
              find-emplace fd j (new_context block remote) n.contexts ∙ rw other refl in
            i.each j b (sym (ap buf_in at) ∙ e)
      ];
    }
      where
        new_short :
            (old : Option NetContext) (b : ReadBuf)
            → ((b' : ReadBuf) → buf_in old ≡ some b' → IsShort b')
            → buf_in (some (or_else old (new_context block remote))) ≡ some b
            → IsShort b
        new_short none b each e =
            let fresh : ReadBuf = record { r_buf = block; r_data = 0; r_size = 0 } in
            let same : fresh ≡ b = ground arith in
            subst IsShort same (record { block = fits; fits = omega arith; few = omega arith })
        new_short (some ctxt) b each e = each b e

    -- What the loop leaves in the buffer of a connection.
    module _ {A : Type 0} (h : Handlers A) (bounded : IsBounded h) (ki : Inbound) where
      pub read_loop-IsShort :
          (fuel size' fd : ℕ) (b : ReadBuf) (c : ki.Conn) (s : Sys A)
          → size' ≡ size
          → LeavesBelow ki h bounded size fd m
          → IsShort b
          → IsShort (read_loop ki h fuel size' fd b (size_remain size' b) c s).1
      read_loop-IsShort fuel size' fd b c s same leaves short =
          rw same
            let inv = size_remain-BufInv size b short.block short.fits small in
              let sound =
                (read_loop-Sound ki h bounded size fd fuel b (size_remain size b) c s inv).sound in
              record {
                block = sound.block;
                fits = omega (arith, sound.room);
                few =
                    (read_loop-ne-full ki h bounded size fd m fuel b (size_remain size b) c s
                      short_size leaves inv short.few).1;
              }
