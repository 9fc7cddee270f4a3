-- ===== src/Net/Write/Send.antt =====
-- send_data against the bytes that wait for each connection.
use vwnet_lib.Base.{
  ℕ, ◌≤◌, ◌<◌, ◌≡◌, ◌≢◌, refl, sym, ap, ◌∙◌, inl, inr, Bool, true, false, List, [], ◌∷◌, ◌++◌,
  append-nil, append_assoc, Option, none, some, arith, take, length, ==_refl, if◌then◌else◌,
  find-assign, find, nat_eq, Bool-cases, Option-cases,
}
use vwnet_lib.Net.State.{Net, NetContext, WReq, get_context}
use vwnet_lib.Net.Write.{pending, malloc, copy_in, enqueue, send_copy, send_data}

-- The bytes that wait for `fd`.
abbrev pub waiting_in : Option NetContext → List ℕ
waiting_in none = []
waiting_in (some ctxt) = pending ctxt.w_req_q

abbrev pub waiting : ℕ → Net → List ℕ
waiting fd n = waiting_in (get_context fd n)

pub pending-append : (q : List WReq) (w : WReq) → pending (q ++ (w ∷ [])) ≡ pending q ++ w.bytes
pending-append [] w = append-nil w.bytes
pending-append (v ∷ q) w =
    ap (λ t. v.bytes ++ t) (pending-append q w) ∙ sym (append_assoc v.bytes (pending q) w.bytes)

-- What a new request does to the bytes that wait.
record Joined (fd : ℕ) (bytes : List ℕ) (n n' : Net) : Type 0 where
  here : waiting fd n' ≡ waiting fd n ++ bytes
  elsewhere : (j : ℕ) → fd ≢ j → get_context j n' ≡ get_context j n

enqueue-Joined :
    (fd : ℕ) (ctxt : NetContext) (w : WReq) (n : Net)
    → get_context fd n ≡ some ctxt
    → Joined fd w.bytes n (enqueue fd ctxt w n)
unfolding enqueue get_context
enqueue-Joined fd ctxt w n e = record {
  here = rw (find-assign fd fd _ n.contexts, e, ==_refl fd) (pending-append ctxt.w_req_q w);
  elsewhere = λ j ne.
      ground (
        arith,
        find-assign fd j (record ctxt { w_req_q = ctxt.w_req_q ++ (w ∷ []) }) n.contexts,
        ne,
      );
}

-- What send_data promises: the first `r` bytes of the memory wait behind what waited for `fd`, they
-- all lie in the memory, and nothing changes for any other descriptor.
pub record Queued (fd : ℕ) (memory : List ℕ) (n : Net) (r : ℕ) (n' : Net) : Type 0 where
  pub in_memory : r ≤ length memory
  pub here : waiting fd n' ≡ waiting fd n ++ take r memory
  pub elsewhere : (j : ℕ) → fd ≢ j → get_context j n' ≡ get_context j n

Queued-Joined :
    {fd : ℕ} {memory : List ℕ} {n n' : Net} (r : ℕ)
    → r ≤ length memory
    → Joined fd (take r memory) n n'
    → Queued fd memory n r n'
Queued-Joined r fits j = record { in_memory = fits; here = j.here; elsewhere = j.elsewhere }

-- A copied request, in a state `m` with the contexts of `n`.
copy_in-Queued :
    (fd : ℕ) (ctxt : NetContext) (memory : List ℕ) (size : ℕ) (n m : Net)
    → get_context fd n ≡ some ctxt
    → m.contexts ≡ n.contexts
    → let (req, m') = copy_in memory size m in
      (enqueue fd ctxt req m').undefined ≡ false → Queued fd memory n size (enqueue fd ctxt req m')
unfolding get_context copy_in
copy_in-Queued fd ctxt memory size n m e same ok = record {
  in_memory = unfold enqueue in ground arith;
  here = joined.here ∙ ap (λ t. waiting_in (find fd t) ++ take size memory) same;
  elsewhere = λ j ne. joined.elsewhere j ne ∙ ap (find j) same;
}
  where
    joined :
        Joined fd
          (take size memory)
          (copy_in memory size m).1
          (enqueue fd ctxt (copy_in memory size m).0 (copy_in memory size m).1)
    joined = enqueue-Joined fd ctxt _ _ (ap (find fd) same ∙ e)

pub contexts-malloc : (n : Net) → (malloc n).1.contexts ≡ n.contexts
contexts-malloc n = malloc_cases n.mallocs
  where
    malloc_cases :
        (answers : List Bool)
        → (elim answers as (λ _. Bool × Net) [
          | [] ↦ (true, n)
          | ok ∷ rest ↦ (ok, record n { mallocs = rest })
        ]).1.contexts
          ≡ n.contexts
    malloc_cases [] = refl
    malloc_cases (ok ∷ rest) = refl

Queued-nothing :
    (fd : ℕ) (memory : List ℕ) (n n' : Net) → n'.contexts ≡ n.contexts → Queued fd memory n 0 n'
unfolding get_context
Queued-nothing fd memory n n' same = record {
  in_memory = omega arith;
  here = ap (λ t. waiting_in (find fd t)) same ∙ sym (append-nil (waiting fd n));
  elsewhere = λ j ne. ap (find j) same;
}

send_copy-Queued :
    (fd : ℕ) (ctxt : NetContext) (memory : List ℕ) (size : ℕ) (n : Net)
    → get_context fd n ≡ some ctxt
    → (send_copy fd ctxt memory size n).1.undefined ≡ false
    → let (r, n') = send_copy fd ctxt memory size n in Queued fd memory n r n'
unfolding send_copy
send_copy-Queued fd ctxt memory size n e = elim (Bool-cases (malloc n).0) [
  | inl ok ↦ rw (ok, send_copy) (copy_in-Queued fd ctxt memory size n _ e (contexts-malloc n))
  | inr no_block ↦ elim (Bool-cases (malloc (malloc n).1).0) [
    | inl again ↦
        rw (no_block, again, send_copy)
          (copy_in-Queued fd ctxt memory n.buf_size n _ e
            (contexts-malloc (malloc n).1 ∙ contexts-malloc n))
    | inr none_left ↦
        rw (no_block, none_left, send_copy)
          (λ ok. Queued-nothing fd memory n _ (contexts-malloc (malloc n).1 ∙ contexts-malloc n))
  ]
]

-- If size bytes lie at the caller's memory and the call does nothing undefined, the first r bytes
-- of the memory wait for fd behind what waited, where r is what send_data returns and r is within
-- the memory, and no other connection changes: on every path (unknown fd, a copy, a copy into a
-- smaller block, no block, no copy).
pub send_data-Queued :
    (fd : ℕ) (memory : List ℕ) (size : ℕ) (copy_data : Bool) (n : Net)
    → size ≤ length memory
    → (send_data fd memory size copy_data n).1.undefined ≡ false
    → let (r, n') = send_data fd memory size copy_data n in Queued fd memory n r n'
unfolding send_data
send_data-Queued fd memory size copy_data n fits = elim (Option-cases (get_context fd n)) [
  | inl e ↦ rw (e, send_data) (λ ok. Queued-nothing fd memory n n refl)
  | inr (ctxt, e) ↦ rw (e, send_data) (by_copy ctxt e copy_data)
]
  where
    by_copy :
        (ctxt : NetContext)
        → get_context fd n ≡ some ctxt
        → (b : Bool)
        → let out =
            if b
            then send_copy fd ctxt memory size n
            else (size, enqueue fd ctxt (record { copied = false; bytes = take size memory }) n) in
          out.1.undefined ≡ false → Queued fd memory n out.0 out.1
    by_copy ctxt e true = send_copy-Queued fd ctxt memory size n e
    by_copy ctxt e false = λ ok. Queued-Joined size fits (enqueue-Joined fd ctxt _ n e)

-- If the first malloc of a copying send_data to a known fd fails, the second succeeds, and the
-- caller's memory is shorter than the buffer size, the memory is read past its end.
pub send_data_overread :
    (fd : ℕ) (memory : List ℕ) (size : ℕ) (n : Net) (ctxt : NetContext) (rest : List Bool)
    → get_context fd n ≡ some ctxt
    → n.mallocs ≡ false ∷ (true ∷ rest)
    → length memory < n.buf_size
    → (send_data fd memory size true n).1.undefined ≡ true
unfolding send_data
send_data_overread fd memory size n ctxt rest e m short = ground arith

-- Nothing undefined has happened, and `malloc` does not fail.
pub record IsHealthy (n : Net) : Type 0 where
  pub defined : n.undefined ≡ false
  pub blocks : n.mallocs ≡ []

-- Then send_data accepts all bytes of a connection that is there, and stays healthy.
pub send_data-IsHealthy :
    (fd : ℕ) (memory : List ℕ) (size : ℕ) (copy_data : Bool) (n : Net)
    → size ≤ length memory
    → IsHealthy n
    → IsHealthy (send_data fd memory size copy_data n).1
unfolding send_data
send_data-IsHealthy fd memory size copy_data n fits h = elim (Option-cases (get_context fd n)) [
  | inl e ↦ rw (e, send_data) h
  | inr (ctxt, e) ↦ rw (e, send_data) (by_copy ctxt copy_data)
]
  where
    by_copy :
        (ctxt : NetContext) (b : Bool)
        → IsHealthy
            (if b then send_copy fd ctxt memory size n else (
              size,
              enqueue fd ctxt (record { copied = false; bytes = take size memory }) n,
            )).1
    by_copy ctxt true = ground (arith, h.defined, h.blocks)
    by_copy ctxt false = record { defined = h.defined; blocks = h.blocks }

pub send_data_accepts :
    (fd : ℕ) (memory : List ℕ) (size : ℕ) (copy_data : Bool) (n : Net) (ctxt : NetContext)
    → get_context fd n ≡ some ctxt
    → IsHealthy n
    → (send_data fd memory size copy_data n).0 ≡ size
unfolding send_data
send_data_accepts fd memory size true n ctxt e h = rw (e, send_data) (ground (arith, h.blocks))
send_data_accepts fd memory size false n ctxt e h = rw (e, send_data)

-- What is undefined stays so.
pub send_data_defined :
    (fd : ℕ) (memory : List ℕ) (size : ℕ) (copy_data : Bool) (n : Net)
    → (send_data fd memory size copy_data n).1.undefined ≡ false
    → n.undefined ≡ false
unfolding send_data
send_data_defined fd memory size copy_data n = elim (Option-cases (get_context fd n)) [
  | inl e ↦ rw (e, send_data) (λ ok. ok)
  | inr (ctxt, e) ↦ rw (e, send_data) (by_copy ctxt copy_data)
]
  where
    by_copy :
        (ctxt : NetContext) (b : Bool)
        → (if b then send_copy fd ctxt memory size n else (
          size,
          enqueue fd ctxt (record { copied = false; bytes = take size memory }) n,
        )).1.undefined
          ≡ false
        → n.undefined ≡ false
    by_copy ctxt true ok = ground arith
    by_copy ctxt false ok = ok
