-- ===== src/Server/Files/Buffers.antt =====
-- Sending leaves the read buffers alone.
use vwnet_lib.Base.{
  ℕ, zero, suc, ◌-◌, ◌≡◌, refl, ap, ◌∙◌, inl, inr, Bool, true, false, List, [], ◌∷◌, some, find,
  nat_eq, int_eq_instance, length, ltb, drop, take, if◌then◌else◌, Bool-cases, Option-cases,
}
use vwnet_lib.Net.State.{Net, NetContext, WReq, Sys, get_context, modify_event, set_event}
use vwnet_lib.Net.Write.{malloc, copy_in, enqueue, send_copy, send_data}
use vwnet_lib.Net.Write.Send.{contexts-malloc}
use vwnet_lib.Net.Events.Buffers.{
  SameBuffers, SameBuffers-refl, SameBuffers-trans, same_contexts, update_context-SameBuffers,
}
use vwnet_lib.Server.State.{Bse}
use vwnet_lib.Server.Files.{map_file, is_not_positive, send_rest, send_data_all, send_query_file}
use vwnet_lib.Server.Files.Sending.{sending, rest-end, rest-break, rest-step}

malloc-SameBuffers : (n : Net) → SameBuffers n (malloc n).1
malloc-SameBuffers n = same_contexts (sizes n.mallocs) (contexts-malloc n)
  where
    sizes :
        (answers : List Bool)
        → (elim answers as (λ _. Bool × Net) [
          | [] ↦ (true, n)
          | ok ∷ rest ↦ (ok, record n { mallocs = rest })
        ]).1.buf_size
          ≡ n.buf_size
    sizes [] = refl
    sizes (ok ∷ rest) = refl

-- A request joins the queue in a state `m` with the contexts of `n`.
enqueue-SameBuffers :
    (fd : ℕ) (ctxt : NetContext) (w : WReq) (n m : Net)
    → get_context fd n ≡ some ctxt
    → m.contexts ≡ n.contexts
    → SameBuffers m (enqueue fd ctxt w m)
unfolding enqueue get_context
enqueue-SameBuffers fd ctxt w n m e same =
    SameBuffers-trans
      (update_context-SameBuffers fd (record ctxt { w_req_q = _ }) ctxt m
        (unfold get_context in (ap (find fd) same ∙ e)) refl)
      (unfold modify_event set_event in same_contexts refl refl)

send_copy-SameBuffers :
    (fd : ℕ) (ctxt : NetContext) (memory : List ℕ) (size : ℕ) (n : Net)
    → get_context fd n ≡ some ctxt
    → SameBuffers n (send_copy fd ctxt memory size n).1
unfolding send_copy copy_in
send_copy-SameBuffers fd ctxt memory size n e = elim (Bool-cases (malloc n).0) [
  | inl ok ↦
      rw (ok, send_copy)
        (SameBuffers-trans once (
          SameBuffers-trans (same_contexts refl refl)
            (enqueue-SameBuffers fd ctxt _ n _ e (contexts-malloc n))))
  | inr no_block ↦ elim (Bool-cases (malloc (malloc n).1).0) [
    | inl again ↦
        rw (no_block, again, send_copy)
          (SameBuffers-trans twice (
            SameBuffers-trans (same_contexts refl refl) (
              enqueue-SameBuffers fd ctxt _ n _ e
                (contexts-malloc (malloc n).1 ∙ contexts-malloc n))))
    | inr none_left ↦ rw (no_block, none_left, send_copy) twice
  ]
]
  where
    once : SameBuffers n (malloc n).1
    once = malloc-SameBuffers n

    twice : SameBuffers n (malloc (malloc n).1).1
    twice = SameBuffers-trans once (malloc-SameBuffers (malloc n).1)

pub send_data-SameBuffers :
    (fd : ℕ) (memory : List ℕ) (size : ℕ) (copy_data : Bool) (n : Net)
    → SameBuffers n (send_data fd memory size copy_data n).1
unfolding send_data
send_data-SameBuffers fd memory size copy_data n = elim (Option-cases (get_context fd n)) [
  | inl e ↦ rw (e, send_data) (SameBuffers-refl n)
  | inr (ctxt, e) ↦ rw (e, send_data) (by_copy ctxt e copy_data)
]
  where
    by_copy :
        (ctxt : NetContext)
        → get_context fd n ≡ some ctxt
        → (b : Bool)
        → SameBuffers n
            (if b then send_copy fd ctxt memory size n else (
              size,
              enqueue fd ctxt (record { copied = false; bytes = take size memory }) n,
            )).1
    by_copy ctxt e true = send_copy-SameBuffers fd ctxt memory size n e
    by_copy ctxt e false = enqueue-SameBuffers fd ctxt _ n n e refl

pub send_rest-SameBuffers :
    (fuel fd : ℕ) (bytes : List ℕ) (done_n : ℕ) (n : Net)
    → SameBuffers n (send_rest fuel fd bytes done_n n).2
send_rest-SameBuffers zero fd bytes done_n n = unfold send_rest in SameBuffers-refl n
send_rest-SameBuffers (suc fuel) fd bytes done_n n =
    let once = send_data-SameBuffers fd (drop done_n bytes) (length bytes - done_n) true n in
    elim (Bool-cases (ltb done_n (length bytes))) [
      | inl more ↦ elim (Bool-cases (is_not_positive (sending fuel fd bytes done_n n).0)) [
        | inl stop ↦ rw (rest-break fuel fd bytes done_n n more stop) once
        | inr sent ↦
            rw (rest-step fuel fd bytes done_n n more sent)
              (SameBuffers-trans once (send_rest-SameBuffers fuel fd bytes _ _))
      ]
      | inr all ↦ rw (rest-end fuel fd bytes done_n n all) (SameBuffers-refl n)
    ]

pub send_query_file-SameBuffers :
    (fd : ℕ) (query_file : List ℕ) (s : Sys Bse)
    → SameBuffers s.net (send_query_file fd query_file s).net
unfolding send_query_file send_data_all
send_query_file-SameBuffers fd query_file s =
    elim (Option-cases (map_file (s.app.files query_file))) [
      | inl e ↦ rw (e, send_query_file) (SameBuffers-refl s.net)
      | inr (bytes, e) ↦
          rw (e, send_query_file) (send_rest-SameBuffers (suc (length bytes)) fd bytes 0 s.net)
    ]
