-- ===== src/Server/Playback/Complete.antt =====
-- The rate control of send_jnl_file for a client that is there.
use vwnet_lib.Base.{
  ℕ, zero, suc, ◌+◌, ◌-◌, ◌≤◌, ◌<◌, ◌^◌, ◌≡◌, ◌≢◌, refl, sym, ap, subst, ◌∙◌, inl, inr, true, false,
  List, [], ◌∷◌, ◌++◌, append-nil, append_assoc, some, arith, take, drop, drop_all, drop-add,
  take-append-drop, length, length-drop, ltb, ==_refl, if◌then◌else◌, Bool-cases, find-assign,
  nat_eq,
}
use vwnet_lib.Net.State.{
  Net, NetContext, WReq, get_context, update_context, modify_event, set_event,
}
use vwnet_lib.Net.Write.{copy_in, enqueue, send_copy, send_data}
use vwnet_lib.Net.Write.Send.{
  waiting, Queued, IsHealthy, send_data-Queued, send_data-IsHealthy, send_data_accepts,
}
use vwnet_lib.Server.Files.{is_not_positive}
use vwnet_lib.Server.Playback.{part_loop, senddata, rate_loop}

-- There is a connection `fd`.
abbrev pub IsConnected : ℕ → Net → Type 0
IsConnected fd n = (ctxt : NetContext) × (get_context fd n ≡ some ctxt)

-- The bytes wait for `fd`, which is still connected; nothing undefined has happened, and no other
-- connection has changed.
pub record Delivered (fd : ℕ) (bytes : List ℕ) (n n' : Net) : Type 0 where
  pub healthy : IsHealthy n'
  pub connected : IsConnected fd n'
  pub here : waiting fd n' ≡ waiting fd n ++ bytes
  pub elsewhere : (j : ℕ) → fd ≢ j → get_context j n' ≡ get_context j n

Delivered-append :
    (fd : ℕ) (xs ys zs : List ℕ) (n₀ n₁ n₂ : Net)
    → xs ++ ys ≡ zs
    → Delivered fd xs n₀ n₁
    → Delivered fd ys n₁ n₂
    → Delivered fd zs n₀ n₂
Delivered-append fd xs ys zs n₀ n₁ n₂ e d d' = record {
  healthy = d'.healthy;
  connected = d'.connected;
  here =
      d'.here
      ∙ ap (λ t. t ++ ys) d.here
      ∙ append_assoc (waiting fd n₀) xs ys
      ∙ ap (λ t. waiting fd n₀ ++ t) e;
  elsewhere = λ j ne. d'.elsewhere j ne ∙ d.elsewhere j ne;
}

enqueue-IsConnected :
    (fd : ℕ) (ctxt : NetContext) (w : WReq) (n : Net)
    → IsConnected fd n
    → IsConnected fd (enqueue fd ctxt w n)
unfolding enqueue update_context modify_event set_event get_context
enqueue-IsConnected fd ctxt w n (old, e) = (
  record ctxt { w_req_q = ctxt.w_req_q ++ (w ∷ []) },
  rw
      (
        find-assign fd fd (record ctxt { w_req_q = ctxt.w_req_q ++ (w ∷ []) }) n.contexts,
        e,
        ==_refl fd,
      )
      refl,
)

send_data-IsConnected :
    (fd : ℕ) (memory : List ℕ) (size : ℕ) (n : Net)
    → IsHealthy n
    → IsConnected fd n
    → IsConnected fd (send_data fd memory size true n).1
unfolding send_data send_copy copy_in
send_data-IsConnected fd memory size n h (ctxt, e) =
    rw (e, send_data)
      (rw h.blocks
        (enqueue-IsConnected fd ctxt (copy_in memory size n).0 (copy_in memory size n).1 (ctxt, e)))

send_data-Delivered :
    (fd : ℕ) (memory : List ℕ) (size : ℕ) (n : Net)
    → size ≤ length memory
    → IsHealthy n
    → IsConnected fd n
    → Delivered fd (take size memory) n (send_data fd memory size true n).1
send_data-Delivered fd memory size n fits h (ctxt, e) = record {
  healthy = healthy;
  connected = send_data-IsConnected fd memory size n h (ctxt, e);
  here =
      subst (λ r. waiting fd (send_data fd memory size true n).1 ≡ waiting fd n ++ take r memory)
        accepts queued.here;
  elsewhere = queued.elsewhere;
}
  where
    healthy : IsHealthy (send_data fd memory size true n).1
    healthy = send_data-IsHealthy fd memory size true n fits h

    accepts : (send_data fd memory size true n).0 ≡ size
    accepts = send_data_accepts fd memory size true n ctxt e h

    queued :
        Queued fd memory n (send_data fd memory size true n).0 (send_data fd memory size true n).1
    queued = send_data-Queued fd memory size true n fits healthy.defined

senddata_lem :
    (fd : ℕ) (p_buf : List ℕ) (size : ℕ) (n : Net)
    → 0 < size
    → size < 2 ^ 63
    → IsHealthy n
    → IsConnected fd n
    → senddata fd p_buf size n ≡ (size, (send_data fd p_buf size true n).1)
unfolding senddata part_loop
senddata_lem fd p_buf zero n positive small h connected = absurd (omega arith)
senddata_lem fd p_buf (suc size) n positive small h (ctxt, e) =
    rw (whole, send_data_accepts fd p_buf (suc size) true n ctxt e h, begins, moves, ends)
      (ap (λ k. (k, (send_data fd p_buf (suc size) true n).1)) from_zero)
  where
    whole : suc size - 0 ≡ suc size
    whole = omega arith

    from_zero : 0 + suc size ≡ suc size
    from_zero = omega arith

    begins : ltb 0 (suc size) ≡ true
    begins = ground arith

    moves : is_not_positive (suc size) ≡ false
    moves = ground arith

    ends : ltb (0 + suc size) (suc size) ≡ false
    ends = ground arith

-- For a client that is connected, at a rate of at least one byte a slice, while nothing undefined has
-- happened and malloc does not fail, with a round for each byte that is left and one for the test: the
-- loop of the rate control ends, has sent the whole chunk, and the bytes that were left wait for the
-- client behind what waited; no other connection changes.
pub rate_loop-Delivered :
    (fuel fd rate : ℕ) (chunk : List ℕ) (sent_size : ℕ) (n : Net)
    → 0 < rate
    → length chunk < 2 ^ 63
    → sent_size ≤ length chunk
    → length chunk < fuel + sent_size
    → IsHealthy n
    → IsConnected fd n
    → let (ended, total, n') = rate_loop fuel fd rate chunk sent_size n in
      (ended ≡ true) × (total ≡ length chunk) × Delivered fd (drop sent_size chunk) n n'
unfolding rate_loop
rate_loop-Delivered zero fd rate chunk sent_size n positive small within enough h connected =
    absurd (omega arith)
rate_loop-Delivered (suc fuel) fd rate chunk sent_size n positive small within enough h connected =
    elim (Bool-cases (ltb sent_size (length chunk))) [
      | inr all ↦ rw all (
        refl,
        omega (arith, at_end all),
        record {
          healthy = h;
          connected = connected;
          here =
              rw (drop_all sent_size chunk (omega (arith, at_end all)))
                (sym (append-nil (waiting fd n)));
          elsewhere = λ j ne. refl;
        },
      )
      | inl more ↦
          let left : sent_size < length chunk = ground arith in
          let (some_bytes, fits) = size_bounds left in
          let sent =
            send_data-Delivered fd (drop sent_size chunk) size n
              (omega (arith, length-drop sent_size chunk)) h connected in
          let (ended, total, rest) =
            rate_loop-Delivered fuel fd rate chunk (sent_size + size)
              (send_data fd (drop sent_size chunk) size true n).1 positive small (omega arith)
              (omega arith) sent.healthy sent.connected in
          rw
            (
              more,
              senddata_lem fd (drop sent_size chunk) size n some_bytes (omega arith) h connected,
            )
            (ended, total, Delivered-append fd _ _ _ n _ _ (joined size) sent rest)
    ]
  where
    size : ℕ
    size = if ltb rate (length chunk - sent_size) then rate else length chunk - sent_size

    size_bounds : sent_size < length chunk → (0 < size) × (size ≤ length chunk - sent_size)
    size_bounds left = ground arith

    at_end : ltb sent_size (length chunk) ≡ false → length chunk ≤ sent_size
    at_end all = ground arith

    joined :
        (k : ℕ) → take k (drop sent_size chunk) ++ drop (sent_size + k) chunk ≡ drop sent_size chunk
    joined k = rw (← drop-add sent_size k chunk) (take-append-drop k (drop sent_size chunk))
