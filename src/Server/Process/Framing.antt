-- ===== src/Server/Process/Framing.antt =====
-- BSESimulator::process_data as a framing of messages: what handle_read needs of it.
use vwnet_lib.Base.{
  ℕ, ◌+◌, ◌≤◌, ◌<◌, ◌≡◌, ◌≢◌, ap, List, ◌++◌, arith, slice, slice-append, length, length-append,
  ◌==◌, subst, inl, inr, sym, ◌∙◌, le→leb, Bool-cases,
}
use vwnet_lib.Venues.Endian.{load_le}
use vwnet_lib.Venues.Messages.{
  feed_login, feed_logoff, format_data32, sizeof_login_request, login_request_at, query_request_at,
}
use vwnet_lib.Net.State.{Sys}
use vwnet_lib.Net.Framing.{IsFraming, frames-le, frames-append, frames_leave}
use vwnet_lib.Net.Read.Loop.{IsBounded, IsIncremental}
use vwnet_lib.Server.State.{Bse}
use vwnet_lib.Server.Process.{calc_msg_size, dispatch, process_step, process_data, bse_handlers}

calc_msg_size_bounds : (type : ℕ) → (8 ≤ calc_msg_size type) × (calc_msg_size type ≤ 80)
unfolding calc_msg_size
calc_msg_size_bounds type = ground arith

login_request_at-append :
    (xs ys : List ℕ) → 80 ≤ length xs → login_request_at (xs ++ ys) ≡ login_request_at xs
unfolding login_request_at
login_request_at-append xs ys h = λ i. record {
  type = load_le (slice-append xs ys 0 4 (omega arith) i);
  client_code = load_le (slice-append xs ys 4 2 (omega arith) i);
  filler = load_le (slice-append xs ys 6 2 (omega arith) i);
  password = slice-append xs ys 8 64 (omega arith) i;
  timestamp = slice-append xs ys 72 8 (omega arith) i;
}

query_request_at-append :
    (xs ys : List ℕ) → 8 ≤ length xs → query_request_at (xs ++ ys) ≡ query_request_at xs
unfolding query_request_at
query_request_at-append xs ys h = λ i. record {
  type = load_le (slice-append xs ys 0 4 (omega arith) i);
  unique_id = load_le (slice-append xs ys 4 4 (omega arith) i);
}

-- A handler sees its own message only.
dispatch-append :
    (fd msg_type : ℕ) (xs ys : List ℕ) (s : Sys Bse)
    → calc_msg_size msg_type ≤ length xs
    → dispatch fd msg_type (xs ++ ys) s ≡ dispatch fd msg_type xs s
unfolding dispatch calc_msg_size
dispatch-append fd msg_type xs ys s h = elim (Bool-cases (msg_type == feed_login)) [
  | inl login ↦
      rw (login, login_request_at-append xs ys (subst (λ n. n ≤ length xs) (simp login) h))
  | inr other ↦ elim (Bool-cases (msg_type == feed_logoff)) [
    | inl logoff ↦ rw (
      other,
      logoff,
      login_request_at-append xs ys (subst (λ n. n ≤ length xs) (simp (other, logoff)) h),
    )
    | inr rest ↦ rw (
      other,
      rest,
      query_request_at-append xs ys (subst (λ n. n ≤ length xs) (simp (other, rest)) h),
    )
  ]
]

-- The type of the first message.
abbrev pub first_type : List ℕ → ℕ
first_type xs = format_data32 (load_le (slice xs 0 4))

step_taken :
    (fd : ℕ) (xs : List ℕ) (s : Sys Bse)
    → (process_step fd xs s).0 ≢ 0
    → (4 ≤ length xs) × (calc_msg_size (first_type xs) ≤ length xs)
unfolding process_step
step_taken fd xs s ne = ground arith

-- With a whole message at hand, a round handles it.
pub process_step_whole :
    (fd : ℕ) (xs : List ℕ) (s : Sys Bse)
    → 4 ≤ length xs
    → calc_msg_size (first_type xs) ≤ length xs
    → process_step fd xs s ≡ (calc_msg_size (first_type xs), dispatch fd (first_type xs) xs s)
unfolding process_step
process_step_whole fd xs s four whole =
    rw (le→leb 4 (length xs) four, le→leb (calc_msg_size (first_type xs)) (length xs) whole)

decided :
    (fd : ℕ) (xs ys : List ℕ) (s : Sys Bse)
    → (4 ≤ length xs) × (calc_msg_size (first_type xs) ≤ length xs)
    → process_step fd (xs ++ ys) s ≡ process_step fd xs s
decided fd xs ys s (four, whole) =
    let same : first_type (xs ++ ys) ≡ first_type xs =
      ap (λ t. format_data32 (load_le t)) (slice-append xs ys 0 4 (omega arith)) in
    let long : length (xs ++ ys) ≡ length xs + length ys = length-append xs ys in
    process_step_whole fd (xs ++ ys) s (omega arith) (rw same (omega arith))
    ∙ rw (same, dispatch-append fd (first_type xs) xs ys s whole)
        (sym (process_step_whole fd xs s four whole))

step-IsFraming : (fd : ℕ) → IsFraming (process_step fd)
unfolding process_step
step-IsFraming fd = record {
  fits = λ xs s. ground arith;
  decided = λ xs ys s ne. decided fd xs ys s (step_taken fd xs s ne);
  idle = λ xs s e. ground (arith, calc_msg_size_bounds (format_data32 (load_le (slice xs 0 4))));
}

-- process_data never claims more bytes than it was given.
pub process_data-IsBounded : IsBounded bse_handlers
unfolding process_data
process_data-IsBounded fd bytes s = frames-le (process_step fd) (step-IsFraming fd) bytes s

-- Two calls of the server's process_data, the second on the bytes that the first has left
-- followed by more, are one call on all the bytes: as many bytes processed, the same messages
-- handled, the same state.
pub process_data-IsIncremental : IsIncremental bse_handlers
unfolding process_data
process_data-IsIncremental fd xs ys s = frames-append (process_step fd) (step-IsFraming fd) xs ys s

waits : (fd : ℕ) (xs : List ℕ) (s : Sys Bse) → (process_step fd xs s).0 ≡ 0 → length xs < 80
unfolding process_step
waits fd xs s e = ground (arith, calc_msg_size_bounds (first_type xs))

-- Of any bytes, the server's process_data leaves less than the 80 of the longest message
-- unprocessed.
pub process_data_leaves :
    (fd : ℕ) (bytes : List ℕ) (s : Sys Bse)
    → length bytes < (process_data fd bytes s).0 + sizeof_login_request
unfolding process_data
process_data_leaves fd bytes s =
    frames_leave (process_step fd) (step-IsFraming fd) 80 (omega arith) (waits fd) bytes s
