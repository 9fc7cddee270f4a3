-- ===== src/Server/Playback/Rate.antt =====
-- The rate control of send_jnl_file.
use vwnet_lib.Base.{
  ℕ, zero, suc, ◌+◌, ◌-◌, ◌<◌, ◌≡◌, refl, inl, inr, ◌⊎◌, true, false, List, none, arith, drop,
  length, ltb, if◌then◌else◌, Bool-cases,
}
use vwnet_lib.Net.State.{Net, get_context}
use vwnet_lib.Net.Write.{send_data}
use vwnet_lib.Server.Playback.{part_loop, senddata, rate_loop}

send_data_unknown :
    (fd : ℕ) (memory : List ℕ) (size : ℕ) (n : Net)
    → get_context fd n ≡ none
    → send_data fd memory size true n ≡ (0, n)
unfolding send_data
send_data_unknown fd memory size n gone = rw (gone, send_data) refl

senddata_unknown :
    (fd : ℕ) (p_buf : List ℕ) (size : ℕ) (n : Net)
    → get_context fd n ≡ none
    → senddata fd p_buf size n ≡ (0, n)
unfolding senddata part_loop
senddata_unknown fd p_buf size n gone = elim (Bool-cases (ltb 0 size)) [
  | inl more ↦ rw (more, send_data_unknown fd p_buf (size - 0) n gone) refl
  | inr nothing ↦ rw nothing refl
]

senddata-zero : (fd : ℕ) (p_buf : List ℕ) (n : Net) → senddata fd p_buf 0 n ≡ (0, n)
unfolding senddata part_loop
senddata-zero fd p_buf n = refl

-- A client that is gone, or a rate of less than 200 bytes a second, sends nothing.
nothing_sent :
    (fd rate remain_size : ℕ) (p_buf : List ℕ) (n : Net)
    → (get_context fd n ≡ none) ⊎ (rate ≡ 0)
    → 0 < remain_size
    → senddata fd p_buf (if ltb rate remain_size then rate else remain_size) n ≡ (0, n)
nothing_sent fd rate remain_size p_buf n (inl gone) more = senddata_unknown fd p_buf _ n gone
nothing_sent fd rate remain_size p_buf n (inr no_rate) more =
    let picked : (if ltb rate remain_size then rate else remain_size) ≡ 0 = ground arith in
    rw picked (senddata-zero fd p_buf n)

-- While bytes are left for a client that is gone, or at a rate of no bytes a slice, the loop of the
-- rate control never ends: no number of rounds is enough, and none changes anything.
pub rate_loop_stuck :
    (fuel fd rate : ℕ) (chunk : List ℕ) (sent_size : ℕ) (n : Net)
    → (get_context fd n ≡ none) ⊎ (rate ≡ 0)
    → sent_size < length chunk
    → rate_loop fuel fd rate chunk sent_size n ≡ (false, sent_size, n)
unfolding rate_loop
rate_loop_stuck zero fd rate chunk sent_size n stuck left = refl
rate_loop_stuck (suc fuel) fd rate chunk sent_size n stuck left =
    rw
      (
        nothing_sent fd rate (length chunk - sent_size) (drop sent_size chunk) n stuck
            (omega arith),
        more,
        same,
      )
      (rate_loop_stuck fuel fd rate chunk sent_size n stuck left)
  where
    more : ltb sent_size (length chunk) ≡ true
    more = ground arith

    same : sent_size + 0 ≡ sent_size
    same = omega arith
