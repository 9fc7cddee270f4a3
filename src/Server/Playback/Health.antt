-- ===== src/Server/Playback/Health.antt =====
-- The commands and the notification of a changed file keep the server's invariant.
use vwnet_lib.Base.{
  ℕ, refl, zero, suc, ◌-◌, ◌≤◌, inl, inr, Bool, true, false, ◌||◌, List, [], ◌∷◌, Option, none,
  some, arith, ℤ, Map, find, nat_eq, drop, length, length-drop, ltb, ◌==◌, if◌then◌else◌, if_both,
  Option-cases, Bool-cases,
}
use vwnet_lib.Net.State.{Net, Sys, disconnect}
use vwnet_lib.Net.Write.{send_data}
use vwnet_lib.Net.Events.Buffers.{same_contexts}
use vwnet_lib.Server.State.{
  PlayRound, BseClientContext, Bse, File, missing, unreadable, unmappable, mapped, on_app,
}
use vwnet_lib.Server.Files.{map_file, is_not_positive, send_data_all}
use vwnet_lib.Server.Run.Safe.{
  IsSafe, SafeServer, SameBuffers-IsSafe, send_data-IsSafe, send_rest-IsSafe,
}
use vwnet_lib.Server.Playback.{
  next_round, jnl_chunk, jnl_buf_size, rate_size, part_loop, senddata, rate_loop, clients_loop,
  play_loop, send_jnl_file, send_to_all, send_for_account, notify_each, handle_file_notify,
  command_kick,
}

module _ (size : ℕ) where
  part_loop-IsSafe :
      (fuel fd : ℕ) (p_buf : List ℕ) (len done_n : ℕ) (n : Net)
      → len ≤ length p_buf
      → IsSafe size n
      → IsSafe size (part_loop fuel fd p_buf len done_n n).2
  unfolding part_loop
  part_loop-IsSafe zero fd p_buf len done_n n fits h = h
  part_loop-IsSafe (suc fuel) fd p_buf len done_n n fits h =
      let sent =
        send_data-IsSafe size fd (drop done_n p_buf) (len - done_n) n
          (omega (arith, length-drop done_n p_buf)) h in
      elim (Bool-cases (ltb done_n len)) [
        | inl more ↦
            elim (Bool-cases
              (is_not_positive (send_data fd (drop done_n p_buf) (len - done_n) true n).0)) [
                | inl stop ↦ rw (more, stop) sent
                | inr on ↦ rw (more, on) (part_loop-IsSafe fuel fd p_buf len _ _ fits sent)
              ]
        | inr all ↦ rw all h
      ]

  rate_loop-IsSafe :
      (fuel fd rate : ℕ) (chunk : List ℕ) (sent_size : ℕ) (n : Net)
      → IsSafe size n
      → IsSafe size (rate_loop fuel fd rate chunk sent_size n).2
  unfolding rate_loop senddata
  rate_loop-IsSafe zero fd rate chunk sent_size n h = h
  rate_loop-IsSafe (suc fuel) fd rate chunk sent_size n h =
      let remain = length chunk - sent_size in
      let len = if ltb rate remain then rate else remain in
      let fits : len ≤ length (drop sent_size chunk) =
        ground (arith, length-drop sent_size chunk) in
      let sent = part_loop-IsSafe (suc len) fd (drop sent_size chunk) len 0 n fits h in
      elim (Bool-cases (ltb sent_size (length chunk))) [
        | inl more ↦ rw more (rate_loop-IsSafe fuel fd rate chunk _ _ sent)
        | inr all ↦ rw all h
      ]

  clients_loop-IsSafe :
      (fuel : ℕ) (c_fds : List ℕ) (rate : ℕ) (chunk : List ℕ) (n : Net)
      → IsSafe size n
      → IsSafe size (clients_loop fuel c_fds rate chunk n).1
  unfolding clients_loop
  clients_loop-IsSafe fuel [] rate chunk n h = h
  clients_loop-IsSafe fuel (c_fd ∷ c_fds) rate chunk n h =
      let sent = rate_loop-IsSafe fuel c_fd rate chunk 0 n h in
      elim (Bool-cases (rate_loop fuel c_fd rate chunk 0 n).0) [
        | inl ended ↦ rw ended (clients_loop-IsSafe fuel c_fds rate chunk _ sent)
        | inr on ↦ rw on sent
      ]

  -- A change of the network that leaves it healthy, and of the flag.
  net-SafeServer :
      (s : Sys Bse) (n : Net)
      → SafeServer size s
      → IsSafe size n
      → SafeServer size (record s { net = n })
  net-SafeServer s n inv h = record { registered = inv.registered; safe = h }

  quit-SafeServer :
      (s : Sys Bse) (b : Bool)
      → SafeServer size s
      → SafeServer size (on_app (λ a. record a { quit_current_task = b }) s)
  quit-SafeServer s b inv = record {
    registered = record {
      keyed = inv.registered.keyed;
      no_guests = inv.registered.no_guests;
      listed = inv.registered.listed;
    };
    safe = inv.safe;
  }

  abbrev pub Played : Bool × Sys Bse → Type 0
  Played out = SafeServer size out.1

  round-SafeServer :
      (s : Sys Bse) (b : Bool) (later : List PlayRound)
      → SafeServer size s
      → SafeServer size (on_app (λ a. record a { quit_current_task = b; play_rounds = later }) s)
  round-SafeServer s b later inv = record {
    registered = record {
      keyed = inv.registered.keyed;
      no_guests = inv.registered.no_guests;
      listed = inv.registered.listed;
    };
    safe = inv.safe;
  }

  play_loop-SafeServer :
      (rounds fuel : ℕ) (account : BseClientContext) (bytes : List ℕ) (process_size : ℕ)
      (s : Sys Bse)
      → SafeServer size s
      → SafeServer size (play_loop rounds fuel account bytes process_size s).1
  unfolding play_loop
  play_loop-SafeServer zero fuel account bytes process_size s inv = inv
  play_loop-SafeServer (suc rounds) fuel account bytes process_size s inv =
      let (round, later) = next_round s.app.play_rounds in
      let chunk =
        jnl_chunk round.jnl_read (jnl_buf_size account.jnl_rate) (drop process_size bytes) in
      let cancelled = s.app.quit_current_task || round.cancelled in
      let sent = net-SafeServer _ _ (round-SafeServer s cancelled later inv) (
        clients_loop-IsSafe fuel account.clients_fd (rate_size account.jnl_rate) chunk s.net
          inv.safe) in
      if_both Played (ltb process_size (length bytes))
        (if_both Played (length chunk == 0) (round-SafeServer s _ later inv) (
          if_both Played (length account.clients_fd == 0) (round-SafeServer s true later inv) (
            if_both Played _
              (if_both Played cancelled sent
                (play_loop-SafeServer rounds fuel account bytes _ _ sent))
              sent)))
        inv

  pub send_jnl_file-SafeServer :
      (rounds fuel : ℕ) (account : BseClientContext) (s : Sys Bse)
      → SafeServer size s
      → SafeServer size (send_jnl_file rounds fuel account s).1
  unfolding send_jnl_file
  send_jnl_file-SafeServer rounds fuel account s inv = by_file (s.app.files account.jnl_file)
    where
      by_file :
          (file : File)
          → Played (elim file [
            | missing ↦ (true, s)
            | unreadable f_size ↦ (true, s)
            | unmappable f_size ↦ (true, on_app (λ a. record a { quit_current_task = false }) s)
            | mapped bytes ↦
                play_loop rounds fuel account bytes 0
                  (on_app (λ a. record a { quit_current_task = false }) s)
          ])
      by_file missing = inv
      by_file (unreadable f_size) = inv
      by_file (unmappable f_size) = quit-SafeServer s false inv
      by_file (mapped bytes) =
          play_loop-SafeServer rounds fuel account bytes 0 _ (quit-SafeServer s false inv)

  send_to_all-IsSafe :
      (fds bytes : List ℕ) (n : Net) → IsSafe size n → IsSafe size (send_to_all fds bytes n)
  unfolding send_to_all send_data_all
  send_to_all-IsSafe [] bytes n h = h
  send_to_all-IsSafe (c_fd ∷ fds) bytes n h =
      send_to_all-IsSafe fds bytes _ (send_rest-IsSafe size (suc (length bytes)) c_fd bytes 0 n h)

  send_for_account-SafeServer :
      (account : BseClientContext) (s : Sys Bse)
      → SafeServer size s
      → SafeServer size (send_for_account account s)
  unfolding send_for_account
  send_for_account-SafeServer account s inv =
      elim (Option-cases (map_file (s.app.files account.pb_file))) [
        | inl e ↦ rw (e, send_for_account) inv
        | inr (bytes, e) ↦
            rw (e, send_for_account)
              (net-SafeServer s _ inv (send_to_all-IsSafe account.clients_fd bytes s.net inv.safe))
      ]

  notify_each-SafeServer :
      (fd : ℕ) (contexts : Map ℤ BseClientContext) (s : Sys Bse)
      → SafeServer size s
      → SafeServer size (notify_each fd contexts s)
  unfolding notify_each
  notify_each-SafeServer fd [] s inv = inv
  notify_each-SafeServer fd ((code, it) ∷ rest) s inv =
      notify_each-SafeServer fd rest _
        (if_both (SafeServer size) _ (send_for_account-SafeServer it s inv) inv)

  pub handle_file_notify-SafeServer :
      (events : List (ℕ × ℕ)) (fd : ℕ) (s : Sys Bse)
      → SafeServer size s
      → SafeServer size (handle_file_notify events fd s)
  unfolding handle_file_notify
  handle_file_notify-SafeServer events fd s inv =
      if_both (SafeServer size) _ (notify_each-SafeServer fd s.app.client_context s inv) inv

  pub command_kick-SafeServer :
      (c_fd : Option ℕ) (s : Sys Bse) → SafeServer size s → SafeServer size (command_kick c_fd s)
  unfolding command_kick disconnect
  command_kick-SafeServer none s inv = inv
  command_kick-SafeServer (some c_fd) s inv = elim (Option-cases (find c_fd s.app.sock_lookup)) [
    | inl e ↦ rw (e, command_kick) inv
    | inr (code, e) ↦
        rw (e, command_kick)
          (net-SafeServer s _ inv (
            SameBuffers-IsSafe size (same_contexts refl refl)
              (record { defined = inv.safe.healthy.defined; blocks = inv.safe.healthy.blocks })
              inv.safe))
  ]
