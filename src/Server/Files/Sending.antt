-- ===== src/Server/Files/Sending.antt =====
-- send_data_all queues what it says it has queued, and ends.
use vwnet_lib.Base.{
  ℕ, zero, suc, ◌+◌, ◌-◌, ◌≤◌, ◌<◌, ◌^◌, ◌≡◌, refl, sym, ap, subst, ◌∙◌, inl, inr, true, false,
  List, ◌++◌, append-nil, append_assoc, arith, take, drop, length, length-drop, take-add, ltb,
  Bool-cases, Option-cases,
}
use vwnet_lib.Net.State.{Net, Sys}
use vwnet_lib.Net.Write.{send_data}
use vwnet_lib.Net.Write.Send.{
  waiting, Queued, IsHealthy, send_data-Queued, send_data_defined, send_data-IsHealthy,
}
use vwnet_lib.Server.State.{Bse}
use vwnet_lib.Server.Files.{map_file, is_not_positive, send_rest, send_data_all, send_query_file}

Queued-add :
    (fd : ℕ) (bytes : List ℕ) (n₀ n₁ n₂ : Net) (d r : ℕ)
    → Queued fd bytes n₀ d n₁
    → Queued fd (drop d bytes) n₁ r n₂
    → Queued fd bytes n₀ (d + r) n₂
Queued-add fd bytes n₀ n₁ n₂ d r q q' = record {
  in_memory = omega (arith, q.in_memory, q'.in_memory, length-drop d bytes);
  here =
      q'.here
      ∙ ap (λ t. t ++ take r (drop d bytes)) q.here
      ∙ append_assoc (waiting fd n₀) (take d bytes) (take r (drop d bytes))
      ∙ ap (λ t. waiting fd n₀ ++ t) (take-add d r bytes);
  elsewhere = λ j ne. q'.elsewhere j ne ∙ q.elsewhere j ne;
}

-- The three ways a round can go.
module _ (fuel fd : ℕ) (bytes : List ℕ) (done_n : ℕ) (n : Net) where
  abbrev pub sending : ℕ × Net
  sending = send_data fd (drop done_n bytes) (length bytes - done_n) true n

  pub rest-end :
      ltb done_n (length bytes) ≡ false → send_rest (suc fuel) fd bytes done_n n ≡ (true, done_n, n)
  unfolding send_rest
  rest-end e = rw e

  pub rest-break :
      ltb done_n (length bytes) ≡ true
      → is_not_positive sending.0 ≡ true
      → send_rest (suc fuel) fd bytes done_n n ≡ (true, done_n, sending.1)
  unfolding send_rest
  rest-break e z = rw (e, z)

  pub rest-step :
      ltb done_n (length bytes) ≡ true
      → is_not_positive sending.0 ≡ false
      → send_rest (suc fuel) fd bytes done_n n
        ≡ send_rest fuel fd bytes (done_n + sending.0) sending.1
  unfolding send_rest
  rest-step e z = rw (e, z)

-- The loop ends by itself: a round for each byte and one for the test are enough.
send_rest_ends :
    (fuel fd : ℕ) (bytes : List ℕ) (done_n : ℕ) (n : Net)
    → 0 < fuel
    → length bytes < fuel + done_n
    → (send_rest fuel fd bytes done_n n).0 ≡ true
send_rest_ends zero fd bytes done_n n pos h = absurd (omega arith)
send_rest_ends (suc fuel) fd bytes done_n n pos h = elim (Bool-cases (ltb done_n (length bytes))) [
  | inl more ↦ elim (Bool-cases (is_not_positive (sending fuel fd bytes done_n n).0)) [
    | inl stop ↦ rw (rest-break fuel fd bytes done_n n more stop)
    | inr sent ↦
        rw (rest-step fuel fd bytes done_n n more sent)
          (send_rest_ends fuel fd bytes _ _ (ground arith) (ground (arith, sent)))
  ]
  | inr all ↦ rw (rest-end fuel fd bytes done_n n all)
]

send_rest_defined :
    (fuel fd : ℕ) (bytes : List ℕ) (done_n : ℕ) (n : Net)
    → (send_rest fuel fd bytes done_n n).2.undefined ≡ false
    → n.undefined ≡ false
send_rest_defined zero fd bytes done_n n = unfold send_rest in λ ok. ok
send_rest_defined (suc fuel) fd bytes done_n n = elim (Bool-cases (ltb done_n (length bytes))) [
  | inl more ↦ elim (Bool-cases (is_not_positive (sending fuel fd bytes done_n n).0)) [
    | inl stop ↦
        rw (rest-break fuel fd bytes done_n n more stop)
          (send_data_defined fd (drop done_n bytes) (length bytes - done_n) true n)
    | inr sent ↦ rw (rest-step fuel fd bytes done_n n more sent) (λ ok.
        send_data_defined fd (drop done_n bytes) (length bytes - done_n) true n
          (send_rest_defined fuel fd bytes _ _ ok))
  ]
  | inr all ↦ rw (rest-end fuel fd bytes done_n n all) (λ ok. ok)
]

sending-Queued :
    (fuel fd : ℕ) (bytes : List ℕ) (done_n : ℕ) (n₀ n : Net)
    → Queued fd bytes n₀ done_n n
    → (sending fuel fd bytes done_n n).1.undefined ≡ false
    → let (sent_n, n') = sending fuel fd bytes done_n n in
      (sent_n ≤ length bytes) × Queued fd bytes n₀ (done_n + sent_n) n'
sending-Queued fuel fd bytes done_n n₀ n q ok =
    let now =
      send_data-Queued fd (drop done_n bytes) (length bytes - done_n) true n
        (omega (arith, length-drop done_n bytes)) ok in
    (
      omega (arith, now.in_memory, length-drop done_n bytes),
      Queued-add fd bytes n₀ n _ done_n _ q now,
    )

send_rest-Queued :
    (fuel fd : ℕ) (bytes : List ℕ) (done_n : ℕ) (n₀ n : Net)
    → length bytes < 2 ^ 63
    → Queued fd bytes n₀ done_n n
    → (send_rest fuel fd bytes done_n n).2.undefined ≡ false
    → let (ended, total, n') = send_rest fuel fd bytes done_n n in Queued fd bytes n₀ total n'
send_rest-Queued zero fd bytes done_n n₀ n small q = unfold send_rest in λ ok. q
send_rest-Queued (suc fuel) fd bytes done_n n₀ n small q =
    elim (Bool-cases (ltb done_n (length bytes))) [
      | inl more ↦ elim (Bool-cases (is_not_positive (sending fuel fd bytes done_n n).0)) [
        | inl stop ↦ rw (rest-break fuel fd bytes done_n n more stop) (λ ok.
            let (fits, q') = sending-Queued fuel fd bytes done_n n₀ n q ok in
            let e : done_n + (sending fuel fd bytes done_n n).0 ≡ done_n =
              ground (arith, stop, fits, small) in
            subst (λ d. Queued fd bytes n₀ d (sending fuel fd bytes done_n n).1) e q')
        | inr sent ↦ rw (rest-step fuel fd bytes done_n n more sent) (λ ok.
            send_rest-Queued fuel fd bytes _ n₀ _ small
              (sending-Queued fuel fd bytes done_n n₀ n q
                (send_rest_defined fuel fd bytes _ _ ok)).1
              ok)
      ]
      | inr all ↦ rw (rest-end fuel fd bytes done_n n all) (λ ok. q)
    ]

-- For less than 2^63 bytes, if nothing undefined happens: the loop of send_data_all ends by
-- itself, and the first done_n bytes wait for the client behind what waited, where done_n is what
-- is returned; no other connection changes.
pub send_data_all-Queued :
    (fd : ℕ) (bytes : List ℕ) (n : Net)
    → length bytes < 2 ^ 63
    → (send_data_all fd bytes n).1.undefined ≡ false
    → let (done_n, n') = send_data_all fd bytes n in
      ((send_rest (suc (length bytes)) fd bytes 0 n).0 ≡ true) × Queued fd bytes n done_n n'
unfolding send_data_all
send_data_all-Queued fd bytes n small ok = (
  send_rest_ends (suc (length bytes)) fd bytes 0 n (omega arith) (omega arith),
  send_rest-Queued (suc (length bytes)) fd bytes 0 n n small start ok,
)
  where
    start : Queued fd bytes n 0 n
    start = record {
      in_memory = omega arith;
      here = sym (append-nil (waiting fd n));
      elsewhere = λ j ne. refl;
    }

pub send_rest-IsHealthy :
    (fuel fd : ℕ) (bytes : List ℕ) (done_n : ℕ) (n : Net)
    → IsHealthy n
    → IsHealthy (send_rest fuel fd bytes done_n n).2
send_rest-IsHealthy zero fd bytes done_n n h = unfold send_rest in h
send_rest-IsHealthy (suc fuel) fd bytes done_n n h = elim (Bool-cases (ltb done_n (length bytes))) [
  | inl more ↦ elim (Bool-cases (is_not_positive (sending fuel fd bytes done_n n).0)) [
    | inl stop ↦ rw (rest-break fuel fd bytes done_n n more stop) healthy
    | inr sent ↦
        rw (rest-step fuel fd bytes done_n n more sent)
          (send_rest-IsHealthy fuel fd bytes _ _ healthy)
  ]
  | inr all ↦ rw (rest-end fuel fd bytes done_n n all) h
]
  where
    healthy : IsHealthy (sending fuel fd bytes done_n n).1
    healthy =
        send_data-IsHealthy fd (drop done_n bytes) (length bytes - done_n) true n
          (omega (arith, length-drop done_n bytes)) h

-- Sending a file does nothing undefined while `malloc` succeeds.
pub send_query_file-IsHealthy :
    (fd : ℕ) (query_file : List ℕ) (s : Sys Bse)
    → IsHealthy s.net
    → IsHealthy (send_query_file fd query_file s).net
unfolding send_query_file send_data_all
send_query_file-IsHealthy fd query_file s h =
    elim (Option-cases (map_file (s.app.files query_file))) [
      | inl e ↦ rw (e, send_query_file) h
      | inr (bytes, e) ↦
          rw (e, send_query_file) (send_rest-IsHealthy (suc (length bytes)) fd bytes 0 s.net h)
    ]

pub app-send_query_file :
    (fd : ℕ) (query_file : List ℕ) (s : Sys Bse) → (send_query_file fd query_file s).app ≡ s.app
unfolding send_query_file
app-send_query_file fd query_file s = elim (Option-cases (map_file (s.app.files query_file))) [
  | inl e ↦ rw (e, send_query_file)
  | inr (bytes, e) ↦ rw (e, send_query_file)
]
