-- ===== src/Net/Write/Loop.antt =====
-- What a run of the write loop achieves.
use vwnet_lib.Base.{
  ℕ, zero, suc, ◌≤◌, ◌<◌, ◌^◌, ◌≡◌, ◌≢◌, refl, ap, ◌∙◌, inl, inr, true, List, [], ◌∷◌, ◌++◌,
  append-nil, append_assoc, arith, take, drop, length, length-append, length-drop, take-append-drop,
  take_all, length-take, if◌then◌else◌, ◌==◌, ==_iff, Bool-cases,
}
use vwnet_lib.Net.State.{WReq, sub_size}
use vwnet_lib.Net.Socket.{Outbound, WriteResult, wrote, write_error}
use vwnet_lib.Net.Write.{pending, WriteEnd, emptied, no_fuel, after_write, write_loop}

-- The sizes are `size_t`.
abbrev pub AllFit : List WReq → Type 0
AllFit [] = Unit {0}
AllFit (w ∷ q) = (length w.bytes < 2 ^ 64) × AllFit q

-- The rest of the queue after `n` bytes of its first request are written.
abbrev advance : WReq → List WReq → ℕ → List WReq
advance w q n =
    if sub_size (length w.bytes) n == 0 then q else record w { bytes = drop n w.bytes } ∷ q

pending-advance :
    (w : WReq) (q : List WReq) (n : ℕ)
    → length w.bytes < 2 ^ 64
    → n ≤ length w.bytes
    → take n w.bytes ++ pending (advance w q n) ≡ pending (w ∷ q)
pending-advance w q n small fits = elim (Bool-cases (sub_size (length w.bytes) n == 0)) [
  | inl all ↦ rw (all, take_all n w.bytes (omega (arith, (==_iff _ 0).0 all)))
  | inr rest ↦ rw (
    rest,
    ← append_assoc (take n w.bytes) (drop n w.bytes) (pending q),
    take-append-drop n w.bytes,
  )
]

advance-AllFit : (w : WReq) (q : List WReq) (n : ℕ) → AllFit (w ∷ q) → AllFit (advance w q n)
advance-AllFit w q n fit = elim (Bool-cases (sub_size (length w.bytes) n == 0)) [
  | inl all ↦ rw all fit.1
  | inr rest ↦ rw rest (omega (arith, length-drop n w.bytes), fit.1)
]

module _ (k : Outbound) where
  open k use {Conn, write, sent}

  abbrev Ends : Type 0
  Ends = WriteEnd × List WReq × Conn

  -- What was sent and what still waits are together what was sent and waited before; the loop ends
  -- by its test only with an empty queue.
  pub record Kept (q : List WReq) (c : Conn) (out : WriteEnd × List WReq × Conn) : Type 0 where
    pub kept : sent out.2 ++ pending out.1 ≡ sent c ++ pending q
    pub at_end : out.0 ≡ emptied → out.1 ≡ []
    pub sizes : AllFit out.1

  Kept-advance :
      (w : WReq) (q : List WReq) (c c' : Conn) (n : ℕ) (out : WriteEnd × List WReq × Conn)
      → write c w.bytes ≡ (wrote n, c')
      → AllFit (w ∷ q)
      → Kept (advance w q n) c' out
      → Kept (w ∷ q) c out
  Kept-advance w q c c' n out e fit rest = record {
    kept =
        rest.kept
        ∙ ap (λ t. t ++ pending (advance w q n)) (k.write_stream c w.bytes n c' e)
        ∙ append_assoc (sent c) (take n w.bytes) (pending (advance w q n))
        ∙ ap (λ t. sent c ++ t) (pending-advance w q n fit.0 (k.write_fits c w.bytes n c' e));
    at_end = rest.at_end;
    sizes = rest.sizes;
  }

  unsent :
      (bytes : List ℕ) (n : ℕ) (c c' : Conn)
      → write c bytes ≡ (wrote n, c')
      → (n == 0) ≡ true
      → sent c' ≡ sent c
  unsent bytes n c c' e z =
      let nothing : n ≡ 0 = ground arith in
      rw (k.write_stream c bytes n c' e, nothing) (append-nil (sent c))

  after_write-Kept :
      (loop : List WReq → Conn → WriteEnd × List WReq × Conn) (w : WReq) (q : List WReq) (c : Conn)
      → AllFit (w ∷ q)
      → ((q' : List WReq) (c' : Conn) → AllFit q' → Kept q' c' (loop q' c'))
      → (x : WriteResult) (c' : Conn) → write c w.bytes ≡ (x, c')
      → Kept (w ∷ q) c (after_write k loop w q x c')
  unfolding after_write
  after_write-Kept loop w q c fit ih (write_error errno) c' e = record {
    kept = ap (λ t. t ++ pending (w ∷ q)) (k.error_stream c w.bytes errno c' e);
    at_end = λ e'. ground arith;
    sizes = fit;
  }
  after_write-Kept loop w q c fit ih (wrote n) c' e = elim (Bool-cases (n == 0)) [
    | inl nothing ↦ rw nothing (record {
      kept = ap (λ t. t ++ pending (w ∷ q)) (unsent w.bytes n c c' e nothing);
      at_end = λ e'. cc;
      sizes = fit;
    })
    | inr some_bytes ↦
        rw some_bytes
          (Kept-advance w q c c' n _ e fit (ih (advance w q n) c' (advance-AllFit w q n fit)))
  ]

  -- For a queue whose sizes fit a size_t, whatever the socket takes and however the write loop
  -- ends, what was sent followed by what still waits is what was sent and waited before, and the
  -- loop's own test ends it only with an empty queue.
  pub write_loop-Kept :
      (fuel : ℕ) (q : List WReq) (c : Conn) → AllFit q → Kept q c (write_loop k fuel q c)
  unfolding write_loop
  write_loop-Kept zero q c fit = record { kept = refl; at_end = λ e. cc; sizes = fit }
  write_loop-Kept (suc fuel) [] c fit = record { kept = refl; at_end = λ e. refl; sizes = fit }
  write_loop-Kept (suc fuel) (w ∷ q) c fit =
      after_write-Kept (write_loop k fuel) w q c fit (write_loop-Kept fuel) (write c w.bytes).0
        (write c w.bytes).1 refl

  after_write_ends :
      (loop : List WReq → Conn → WriteEnd × List WReq × Conn) (fuel : ℕ) (w : WReq) (q : List WReq)
      (c : Conn)
      → AllFit (w ∷ q)
      → ((q' : List WReq) (c' : Conn)
          → AllFit q'
          → length (pending q') < fuel
          → (loop q' c').0 ≢ no_fuel)
      → length (pending (w ∷ q)) < suc fuel
      → (x : WriteResult) (c' : Conn) → write c w.bytes ≡ (x, c')
      → (after_write k loop w q x c').0 ≢ no_fuel
  unfolding after_write
  after_write_ends loop fuel w q c fit ih few (write_error errno) c' e = λ e'. ground arith
  after_write_ends loop fuel w q c fit ih few (wrote n) c' e = elim (Bool-cases (n == 0)) [
    | inl nothing ↦ rw nothing (λ e'. cc)
    | inr some_bytes ↦
        let fits : n ≤ length w.bytes = k.write_fits c w.bytes n c' e in
        rw some_bytes (
          ih (advance w q n) c' (advance-AllFit w q n fit) (
            ground (
              arith,
              some_bytes,
              ap length (pending-advance w q n fit.0 fits),
              length-append (take n w.bytes) (pending (advance w q n)),
              length-take n w.bytes,
            )))
  ]

  -- For a queue whose sizes fit a size_t, more rounds than bytes that wait are enough: the write
  -- loop does not run out of fuel.
  pub write_loop_ends :
      (fuel : ℕ) (q : List WReq) (c : Conn)
      → AllFit q
      → length (pending q) < fuel
      → (write_loop k fuel q c).0 ≢ no_fuel
  unfolding write_loop
  write_loop_ends zero q c fit few = absurd (omega arith)
  write_loop_ends (suc fuel) [] c fit few = λ e. cc
  write_loop_ends (suc fuel) (w ∷ q) c fit few =
      after_write_ends (write_loop k fuel) fuel w q c fit (write_loop_ends fuel) few
        (write c w.bytes).0 (write c w.bytes).1 refl
