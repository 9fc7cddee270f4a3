-- ===== src/Net/Framing.antt =====
-- The loop that both `process_data` functions (server/bse_server.cpp, client/bse_client.cpp) are
-- written as: while bytes are left, a step looks at them and says how many it has processed; the
-- loop ends when that is none.
use native.Mathlib.Nat.{zero-add, add_assoc}
use vwnet_lib.Base.{
  ℕ, zero, suc, ◌+◌, ◌≤◌, ◌<◌, ◌≡◌, ◌≢◌, refl, sym, ap₂, inl, inr, List, [], ◌∷◌, ◌++◌, arith, drop,
  length, length-append, length-drop, drop-append, drop-add, ◌==◌, if◌then◌else◌, Bool-cases,
}

module _ {S : Type 0} (step : List ℕ → S → ℕ × S) where
  unfoldable pub frame_loop : ℕ → List ℕ → S → ℕ × S
  frame_loop zero bytes s = (0, s)
  frame_loop (suc fuel) [] s = (0, s)
  frame_loop (suc fuel) (b ∷ bytes) s =
      let (size_process, s') = step (b ∷ bytes) s in
      let (size_total, s'') = frame_loop fuel (drop size_process (b ∷ bytes)) s' in
      if size_process == 0 then (0, s') else (size_process + size_total, s'')

  -- A round for each byte, and one for the test.
  unfoldable pub frames : List ℕ → S → ℕ × S
  unfolding frame_loop
  frames bytes s = frame_loop (suc (length bytes)) bytes s

  -- A round that takes something, and a round that takes nothing.
  pub frame_loop-step :
      (f : ℕ) (xs : List ℕ) (s : S)
      → 0 < length xs
      → (step xs s).0 ≢ 0
      → let (n, s') = step xs s in
        let (m, s'') = frame_loop f (drop n xs) s' in frame_loop (suc f) xs s ≡ (n + m, s'')
  unfolding frame_loop
  frame_loop-step f [] s some_bytes ne = absurd (omega arith)
  frame_loop-step f (x ∷ xs) s some_bytes ne = elim (Bool-cases ((step (x ∷ xs) s).0 == 0)) [
    | inl z ↦ absurd (ne (ground arith))
    | inr nz ↦ rw nz
  ]

  pub frame_loop_idle :
      (f : ℕ) (xs : List ℕ) (s : S) → step xs s ≡ (0, s) → frame_loop f xs s ≡ (0, s)
  unfolding frame_loop
  frame_loop_idle zero xs s e = refl
  frame_loop_idle (suc f) [] s e = refl
  frame_loop_idle (suc f) (x ∷ xs) s e = rw e

  -- With a step that takes no more than it is given, neither does the loop.
  pub frames-fits :
      ((xs : List ℕ) (s : S) → (step xs s).0 ≤ length xs)
      → (xs : List ℕ) (s : S) → (frames xs s).0 ≤ length xs
  unfolding frames frame_loop
  frames-fits fits xs s = bounded (suc (length xs)) xs s
    where
      bounded : (f : ℕ) (ys : List ℕ) (t : S) → (frame_loop f ys t).0 ≤ length ys
      bounded zero ys t = omega arith
      bounded (suc f) [] t = omega arith
      bounded (suc f) (y ∷ ys) t = elim (Bool-cases ((step (y ∷ ys) t).0 == 0)) [
        | inl z ↦ rw z (omega arith)
        | inr nz ↦
            let n = (step (y ∷ ys) t).0 in
            rw (frame_loop-step f (y ∷ ys) t (omega arith) (ground arith)) (
              omega (
                arith,
                fits (y ∷ ys) t,
                bounded f (drop n (y ∷ ys)) (step (y ∷ ys) t).1,
                length-drop n (y ∷ ys),
              ))
      ]

  -- What makes a step a framing of messages: it takes a first part of the bytes, it decides by that
  -- part alone, and it does nothing where it takes none.
  pub record IsFraming : Type 0 where
    pub fits : (xs : List ℕ) (s : S) → (step xs s).0 ≤ length xs
    pub decided : (xs ys : List ℕ) (s : S) → (step xs s).0 ≢ 0 → step (xs ++ ys) s ≡ step xs s
    pub idle : (xs : List ℕ) (s : S) → (step xs s).0 ≡ 0 → (step xs s).1 ≡ s

  module _ (framing : IsFraming) where
    open framing use {fits, decided, idle}

    -- The three ways a round can go.
    loop-nil : (f : ℕ) (s : S) → frame_loop f [] s ≡ (0, s)
    unfolding frame_loop
    loop-nil zero s = refl
    loop-nil (suc f) s = refl

    loop-stop : (f : ℕ) (xs : List ℕ) (s : S) → (step xs s).0 ≡ 0 → frame_loop f xs s ≡ (0, s)
    unfolding frame_loop
    loop-stop zero xs s e = refl
    loop-stop (suc f) [] s e = refl
    loop-stop (suc f) (x ∷ xs) s e = rw (e, idle (x ∷ xs) s e)

    loop-step :
        (f : ℕ) (xs : List ℕ) (s : S)
        → (step xs s).0 ≢ 0
        → let (n, s') = step xs s in
          let (m, s'') = frame_loop f (drop n xs) s' in frame_loop (suc f) xs s ≡ (n + m, s'')
    unfolding frame_loop
    loop-step f [] s ne = absurd (ne (omega (arith, fits [] s)))
    loop-step f (x ∷ xs) s ne = frame_loop-step f (x ∷ xs) s (omega arith) ne

    -- More rounds than bytes change nothing: the loop has ended by then.
    loop_fuel :
        (f g : ℕ) (xs : List ℕ) (s : S)
        → length xs < f
        → length xs < g
        → frame_loop f xs s ≡ frame_loop g xs s
    loop_fuel zero g xs s p q = absurd (omega arith)
    loop_fuel (suc f) zero xs s p q = absurd (omega arith)
    loop_fuel (suc f) (suc g) xs s p q = elim (Bool-cases ((step xs s).0 == 0)) [
      | inl z ↦ rw (loop-stop (suc f) xs s (ground arith), loop-stop (suc g) xs s (ground arith))
      | inr nz ↦
          let ne : (step xs s).0 ≢ 0 = ground arith in
          let n = (step xs s).0 in
          rw (
            loop-step f xs s ne,
            loop-step g xs s ne,
            loop_fuel f g (drop n xs) (step xs s).1 (omega (arith, ne, fits xs s, length-drop n xs))
                (omega (arith, ne, fits xs s, length-drop n xs)),
          )
    ]

    pub frames-le : (xs : List ℕ) (s : S) → (frames xs s).0 ≤ length xs
    frames-le = frames-fits fits

    shorter :
        (n : ℕ) (xs ys : List ℕ) → n ≤ length xs → length (drop n xs ++ ys) + n ≡ length (xs ++ ys)
    shorter n xs ys h =
        omega (arith, length-append xs ys, length-append (drop n xs) ys, length-drop n xs)

    loop-append :
        (f g h : ℕ) (xs ys : List ℕ) (s : S)
        → length xs < f
        → length (xs ++ ys) < g
        → length (xs ++ ys) < h
        → let (p, s₁) = frame_loop f xs s in
          let (q, s₂) = frame_loop h (drop p xs ++ ys) s₁ in frame_loop g (xs ++ ys) s ≡ (p + q, s₂)
    loop-append zero g h xs ys s lf lg lh = absurd (omega arith)
    loop-append (suc f) zero h xs ys s lf lg lh = absurd (omega arith)
    loop-append (suc f) (suc g) h xs ys s lf lg lh = elim (Bool-cases ((step xs s).0 == 0)) [
      | inl z ↦
          let stop = loop-stop (suc f) xs s (ground arith) in
          rw (stop, loop_fuel (suc g) h (xs ++ ys) s lg lh, zero-add)
      | inr nz ↦
          let ne : (step xs s).0 ≢ 0 = ground arith in
          let n = (step xs s).0 in
          let s' = (step xs s).1 in
          let p = (frame_loop f (drop n xs) s').0 in
          rw
            (
              loop-step f xs s ne,
              loop-step g (xs ++ ys) s (rw (decided xs ys s ne) ne),
              decided xs ys s ne,
              drop-append n xs ys (fits xs s),
              loop-append f g h (drop n xs) ys s' (omega (arith, ne, fits xs s, length-drop n xs))
                  (omega (arith, ne, fits xs s, shorter n xs ys))
                  (omega (arith, ne, fits xs s, shorter n xs ys)),
              ← drop-add n p xs,
            )
            (ap₂ (λ a b. (a, b)) (sym (add_assoc n p _)) refl)
    ]

    -- Bytes looked at in two goes, the second with what the first has left, give what one look at
    -- all of them gives.
    pub frames-append :
        (xs ys : List ℕ) (s : S)
        → let (p, s₁) = frames xs s in
          let (q, s₂) = frames (drop p xs ++ ys) s₁ in frames (xs ++ ys) s ≡ (p + q, s₂)
    unfolding frames
    frames-append xs ys s =
        let p = (frames xs s).0 in
        let rest = drop p xs ++ ys in
        let le = shorter p xs ys (frames-le xs s) in
        rw
          (loop_fuel (suc (length rest)) (suc (length (xs ++ ys))) rest (frames xs s).1
            (omega arith) (omega (arith, le)))
          (loop-append (suc (length xs)) (suc (length (xs ++ ys))) (suc (length (xs ++ ys))) xs ys s
            (omega arith) (omega arith) (omega arith))

    -- What is left over is too short for a message.
    pub frames_leave :
        (m : ℕ)
        → 0 < m
        → ((xs : List ℕ) (s : S) → (step xs s).0 ≡ 0 → length xs < m)
        → (xs : List ℕ) (s : S) → length xs < (frames xs s).0 + m
    unfolding frames
    frames_leave m pos waits xs s = leaves (suc (length xs)) xs s (omega arith)
      where
        leaves :
            (f : ℕ) (ys : List ℕ) (t : S) → length ys < f → length ys < (frame_loop f ys t).0 + m
        leaves zero ys t h = absurd (omega arith)
        leaves (suc f) ys t h = elim (Bool-cases ((step ys t).0 == 0)) [
          | inl z ↦
              rw (loop-stop (suc f) ys t (ground arith)) (omega (arith, waits ys t (ground arith)))
          | inr nz ↦
              let ne : (step ys t).0 ≢ 0 = ground arith in
              let n = (step ys t).0 in
              rw (loop-step f ys t ne) (
                omega (
                  arith,
                  ne,
                  fits ys t,
                  length-drop n ys,
                  leaves f (drop n ys) (step ys t).1
                      (omega (arith, ne, fits ys t, length-drop n ys)),
                ))
        ]

  -- What every round keeps the loop keeps.
  pub frames_keep {ℓ} :
      (P : S → Type ℓ)
      → ((xs : List ℕ) (s : S) → P s → P (step xs s).1)
      → (xs : List ℕ) (s : S) → P s
      → P (frames xs s).1
  unfolding frames
  frames_keep P keep xs s h = keeps (suc (length xs)) xs s h
    where
      keeps : (f : ℕ) (ys : List ℕ) (t : S) → P t → P (frame_loop f ys t).1
      keeps zero ys t p = p
      keeps (suc f) [] t p = p
      keeps (suc f) (y ∷ ys) t p =
          let n = (step (y ∷ ys) t).0 in
          let now = keep (y ∷ ys) t p in
          elim (Bool-cases (n == 0)) [
            | inl z ↦ rw z now
            | inr nz ↦ rw nz (keeps f (drop n (y ∷ ys)) (step (y ∷ ys) t).1 now)
          ]
