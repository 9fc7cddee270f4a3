-- ===== src/Base/Lists.antt =====
-- Lists measured and indexed by native numbers, and blocks of memory as lists of bytes.
use Prim.Native.Nat.{ℕ, zero, suc, ◌+◌, ◌-◌, ◌≤◌, min}
use mathlib.Core.Path.{◌≡◌, refl, ap, sym, ◌∙◌}
use mathlib.Core.Bool.{Bool, true, false, ◌&&◌}
use mathlib.Core.List.{List, [], ◌∷◌, ◌++◌}
use mathlib.Core.Option.{Option, none, some}
use native.Mathlib.Omega.{arith}
use vwnet_lib.Base.Tests.{◌==◌, if◌then◌else◌}

module _ {ℓ} {A : Type ℓ} where
  abbrev pub length : List A → ℕ
  length [] = 0
  length (x ∷ xs) = suc (length xs)

  abbrev pub take : ℕ → List A → List A
  take zero xs = []
  take (suc n) [] = []
  take (suc n) (x ∷ xs) = x ∷ take n xs

  abbrev pub drop : ℕ → List A → List A
  drop zero xs = xs
  drop (suc n) [] = []
  drop (suc n) (x ∷ xs) = drop n xs

  abbrev pub get_elem? : List A → ℕ → Option A
  get_elem? [] i = none
  get_elem? (x ∷ xs) zero = some x
  get_elem? (x ∷ xs) (suc i) = get_elem? xs i

  abbrev pub set : List A → ℕ → A → List A
  set [] i v = []
  set (x ∷ xs) zero v = v ∷ xs
  set (x ∷ xs) (suc i) v = x ∷ set xs i v

  abbrev pub replicate : ℕ → A → List A
  replicate zero a = []
  replicate (suc n) a = a ∷ replicate n a

  pub length-append : (xs ys : List A) → length (xs ++ ys) ≡ length xs + length ys
  length-append [] ys = omega arith
  length-append (x ∷ xs) ys = omega (arith, length-append xs ys)

  pub length-take : (n : ℕ) (xs : List A) → length (take n xs) ≡ min n (length xs)
  length-take zero xs = omega arith
  length-take (suc n) [] = omega arith
  length-take (suc n) (x ∷ xs) = omega (arith, length-take n xs)

  pub length-drop : (n : ℕ) (xs : List A) → length (drop n xs) ≡ length xs - n
  length-drop zero xs = omega arith
  length-drop (suc n) [] = omega arith
  length-drop (suc n) (x ∷ xs) = omega (arith, length-drop n xs)

  pub length-replicate : (n : ℕ) (a : A) → length (replicate n a) ≡ n
  length-replicate zero a = refl
  length-replicate (suc n) a = ap suc (length-replicate n a)

  pub length-set : (xs : List A) (i : ℕ) (v : A) → length (set xs i v) ≡ length xs
  length-set [] i v = refl
  length-set (x ∷ xs) zero v = refl
  length-set (x ∷ xs) (suc i) v = ap suc (length-set xs i v)

  pub take-append-drop : (n : ℕ) (xs : List A) → take n xs ++ drop n xs ≡ xs
  take-append-drop zero xs = refl
  take-append-drop (suc n) [] = refl
  take-append-drop (suc n) (x ∷ xs) = ap (◌∷◌ x) (take-append-drop n xs)

  pub take_all : (n : ℕ) (xs : List A) → length xs ≤ n → take n xs ≡ xs
  take_all zero [] h = refl
  take_all zero (x ∷ xs) h = absurd (omega arith)
  take_all (suc n) [] h = refl
  take_all (suc n) (x ∷ xs) h = ap (◌∷◌ x) (take_all n xs (omega arith))

  pub drop_all : (n : ℕ) (xs : List A) → length xs ≤ n → drop n xs ≡ []
  drop_all zero [] h = refl
  drop_all zero (x ∷ xs) h = absurd (omega arith)
  drop_all (suc n) [] h = refl
  drop_all (suc n) (x ∷ xs) h = drop_all n xs (omega arith)

  -- Within the first part, `take` and `drop` do not see the second.
  pub take-append : (n : ℕ) (xs ys : List A) → n ≤ length xs → take n (xs ++ ys) ≡ take n xs
  take-append zero xs ys h = refl
  take-append (suc n) [] ys h = absurd (omega arith)
  take-append (suc n) (x ∷ xs) ys h = ap (◌∷◌ x) (take-append n xs ys (omega arith))

  pub drop-append : (n : ℕ) (xs ys : List A) → n ≤ length xs → drop n (xs ++ ys) ≡ drop n xs ++ ys
  drop-append zero xs ys h = refl
  drop-append (suc n) [] ys h = absurd (omega arith)
  drop-append (suc n) (x ∷ xs) ys h = drop-append n xs ys (omega arith)

  drop-nil : (n : ℕ) → drop n [] ≡ []
  drop-nil zero = refl
  drop-nil (suc n) = refl

  pub drop-add : (m n : ℕ) (xs : List A) → drop n (drop m xs) ≡ drop (m + n) xs
  drop-add zero n xs = ap (λ k. drop k xs) (omega arith)
  drop-add (suc m) n [] = drop-nil n ∙ sym (drop-nil (suc m + n))
  drop-add (suc m) n (x ∷ xs) = drop-add m n xs ∙ step
    where
      step : drop (m + n) xs ≡ drop (suc m + n) (x ∷ xs)
      step = let e : suc m + n ≡ suc (m + n) = omega arith in rw e

  -- `memcpy(block + i, bytes, |bytes|)`: the block with the bytes from index `i` on replaced.
  pub write_at : List A → ℕ → List A → List A
  write_at block i bytes = take i block ++ (bytes ++ drop (i + length bytes) block)

  -- The `n` bytes of a block from index `i` on.
  abbrev pub slice : List A → ℕ → ℕ → List A
  slice block i n = take n (drop i block)

  pub length-write_at :
      (block : List A) (i : ℕ) (bytes : List A)
      → i + length bytes ≤ length block
      → length (write_at block i bytes) ≡ length block
  unfolding write_at
  length-write_at block i bytes h = omega (
    arith,
    length-append (take i block) (bytes ++ drop (i + length bytes) block),
    length-append bytes (drop (i + length bytes) block),
    length-take i block,
    length-drop (i + length bytes) block,
  )

  pub length-slice :
      (block : List A) (i n : ℕ) → i + n ≤ length block → length (slice block i n) ≡ n
  length-slice block i n h = omega (arith, length-take n (drop i block), length-drop i block)

  take-take_append :
      (n : ℕ) (xs ys zs : List A)
      → n ≤ length xs
      → take (n + length ys) (take n xs ++ (ys ++ zs)) ≡ take n xs ++ ys
  take-take_append zero xs ys zs h =
      let e : 0 + length ys ≡ length ys = omega arith in
      rw e (take-append (length ys) ys zs (omega arith) ∙ take_all (length ys) ys (omega arith))
  take-take_append (suc n) [] ys zs h = absurd (omega arith)
  take-take_append (suc n) (x ∷ xs) ys zs h =
      let e : suc n + length ys ≡ suc (n + length ys) = omega arith in
      rw e (ap (◌∷◌ x) (take-take_append n xs ys zs (omega arith)))

  -- Bytes written just behind a slice extend it.
  pub slice-write_at :
      (block : List A) (i n : ℕ) (bytes : List A)
      → i + n ≤ length block
      → slice (write_at block (i + n) bytes) i (n + length bytes) ≡ slice block i n ++ bytes
  unfolding write_at
  slice-write_at block zero n bytes h =
      let e : 0 + n ≡ n = omega arith in
      rw e (take-take_append n block bytes (drop (n + length bytes) block) (omega arith))
  slice-write_at [] (suc i) n bytes h = absurd (omega arith)
  slice-write_at (x ∷ block) (suc i) n bytes h =
      let e : suc i + n ≡ suc (i + n) = omega arith in
      let e' : suc (i + n) + length bytes ≡ suc (i + n + length bytes) = omega arith in
      rw (e, e') (slice-write_at block i n bytes (omega arith))

  -- Bytes written to the front are the front.
  pub slice-write_at_front :
      (block bytes : List A) → slice (write_at block 0 bytes) 0 (length bytes) ≡ bytes
  unfolding write_at
  slice-write_at_front block bytes =
      take-append (length bytes) bytes (drop (0 + length bytes) block) (omega arith)
      ∙ take_all (length bytes) bytes (omega arith)

  drop-take : (k n : ℕ) (xs : List A) → drop k (take n xs) ≡ take (n - k) (drop k xs)
  drop-take zero n xs = ap (λ m. take m xs) (omega arith)
  drop-take (suc k) zero xs = let e : 0 - suc k ≡ 0 = omega arith in rw e
  drop-take (suc k) (suc n) [] = sym (take-nil (suc n - suc k))
    where
      take-nil : (m : ℕ) → take m [] ≡ []
      take-nil zero = refl
      take-nil (suc m) = refl
  drop-take (suc k) (suc n) (x ∷ xs) =
      let e : suc n - suc k ≡ n - k = omega arith in rw e (drop-take k n xs)

  -- Moving the start of a slice forward drops its first bytes.
  pub slice-add :
      (block : List A) (i n k : ℕ) → slice block (i + k) (n - k) ≡ drop k (slice block i n)
  slice-add block i n k = rw (← drop-add i k block) (sym (drop-take k n (drop i block)))

module _ {ℓ} {A : Type ℓ} where
  -- A slice within the first part does not see the second.
  pub slice-append :
      (xs ys : List A) (i n : ℕ) → i + n ≤ length xs → slice (xs ++ ys) i n ≡ slice xs i n
  slice-append xs ys i n h =
      ap (take n) (drop-append i xs ys (omega arith))
      ∙ take-append n (drop i xs) ys (omega (arith, length-drop i xs))

  pub take-add : (m n : ℕ) (xs : List A) → take m xs ++ take n (drop m xs) ≡ take (m + n) xs
  take-add zero n xs = ap (λ k. take k xs) (omega arith)
  take-add (suc m) zero [] = let e : suc m + 0 ≡ suc m = omega arith in rw e
  take-add (suc m) (suc n) [] = let e : suc m + suc n ≡ suc (m + suc n) = omega arith in rw e
  take-add (suc m) n (x ∷ xs) =
      let e : suc m + n ≡ suc (m + n) = omega arith in rw e (ap (◌∷◌ x) (take-add m n xs))

-- Equality of byte strings, as `std::string`'s `==`.
abbrev pub bytes_eq : List ℕ → List ℕ → Bool
bytes_eq [] [] = true
bytes_eq [] (y ∷ ys) = false
bytes_eq (x ∷ xs) [] = false
bytes_eq (x ∷ xs) (y ∷ ys) = x == y && bytes_eq xs ys

pub bytes_eq_sound : (xs ys : List ℕ) → bytes_eq xs ys ≡ true → xs ≡ ys
bytes_eq_sound [] [] h = refl
bytes_eq_sound [] (y ∷ ys) h = cc
bytes_eq_sound (x ∷ xs) [] h = cc
bytes_eq_sound (x ∷ xs) (y ∷ ys) h = ground (arith, bytes_eq_sound xs ys)

pub bytes_eq_refl : (xs : List ℕ) → bytes_eq xs xs ≡ true
bytes_eq_refl [] = refl
bytes_eq_refl (x ∷ xs) = ground (arith, bytes_eq_refl xs)

-- A text up to its first zero byte, as `strnlen` measures it and `c_str` hands it on.
abbrev pub before_nul : List ℕ → List ℕ
before_nul [] = []
before_nul (ch ∷ s) = if ch == 0 then [] else ch ∷ before_nul s

-- `strncpy` into a field of `n` bytes: zeros behind a shorter text, no zero behind a longer one.
abbrev pub strncpy : ℕ → List ℕ → List ℕ
strncpy n s = let copied = take n (before_nul s) in copied ++ replicate (n - length copied) 0
