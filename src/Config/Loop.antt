-- ===== src/Config/Loop.antt =====
-- The loop over an array: its end, and when it has none.
use vwnet_lib.Base.{
  ℕ, zero, suc, ◌+◌, ◌%◌, ◌≤◌, ◌<◌, ◌^◌, ◌≡◌, refl, ◌∙◌, false, arith, ltb, lt→ltb,
}
use vwnet_lib.Config.{Reading, ok, threw, no_fuel, ◌>>=◌, for_uint16}

-- The same rounds, counted without a bound.
abbrev pub each {ℓ} : {S : Type ℓ} → (ℕ → S → Reading S) → ℕ → ℕ → S → Reading S
each body i zero s = ok s
each body i (suc n) s = body i s >>= each body (i + 1) n

le→not_ltb : (a b : ℕ) → b ≤ a → ltb a b ≡ false
le→not_ltb a b h = ground arith

-- The same goes on from the same value.
pub bind_same {ℓ κ} :
    {A : Type ℓ} {B : Type κ} {f g : A → Reading B} (now : Reading A)
    → ((a : A) → f a ≡ g a)
    → (now >>= f) ≡ (now >>= g)
unfolding ◌>>=◌
bind_same (ok a) same = same a
bind_same threw same = refl
bind_same no_fuel same = refl

module _ {ℓ} {S : Type ℓ} (body : ℕ → S → Reading S) where
  pub for_uint16-step :
      (fuel i size : ℕ) (s : S)
      → i < size
      → for_uint16 body (suc fuel) i size s
        ≡ (body i s >>= for_uint16 body fuel ((i + 1) % 2 ^ 16) size)
  unfolding for_uint16
  for_uint16-step fuel i size s more = rw (lt→ltb i size more, for_uint16)

  pub for_uint16_done :
      (fuel i size : ℕ) (s : S) → size ≤ i → for_uint16 body (suc fuel) i size s ≡ ok s
  unfolding for_uint16
  for_uint16_done fuel i size s all = rw (le→not_ltb i size all, for_uint16)

  -- For at most 65535 elements the counter does not wrap, and one round more than there are elements is
  -- enough: the loop does what the same rounds do, counted without a bound.
  pub for_uint16-each :
      (fuel i n : ℕ) (s : S)
      → i + n < 2 ^ 16
      → n < fuel
      → for_uint16 body fuel i (i + n) s ≡ each body i n s
  for_uint16-each zero i n s small enough = absurd (omega arith)
  for_uint16-each (suc fuel) i zero s small enough = for_uint16_done fuel i (i + 0) s (omega arith)
  for_uint16-each (suc fuel) i (suc n) s small enough =
      let next : (i + 1) % 2 ^ 16 ≡ i + 1 = omega arith in
      let size : i + suc n ≡ (i + 1) + n = omega arith in
      for_uint16-step fuel i (i + suc n) s (omega arith)
      ∙ rw (next, size)
          (bind_same (body i s)
            (λ s'. for_uint16-each fuel (i + 1) n s' (omega arith) (omega arith)))

  -- For more than 65535 elements, all of which are read, it never ends, however many rounds it has.
  pub for_uint16_endless :
      (fuel i size : ℕ) (s : S)
      → 2 ^ 16 ≤ size
      → i < 2 ^ 16
      → ((i : ℕ) (s : S) → (s' : S) × (body i s ≡ ok s'))
      → for_uint16 body fuel i size s ≡ no_fuel
  unfolding ◌>>=◌
  for_uint16_endless zero i size s long in_range reads = unfold for_uint16 in refl
  for_uint16_endless (suc fuel) i size s long in_range reads =
      let (s', read) = reads i s in
      for_uint16-step fuel i size s (omega arith)
      ∙ rw read (for_uint16_endless fuel ((i + 1) % 2 ^ 16) size s' long (omega arith) reads)
