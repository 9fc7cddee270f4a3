-- ===== src/Base/Bits.antt =====
-- Byte fields of a word cut out by `&` and put together by `|`, as arithmetic.
use Prim.Native.Nat.{
  ℕ, zero, suc, ◌+◌, ◌*◌, ◌/◌, ◌%◌, ◌^◌, ◌≤◌, ◌<◌, min, max, bit_and, bit_or, digits, bitwise,
  bit_and-bitwise, bit_or-bitwise,
}
use mathlib.Core.Path.{◌≡◌, refl, sym, ap, ◌∙◌}
use native.Mathlib.Nat.{pow-suc, div-div-eq-div-mul}
use native.Mathlib.Omega.{arith}

-- Any operation that works digit by digit: `rest` is what it makes of the second number when the first
-- has no digits left, and `join` what it makes of two digits.
module _ (rest : ℕ → ℕ) (join : ℕ → ℕ → ℕ) where
  no_digits : (count b : ℕ) → digits rest join count 0 b ≡ rest b
  no_digits zero b = refl
  no_digits (suc count) b = refl

  -- A count that is large enough may be larger.
  counts_agree :
      (count other x b : ℕ)
      → x ≤ count
      → x ≤ other
      → digits rest join count x b ≡ digits rest join other x b
  counts_agree count other zero b small small' = no_digits count b ∙ sym (no_digits other b)
  counts_agree zero other (suc x) b small small' = absurd (omega arith)
  counts_agree (suc count) zero (suc x) b small small' = absurd (omega arith)
  counts_agree (suc count) (suc other) (suc x) b small small' =
      ap (λ t. t * 2 + join (suc x % 2) (b % 2))
        (counts_agree count other (suc x / 2) (b / 2) (omega arith) (omega arith))

  lowest_digit :
      ((b : ℕ) → rest b ≡ rest (b / 2) * 2 + join 0 (b % 2))
      → (x b : ℕ)
      → bitwise rest join x b ≡ bitwise rest join (x / 2) (b / 2) * 2 + join (x % 2) (b % 2)
  lowest_digit at_end zero b = at_end b
  lowest_digit at_end (suc x) b =
      ap (λ t. t * 2 + join (suc x % 2) (b % 2))
        (counts_agree x (suc x / 2) (suc x / 2) (b / 2) (omega arith) (omega arith))

bit_and_halves : (x b : ℕ) → bit_and x b ≡ bit_and (x / 2) (b / 2) * 2 + min (x % 2) (b % 2)
bit_and_halves x b =
    bit_and-bitwise x b
    ∙ lowest_digit (λ _. 0) min (λ c. omega arith) x b
    ∙ ap (λ t. t * 2 + min (x % 2) (b % 2)) (sym (bit_and-bitwise (x / 2) (b / 2)))

bit_or_halves : (x b : ℕ) → bit_or x b ≡ bit_or (x / 2) (b / 2) * 2 + max (x % 2) (b % 2)
bit_or_halves x b =
    bit_or-bitwise x b
    ∙ lowest_digit (λ c. c) max (λ c. omega arith) x b
    ∙ ap (λ t. t * 2 + max (x % 2) (b % 2)) (sym (bit_or-bitwise (x / 2) (b / 2)))

bit_or_none : (b : ℕ) → bit_or 0 b ≡ b
bit_or_none b = bit_or-bitwise 0 b

-- One place further is twice as much.
next_place : (places field : ℕ) → field * 2 ^ suc places ≡ 2 * (field * 2 ^ places)
next_place places field =
    let e : 2 ^ suc places ≡ 2 ^ places * 2 = pow-suc 2 places in rw e (omega arith)

-- A field moved above the low bits is joined to them by `|` as by a sum.
pub or_shifted :
    (places field low : ℕ)
    → low < 2 ^ places
    → bit_or low (field * 2 ^ places) ≡ low + field * 2 ^ places
or_shifted zero field low below = ground (arith, bit_or_none (field * 1))
or_shifted (suc places) field low below =
    let half : low / 2 < 2 ^ places = omega (arith, pow-suc 2 places) in
    ground (
      arith,
      or_shifted places field (low / 2) half,
      next_place places field,
      bit_or_halves low (field * 2 ^ suc places),
    )

-- A mask of eight ones keeps the lowest byte.
none_kept : (count x : ℕ) → digits (λ _. 0) min count x 0 ≡ 0
none_kept zero x = refl
none_kept (suc count) zero = refl
none_kept (suc count) (suc x) = omega (arith, none_kept count (suc x / 2))

bit_and_none : (x : ℕ) → bit_and x 0 ≡ 0
bit_and_none x = bit_and-bitwise x 0 ∙ none_kept x x

three_ones : (x : ℕ) → bit_and x 7 ≡ x % 8
three_ones x = omega (
  arith,
  bit_and_none (x / 2 / 2 / 2),
  bit_and_halves (x / 2 / 2) 1,
  bit_and_halves (x / 2) 3,
  bit_and_halves x 7,
)

six_ones : (x : ℕ) → bit_and x 63 ≡ x % 64
six_ones x = omega (
  arith,
  three_ones (x / 2 / 2 / 2),
  bit_and_halves (x / 2 / 2) 15,
  bit_and_halves (x / 2) 31,
  bit_and_halves x 63,
)

eight_ones : (x : ℕ) → bit_and x 255 ≡ x % 256
eight_ones x = omega (arith, six_ones (x / 2 / 2), bit_and_halves (x / 2) 127, bit_and_halves x 255)

halve : (n : ℕ) → 2 * n / 2 ≡ n
halve n = omega arith

half-pow : (a k : ℕ) → a / 2 / 2 ^ k ≡ a / 2 ^ suc k
half-pow a k =
    let e : 2 * 2 ^ k ≡ 2 ^ suc k = omega (arith, pow-suc 2 k) in
    rw (div-div-eq-div-mul a 2 (2 ^ k), e)

-- A mask shifted by `k` places cuts the field out where it stands.
bit_and_shift : (k m a : ℕ) → bit_and a (m * 2 ^ k) ≡ bit_and (a / 2 ^ k) m * 2 ^ k
bit_and_shift zero m a =
    let e : m * 1 ≡ m = omega arith in let e' : a / 1 ≡ a = omega arith in rw (e, e') (omega arith)
bit_and_shift (suc k) m a = omega (
  arith,
  bit_and_halves a (m * 2 ^ suc k),
  ap (λ (t : ℕ). bit_and a t) (next_place k m),
  bit_and_halves a (2 * (m * 2 ^ k)),
  ap (λ (t : ℕ). bit_and (a / 2) t) (halve (m * 2 ^ k)),
  bit_and_shift k m (a / 2),
  ap (λ (t : ℕ). bit_and t m * 2 ^ k) (half-pow a k),
  next_place k (bit_and (a / 2 ^ suc k) m),
)

pub bit_and_byte : (k a : ℕ) → bit_and a (255 * 2 ^ k) ≡ a / 2 ^ k % 256 * 2 ^ k
bit_and_byte k a = bit_and_shift k 255 a ∙ ap (λ (t : ℕ). t * 2 ^ k) (eight_ones (a / 2 ^ k))
