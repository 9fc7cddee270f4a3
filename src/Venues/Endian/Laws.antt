-- ===== src/Venues/Endian/Laws.antt =====
-- The conversions of venues/common.cpp on the bytes of a word.
use mathlib.Core.List.{reverse-reverse}
use native.Mathlib.Nat.{pow-suc}
use vwnet_lib.Base.{
  ℕ, zero, suc, ◌+◌, ◌*◌, ◌/◌, ◌%◌, ◌^◌, ◌<◌, ◌≡◌, sym, ap, ◌∙◌, [], ◌∷◌, reverse, bit_and, arith,
}
use vwnet_lib.Base.Bits.{or_shifted, bit_and_byte}
use vwnet_lib.Venues.Endian.{
  reverse_endian16, reverse_endian32, reverse_endian64, reverse_endian_float, low_half64, store_le,
  load_le,
}

-- Byte `i` of a word, the lowest first.
abbrev byte : ℕ → ℕ → ℕ
byte i x = x / 2 ^ (8 * i) % 256

-- The bytes of a 16-bit word change places.
pub reverse_endian16_bytes : (x : ℕ) → reverse_endian16 x ≡ byte 1 x + byte 0 x * 2 ^ 8
unfolding reverse_endian16
reverse_endian16_bytes x =
    let hi : bit_and x 0xff00 / 2 ^ 8 ≡ byte 1 x = omega (arith, bit_and_byte 8 x) in
    let lo : bit_and x 0x00ff ≡ byte 0 x = omega (arith, bit_and_byte 0 x) in
    rw (hi, lo, or_shifted 8 (byte 0 x) (byte 1 x) (omega arith)) (omega arith)

pub reverse_endian32_bytes :
    (x : ℕ)
    → reverse_endian32 x ≡ byte 3 x + byte 2 x * 2 ^ 8 + byte 1 x * 2 ^ 16 + byte 0 x * 2 ^ 24
unfolding reverse_endian32
reverse_endian32_bytes x =
    let b3 : bit_and x 0xff000000 / 2 ^ 24 ≡ byte 3 x = omega (arith, bit_and_byte 24 x) in
    let b2 : bit_and x 0x00ff0000 / 2 ^ 8 ≡ byte 2 x * 2 ^ 8 = omega (arith, bit_and_byte 16 x) in
    let b1 : bit_and x 0x0000ff00 * 2 ^ 8 ≡ byte 1 x * 2 ^ 16 = omega (arith, bit_and_byte 8 x) in
    let b0 : bit_and x 0x000000ff ≡ byte 0 x = omega (arith, bit_and_byte 0 x) in
    rw
      (
        b3,
        b2,
        b1,
        b0,
        or_shifted 8 (byte 2 x) (byte 3 x) (omega arith),
        or_shifted 16 (byte 1 x) (byte 3 x + byte 2 x * 2 ^ 8) (omega arith),
        or_shifted 24 (byte 0 x) (byte 3 x + byte 2 x * 2 ^ 8 + byte 1 x * 2 ^ 16) (omega arith),
      )
      (omega arith)

low_half64_bytes :
    (x : ℕ) → low_half64 x ≡ byte 7 x + byte 6 x * 2 ^ 8 + byte 5 x * 2 ^ 16 + byte 4 x * 2 ^ 24
unfolding low_half64
low_half64_bytes x =
    let b7 : bit_and x 0xff00000000000000 / 2 ^ 56 ≡ byte 7 x = omega (arith, bit_and_byte 56 x) in
    let b6 : bit_and x 0x00ff000000000000 / 2 ^ 40 ≡ byte 6 x * 2 ^ 8 =
      omega (arith, bit_and_byte 48 x) in
    let b5 : bit_and x 0x0000ff0000000000 / 2 ^ 24 ≡ byte 5 x * 2 ^ 16 =
      omega (arith, bit_and_byte 40 x) in
    let b4 : bit_and x 0x000000ff00000000 / 2 ^ 8 ≡ byte 4 x * 2 ^ 24 =
      omega (arith, bit_and_byte 32 x) in
    rw (
      b7,
      b6,
      b5,
      b4,
      or_shifted 8 (byte 6 x) (byte 7 x) (omega arith),
      or_shifted 16 (byte 5 x) (byte 7 x + byte 6 x * 2 ^ 8) (omega arith),
      or_shifted 24 (byte 4 x) (byte 7 x + byte 6 x * 2 ^ 8 + byte 5 x * 2 ^ 16) (omega arith),
    )

pub reverse_endian64_bytes :
    (x : ℕ)
    → reverse_endian64 x
      ≡ byte 7 x
        + byte 6 x * 2 ^ 8
        + byte 5 x * 2 ^ 16
        + byte 4 x * 2 ^ 24
        + byte 3 x * 2 ^ 32
        + byte 2 x * 2 ^ 40
        + byte 1 x * 2 ^ 48
        + byte 0 x * 2 ^ 56
unfolding reverse_endian64
reverse_endian64_bytes x =
    let low = byte 7 x + byte 6 x * 2 ^ 8 + byte 5 x * 2 ^ 16 + byte 4 x * 2 ^ 24 in
    let b3 : bit_and x 0x00000000ff000000 * 2 ^ 8 ≡ byte 3 x * 2 ^ 32 =
      omega (arith, bit_and_byte 24 x) in
    let b2 : bit_and x 0x0000000000ff0000 * 2 ^ 24 ≡ byte 2 x * 2 ^ 40 =
      omega (arith, bit_and_byte 16 x) in
    let b1 : bit_and x 0x000000000000ff00 * 2 ^ 40 ≡ byte 1 x * 2 ^ 48 =
      omega (arith, bit_and_byte 8 x) in
    let b0 : bit_and x 0x00000000000000ff ≡ byte 0 x = omega (arith, bit_and_byte 0 x) in
    rw
      (
        low_half64_bytes x,
        b3,
        b2,
        b1,
        b0,
        or_shifted 32 (byte 3 x) low (omega arith),
        or_shifted 40 (byte 2 x) (low + byte 3 x * 2 ^ 32) (omega arith),
        or_shifted 48 (byte 1 x) (low + byte 3 x * 2 ^ 32 + byte 2 x * 2 ^ 40) (omega arith),
        or_shifted 56 (byte 0 x) (low + byte 3 x * 2 ^ 32 + byte 2 x * 2 ^ 40 + byte 1 x * 2 ^ 48)
            (omega arith),
      )
      (omega arith)

-- Converting a 16-, 32- or 64-bit word reverses its bytes in memory.
pub store_le-reverse_endian :
    (x : ℕ)
    → (store_le 2 (reverse_endian16 x) ≡ reverse (store_le 2 x))
      × (store_le 4 (reverse_endian32 x) ≡ reverse (store_le 4 x))
      × (store_le 8 (reverse_endian64 x) ≡ reverse (store_le 8 x))
store_le-reverse_endian x = (
  ground (arith, reverse_endian16_bytes x),
  ground (arith, reverse_endian32_bytes x),
  ground (arith, reverse_endian64_bytes x),
)

pub load_le-store_le : (n x : ℕ) → x < 256 ^ n → load_le (store_le n x) ≡ x
load_le-store_le zero x h = omega arith
load_le-store_le (suc n) x h =
    omega (arith, pow-suc 256 n, load_le-store_le n (x / 256) (omega (arith, pow-suc 256 n)))

pub reverse_endian16-lt : (x : ℕ) → reverse_endian16 x < 2 ^ 16
unfolding reverse_endian16
reverse_endian16-lt x = omega arith

pub reverse_endian32-lt : (x : ℕ) → reverse_endian32 x < 2 ^ 32
unfolding reverse_endian32
reverse_endian32-lt x = omega arith

reverse_endian64-lt : (x : ℕ) → reverse_endian64 x < 2 ^ 64
unfolding reverse_endian64
reverse_endian64-lt x = omega arith

-- Words that lie alike in memory are equal.
store_le_injective : (n x y : ℕ) → x < 256 ^ n → y < 256 ^ n → store_le n x ≡ store_le n y → x ≡ y
store_le_injective n x y p q e =
    sym (load_le-store_le n x p) ∙ ap load_le e ∙ load_le-store_le n y q

twice_by_bytes :
    (n : ℕ) (f : ℕ → ℕ) (x : ℕ)
    → ((y : ℕ) → store_le n (f y) ≡ reverse (store_le n y))
    → ((y : ℕ) → f y < 256 ^ n)
    → x < 256 ^ n
    → f (f x) ≡ x
twice_by_bytes n f x turns fits h =
    store_le_injective n (f (f x)) x (fits (f x)) h
      (turns (f x) ∙ ap reverse (turns x) ∙ reverse-reverse (store_le n x))

pub reverse_endian32_twice : (x : ℕ) → x < 2 ^ 32 → reverse_endian32 (reverse_endian32 x) ≡ x
reverse_endian32_twice x h =
    twice_by_bytes 4 reverse_endian32 x (λ y. (store_le-reverse_endian y).1) reverse_endian32-lt h

-- A word of 16, 32 or 64 bits, or the pattern of a float, converted twice is the word again.
pub reverse_endian_twice :
    (x y z : ℕ)
    → x < 2 ^ 16
    → y < 2 ^ 32
    → z < 2 ^ 64
    → (reverse_endian16 (reverse_endian16 x) ≡ x)
      × (reverse_endian32 (reverse_endian32 y) ≡ y)
      × (reverse_endian64 (reverse_endian64 z) ≡ z)
      × (reverse_endian_float (reverse_endian_float y) ≡ y)
unfolding reverse_endian_float
reverse_endian_twice x y z hx hy hz = (
  twice_by_bytes 2 reverse_endian16 x (λ n. (store_le-reverse_endian n).0) reverse_endian16-lt hx,
  reverse_endian32_twice y hy,
  twice_by_bytes 8 reverse_endian64 z (λ n. (store_le-reverse_endian n).2) reverse_endian64-lt hz,
  reverse_endian32_twice y hy,
)

pub reverse_endian16_twice : (x : ℕ) → x < 2 ^ 16 → reverse_endian16 (reverse_endian16 x) ≡ x
reverse_endian16_twice x h =
    twice_by_bytes 2 reverse_endian16 x (λ y. (store_le-reverse_endian y).0) reverse_endian16-lt h

-- The conversion of the word that a little-endian host reads from four bytes is the number that
-- the bytes spell in network order.
reverse_endian32-load_le :
    (a b c d : ℕ)
    → a < 256
    → b < 256
    → c < 256
    → d < 256
    → reverse_endian32 (load_le (a ∷ b ∷ c ∷ d ∷ [])) ≡ a * 2 ^ 24 + b * 2 ^ 16 + c * 2 ^ 8 + d
reverse_endian32-load_le a b c d p q r s =
    omega (arith, reverse_endian32_bytes (load_le (a ∷ b ∷ c ∷ d ∷ [])))

pub reverse_endian16-load_le :
    (a b : ℕ) → a < 256 → b < 256 → reverse_endian16 (load_le (a ∷ b ∷ [])) ≡ a * 2 ^ 8 + b
reverse_endian16-load_le a b p q = omega (arith, reverse_endian16_bytes (load_le (a ∷ b ∷ [])))
