-- ===== src/Config/Ends.antt =====
-- Readings that end, with what then holds of their value.
use native.Mathlib.Nat.{zero-add}
use vwnet_lib.Base.{
  ℕ, zero, suc, ◌+◌, ◌<◌, ◌^◌, ◌≡◌, sym, subst, Option, none, some, arith, if_both,
}
use vwnet_lib.Config.{
  Json, Reading, ok, threw, no_fuel, ◌>>=◌, asked, for_uint16, get_uint, get_string, get_text, Key,
}
use vwnet_lib.Config.Loop.{each, for_uint16-each}

-- It ends, and of a value that it gives `P` holds.
abbrev pub Ends {ℓ} : {A : Type ℓ} → (A → Type 0) → Reading A → Type 0
Ends P (ok a) = P a
Ends P threw = Unit {0}
Ends P no_fuel = ⊥

abbrev pub Any {ℓ} : {A : Type ℓ} → A → Type 0
Any a = Unit {0}

pub bind_Ends {ℓ κ} :
    {A : Type ℓ} {B : Type κ} (P : A → Type 0) (Q : B → Type 0) (f : A → Reading B)
    (now : Reading A)
    → Ends P now
    → ((a : A) → P a → Ends Q (f a))
    → Ends Q (now >>= f)
unfolding ◌>>=◌
bind_Ends P Q f (ok a) p next = next a p
bind_Ends P Q f threw p next = tt
bind_Ends P Q f no_fuel p next = absurd p

pub asked_Ends {ℓ} : {A : Type ℓ} (answer : Option A) → Ends Any (asked answer)
asked_Ends none = tt
asked_Ends (some a) = tt

module _ (json : Json) where
  pub get_uint_Ends : (v : json.Value) (key : Key) → Ends Any (get_uint json v key)
  get_uint_Ends v key = bind_Ends Any _ _ _ (asked_Ends _) (λ a t. asked_Ends _)

  pub get_string_Ends : (v : json.Value) (key : Key) → Ends Any (get_string json v key)
  get_string_Ends v key = bind_Ends Any _ _ _ (asked_Ends _) (λ a t. asked_Ends _)

  pub get_text_Ends : (v : json.Value) (key : Key) → Ends Any (get_text json v key)
  get_text_Ends v key =
      bind_Ends Any _ _ _ (asked_Ends _)
        (λ a t. if_both (Ends Any) (json.is_string a) (asked_Ends (json.as_string a)) tt)

module _ {ℓ} {S : Type ℓ} (body : ℕ → S → Reading S) (P : S → Type 0)
    (keeps : (i : ℕ) (s : S) → P s → Ends P (body i s)) where
  each_Ends : (i n : ℕ) (s : S) → P s → Ends P (each body i n s)
  each_Ends i zero s p = p
  each_Ends i (suc n) s p =
      bind_Ends P P _ (body i s) (keeps i s p) (λ s' p'. each_Ends (i + 1) n s' p')

  -- What every round keeps the loop keeps, and it ends.
  pub for_uint16_Ends :
      (fuel size : ℕ) (s : S)
      → size < 2 ^ 16
      → size < fuel
      → P s
      → Ends P (for_uint16 body fuel 0 size s)
  for_uint16_Ends fuel size s small enough p =
      let whole : for_uint16 body fuel 0 size s ≡ each body 0 size s =
        simp zero-add at (for_uint16-each body fuel 0 size s (omega arith) enough) in
      subst (Ends P) (sym whole) (each_Ends 0 size s p)
