-- ===== src/Base/Maps.antt =====
-- `std::unordered_map` as an association list, `std::set<int>` as an ascending list, and the signed
-- numbers that serve as keys.
use Prim.Native.Nat.{ℕ}
use mathlib.Core.Path.{◌≡◌, refl}
use mathlib.Core.Logic.{◌↔◌}
use mathlib.Core.Bool.{Bool, true, false, ◌||◌}
use mathlib.Core.List.{List, [], ◌∷◌}
use mathlib.Core.Option.{Option, none, some}
use native.Mathlib.Omega.{arith}
use vwnet_lib.Base.Tests.{ltb, ◌==◌, ==_iff, if◌then◌else◌}
use vwnet_lib.Base.Lists.{length}

-- `negsuc n` is -(n + 1).
pub data ℤ : Type 0 where
  pos : ℕ → ℤ
  negsuc : ℕ → ℤ

abbrev pub int_eq : ℤ → ℤ → Bool
int_eq (pos a) (pos b) = a == b
int_eq (pos a) (negsuc b) = false
int_eq (negsuc a) (pos b) = false
int_eq (negsuc a) (negsuc b) = a == b

pub int_eq_iff : (a b : ℤ) → (int_eq a b ≡ true) ↔ (a ≡ b)
int_eq_iff (pos a) (pos b) = ground arith
int_eq_iff (pos a) (negsuc b) = ground arith
int_eq_iff (negsuc a) (pos b) = ground arith
int_eq_iff (negsuc a) (negsuc b) = ground arith

-- The equality of a type of keys.
pub record Eq (K : Type 0) : Type 0 where
  pub beq : K → K → Bool
  pub beq_iff : (a b : K) → (beq a b ≡ true) ↔ (a ≡ b)

instance abbrev pub nat_eq : Eq ℕ
nat_eq = record { beq = ◌==◌; beq_iff = ==_iff }

instance abbrev pub int_eq_instance : Eq ℤ
int_eq_instance = record { beq = int_eq; beq_iff = int_eq_iff }

abbrev pub Map : Type 0 → Type 0 → Type 0
Map K V = List (K × V)

module _ {V : Type 0} where
  abbrev pub or_else : Option V → V → V
  or_else none v = v
  or_else (some w) v = w

  abbrev pub replaced : Option V → V → Option V
  replaced none v = none
  replaced (some w) v = some v

module _ {K V : Type 0} ⦃e : Eq K⦄ where
  -- `find`; `none` is `end()`.
  unfoldable pub find : K → Map K V → Option V
  find k [] = none
  find k ((j, v) ∷ m) = if e.beq j k then some v else find k m

  -- `emplace` leaves an entry that is there as it is.
  unfoldable pub emplace : K → V → Map K V → Map K V
  emplace k v [] = (k, v) ∷ []
  emplace k v ((j, w) ∷ m) = if e.beq j k then (j, w) ∷ m else (j, w) ∷ emplace k v m

  -- A write through the iterator that `find` returned; nothing at `end()`.
  unfoldable pub assign : K → V → Map K V → Map K V
  assign k v [] = []
  assign k v ((j, w) ∷ m) = if e.beq j k then (j, v) ∷ m else (j, w) ∷ assign k v m

  unfoldable pub erase : K → Map K V → Map K V
  erase k [] = []
  erase k ((j, w) ∷ m) = let rest = erase k m in if e.beq j k then rest else (j, w) ∷ rest

  pub find-emplace :
      (k j : K) (v : V) (m : Map K V)
      → find j (emplace k v m) ≡ (if e.beq k j then some (or_else (find k m) v) else find j m)
  unfolding find emplace
  find-emplace k j v [] = ground arith
  find-emplace k j v ((i, w) ∷ m) =
      ground (arith, e.beq_iff k j, e.beq_iff i k, e.beq_iff i j, find-emplace k j v m)

  pub find-assign :
      (k j : K) (v : V) (m : Map K V)
      → find j (assign k v m) ≡ (if e.beq k j then replaced (find k m) v else find j m)
  unfolding find assign
  find-assign k j v [] =
      elim (e.beq k j) as (λ b. ◌≡◌ {A = Option V} none (if b then none else none)) [
        | true ↦ refl
        | false ↦ refl
      ]
  find-assign k j v ((i, w) ∷ m) =
      ground (arith, e.beq_iff k j, e.beq_iff i k, e.beq_iff i j, find-assign k j v m)

  pub find-erase :
      (k j : K) (m : Map K V) → find j (erase k m) ≡ (if e.beq k j then none else find j m)
  unfolding find erase
  find-erase k j [] = ground arith
  find-erase k j ((i, w) ∷ m) =
      ground (arith, e.beq_iff k j, e.beq_iff i k, e.beq_iff i j, find-erase k j m)

-- Sets of descriptors, in ascending order as they are iterated.
abbrev pub member : ℕ → List ℕ → Bool
member a [] = false
member a (x ∷ s) = x == a || member a s

pub insert : ℕ → List ℕ → List ℕ
insert a [] = a ∷ []
insert a (x ∷ s) =
    let rest = insert a s in if a == x then x ∷ s else if ltb a x then a ∷ (x ∷ s) else x ∷ rest

pub remove : ℕ → List ℕ → List ℕ
remove a [] = []
remove a (x ∷ s) = let rest = remove a s in if x == a then rest else x ∷ rest

pub member-insert : (a b : ℕ) (s : List ℕ) → member b (insert a s) ≡ (a == b || member b s)
unfolding insert
member-insert a b [] = refl
member-insert a b (x ∷ s) = ground (arith, member-insert a b s)

pub member-remove :
    (a b : ℕ) (s : List ℕ) → member b (remove a s) ≡ (if a == b then false else member b s)
unfolding remove
member-remove a b [] = ground arith
member-remove a b (x ∷ s) = ground (arith, member-remove a b s)

-- A set without members has size 0.
pub length-eq-zero : (s : List ℕ) → ((b : ℕ) → member b s ≡ false) → length s ≡ 0
length-eq-zero [] h = refl
length-eq-zero (x ∷ s) h = ground (arith, h x)
