-- ===== src/Venues/Trim.antt =====
-- venues/common.cpp, trimming. A text is the list of its bytes.
use mathlib.Core.List.{reverse-reverse, reverse-append}
use vwnet_lib.Base.{
  ℕ, ◌≡◌, refl, sym, ap, subst, ◌∙◌, Bool, true, false, ◌&&◌, ◌||◌, List, [], ◌∷◌, ◌++◌, reverse,
  append-nil, arith, ◌==◌, leb, if◌then◌else◌, Bool-cases, inl, inr,
}

-- `std::isspace` in the C locale.
abbrev pub is_space : ℕ → Bool
is_space ch = ch == 32 || (leb 9 ch && leb ch 13)

unfoldable pub ltrim : List ℕ → List ℕ
ltrim [] = []
ltrim (ch ∷ s) = if is_space ch then ltrim s else ch ∷ s

-- `find_if` from the back; what lies behind its `base()` is erased.
unfoldable pub rtrim : List ℕ → List ℕ
unfolding ltrim
rtrim s = reverse (ltrim (reverse s))

unfoldable pub trim : List ℕ → List ℕ
unfolding rtrim
trim s = rtrim (ltrim s)

abbrev pub all_space : List ℕ → Bool
all_space [] = true
all_space (ch ∷ s) = is_space ch && all_space s

abbrev pub starts_space : List ℕ → Bool
starts_space [] = false
starts_space (ch ∷ s) = is_space ch

ltrim-append_space : (pre s : List ℕ) → all_space pre ≡ true → ltrim (pre ++ s) ≡ ltrim s
unfolding ltrim
ltrim-append_space [] s h = refl
ltrim-append_space (ch ∷ pre) s h = ground (arith, ltrim-append_space pre s)

ltrim_id : (s : List ℕ) → starts_space s ≡ false → ltrim s ≡ s
unfolding ltrim
ltrim_id [] h = refl
ltrim_id (ch ∷ s) h = ground arith

ltrim_all : (s : List ℕ) → all_space s ≡ true → ltrim s ≡ []
unfolding ltrim
ltrim_all s h = ap ltrim (sym (append-nil s)) ∙ ltrim-append_space s [] h

all_space-append :
    (xs ys : List ℕ) → all_space xs ≡ true → all_space ys ≡ true → all_space (xs ++ ys) ≡ true
all_space-append [] ys p q = q
all_space-append (x ∷ xs) ys p q = ground (arith, all_space-append xs ys)

all_space-reverse : (s : List ℕ) → all_space s ≡ true → all_space (reverse s) ≡ true
all_space-reverse [] h = refl
all_space-reverse (ch ∷ s) h =
    rw (reverse-append (ch ∷ []) s)
      (all_space-append (reverse s) (ch ∷ []) (all_space-reverse s (ground arith)) (ground arith))

-- A text with white space before and behind a core that neither begins nor ends with any is
-- trimmed to the core.
pub trim-append :
    (pre core post : List ℕ)
    → all_space pre ≡ true
    → all_space post ≡ true
    → starts_space core ≡ false
    → starts_space (reverse core) ≡ false
    → trim (pre ++ (core ++ post)) ≡ core
unfolding trim
trim-append pre [] post p q b e = rw (ltrim-append_space pre post p, ltrim_all post q)
trim-append pre (ch ∷ core) post p q b e =
    rw
      (
        ltrim-append_space pre ((ch ∷ core) ++ post) p,
        ltrim_id ((ch ∷ core) ++ post) b,
        reverse-append (ch ∷ core) post,
        ltrim-append_space (reverse post) (reverse (ch ∷ core)) (all_space-reverse post q),
        ltrim_id (reverse (ch ∷ core)) e,
      )
      (reverse-reverse (ch ∷ core))

-- What `ltrim` removes is white space, and what it leaves does not begin with any.
record LeftParts (s : List ℕ) : Type 0 where
  pre : List ℕ
  whole : s ≡ pre ++ ltrim s
  blank : all_space pre ≡ true
  starts : starts_space (ltrim s) ≡ false

left_parts : (s : List ℕ) → LeftParts s
unfolding ltrim
left_parts [] = record { pre = []; whole = refl; blank = refl; starts = refl }
left_parts (ch ∷ s) = elim (Bool-cases (is_space ch)) [
  | inl space ↦
      let rest = left_parts s in
      record {
        pre = ch ∷ rest.pre;
        whole = rw space (ap (◌∷◌ ch) rest.whole);
        blank = ground (arith, rest.blank);
        starts = rw space rest.starts;
      }
  | inr other ↦ record { pre = []; whole = rw other; blank = refl; starts = rw other other }
]

starts_space-append : (xs ys : List ℕ) → starts_space (xs ++ ys) ≡ false → starts_space xs ≡ false
starts_space-append [] ys h = refl
starts_space-append (x ∷ xs) ys h = h

-- `trim` removes white space at both ends, and all of it: the text is some white space, the result,
-- and more white space, and the result neither begins nor ends with any.
pub trim_parts :
    (s : List ℕ)
    → (pre : List ℕ) × (post : List ℕ) × (s ≡ pre ++ (trim s ++ post))
      × (all_space pre ≡ true)
      × (all_space post ≡ true)
      × (starts_space (trim s) ≡ false)
      × (starts_space (reverse (trim s)) ≡ false)
unfolding trim
trim_parts s = (
  left.pre,
  reverse right.pre,
  left.whole ∙ ap (◌++◌ left.pre) tail,
  left.blank,
  all_space-reverse right.pre right.blank,
  starts_space-append (trim s) (reverse right.pre)
      (subst (λ t. starts_space t ≡ false) tail left.starts),
  rw (reverse-reverse (ltrim (reverse (ltrim s)))) right.starts,
)
  where
    left : LeftParts s
    left = left_parts s

    right : LeftParts (reverse (ltrim s))
    right = left_parts (reverse (ltrim s))

    tail : ltrim s ≡ trim s ++ reverse right.pre
    tail =
        sym (reverse-reverse (ltrim s))
        ∙ ap reverse right.whole
        ∙ reverse-append right.pre (ltrim (reverse (ltrim s)))
