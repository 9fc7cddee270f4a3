-- ===== src/Pool/Steps.antt =====
-- Induction over the actions of a run of the pool.
use vwnet_lib.Base.{
  ◌≡◌, refl, subst, Bool, true, false, List, [], ◌∷◌, Option, none, some, if◌then◌else◌,
}
use vwnet_lib.Pool.{Pool, Action, and_then, step, run}

module _ {Task : Type 0} (P : Pool Task → Type 0) where
  -- What is left of a possible action.
  abbrev pub After : Option (Pool Task) → Type 0
  After none = Unit {0}
  After (some p) = P p

  pub guarded :
      (b : Bool) (o : Option (Pool Task)) → (b ≡ true → After o) → After (if b then o else none)
  guarded true o h = h refl
  guarded false o h = tt

  pub and_then-After :
      {A : Type 0} (o : Option A) (f : A → Option (Pool Task))
      → ((x : A) → o ≡ some x → After (f x))
      → After (and_then o f)
  and_then-After none f h = tt
  and_then-After (some x) f h = h x refl

  run-After :
      ((action : Action Task) (p : Pool Task) → P p → After (step action p))
      → (actions : List (Action Task)) (p : Pool Task) → P p
      → After (run actions p)
  unfolding run
  run-After kept [] p h = h
  run-After kept (action ∷ rest) p h =
      and_then-After (step action p) (run rest)
        (λ p' e. run-After kept rest p' (subst After e (kept action p h)))

  -- What every action keeps holds at the end of a run.
  pub run_keeps :
      ((action : Action Task) (p : Pool Task) → P p → After (step action p))
      → (actions : List (Action Task)) (p p' : Pool Task) → run actions p ≡ some p'
      → P p
      → P p'
  run_keeps kept actions p p' e h = subst After e (run-After kept actions p h)
