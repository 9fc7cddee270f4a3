-- ===== src/Pool/Stop.antt =====
-- Stop sets `Running_` and notifies without the lock: a worker between the predicate and the wait
-- misses it.
use vwnet_lib.Base.{
  ℕ, zero, suc, ◌≡◌, ◌≢◌, refl, sym, ap, subst, ◌∙◌, inl, inr, Bool, true, false, ◌&&◌, List, [],
  ◌∷◌, Option, none, some, arith, get_elem?, set, Bool-cases,
}
use vwnet_lib.Pool.{
  Worker, looping, locking, checked, waiting, finished, executing, Pool, Action, commit, work,
  notify_one, notify_nobody, clear_running, notify_all, mutex_free, at, take_task, work_as, wake,
  wake_all, and_then, step, run,
}

module _ {Task : Type 0} where
  get_elem?-set_other :
      (workers : List (Worker Task)) (i j : ℕ) (v : Worker Task)
      → i ≢ j
      → get_elem? (set workers j v) i ≡ get_elem? workers i
  get_elem?-set_other [] i j v ne = refl
  get_elem?-set_other (w ∷ workers) zero zero v ne = absurd (ne refl)
  get_elem?-set_other (w ∷ workers) zero (suc j) v ne = refl
  get_elem?-set_other (w ∷ workers) (suc i) zero v ne = refl
  get_elem?-set_other (w ∷ workers) (suc i) (suc j) v ne =
      get_elem?-set_other workers i j v (λ e. ne (ap suc e))

  get_elem?-set_same :
      (workers : List (Worker Task)) (i : ℕ) (v w : Worker Task)
      → get_elem? workers i ≡ some w
      → get_elem? (set workers i v) i ≡ some v
  get_elem?-set_same [] i v w e = ground arith
  get_elem?-set_same (u ∷ workers) zero v w e = refl
  get_elem?-set_same (u ∷ workers) (suc i) v w e = get_elem?-set_same workers i v w e

  get_elem?-wake_all :
      (workers : List (Worker Task)) (i : ℕ)
      → get_elem? workers i ≡ some checked
      → get_elem? (wake_all workers) i ≡ some checked
  get_elem?-wake_all [] i e = ground arith
  get_elem?-wake_all (w ∷ workers) zero e = ap (λ o. wake_in o) e
    where
      wake_in : Option (Worker Task) → Option (Worker Task)
      wake_in none = none
      wake_in (some u) = some (wake u)
  get_elem?-wake_all (w ∷ workers) (suc i) e = get_elem?-wake_all workers i e

  -- Worker `i` is blocked, and no notification is under way or will come from Stop.
  pub record IsAbandoned (i : ℕ) (p : Pool Task) : Type 0 where
    pub blocked : get_elem? p.workers i ≡ some waiting
    pub stopped : p.running ≡ false
    pub none_owed : p.notify_owed ≡ 0
    pub no_stop : p.stop_owed ≡ false

  abbrev Abandoned : ℕ → Option (Pool Task) → Type 0
  Abandoned i none = Unit {0}
  Abandoned i (some p) = IsAbandoned i p

  -- An action other than a commit.
  abbrev pub no_commit : Action Task → Bool
  no_commit (commit task) = false
  no_commit _ = true

  at-IsAbandoned :
      (i j : ℕ) (w : Worker Task) (p : Pool Task)
      → i ≢ j
      → IsAbandoned i p
      → IsAbandoned i (at j w p)
  at-IsAbandoned i j w p ne h = record {
    blocked = get_elem?-set_other p.workers i j w ne ∙ h.blocked;
    stopped = h.stopped;
    none_owed = h.none_owed;
    no_stop = h.no_stop;
  }

  take_task-IsAbandoned :
      (i j : ℕ) (tasks : List Task) (p : Pool Task)
      → i ≢ j
      → IsAbandoned i p
      → IsAbandoned i (take_task j tasks p)
  unfolding take_task
  take_task-IsAbandoned i j [] p ne h = at-IsAbandoned i j _ p ne h
  take_task-IsAbandoned i j (task ∷ rest) p ne h =
      let moved = at-IsAbandoned i j (executing task) p ne h in
      record {
        blocked = moved.blocked;
        stopped = moved.stopped;
        none_owed = moved.none_owed;
        no_stop = moved.no_stop;
      }

  apart :
      (i j : ℕ) (p : Pool Task) (w : Worker Task)
      → get_elem? p.workers j ≡ some w
      → IsAbandoned i p
      → w ≢ waiting
      → i ≢ j
  apart i j p w e h ne same =
      ne (some_injective (sym e ∙ ap (get_elem? p.workers) (sym same) ∙ h.blocked))
    where
      some_injective : {u v : Worker Task} → some u ≡ some v → u ≡ v
      some_injective q = ground arith

  -- The blocked worker cannot move, and what another does leaves it so.
  work_as-Abandoned :
      (i j : ℕ) (w : Worker Task) (p : Pool Task)
      → get_elem? p.workers j ≡ some w
      → IsAbandoned i p
      → Abandoned i (work_as w j p)
  unfolding work_as
  work_as-Abandoned i j waiting p e h = tt
  work_as-Abandoned i j finished p e h = tt
  work_as-Abandoned i j looping p e h = at-IsAbandoned i j _ p (apart i j p looping e h (λ q. cc)) h
  work_as-Abandoned i j checked p e h = at-IsAbandoned i j _ p (apart i j p checked e h (λ q. cc)) h
  work_as-Abandoned i j (executing task) p e h =
      at-IsAbandoned i j _ p (apart i j p (executing task) e h (λ q. cc)) h
  work_as-Abandoned i j locking p e h = elim (Bool-cases (mutex_free p.workers)) [
    | inl free ↦ rw free (take_task-IsAbandoned i j p.tasks p (apart i j p locking e h (λ q. cc)) h)
    | inr held ↦ rw held tt
  ]

  and_then-Abandoned :
      {A : Type 0} (i : ℕ) (o : Option A) (f : A → Option (Pool Task))
      → ((x : A) → o ≡ some x → Abandoned i (f x))
      → Abandoned i (and_then o f)
  and_then-Abandoned i none f each = tt
  and_then-Abandoned i (some x) f each = each x refl

  step-Abandoned :
      (i : ℕ) (action : Action Task) (p : Pool Task)
      → no_commit action ≡ true
      → IsAbandoned i p
      → Abandoned i (step action p)
  unfolding step
  step-Abandoned i (commit task) p n h = absurd (ground arith)
  step-Abandoned i (work j) p n h =
      and_then-Abandoned i (get_elem? p.workers j) _ (λ w e. work_as-Abandoned i j w p e h)
  step-Abandoned i (notify_one j) p n h = rw h.none_owed tt
  step-Abandoned i notify_nobody p n h = rw h.none_owed tt
  step-Abandoned i clear_running p n h = rw h.stopped tt
  step-Abandoned i notify_all p n h = rw h.no_stop tt

  abbrev pub no_commits : List (Action Task) → Bool
  no_commits [] = true
  no_commits (action ∷ rest) = no_commit action && no_commits rest

  run-Abandoned :
      (i : ℕ) (actions : List (Action Task)) (p : Pool Task)
      → no_commits actions ≡ true
      → IsAbandoned i p
      → Abandoned i (run actions p)
  unfolding run
  run-Abandoned i [] p n h = h
  run-Abandoned i (action ∷ rest) p n h = and_then-Abandoned i (step action p) (run rest) (λ p' e.
      run-Abandoned i rest p' (ground arith)
        (subst (Abandoned i) e (step-Abandoned i action p (ground arith) h)))

  -- What Stop leaves when worker `i` blocks behind its back.
  abbrev pub missed : ℕ → Pool Task → Pool Task
  missed i p = record p {
    running = false;
    stop_owed = false;
    workers = set (wake_all p.workers) i waiting;
  }

  missed-IsAbandoned :
      (i : ℕ) (p : Pool Task)
      → get_elem? p.workers i ≡ some checked
      → p.notify_owed ≡ 0
      → IsAbandoned i (missed i p)
  missed-IsAbandoned i p at_wait none_owed = record {
    blocked =
        get_elem?-set_same (wake_all p.workers) i waiting checked
          (get_elem?-wake_all p.workers i at_wait);
    stopped = refl;
    none_owed = none_owed;
    no_stop = refl;
  }

  -- While a worker has found the predicate of its wait false and is not blocked yet, both steps of Stop
  -- can be done; then it blocks, and if no notification of a Commit is outstanding, whatever the threads
  -- do without another Commit, no notification wakes it: it is still blocked, and so is the join in Stop.
  pub missed_stop :
      (i : ℕ) (p p' : Pool Task) (actions : List (Action Task))
      → get_elem? p.workers i ≡ some checked
      → p.running ≡ true
      → p.notify_owed ≡ 0
      → no_commits actions ≡ true
      → run actions (missed i p) ≡ some p'
      → (run (clear_running ∷ notify_all ∷ work i ∷ []) p ≡ some (missed i p))
        × (get_elem? p'.workers i ≡ some waiting)
  unfolding run step work_as
  missed_stop i p p' actions at_wait running none_owed quiet e = (
    rw (running, get_elem?-wake_all p.workers i at_wait) refl,
    (subst (Abandoned i) e (
        run-Abandoned i actions (missed i p) quiet
          (missed-IsAbandoned i p at_wait none_owed))).blocked,
  )
