-- ===== src/Pool/Wake.antt =====
-- No wake-up is lost while the pool runs: Commit notifies for every task, after it has put the task
-- into the queue under the lock.
use vwnet_lib.Base.{
  ℕ, zero, suc, ◌+◌, ◌≤◌, ◌≡◌, ◌⊎◌, refl, ap, ap₂, replicate, inl, inr, Bool, true, false, ◌&&◌,
  List, [], ◌∷◌, length, length-append, some, arith, get_elem?, set, ltb, Bool-cases,
}
use vwnet_lib.Pool.Steps.{After, guarded, and_then-After, run_keeps}
use vwnet_lib.Pool.{
  Worker, looping, locking, checked, waiting, finished, executing, Pool, Action, commit, work,
  notify_one, notify_nobody, clear_running, notify_all, is_checked, is_waiting, mutex_free,
  none_waiting, take_task, work_as, wake, wake_all, wake_one, step, run, started_pool,
}

-- How many elements pass a test.
abbrev pub bit : Bool → ℕ
bit true = 1
bit false = 0

abbrev pub tally : {A : Type 0} → (A → Bool) → List A → ℕ
tally f [] = 0
tally f (x ∷ xs) = bit (f x) + tally f xs

pub tally-set :
    {A : Type 0} (f : A → Bool) (xs : List A) (i : ℕ) (x y : A)
    → get_elem? xs i ≡ some x
    → tally f (set xs i y) + bit (f x) ≡ tally f xs + bit (f y)
tally-set f [] i x y e = ground arith
tally-set f (z ∷ xs) zero x y e =
    let same : bit (f z) ≡ bit (f x) = ground (arith, e) in omega arith
tally-set f (z ∷ xs) (suc i) x y e = omega (arith, tally-set f xs i x y e)

module _ {Task : Type 0} where
  -- On the way to the queue: a worker that will look at it before it sleeps.
  abbrev pub is_coming : Worker Task → Bool
  is_coming looping = true
  is_coming locking = true
  is_coming _ = false

  tally-mutex_free :
      (workers : List (Worker Task)) → mutex_free workers ≡ true → tally is_checked workers ≡ 0
  tally-mutex_free [] e = refl
  tally-mutex_free (w ∷ workers) e = elim (Bool-cases (is_checked w)) [
    | inl held ↦ ground (arith, held, e)
    | inr free ↦ rw free (omega (arith, tally-mutex_free workers (simp free at e)))
  ]

  tally-none_waiting :
      (workers : List (Worker Task)) → none_waiting workers ≡ true → tally is_waiting workers ≡ 0
  tally-none_waiting [] e = refl
  tally-none_waiting (w ∷ workers) e = elim (Bool-cases (is_waiting w)) [
    | inl asleep ↦ ground (arith, asleep, e)
    | inr awake ↦ rw awake (omega (arith, tally-none_waiting workers (simp awake at e)))
  ]

  -- Whoever has found the queue empty still has the lock, so it is empty; and while the pool runs and
  -- a worker sleeps, each task in the queue has a notification that is owed or a worker that comes.
  pub record IsAwake (p : Pool Task) : Type 0 where
    pub holder : (tally is_checked p.workers ≡ 0) ⊎ (length p.tasks ≡ 0)
    pub woken :
        p.running ≡ true
        → (tally is_waiting p.workers ≡ 0)
          ⊎ (length p.tasks ≤ p.notify_owed + tally is_coming p.workers)

  module _ (p : Pool Task) (h : IsAwake p) (i : ℕ) where
    -- The three tallies when worker `i` goes from `w` to `v`.
    record Moved (w v : Worker Task) : Type 0 where
      pub checks :
          tally is_checked (set p.workers i v) + bit (is_checked w)
          ≡ tally is_checked p.workers + bit (is_checked v)
      pub waits :
          tally is_waiting (set p.workers i v) + bit (is_waiting w)
          ≡ tally is_waiting p.workers + bit (is_waiting v)
      pub comes :
          tally is_coming (set p.workers i v) + bit (is_coming w)
          ≡ tally is_coming p.workers + bit (is_coming v)

    moved : (w v : Worker Task) → get_elem? p.workers i ≡ some w → Moved w v
    moved w v e = record {
      checks = tally-set is_checked p.workers i w v e;
      waits = tally-set is_waiting p.workers i w v e;
      comes = tally-set is_coming p.workers i w v e;
    }

    take_task-IsAwake :
        (tasks : List Task)
        → p.tasks ≡ tasks
        → mutex_free p.workers ≡ true
        → get_elem? p.workers i ≡ some locking
        → IsAwake (take_task i tasks p)
    unfolding take_task
    take_task-IsAwake [] e free here = elim (Bool-cases p.running) [
      | inl on ↦
          rw on
            (record { holder = inr (ap length e); woken = λ on'. inr (omega (arith, ap length e)) })
      | inr off ↦ rw off (record { holder = inr (ap length e); woken = λ on. cc })
    ]
    take_task-IsAwake (task ∷ rest) e free here =
        let m = moved locking (executing task) here in
        record {
          holder = inl (omega (arith, tally-mutex_free p.workers free, m.checks));
          woken = λ on. ground (arith, e, h.woken on, m.waits, m.comes);
        }

    work_as-IsAwake :
        (w : Worker Task) → get_elem? p.workers i ≡ some w → After IsAwake (work_as w i p)
    unfolding work_as
    work_as-IsAwake looping here = elim (Bool-cases p.running) [
      | inl on ↦
          let m = moved looping locking here in
          rw on (record {
            holder = ground (arith, h.holder, m.checks);
            woken = λ on'. ground (arith, h.woken on, m.waits, m.comes);
          })
      | inr off ↦
          let m = moved looping finished here in
          rw off (record { holder = ground (arith, h.holder, m.checks); woken = λ on. cc })
    ]
    work_as-IsAwake locking here = elim (Bool-cases (mutex_free p.workers)) [
      | inl free ↦ rw free (take_task-IsAwake p.tasks refl free here)
      | inr held ↦ rw held tt
    ]
    work_as-IsAwake checked here =
        let m = moved checked waiting here in
        record {
          holder = ground (arith, h.holder, m.checks);
          woken = λ on. ground (arith, h.holder, m.checks);
        }
    work_as-IsAwake waiting here = tt
    work_as-IsAwake finished here = tt
    work_as-IsAwake (executing task) here =
        let m = moved (executing task) looping here in
        record {
          holder = ground (arith, h.holder, m.checks);
          woken = λ on. ground (arith, h.woken on, m.waits, m.comes);
        }

    wake_one-IsAwake :
        (w : Worker Task) → get_elem? p.workers i ≡ some w → After IsAwake (wake_one w i p)
    unfolding wake_one
    wake_one-IsAwake looping here = tt
    wake_one-IsAwake locking here = tt
    wake_one-IsAwake checked here = tt
    wake_one-IsAwake waiting here =
        let m = moved waiting locking here in
        record {
          holder = ground (arith, h.holder, m.checks);
          woken = λ on. ground (arith, h.woken on, m.waits, m.comes);
        }
    wake_one-IsAwake finished here = tt
    wake_one-IsAwake (executing task) here = tt

  wake_all-checked :
      (workers : List (Worker Task))
      → tally is_checked (wake_all workers) ≡ tally is_checked workers
  wake_all-checked [] = refl
  wake_all-checked (w ∷ workers) = ap₂ (λ m n. m + n) (same w) (wake_all-checked workers)
    where
      same : (v : Worker Task) → bit (is_checked (wake v)) ≡ bit (is_checked v)
      same looping = refl
      same locking = refl
      same checked = refl
      same waiting = refl
      same finished = refl
      same (executing task) = refl

  wake_all-waiting : (workers : List (Worker Task)) → tally is_waiting (wake_all workers) ≡ 0
  wake_all-waiting [] = refl
  wake_all-waiting (w ∷ workers) = ap₂ (λ m n. m + n) (awake w) (wake_all-waiting workers)
    where
      awake : (v : Worker Task) → bit (is_waiting (wake v)) ≡ 0
      awake looping = refl
      awake locking = refl
      awake checked = refl
      awake waiting = refl
      awake finished = refl
      awake (executing task) = refl

  pub step-IsAwake :
      (action : Action Task) (p : Pool Task) → IsAwake p → After IsAwake (step action p)
  unfolding step
  step-IsAwake (commit task) p h = guarded IsAwake (mutex_free p.workers) _ (λ free. record {
    holder = inl (tally-mutex_free p.workers free);
    woken = λ on. ground (arith, h.woken on, length-append p.tasks (task ∷ []));
  })
  step-IsAwake (work i) p h =
      and_then-After IsAwake (get_elem? p.workers i) _ (λ w e. work_as-IsAwake p h i w e)
  step-IsAwake (notify_one i) p h =
      guarded IsAwake (ltb 0 p.notify_owed) _ (λ owed.
        and_then-After IsAwake (get_elem? p.workers i) _ (λ w e. wake_one-IsAwake p h i w e))
  step-IsAwake notify_nobody p h =
      guarded IsAwake (ltb 0 p.notify_owed && none_waiting p.workers) _ (λ both. record {
        holder = h.holder;
        woken = λ on. inl (tally-none_waiting p.workers (ground (arith, both)));
      })
  step-IsAwake clear_running p h =
      guarded IsAwake p.running _ (λ on. record { holder = h.holder; woken = λ on'. cc })
  step-IsAwake notify_all p h = guarded IsAwake p.stop_owed _ (λ owed. record {
    holder = ground (arith, h.holder, wake_all-checked p.workers);
    woken = λ on. inl (wake_all-waiting p.workers);
  })

  pub tally-replicate :
      (f : Worker Task → Bool) (w : Worker Task) (n : ℕ) → f w ≡ false → tally f (replicate n w) ≡ 0
  tally-replicate f w zero e = refl
  tally-replicate f w (suc n) e = rw e (omega (arith, tally-replicate f w n e))

  -- From a pool that has just been started, however its threads and the callers of Commit and Stop
  -- interleave: while the pool runs, if a worker sleeps in the wait, the tasks in the queue are at
  -- most as many as the notifications that calls of Commit still owe and the workers that will look
  -- at the queue before they sleep. No wake-up is lost.
  pub run_awake :
      (thread_count : ℕ) (actions : List (Action Task)) (p : Pool Task)
      → run actions (started_pool thread_count) ≡ some p
      → p.running ≡ true
      → (tally is_waiting p.workers ≡ 0)
        ⊎ (length p.tasks ≤ p.notify_owed + tally is_coming p.workers)
  unfolding started_pool
  run_awake thread_count actions p e on = reached.woken on
    where
      fresh : IsAwake (started_pool thread_count)
      fresh = record {
        holder = inr refl;
        woken = λ on'. inl (tally-replicate is_waiting looping thread_count refl);
      }

      reached : IsAwake p
      reached = run_keeps IsAwake step-IsAwake actions (started_pool thread_count) p e fresh
