-- ===== src/Net/Run/Release.antt =====
-- What is open after Init, Run and the destructor.
use vwnet_lib.Base.{
  ℕ, ◌≡◌, refl, inl, inr, ◌⊎◌, Bool, true, false, not, ◌&&◌, List, [], ◌∷◌, Option, none, some, ℤ,
  pos, negsuc, int_eq, int_eq_iff, ltb, arith, if◌then◌else◌, Bool-cases,
}
use vwnet_lib.Net.State.{Sys}
use vwnet_lib.Net.Setup.{
  OsCall, epoll_create, open_socket, open_read, open_write, mkfifo, unlink, close, Service, next_fd,
  next_ok, is_positive, failed, at_fd, open_writer, open_pipe, make_fifo, setup_command_fd,
}

-- The first of the descriptors that is `fd` goes.
abbrev pub without : ℤ → List ℤ → List ℤ
without fd [] = []
without fd (j ∷ fds) = let rest = without fd fds in if int_eq fd j then fds else j ∷ rest

abbrev pub made : ℤ → List ℤ → List ℤ
made fd fds = if failed fd then fds else fd ∷ fds

abbrev pub change : OsCall → ℤ → List ℤ → List ℤ
change epoll_create fd fds = made fd fds
change open_socket fd fds = made fd fds
change open_read fd fds = made fd fds
change open_write fd fds = made fd fds
change (close fd) result fds = without fd fds
change _ result fds = fds

-- The descriptors that the calls have opened and not closed.
abbrev pub opened : List (OsCall × ℤ) → List ℤ
opened [] = []
opened ((call, result) ∷ trace) = change call result (opened trace)

-- Whether a fifo that was made is still there.
abbrev pub has_fifo : List (OsCall × ℤ) → Bool
has_fifo [] = false
has_fifo ((mkfifo, result) ∷ trace) = not (failed result)
has_fifo ((unlink, result) ∷ trace) = false
has_fifo ((_, result) ∷ trace) = has_fifo trace

-- The descriptors that the kernel gives out are not 0.
abbrev pub all_positive : List (Option ℕ) → Bool
all_positive [] = true
all_positive (none ∷ fds) = all_positive fds
all_positive (some fd ∷ fds) = ltb 0 fd && all_positive fds

pub next_fd_positive :
    (fds : List (Option ℕ))
    → all_positive fds ≡ true
    → (failed (next_fd fds).0 ≡ not (is_positive (next_fd fds).0))
      × (all_positive (next_fd fds).1 ≡ true)
next_fd_positive [] h = (refl, refl)
next_fd_positive (none ∷ fds) h = (refl, h)
next_fd_positive (some fd ∷ fds) h = ground arith

pub int_eq_refl : (a : ℤ) → int_eq a a ≡ true
int_eq_refl (pos n) = ground arith
int_eq_refl (negsuc n) = ground arith

-- What a call gives that makes a descriptor.
pub failed-next_fd :
    (fds : List (Option ℕ)) → failed (next_fd fds).0 ≡ true → (next_fd fds).0 ≡ negsuc 0
failed-next_fd fds e = (int_eq_iff (next_fd fds).0 (negsuc 0)).0 e

pub next_fd_made :
    (fds : List (Option ℕ))
    → all_positive fds ≡ true
    → failed (next_fd fds).0 ≡ false
    → is_positive (next_fd fds).0 ≡ true
next_fd_made fds positive e = ground (arith, (next_fd_positive fds positive).0)

module _ {A : Type 0} where
  -- What the set-up of the commands comes to: no descriptor and no fifo is left, and the descriptor
  -- returned is negative; or both ends are open, the writing end last.
  pub record NoPipe (s : Service A) (fd : ℤ) (s' : Service A) : Type 0 where
    pub negative : is_positive fd ≡ false
    pub no_writer : (s'.cmdfd ≡ s.cmdfd) ⊎ (s'.cmdfd ≡ negsuc 0)
    pub none_open : opened s'.trace ≡ opened s.trace
    pub no_fifo : has_fifo s'.trace ≡ false

  pub record Pipe (s : Service A) (fd : ℤ) (s' : Service A) : Type 0 where
    pub reader : is_positive fd ≡ true
    pub writer : is_positive s'.cmdfd ≡ true
    pub both_open : opened s'.trace ≡ s'.cmdfd ∷ (fd ∷ opened s.trace)
    pub fifo : has_fifo s'.trace ≡ true

  at_fd-trace : (fd : ℤ) (f : ℕ → Sys A → Sys A) (s : Service A) → (at_fd fd f s).trace ≡ s.trace
  at_fd-trace (pos fd) f s = refl
  at_fd-trace (negsuc n) f s = refl

  at_fd-cmdfd : (fd : ℤ) (f : ℕ → Sys A → Sys A) (s : Service A) → (at_fd fd f s).cmdfd ≡ s.cmdfd
  at_fd-cmdfd (pos fd) f s = refl
  at_fd-cmdfd (negsuc n) f s = refl

  open_writer-Pipe :
      (fd : ℤ) (s s₀ : Service A)
      → all_positive s.fds ≡ true
      → is_positive fd ≡ true
      → opened s.trace ≡ fd ∷ opened s₀.trace
      → has_fifo s.trace ≡ true
      → let (r, s') = open_writer fd s in NoPipe s₀ r s' ⊎ Pipe s₀ r s'
  unfolding open_writer
  open_writer-Pipe fd s s₀ positive reader here fifo =
      elim (Bool-cases (failed (next_fd s.fds).0)) [
        | inl no_fd ↦ rw no_fd (
            inl (record {
              negative = refl;
              no_writer = inr (failed-next_fd s.fds no_fd);
              none_open = rw (here, no_fd, int_eq_refl fd);
              no_fifo = refl;
            }))
        | inr has_fd ↦ rw has_fd (
            inr (record {
              reader = reader;
              writer = rw (at_fd-cmdfd fd) (next_fd_made s.fds positive has_fd);
              both_open = rw (at_fd-trace fd, at_fd-cmdfd fd, has_fd, here);
              fifo = rw (at_fd-trace fd) fifo;
            }))
      ]

  open_pipe-Pipe :
      (s s₀ : Service A)
      → all_positive s.fds ≡ true
      → s.cmdfd ≡ s₀.cmdfd
      → opened s.trace ≡ opened s₀.trace
      → has_fifo s.trace ≡ true
      → let (r, s') = open_pipe s in NoPipe s₀ r s' ⊎ Pipe s₀ r s'
  unfolding open_pipe
  open_pipe-Pipe s s₀ positive same here fifo = elim (Bool-cases (failed (next_fd s.fds).0)) [
    | inl no_fd ↦ rw no_fd (
        inl (record {
          negative = refl;
          no_writer = inl same;
          none_open = rw (no_fd, here);
          no_fifo = refl;
        }))
    | inr has_fd ↦ rw has_fd (
        open_writer-Pipe (next_fd s.fds).0 _ s₀ (next_fd_positive s.fds positive).1
          (next_fd_made s.fds positive has_fd) (rw (has_fd, here)) fifo)
  ]

  -- Whatever the kernel answers, if it does not give out the descriptor 0: either the set-up of the
  -- commands returns a negative descriptor and leaves no descriptor and no fifo behind that it made, or
  -- it returns the reading end of a fifo with both ends open.
  pub setup_command_fd-Pipe :
      (s : Service A)
      → all_positive s.fds ≡ true
      → let (fd, s') = setup_command_fd s in NoPipe s fd s' ⊎ Pipe s fd s'
  unfolding setup_command_fd make_fifo
  setup_command_fd-Pipe s positive = elim (Bool-cases (next_ok s.oks).0) [
    | inl there ↦ elim (Bool-cases (next_ok (next_ok s.oks).1).0) [
      | inl ok ↦ rw (there, ok) (open_pipe-Pipe _ s positive refl refl refl)
      | inr denied ↦
          rw (there, denied)
            (inl
              (record { negative = refl; no_writer = inl refl; none_open = refl; no_fifo = refl }))
    ]
    | inr absent ↦ elim (Bool-cases (next_ok (next_ok s.oks).1).0) [
      | inl ok ↦ rw (absent, ok) (open_pipe-Pipe _ s positive refl refl refl)
      | inr denied ↦
          rw (absent, denied)
            (inl
              (record { negative = refl; no_writer = inl refl; none_open = refl; no_fifo = refl }))
    ]
  ]
