-- ===== src/Net/Run/Owned.antt =====
-- What is open belongs to the members: from the constructor on, through Init and the set-up of epoll.
use vwnet_lib.Base.{
  ℕ, ◌≡◌, ap, ◌∙◌, inl, inr, Bool, true, false, List, [], ◌∷◌, Option, ℤ, pos, arith, if◌then◌else◌,
  Bool-cases,
}
use vwnet_lib.Net.Setup.{
  epoll_create, Service, next_fd, is_positive, failed, setup_epoll, destroy, new_socket, sock_addr,
  set_reuse, try_call, init,
}
use vwnet_lib.Net.Run.Release.{opened, has_fifo, all_positive, int_eq_refl, next_fd_positive}
use vwnet_lib.Net.Run.Members.{SameFds, KeepsFds}

abbrev pub own : ℤ → List ℤ → List ℤ
own fd fds = if is_positive fd then fd ∷ fds else fds

own_made :
    (fds : List (Option ℕ)) (open_fds : List ℤ)
    → all_positive fds ≡ true
    → (if failed (next_fd fds).0 then open_fds else (next_fd fds).0 ∷ open_fds)
      ≡ own (next_fd fds).0 open_fds
own_made fds open_fds positive = ground (arith, (next_fd_positive fds positive).0)

module _ {A : Type 0} where
  -- What is open is what the members name: `epollfd` and `svr_sfd`.
  pub record Owns (s : Service A) : Type 0 where
    pub owned : opened s.trace ≡ own s.epollfd (own s.svr_sfd [])
    pub no_fifo : has_fifo s.trace ≡ false
    pub positive : all_positive s.fds ≡ true

  pub SameFds-Owns : {s s' : Service A} → SameFds s s' → Owns s → Owns s'
  SameFds-Owns same i = record {
    owned = rw (same.same_opened, same.same_epollfd, same.same_svr_sfd) i.owned;
    no_fifo = rw same.same_fifo i.no_fifo;
    positive = rw same.same_fds i.positive;
  }

  -- The state that the constructor leaves.
  pub record IsNew (s : Service A) : Type 0 where
    pub no_epollfd : s.epollfd ≡ pos 0
    pub no_svr_sfd : s.svr_sfd ≡ pos 0
    pub no_cmdfd : s.cmdfd ≡ pos 0
    pub no_trace : s.trace ≡ []

  new_socket-Owns :
      (addr : ℕ) (s : Service A) → IsNew s → all_positive s.fds ≡ true → Owns (new_socket addr s)
  unfolding new_socket
  new_socket-Owns addr s new positive =
      let no_sock : is_positive s.svr_sfd ≡ false = ap is_positive new.no_svr_sfd in
      let no_epoll : is_positive s.epollfd ≡ false = ap is_positive new.no_epollfd in
      let none_open : opened s.trace ≡ [] = ap opened new.no_trace in
      rw no_sock (record {
        owned = rw (none_open, no_epoll) (own_made s.fds [] positive);
        no_fifo = ap has_fifo new.no_trace;
        positive = (next_fd_positive s.fds positive).1;
      })

  new_socket-epollfd : (addr : ℕ) (s : Service A) → (new_socket addr s).epollfd ≡ s.epollfd
  unfolding new_socket
  new_socket-epollfd addr s = ground arith

  new_socket-cmdfd : (addr : ℕ) (s : Service A) → (new_socket addr s).cmdfd ≡ s.cmdfd
  unfolding new_socket
  new_socket-cmdfd addr s = ground arith

  pub init-Owns :
      (inet_addr : List ℕ → ℕ) (do_bind : Service A → Bool × Service A) (ip_addr : List ℕ)
      (port : ℕ) (s : Service A)
      → KeepsFds do_bind
      → IsNew s
      → all_positive s.fds ≡ true
      → let (done, s') = init inet_addr do_bind ip_addr port s in
        Owns s' × (s'.epollfd ≡ pos 0) × (s'.cmdfd ≡ pos 0)
  unfolding init
  init-Owns inet_addr do_bind ip_addr port s keeps new positive =
      let addr = sock_addr inet_addr ip_addr port in
      let i = new_socket-Owns addr s new positive in
      let (reuse, s₁) = try_call set_reuse (new_socket addr s) in
      let no_cmd : s₁.cmdfd ≡ pos 0 = new_socket-cmdfd addr s ∙ new.no_cmdfd in
      let none_yet : s₁.epollfd ≡ pos 0 = new_socket-epollfd addr s ∙ new.no_epollfd in
      let tried : Owns s₁ = record {
        owned = i.owned;
        no_fifo = i.no_fifo;
        positive = i.positive;
      } in
      chosen reuse (do_bind s₁).0 s₁ (do_bind s₁).1 (keeps s₁) tried none_yet no_cmd
    where
      chosen :
          (b bound : Bool) (t t' : Service A)
          → SameFds t t'
          → Owns t
          → t.epollfd ≡ pos 0
          → t.cmdfd ≡ pos 0
          → let out : Bool × Service A =
              if b
              then (bound, record t' { init_done = bound })
              else (false, record t { init_done = false }) in
            let u = out.1 in Owns u × (u.epollfd ≡ pos 0) × (u.cmdfd ≡ pos 0)
      chosen true bound t t' same i none_yet no_cmd =
          let i' = SameFds-Owns same i in
          (
            record { owned = i'.owned; no_fifo = i'.no_fifo; positive = i'.positive },
            same.same_epollfd ∙ none_yet,
            same.same_cmdfd ∙ no_cmd,
          )
      chosen false bound t t' same i none_yet no_cmd =
          (record { owned = i.owned; no_fifo = i.no_fifo; positive = i.positive }, none_yet, no_cmd)

  pub setup_epoll-Owns : (s : Service A) → Owns s → s.epollfd ≡ pos 0 → Owns (setup_epoll s).1
  unfolding setup_epoll
  setup_epoll-Owns s i none_yet =
      let no_epoll : is_positive s.epollfd ≡ false = ap is_positive none_yet in
      elim (Bool-cases (failed (next_fd s.fds).0)) [
        | inl no_fd ↦ rw (no_epoll, no_fd) (after no_epoll)
        | inr has_fd ↦ rw (no_epoll, has_fd) (after no_epoll)
      ]
    where
      after :
          is_positive s.epollfd ≡ false
          → Owns (record s {
            epollfd = (next_fd s.fds).0;
            fds = (next_fd s.fds).1;
            trace = (epoll_create, (next_fd s.fds).0) ∷ s.trace;
          })
      after no_epoll = record {
        owned = rw (i.owned, no_epoll) (own_made s.fds (own s.svr_sfd []) i.positive);
        no_fifo = i.no_fifo;
        positive = (next_fd_positive s.fds i.positive).1;
      }

  pub destroy-Owns :
      (s : Service A)
      → Owns s
      → (opened (destroy s).trace ≡ []) × (has_fifo (destroy s).trace ≡ false)
  unfolding destroy
  destroy-Owns s i = elim (Bool-cases (is_positive s.epollfd)) [
    | inl epoll ↦ elim (Bool-cases (is_positive s.svr_sfd)) [
      | inl sock ↦
          rw (epoll, sock)
            (rw (i.owned, epoll, sock, int_eq_refl s.epollfd, int_eq_refl s.svr_sfd), i.no_fifo)
      | inr no_sock ↦
          rw (epoll, no_sock) (rw (i.owned, epoll, no_sock, int_eq_refl s.epollfd), i.no_fifo)
    ]
    | inr no_epoll ↦ elim (Bool-cases (is_positive s.svr_sfd)) [
      | inl sock ↦
          rw (no_epoll, sock) (rw (i.owned, no_epoll, sock, int_eq_refl s.svr_sfd), i.no_fifo)
      | inr no_sock ↦ rw (no_epoll, no_sock) (rw (i.owned, no_epoll, no_sock), i.no_fifo)
    ]
  ]
