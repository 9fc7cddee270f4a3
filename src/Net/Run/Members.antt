-- ===== src/Net/Run/Members.antt =====
-- What the virtual functions of the set-up, and the set-up of the commands, leave alone.
use vwnet_lib.Base.{ℕ, ◌≡◌, refl, ◌∙◌, Bool, true, List, ℤ, pos, negsuc, if_both}
use vwnet_lib.Net.State.{Sys, Handlers}
use vwnet_lib.Net.Setup.{
  Service, next_fd, next_ok, failed, at_fd, open_writer, open_pipe, mkfifo, make_fifo,
  setup_command_fd, bind, listen, connect, try_call, server_do_bind, server_start_service,
  client_start_service,
}
use vwnet_lib.Net.Run.Release.{opened, has_fifo, all_positive, next_fd_positive}

module _ {A : Type 0} where
  -- The same members and the same descriptors.
  pub record SameFds (s s' : Service A) : Type 0 where
    pub same_epollfd : s'.epollfd ≡ s.epollfd
    pub same_svr_sfd : s'.svr_sfd ≡ s.svr_sfd
    pub same_cmdfd : s'.cmdfd ≡ s.cmdfd
    pub same_fds : s'.fds ≡ s.fds
    pub same_opened : opened s'.trace ≡ opened s.trace
    pub same_fifo : has_fifo s'.trace ≡ has_fifo s.trace

  pub SameFds-trans : {s t u : Service A} → SameFds s t → SameFds t u → SameFds s u
  SameFds-trans p q = record {
    same_epollfd = q.same_epollfd ∙ p.same_epollfd;
    same_svr_sfd = q.same_svr_sfd ∙ p.same_svr_sfd;
    same_cmdfd = q.same_cmdfd ∙ p.same_cmdfd;
    same_fds = q.same_fds ∙ p.same_fds;
    same_opened = q.same_opened ∙ p.same_opened;
    same_fifo = q.same_fifo ∙ p.same_fifo;
  }

  -- What the virtual functions of the set-up leave alone.
  abbrev pub KeepsFds : (Service A → Bool × Service A) → Type 0
  KeepsFds f = (s : Service A) → SameFds s (f s).1

  abbrev out-SameFds : Service A → {B : Type 0} → B × Service A → Type 0
  out-SameFds s out = SameFds s out.1

  at_fd-SameFds :
      (fd : ℤ) (f : ℕ → Sys A → Sys A) (s t : Service A) → SameFds s t → SameFds s (at_fd fd f t)
  at_fd-SameFds (pos fd) f s t same = record {
    same_epollfd = same.same_epollfd;
    same_svr_sfd = same.same_svr_sfd;
    same_cmdfd = same.same_cmdfd;
    same_fds = same.same_fds;
    same_opened = same.same_opened;
    same_fifo = same.same_fifo;
  }
  at_fd-SameFds (negsuc n) f s t same = same

  pub server_do_bind-KeepsFds : KeepsFds server_do_bind
  unfolding server_do_bind
  server_do_bind-KeepsFds s =
      if_both (out-SameFds s) (next_ok s.oks).0 (at_fd-SameFds s.svr_sfd _ s _ tried) tried
    where
      tried : SameFds s (try_call bind s).1
      tried = record {
        same_epollfd = refl;
        same_svr_sfd = refl;
        same_cmdfd = refl;
        same_fds = refl;
        same_opened = refl;
        same_fifo = refl;
      }

  pub server_start_service-KeepsFds : KeepsFds server_start_service
  unfolding server_start_service
  server_start_service-KeepsFds s =
      if_both (out-SameFds s) (next_ok s.oks).0 (at_fd-SameFds s.svr_sfd _ s _ tried) tried
    where
      tried : SameFds s (try_call listen s).1
      tried = record {
        same_epollfd = refl;
        same_svr_sfd = refl;
        same_cmdfd = refl;
        same_fds = refl;
        same_opened = refl;
        same_fifo = refl;
      }

  pub client_start_service-KeepsFds :
      (h : Handlers A) (block : List ℕ) → KeepsFds (client_start_service h block)
  unfolding client_start_service
  client_start_service-KeepsFds h block s =
      if_both (out-SameFds s) (next_ok s.oks).0
        (at_fd-SameFds s.svr_sfd h.on_connect s _ (
          at_fd-SameFds s.svr_sfd _ s _
            (at_fd-SameFds s.svr_sfd _ s _ (at_fd-SameFds s.svr_sfd _ s _ tried))))
        tried
    where
      tried : SameFds s (try_call connect s).1
      tried = record {
        same_epollfd = refl;
        same_svr_sfd = refl;
        same_cmdfd = refl;
        same_fds = refl;
        same_opened = refl;
        same_fifo = refl;
      }

  -- What the set-up of the commands does to the other members.
  pub record Beside (s s' : Service A) : Type 0 where
    pub kept_epollfd : s'.epollfd ≡ s.epollfd
    pub kept_svr_sfd : s'.svr_sfd ≡ s.svr_sfd
    pub kept_positive : all_positive s'.fds ≡ true

  at_fd-Beside :
      (fd : ℤ) (f : ℕ → Sys A → Sys A) (s t : Service A) → Beside s t → Beside s (at_fd fd f t)
  at_fd-Beside (pos fd) f s t b = record {
    kept_epollfd = b.kept_epollfd;
    kept_svr_sfd = b.kept_svr_sfd;
    kept_positive = b.kept_positive;
  }
  at_fd-Beside (negsuc n) f s t b = b

  abbrev out-Beside : Service A → {B : Type 0} → B × Service A → Type 0
  out-Beside s out = Beside s out.1

  open_writer-Beside : (fd : ℤ) (s t : Service A) → Beside s t → Beside s (open_writer fd t).1
  unfolding open_writer
  open_writer-Beside fd s t b =
      if_both (out-Beside s) (failed (next_fd t.fds).0)
        (record {
          kept_epollfd = b.kept_epollfd;
          kept_svr_sfd = b.kept_svr_sfd;
          kept_positive = positive;
        })
        (at_fd-Beside fd _ s _ (record {
          kept_epollfd = b.kept_epollfd;
          kept_svr_sfd = b.kept_svr_sfd;
          kept_positive = positive;
        }))
    where
      positive : all_positive (next_fd t.fds).1 ≡ true
      positive = (next_fd_positive t.fds b.kept_positive).1

  open_pipe-Beside : (s t : Service A) → Beside s t → Beside s (open_pipe t).1
  unfolding open_pipe
  open_pipe-Beside s t b =
      if_both (out-Beside s) (failed (next_fd t.fds).0)
        (record {
          kept_epollfd = b.kept_epollfd;
          kept_svr_sfd = b.kept_svr_sfd;
          kept_positive = positive;
        })
        (open_writer-Beside (next_fd t.fds).0 s _ (record {
          kept_epollfd = b.kept_epollfd;
          kept_svr_sfd = b.kept_svr_sfd;
          kept_positive = positive;
        }))
    where
      positive : all_positive (next_fd t.fds).1 ≡ true
      positive = (next_fd_positive t.fds b.kept_positive).1

  make_fifo-Beside : (s t : Service A) → Beside s t → Beside s (make_fifo t).1
  unfolding make_fifo
  make_fifo-Beside s t b =
      if_both (out-Beside s) (next_ok t.oks).0 (open_pipe-Beside s _ tried) tried
    where
      tried : Beside s (try_call mkfifo t).1
      tried = record {
        kept_epollfd = b.kept_epollfd;
        kept_svr_sfd = b.kept_svr_sfd;
        kept_positive = b.kept_positive;
      }

  pub setup_command_fd-Beside :
      (s : Service A) → all_positive s.fds ≡ true → Beside s (setup_command_fd s).1
  unfolding setup_command_fd
  setup_command_fd-Beside s positive = make_fifo-Beside s _ (
      if_both (Beside s) (next_ok s.oks).0
        (record { kept_epollfd = refl; kept_svr_sfd = refl; kept_positive = positive })
        (record { kept_epollfd = refl; kept_svr_sfd = refl; kept_positive = positive }))
