-- ===== src/Server/Run/Relogin.antt =====
-- A client that logs in under two codes, one after the other.
use vwnet_lib.Base.{
  ℕ, ◌≡◌, ◌≢◌, refl, sym, true, false, none, some, arith, ℤ, find, nat_eq, int_eq, int_eq_iff,
  int_eq_instance, member, member-insert, ==_refl,
}
use vwnet_lib.Net.State.{Sys}
use vwnet_lib.Server.State.{
  BseAccount, Bse, create_client_context, clear_client_context, on_disconnect,
}
use vwnet_lib.Server.State.Registry.{
  LoggedIn, create_client_context-LoggedIn, LoggedOut, clear_client_context-LoggedOut, clients_of,
}

on_disconnect-known :
    (fd : ℕ) (code : ℤ) (s : Sys Bse)
    → find fd s.app.sock_lookup ≡ some code
    → on_disconnect fd s ≡ clear_client_context fd code s
unfolding on_disconnect
on_disconnect-known fd code s e = rw (e, on_disconnect) refl

-- A connected client that logs in under one account and then under another with another code
-- stays listed in the context of the first code after its connection is lost, though it has no
-- code any more.
pub relogin_stale :
    (fd : ℕ) (c : ℤ) (first second : BseAccount) (s : Sys Bse)
    → find fd s.app.sock_lookup ≡ some c
    → first.code ≢ second.code
    → let gone =
        on_disconnect fd (create_client_context fd second (create_client_context fd first s)) in
      (member fd (clients_of (find first.code gone.app.client_context)) ≡ true)
      × (find fd gone.app.sock_lookup ≡ none)
relogin_stale fd c first second s e ne = rw (on_disconnect-known fd second.code s₂ known) (
  rw
      (
        out.contexts first.code,
        other second.code first.code (λ p. ne (sym p)),
        two.contexts first.code,
        other second.code first.code (λ p. ne (sym p)),
        one.contexts first.code,
        same first.code,
        one.clients,
        member-insert fd fd (clients_of (find first.code s.app.client_context)),
        ==_refl fd,
      )
      refl,
  rw (out.lookup fd, ==_refl fd) refl,
)
  where
    s₁ : Sys Bse
    s₁ = create_client_context fd first s

    s₂ : Sys Bse
    s₂ = create_client_context fd second s₁

    one : LoggedIn fd first s.app s₁.app
    one = create_client_context-LoggedIn fd first s

    two : LoggedIn fd second s₁.app s₂.app
    two = create_client_context-LoggedIn fd second s₁

    out : LoggedOut fd second.code s₂.app (clear_client_context fd second.code s₂).app
    out = clear_client_context-LoggedOut fd second.code s₂

    known : find fd s₂.app.sock_lookup ≡ some second.code
    known = rw (two.lookup fd, ==_refl fd, one.lookup fd, ==_refl fd, e)

    other : (a b : ℤ) → a ≢ b → int_eq a b ≡ false
    other a b d = ground (arith, int_eq_iff a b)

    same : (a : ℤ) → int_eq a a ≡ true
    same a = (int_eq_iff a a).1 refl
