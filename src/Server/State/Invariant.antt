-- ===== src/Server/State/Invariant.antt =====
-- Who is listed where: an invariant of the three maps, kept by every call that changes them.
use vwnet_lib.Base.{
  ℕ, ◌≡◌, ◌≢◌, refl, inl, inr, true, List, [], ◌∷◌, Option, none, some, arith, ℤ, find, nat_eq,
  int_eq_iff, int_eq_instance, member, remove, length, find-emplace, member-insert, member-remove,
  ◌==◌, Bool-cases, Option-cases,
}
use vwnet_lib.Net.State.{Sys}
use vwnet_lib.Server.State.{
  BseAccount, BseClientContext, Bse, create_client_context, clear_client_context, no_code,
  on_connect, on_disconnect, on_error,
}
use vwnet_lib.Server.State.Registry.{
  LoggedIn, create_client_context-LoggedIn, LoggedOut, clear_client_context-LoggedOut, clients_of,
  without,
}

-- An account stands under its code; nobody is logged in under the code of a connection that is not
-- logged in; and a connection with another code is listed in the context of that code.
pub record Registered (a : Bse) : Type 0 where
  pub keyed : (c : ℤ) (acc : BseAccount) → find c a.accounts ≡ some acc → acc.code ≡ c
  pub no_guests : find no_code a.client_context ≡ none
  pub listed :
      (fd : ℕ) (code : ℤ)
      → find fd a.sock_lookup ≡ some code
      → code ≢ no_code
      → member fd (clients_of (find code a.client_context)) ≡ true

pub on_connect-Registered :
    (fd : ℕ) (s : Sys Bse) → Registered s.app → Registered (on_connect fd s).app
unfolding on_connect
on_connect-Registered fd s r = record {
  keyed = r.keyed;
  no_guests = r.no_guests;
  listed =
      λ j code p ne. ground (arith, find-emplace fd j no_code s.app.sock_lookup, r.listed j code);
}

LoggedIn-Registered :
    (fd : ℕ) (account : BseAccount) (a b : Bse)
    → account.code ≢ no_code
    → LoggedIn fd account a b
    → Registered a
    → Registered b
LoggedIn-Registered fd account a b ne l r = record {
  keyed = λ c acc e. r.keyed c acc (rw (← l.same_accounts) e);
  no_guests = ground (arith, l.contexts no_code, int_eq_iff account.code no_code, r.no_guests);
  listed = λ j code p other. ground (
    arith,
    l.lookup j,
    l.contexts code,
    l.clients,
    int_eq_iff account.code code,
    member-insert fd j (clients_of (find account.code a.client_context)),
    r.listed j code,
  );
}

member-without :
    (fd j : ℕ) (o : Option BseClientContext)
    → fd ≢ j
    → member j (clients_of o) ≡ true
    → member j (clients_of (without fd o)) ≡ true
member-without fd j none ne h = h
member-without fd j (some it) ne h = elim (Bool-cases (length (remove fd it.clients_fd) == 0)) [
  | inl none_left ↦ absurd (empty (remove fd it.clients_fd) (ground arith) kept)
  | inr more ↦ rw more kept
]
  where
    kept : member j (remove fd it.clients_fd) ≡ true
    kept = ground (arith, member-remove fd j it.clients_fd)

    empty : (s : List ℕ) → length s ≡ 0 → member j s ≡ true → ⊥
    empty [] e m = cc
    empty (x ∷ s) e m = omega arith

LoggedOut-Registered :
    (fd : ℕ) (code : ℤ) (a b : Bse) → LoggedOut fd code a b → Registered a → Registered b
LoggedOut-Registered fd code a b l r = record {
  keyed = λ c acc e. r.keyed c acc (rw (← l.same_accounts) e);
  no_guests = ground (arith, l.contexts no_code, int_eq_iff code no_code, r.no_guests);
  listed = λ j c p ne. ground (
    arith,
    l.lookup j,
    l.contexts c,
    int_eq_iff code c,
    r.listed j c,
    member-without fd j (find code a.client_context),
  );
}

-- Logging in under an account that is in the map keeps the invariant.
pub create_client_context-Registered :
    (fd : ℕ) (account : BseAccount) (s : Sys Bse)
    → account.code ≢ no_code
    → Registered s.app
    → Registered (create_client_context fd account s).app
create_client_context-Registered fd account s ne r =
    LoggedIn-Registered fd account s.app _ ne (create_client_context-LoggedIn fd account s) r

pub clear_client_context-Registered :
    (fd : ℕ) (code : ℤ) (s : Sys Bse)
    → Registered s.app
    → Registered (clear_client_context fd code s).app
clear_client_context-Registered fd code s r =
    LoggedOut-Registered fd code s.app _ (clear_client_context-LoggedOut fd code s) r

pub on_disconnect-Registered :
    (fd : ℕ) (s : Sys Bse) → Registered s.app → Registered (on_disconnect fd s).app
unfolding on_disconnect
on_disconnect-Registered fd s r = elim (Option-cases (find fd s.app.sock_lookup)) [
  | inl e ↦ rw (e, on_disconnect) r
  | inr (code, e) ↦ rw (e, on_disconnect) (clear_client_context-Registered fd code s r)
]

-- `on_error` drops a client just as `on_disconnect` does.
pub on_error-on_disconnect : (fd err : ℕ) (s : Sys Bse) → on_error fd err s ≡ on_disconnect fd s
unfolding on_error on_disconnect
on_error-on_disconnect fd err s = refl
