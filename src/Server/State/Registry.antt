-- ===== src/Server/State/Registry.antt =====
-- What connecting, logging in and dropping a client do to the three maps of the server.
use vwnet_lib.Base.{
  ℕ, ◌≡◌, refl, sym, subst, ◌∙◌, inl, inr, List, [], ◌∷◌, Option, none, some, ℤ, Map, find, nat_eq,
  int_eq, int_eq_iff, int_eq_instance, insert, remove, length, find-emplace, find-assign,
  find-erase, replaced, ◌==◌, if◌then◌else◌, Bool-cases, Option-cases,
}
use vwnet_lib.Net.State.{Sys}
use vwnet_lib.Server.State.{
  BseAccount, BseClientContext, Bse, InotifyAnswer, init_fails, watch_file, next_answer, on_app,
  new_client_context, first_login, create_client_context, last_logout, clear_client_context,
}

-- The maps are untouched.
pub record SameMaps (a b : Bse) : Type 0 where
  pub same_accounts : b.accounts ≡ a.accounts
  pub same_lookup : b.sock_lookup ≡ a.sock_lookup
  pub same_contexts : b.client_context ≡ a.client_context

watch_file-SameMaps :
    (answer : InotifyAnswer) (s : Sys Bse) → SameMaps s.app (watch_file answer s).1.app
unfolding watch_file
watch_file-SameMaps init_fails s = record {
  same_accounts = refl;
  same_lookup = refl;
  same_contexts = refl;
}
watch_file-SameMaps _ s = record { same_accounts = refl; same_lookup = refl; same_contexts = refl }

new_client_context-SameMaps :
    (file : List ℕ) (s : Sys Bse) → SameMaps s.app (new_client_context file s).1.app
unfolding new_client_context
new_client_context-SameMaps [] s = record {
  same_accounts = refl;
  same_lookup = refl;
  same_contexts = refl;
}
new_client_context-SameMaps (ch ∷ file) s =
    let (answer, rest) = next_answer s.app.inotify in
    let same = watch_file-SameMaps answer (on_app (λ a. record a { inotify = rest }) s) in
    record {
      same_accounts = same.same_accounts;
      same_lookup = same.same_lookup;
      same_contexts = same.same_contexts;
    }

-- The clients that are listed under a code.
abbrev pub clients_of : Option BseClientContext → List ℕ
clients_of none = []
clients_of (some ctxt) = ctxt.clients_fd

-- A log-in: the context of the account's code lists the client, no other context changes, and the
-- client's code, if it is connected, is the account's.
pub record LoggedIn (fd : ℕ) (account : BseAccount) (a b : Bse) : Type 0 where
  pub same_accounts : b.accounts ≡ a.accounts
  pub context : BseClientContext
  pub clients : context.clients_fd ≡ insert fd (clients_of (find account.code a.client_context))
  pub contexts :
      (c : ℤ)
      → find c b.client_context
        ≡ (if int_eq account.code c then some context else find c a.client_context)
  pub lookup :
      (j : ℕ)
      → find j b.sock_lookup
        ≡ (if fd == j then replaced (find fd a.sock_lookup) account.code else find j a.sock_lookup)

abbrev filled : ℕ → BseAccount → Sys Bse → BseClientContext
filled fd account s = record (new_client_context account.pb_file s).0 {
  clients_fd = insert fd [];
  type = account.type;
  q_files = account.q_files;
  jnl_file = account.jnl_file;
  jnl_rate = account.jnl_rate;
}

-- After create_client_context the context of the account's code lists the client beside those it
-- listed before (a new context is made if there was none), no other context and no account
-- changes, and the client's code in the socket lookup, if it is connected, is the account's,
-- while every other socket keeps its code.
pub create_client_context-LoggedIn :
    (fd : ℕ) (account : BseAccount) (s : Sys Bse)
    → LoggedIn fd account s.app (create_client_context fd account s).app
unfolding create_client_context first_login
create_client_context-LoggedIn fd account s =
    elim (Option-cases (find account.code s.app.client_context)) [
      | inl e ↦
          rw (e, create_client_context)
            (record {
              same_accounts = new.same_accounts;
              context = filled fd account s;
              clients = rw e;
              contexts = λ c. rw (
                new.same_contexts,
                find-emplace account.code c (filled fd account s) s.app.client_context,
                e,
              );
              lookup = λ j. rw new.same_lookup (find-assign fd j account.code s.app.sock_lookup);
            })
      | inr (online, e) ↦
          rw (e, create_client_context)
            (record {
              same_accounts = refl;
              context = record online { clients_fd = insert fd online.clients_fd };
              clients = rw e;
              contexts = λ c. rw (
                find-assign account.code c
                    (record online { clients_fd = insert fd online.clients_fd })
                    s.app.client_context,
                e,
              );
              lookup = λ j. find-assign fd j account.code s.app.sock_lookup;
            })
    ]
  where
    new : SameMaps s.app (new_client_context account.pb_file s).1.app
    new = new_client_context-SameMaps account.pb_file s

-- A context without one of its clients; it goes with the last.
abbrev pub without : ℕ → Option BseClientContext → Option BseClientContext
without fd none = none
without fd (some it) =
    if length (remove fd it.clients_fd) == 0
    then none
    else some (record it { clients_fd = remove fd it.clients_fd })

-- A client leaves: it has no code any more, the context of its code does without it, and no other
-- context changes.
pub record LoggedOut (fd : ℕ) (code : ℤ) (a b : Bse) : Type 0 where
  pub same_accounts : b.accounts ≡ a.accounts
  pub contexts :
      (c : ℤ)
      → find c b.client_context ≡ (
          if int_eq code c
          then without fd (find code a.client_context)
          else find c a.client_context)
  pub lookup : (j : ℕ) → find j b.sock_lookup ≡ (if fd == j then none else find j a.sock_lookup)

find_self :
    (code c : ℤ) (m : Map ℤ BseClientContext)
    → find c m ≡ (if int_eq code c then find code m else find c m)
find_self code c m = elim (Bool-cases (int_eq code c)) [
  | inl same ↦ rw (same, (int_eq_iff code c).0 same)
  | inr other ↦ rw other
]

-- After clear_client_context the client has no code, every other socket keeps its own, the
-- context of the given code does without the client and is gone if the client was its last, and
-- no other context and no account changes.
pub clear_client_context-LoggedOut :
    (fd : ℕ) (code : ℤ) (s : Sys Bse) → LoggedOut fd code s.app (clear_client_context fd code s).app
unfolding clear_client_context last_logout
clear_client_context-LoggedOut fd code s = elim (Option-cases (find code s.app.client_context)) [
  | inl e ↦
      rw (e, clear_client_context)
        (record {
          same_accounts = refl;
          contexts = λ c.
              subst
                (λ o.
                  find c s.app.client_context
                  ≡ (if int_eq code c then without fd o else find c s.app.client_context))
                (sym e) (find_self code c s.app.client_context ∙ rw e);
          lookup = λ j. find-erase fd j s.app.sock_lookup;
        })
  | inr (it, e) ↦ elim (Bool-cases (length (remove fd it.clients_fd) == 0)) [
    | inl last ↦
        rw (e, last, clear_client_context)
          (record {
            same_accounts = refl;
            contexts = λ c. rw (find-erase code c s.app.client_context, e, last);
            lookup = λ j. find-erase fd j s.app.sock_lookup;
          })
    | inr more ↦
        rw (e, more, clear_client_context)
          (record {
            same_accounts = refl;
            contexts = λ c. rw (find-assign code c _ s.app.client_context, e, more);
            lookup = λ j. find-erase fd j s.app.sock_lookup;
          })
  ]
]
