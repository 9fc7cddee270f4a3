-- ===== src/Server/State/Health.antt =====
-- The calls of `Server.State` do nothing undefined: a client that is dropped is listed.
use vwnet_lib.Base.{
  ℕ, ◌≡◌, inl, inr, Bool, true, false, ◌||◌, List, [], ◌∷◌, some, arith, ℤ, find, nat_eq,
  int_eq_iff, int_eq_instance, member, remove, length, ltb, ◌==◌, if◌then◌else◌, Bool-cases,
  Option-cases,
}
use vwnet_lib.Net.State.{
  Net, Sys, FdHandler, handle_file_notify, KernelCall, kernel, registry_fd_handler,
  unregistry_fd_handler,
}
use vwnet_lib.Net.Write.Send.{IsHealthy}
use vwnet_lib.Server.State.{
  BseAccount, BseClientContext, Bse, InotifyAnswer, init_fails, watch_fails, watches, next_answer,
  watch_file, new_client_context, drop_client_context, first_login, create_client_context,
  last_logout, clear_client_context, no_code, on_app, on_disconnect,
}
use vwnet_lib.Server.State.Invariant.{Registered}

registry-IsHealthy :
    (b : Bool) (fd : ℕ) (fun : FdHandler) (n : Net)
    → IsHealthy n
    → IsHealthy (if b then registry_fd_handler fd fun n else n)
unfolding registry_fd_handler
registry-IsHealthy true fd fun n h = record { defined = h.defined; blocks = h.blocks }
registry-IsHealthy false fd fun n h = h

unregistry-IsHealthy :
    (b : Bool) (fd : ℕ) (n : Net)
    → IsHealthy n
    → IsHealthy (if b then unregistry_fd_handler fd n else n)
unfolding unregistry_fd_handler
unregistry-IsHealthy true fd n h = record { defined = h.defined; blocks = h.blocks }
unregistry-IsHealthy false fd n h = h

kernel-IsHealthy :
    (b : Bool) (call : KernelCall) (n : Net)
    → IsHealthy n
    → IsHealthy (if b then kernel call n else n)
kernel-IsHealthy true call n h = record { defined = h.defined; blocks = h.blocks }
kernel-IsHealthy false call n h = h

drop-IsHealthy :
    (it : BseClientContext) (n : Net) → IsHealthy n → IsHealthy (drop_client_context it n)
unfolding drop_client_context
drop-IsHealthy it n h =
    kernel-IsHealthy (ltb 0 it.notify_fd) _ _ (kernel-IsHealthy (ltb 0 it.watch_fd) _ n h)

watch_file-IsHealthy :
    (answer : InotifyAnswer) (s : Sys Bse) → IsHealthy s.net → IsHealthy (watch_file answer s).1.net
unfolding watch_file
watch_file-IsHealthy init_fails s h = h
watch_file-IsHealthy (watch_fails fd) s h = record { defined = h.defined; blocks = h.blocks }
watch_file-IsHealthy (watches fd wd) s h = h

new_client_context-IsHealthy :
    (file : List ℕ) (s : Sys Bse) → IsHealthy s.net → IsHealthy (new_client_context file s).1.net
unfolding new_client_context
new_client_context-IsHealthy [] s h = h
new_client_context-IsHealthy (ch ∷ file) s h =
    let (answer, rest) = next_answer s.app.inotify in
    watch_file-IsHealthy answer (on_app (λ a. record a { inotify = rest }) s) h

-- Logging in does nothing undefined.
pub create_client_context-IsHealthy :
    (fd : ℕ) (account : BseAccount) (s : Sys Bse)
    → IsHealthy s.net
    → IsHealthy (create_client_context fd account s).net
unfolding create_client_context first_login
create_client_context-IsHealthy fd account s h =
    elim (Option-cases (find account.code s.app.client_context)) [
      | inl e ↦
          rw (e, create_client_context)
            (registry-IsHealthy _ _ handle_file_notify _
              (new_client_context-IsHealthy account.pb_file s h))
      | inr (online, e) ↦ rw (e, create_client_context) h
    ]

-- Nor does dropping a client that is listed under its code, or whose code has no context.
pub clear_client_context-IsHealthy :
    (fd : ℕ) (code : ℤ) (s : Sys Bse)
    → ((it : BseClientContext)
        → find code s.app.client_context ≡ some it
        → member fd it.clients_fd ≡ true)
    → IsHealthy s.net
    → IsHealthy (clear_client_context fd code s).net
unfolding clear_client_context last_logout
clear_client_context-IsHealthy fd code s listed h =
    elim (Option-cases (find code s.app.client_context)) [
      | inl e ↦ rw (e, clear_client_context) h
      | inr (it, e) ↦ elim (Bool-cases (length (remove fd it.clients_fd) == 0)) [
        | inl last ↦
            rw (e, last, listed it e, clear_client_context)
              (drop-IsHealthy _ _ (unregistry-IsHealthy _ it.notify_fd _ same))
        | inr more ↦ rw (e, more, listed it e, clear_client_context) same
      ]
    ]
  where
    same : IsHealthy (record s.net { undefined = s.net.undefined || false })
    same = record { defined = ground (arith, h.defined); blocks = h.blocks }

-- If the maps are in order, nothing undefined has happened and no malloc fails, a lost connection
-- is dropped without anything undefined: a client that is erased from a context's set is in it.
pub on_disconnect-IsHealthy :
    (fd : ℕ) (s : Sys Bse) → Registered s.app → IsHealthy s.net → IsHealthy (on_disconnect fd s).net
unfolding on_disconnect
on_disconnect-IsHealthy fd s r h = elim (Option-cases (find fd s.app.sock_lookup)) [
  | inl e ↦ rw (e, on_disconnect) h
  | inr (code, e) ↦
      rw (e, on_disconnect)
        (clear_client_context-IsHealthy fd code s
          (λ it f. ground (arith, r.listed fd code e, int_eq_iff code no_code, r.no_guests)) h)
]
