-- ===== src/Server/State/Buffers.antt =====
-- The calls of `Server.State` leave the read buffers alone.
use vwnet_lib.Base.{
  ℕ, refl, inl, inr, Bool, true, false, List, [], ◌∷◌, ℤ, ◌==◌, find, remove, nat_eq,
  int_eq_instance, length, ltb, if◌then◌else◌, Bool-cases, Option-cases,
}
use vwnet_lib.Net.State.{
  Net, FdHandler, handle_file_notify, KernelCall, Sys, kernel, set_event, registry_fd_handler,
  unregistry_fd_handler, make_nonblock, add_event, delete_event,
}
use vwnet_lib.Net.Events.Buffers.{SameBuffers, SameBuffers-refl, SameBuffers-trans, same_contexts}
use vwnet_lib.Server.State.{
  BseAccount, BseClientContext, Bse, InotifyAnswer, init_fails, watch_fails, watches, next_answer,
  watch_file, new_client_context, drop_client_context, first_login, create_client_context,
  last_logout, clear_client_context, on_app, on_disconnect,
}

-- What the accounts' bookkeeping does to the network is about other descriptors.
registry-SameBuffers :
    (b : Bool) (fd : ℕ) (fun : FdHandler) (n : Net)
    → SameBuffers n (if b then registry_fd_handler fd fun n else n)
unfolding registry_fd_handler make_nonblock add_event set_event
registry-SameBuffers true fd fun n = same_contexts refl refl
registry-SameBuffers false fd fun n = SameBuffers-refl n

unregistry-SameBuffers :
    (b : Bool) (fd : ℕ) (n : Net) → SameBuffers n (if b then unregistry_fd_handler fd n else n)
unfolding unregistry_fd_handler delete_event set_event
unregistry-SameBuffers true fd n = same_contexts refl refl
unregistry-SameBuffers false fd n = SameBuffers-refl n

kernel-SameBuffers :
    (b : Bool) (call : KernelCall) (n : Net) → SameBuffers n (if b then kernel call n else n)
kernel-SameBuffers true call n = same_contexts refl refl
kernel-SameBuffers false call n = SameBuffers-refl n

drop-SameBuffers : (it : BseClientContext) (n : Net) → SameBuffers n (drop_client_context it n)
unfolding drop_client_context
drop-SameBuffers it n =
    SameBuffers-trans (kernel-SameBuffers (ltb 0 it.watch_fd) _ n)
      (kernel-SameBuffers (ltb 0 it.notify_fd) _ _)

watch_file-SameBuffers :
    (answer : InotifyAnswer) (s : Sys Bse) → SameBuffers s.net (watch_file answer s).1.net
unfolding watch_file
watch_file-SameBuffers init_fails s = SameBuffers-refl s.net
watch_file-SameBuffers (watch_fails fd) s = same_contexts refl refl
watch_file-SameBuffers (watches fd wd) s = SameBuffers-refl s.net

new_client_context-SameBuffers :
    (file : List ℕ) (s : Sys Bse) → SameBuffers s.net (new_client_context file s).1.net
unfolding new_client_context
new_client_context-SameBuffers [] s = SameBuffers-refl s.net
new_client_context-SameBuffers (ch ∷ file) s =
    let (answer, rest) = next_answer s.app.inotify in
    watch_file-SameBuffers answer (on_app (λ a. record a { inotify = rest }) s)

pub create_client_context-SameBuffers :
    (fd : ℕ) (account : BseAccount) (s : Sys Bse)
    → SameBuffers s.net (create_client_context fd account s).net
unfolding create_client_context first_login
create_client_context-SameBuffers fd account s =
    elim (Option-cases (find account.code s.app.client_context)) [
      | inl e ↦
          rw (e, create_client_context)
            (SameBuffers-trans (new_client_context-SameBuffers account.pb_file s)
              (registry-SameBuffers _ _ handle_file_notify _))
      | inr (online, e) ↦ rw (e, create_client_context) (SameBuffers-refl s.net)
    ]

clear_client_context-SameBuffers :
    (fd : ℕ) (code : ℤ) (s : Sys Bse) → SameBuffers s.net (clear_client_context fd code s).net
unfolding clear_client_context last_logout
clear_client_context-SameBuffers fd code s = elim (Option-cases (find code s.app.client_context)) [
  | inl e ↦ rw (e, clear_client_context) (SameBuffers-refl s.net)
  | inr (it, e) ↦ elim (Bool-cases (length (remove fd it.clients_fd) == 0)) [
    | inl last ↦
        rw (e, last, clear_client_context)
          (SameBuffers-trans (same_contexts refl refl)
            (SameBuffers-trans (unregistry-SameBuffers _ it.notify_fd _) (drop-SameBuffers _ _)))
    | inr more ↦ rw (e, more, clear_client_context) (same_contexts refl refl)
  ]
]

pub on_disconnect-SameBuffers : (fd : ℕ) (s : Sys Bse) → SameBuffers s.net (on_disconnect fd s).net
unfolding on_disconnect
on_disconnect-SameBuffers fd s = elim (Option-cases (find fd s.app.sock_lookup)) [
  | inl e ↦ rw (e, on_disconnect) (SameBuffers-refl s.net)
  | inr (code, e) ↦ rw (e, on_disconnect) (clear_client_context-SameBuffers fd code s)
]
