-- ===== src/Server/State.antt =====
-- The accounts of the server, the clients that are logged in, and the calls that connect, log in
-- and drop a client. `ContextMutex_` guards them: each is one step.
pub mod Registry
pub mod Invariant
pub mod Health
pub mod Buffers
use vwnet_lib.Base.{
  ℕ, ◌-◌, ◌^◌, Bool, true, false, not, ◌||◌, List, [], ◌∷◌, Option, none, some, ℤ, pos, negsuc, Map,
  find, emplace, assign, erase, nat_eq, int_eq_instance, member, insert, remove, length, ltb, ◌==◌,
  if◌then◌else◌,
}
use vwnet_lib.Net.State.{
  Net, FdHandler, handle_file_notify, KernelCall, close_fd, rm_watch, kernel, Sys, on_net,
  registry_fd_handler, unregistry_fd_handler,
}

-- enum class ac_type
pub data AcType : Type 0 where
  admin broadcast query : AcType

-- struct bse_account; a path or a name is the list of its bytes.
pub record BseAccount : Type 0 where
  pub type : AcType
  pub code : ℤ
  pub jnl_rate : ℤ
  pub name : List ℕ
  pub pwd : List ℕ
  pub pb_file : List ℕ
  pub jnl_file : List ℕ
  pub q_files : Map ℤ (List ℕ)

-- struct bse_client_context
pub record BseClientContext : Type 0 where
  pub notify_fd : ℕ
  pub watch_fd : ℕ
  pub jnl_rate : ℤ
  pub type : AcType
  pub pb_file : List ℕ
  pub jnl_file : List ℕ
  pub q_files : Map ℤ (List ℕ)
  pub clients_fd : List ℕ

-- What inotify_init and inotify_add_watch answer a constructor: no descriptor, a descriptor but no
-- watch, or both.
pub data InotifyAnswer : Type 0 where
  init_fails : InotifyAnswer
  watch_fails : ℕ → InotifyAnswer
  watches : ℕ → ℕ → InotifyAnswer

-- What the file system says of a path: no `stat`; a size but no `open`; a size but no `mmap`; the
-- bytes that are mapped.
pub data File : Type 0 where
  missing : File
  unreadable unmappable : ℕ → File
  mapped : List ℕ → File

-- What `read` gives of the journal: an error (as into a buffer that `malloc` has not given), as much as
-- there is room for, or at most so many bytes.
pub data JnlRead : Type 0 where
  read_fails read_whole : JnlRead
  read_short : ℕ → JnlRead

-- What a round of send_jnl_file meets: a read, and whether the task is cancelled meanwhile.
pub record PlayRound : Type 0 where
  pub jnl_read : JnlRead
  pub cancelled : Bool

-- class BSESimulator; `inotify` are the coming answers (`init_fails` when there are no more),
-- `files` is the file system, and `play_rounds` are the coming rounds of send_jnl_file (a whole read and
-- no cancel when there are no more).
pub record Bse : Type 0 where
  pub accounts : Map ℤ BseAccount
  pub sock_lookup : Map ℕ ℤ
  pub client_context : Map ℤ BseClientContext
  pub inotify : List InotifyAnswer
  pub files : List ℕ → File
  pub quit_current_task : Bool
  pub play_rounds : List PlayRound

abbrev pub on_app : (Bse → Bse) → Sys Bse → Sys Bse
on_app f s = record s { app = f s.app }

-- The members' initial values, and the file that is watched.
abbrev pub fresh_context : List ℕ → ℕ → ℕ → BseClientContext
fresh_context file notify_fd watch_fd = record {
  notify_fd = notify_fd;
  watch_fd = watch_fd;
  jnl_rate = pos 0;
  type = broadcast;
  pb_file = file;
  jnl_file = [];
  q_files = [];
  clients_fd = [];
}

-- The watch of a file: the two descriptors, 0 for none.
unfoldable pub watch_file : InotifyAnswer → Sys Bse → (ℕ × ℕ) × Sys Bse
watch_file init_fails s = ((0, 0), s)
watch_file (watch_fails notify_fd) s = ((0, 0), on_net (kernel (close_fd notify_fd)) s)
watch_file (watches notify_fd watch_fd) s = ((notify_fd, watch_fd), s)

abbrev pub next_answer : List InotifyAnswer → InotifyAnswer × List InotifyAnswer
next_answer [] = (init_fails, [])
next_answer (answer ∷ rest) = (answer, rest)

-- The constructor of bse_client_context.
unfoldable pub new_client_context : List ℕ → Sys Bse → BseClientContext × Sys Bse
new_client_context [] s = (fresh_context [] 0 0, s)
new_client_context (ch ∷ file) s =
    let (answer, rest) = next_answer s.app.inotify in
    let (fds, s') = watch_file answer (on_app (λ a. record a { inotify = rest }) s) in
    (fresh_context (ch ∷ file) fds.0 fds.1, s')

-- Its destructor.
unfoldable pub drop_client_context : BseClientContext → Net → Net
drop_client_context ctxt n =
    let n' = if ltb 0 ctxt.watch_fd then kernel (rm_watch ctxt.notify_fd ctxt.watch_fd) n else n in
    if ltb 0 ctxt.notify_fd then kernel (close_fd ctxt.notify_fd) n' else n'

-- create_client_context for a code that has no context.
unfoldable pub first_login : ℕ → BseAccount → Sys Bse → Sys Bse
first_login fd account s =
    let (context, s₁) = new_client_context account.pb_file s in
    let s₂ =
      on_net
        (λ n.
          if ltb 0 context.watch_fd
          then registry_fd_handler context.notify_fd handle_file_notify n
          else n)
        s₁ in
    let filled : BseClientContext = record context {
      clients_fd = insert fd [];
      type = account.type;
      q_files = account.q_files;
      jnl_file = account.jnl_file;
      jnl_rate = account.jnl_rate;
    } in
    on_app (λ a. record a { client_context = emplace account.code filled a.client_context }) s₂

unfoldable pub create_client_context : ℕ → BseAccount → Sys Bse → Sys Bse
create_client_context fd account s =
    on_app (λ a. record a { sock_lookup = assign fd account.code a.sock_lookup })
      (elim (find account.code s.app.client_context) [
        | none ↦ first_login fd account s
        | some online ↦
            let joined : BseClientContext = record online {
              clients_fd = insert fd online.clients_fd;
            } in
            on_app (λ a. record a { client_context = assign account.code joined a.client_context })
              s
      ])

-- The last client of a code has gone: no more file events, and the context is destroyed.
unfoldable pub last_logout : ℤ → BseClientContext → Sys Bse → Sys Bse
last_logout code it s =
    let s₁ =
      on_net (λ n. if ltb 0 it.notify_fd then unregistry_fd_handler it.notify_fd n else n) s in
    on_net (drop_client_context it)
      (on_app (λ a. record a { client_context = erase code a.client_context }) s₁)

-- `erase` at `end()`, for a client that is not listed, is undefined.
unfoldable pub clear_client_context : ℕ → ℤ → Sys Bse → Sys Bse
clear_client_context fd code s =
    on_app (λ a. record a { sock_lookup = erase fd a.sock_lookup })
      (elim (find code s.app.client_context) [
        | none ↦ s
        | some it ↦
            let clients_fd = remove fd it.clients_fd in
            let s₁ =
              on_net (λ n. record n { undefined = n.undefined || not (member fd it.clients_fd) })
                s in
            let left : BseClientContext = record it { clients_fd = clients_fd } in
            if length clients_fd == 0
            then last_logout code left s₁
            else on_app (λ a. record a { client_context = assign code left a.client_context }) s₁
      ])

-- A connection has the code -1 until it logs in.
abbrev pub no_code : ℤ
no_code = negsuc 0

unfoldable pub on_connect : ℕ → Sys Bse → Sys Bse
on_connect fd s = on_app (λ a. record a { sock_lookup = emplace fd no_code a.sock_lookup }) s

unfoldable pub on_disconnect : ℕ → Sys Bse → Sys Bse
on_disconnect fd s = elim (find fd s.app.sock_lookup) [
  | none ↦ s
  | some code ↦ clear_client_context fd code s
]

unfoldable pub on_error : ℕ → ℕ → Sys Bse → Sys Bse
on_error fd err s = elim (find fd s.app.sock_lookup) [
  | none ↦ s
  | some code ↦ clear_client_context fd code s
]
