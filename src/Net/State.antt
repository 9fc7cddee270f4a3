-- ===== src/Net/State.antt =====
-- class EpollNet: the contexts of the connections, the handlers of other descriptors, and the
-- kernel calls made about them. A method is a function from the state to the state after it.
use vwnet_lib.Base.{
  ℕ, ◌+◌, ◌-◌, ◌%◌, ◌^◌, Bool, List, [], ◌∷◌, Option, none, some, bit_or, Map, find, emplace,
  assign, erase, nat_eq,
}

-- `size_t` subtraction wraps.
abbrev pub sub_size : ℕ → ℕ → ℕ
sub_size a b = (a + 2 ^ 64 - b) % 2 ^ 64

abbrev pub epollin : ℕ
epollin = 0x001

abbrev pub epollout : ℕ
epollout = 0x004

abbrev pub epollerr : ℕ
epollerr = 0x008

abbrev pub epollhup : ℕ
epollhup = 0x010

abbrev pub epollrdhup : ℕ
epollrdhup = 0x2000

-- EPOLLET, the mode of class EpollNetTcp
abbrev pub epollet : ℕ
epollet = 0x80000000

-- struct w_req: `bytes` are the `size` bytes at `data`, and `copied` says that they lie in `in_buf`.
pub record WReq : Type 0 where
  pub copied : Bool
  pub bytes : List ℕ

-- The reading side of struct net_context: `r_data` as an offset into `r_buf`.
pub record ReadBuf : Type 0 where
  pub r_buf : List ℕ
  pub r_data : ℕ
  pub r_size : ℕ

-- struct net_context; the peer's address is a number.
pub record NetContext : Type 0 where
  pub read_buf : ReadBuf
  pub w_req_q : List WReq
  pub rt_saddr : ℕ

-- The functions that are registered for descriptors.
pub data FdHandler : Type 0 where
  handle_accept handle_file_notify : FdHandler

pub data CtlOp : Type 0 where
  ctl_add ctl_mod ctl_del : CtlOp

pub data KernelCall : Type 0 where
  shutdown_fd close_fd set_nonblock : ℕ → KernelCall
  epoll_ctl : CtlOp → ℕ → ℕ → KernelCall
  rm_watch : ℕ → ℕ → KernelCall

-- `calls` are the kernel calls so far, the latest first; `mallocs` says of the coming calls of
-- `malloc` whether they succeed; `undefined` is set by an access out of
-- bounds: a read past the end of a connection's buffer, of a message, of a record from the pipe of commands
-- or of what send_data is given, and the erase of a client that is not in a set. That isspace is given
-- bytes of 0x80 and above does not set it: glibc defines it for them.
pub record Net : Type 0 where
  pub buf_size : ℕ
  pub mode : ℕ
  pub contexts : Map ℕ NetContext
  pub fd_handlers : Map ℕ FdHandler
  pub mallocs : List Bool
  pub undefined : Bool
  pub calls : List KernelCall

abbrev pub kernel : KernelCall → Net → Net
kernel call n = record n { calls = call ∷ n.calls }

unfoldable pub set_event : ℕ → CtlOp → ℕ → Net → Net
set_event fd opt event n = kernel (epoll_ctl opt fd (bit_or (bit_or event n.mode) epollrdhup)) n

unfoldable pub add_event : ℕ → ℕ → Net → Net
unfolding set_event
add_event fd event n = set_event fd ctl_add event n

unfoldable pub modify_event : ℕ → ℕ → Net → Net
unfolding set_event
modify_event fd event n = set_event fd ctl_mod event n

unfoldable pub delete_event : ℕ → ℕ → Net → Net
unfolding set_event
delete_event fd event n = set_event fd ctl_del event n

unfoldable pub make_nonblock : ℕ → Net → Net
make_nonblock sfd n = kernel (set_nonblock sfd) n

-- The constructor of net_context over the block that its `malloc` returned.
unfoldable pub new_context : List ℕ → ℕ → NetContext
new_context block remote = record {
  read_buf = record { r_buf = block; r_data = 0; r_size = 0 };
  w_req_q = [];
  rt_saddr = remote;
}

unfoldable pub create_context : ℕ → ℕ → List ℕ → Net → Net
unfolding new_context
create_context fd remote block n = record n {
  contexts = emplace fd (new_context block remote) n.contexts;
}

unfoldable pub get_context : ℕ → Net → Option NetContext
get_context fd n = find fd n.contexts

unfoldable pub delete_context : ℕ → Net → Net
unfolding get_context
delete_context fd n = elim (get_context fd n) [
  | none ↦ n
  | some it ↦
      let n' = kernel (close_fd fd) (kernel (shutdown_fd fd) n) in
      record n' { contexts = erase fd n'.contexts }
]

close_each : Map ℕ NetContext → List KernelCall → List KernelCall
close_each [] calls = calls
close_each ((fd, ctxt) ∷ m) calls = close_each m (close_fd fd ∷ (shutdown_fd fd ∷ calls))

-- `delete_context()`, whose default argument -1 means all.
unfoldable pub delete_all_contexts : Net → Net
unfolding close_each
delete_all_contexts n = record n { contexts = []; calls = close_each n.contexts n.calls }

-- `events` is what stands in `Events_[index]`.
unfoldable pub clear_context_event : ℕ → ℕ → Net → Net
unfolding get_context delete_event delete_context
clear_context_event fd events n = elim (get_context fd n) [
  | none ↦ n
  | some it ↦ delete_context fd (delete_event fd events n)
]

unfoldable pub registry_fd_handler : ℕ → FdHandler → Net → Net
unfolding make_nonblock add_event
registry_fd_handler fd fun n =
    let n' = add_event fd epollin (make_nonblock fd n) in
    record n' { fd_handlers = emplace fd fun n'.fd_handlers }

unfoldable pub unregistry_fd_handler : ℕ → Net → Net
unfolding delete_event
unregistry_fd_handler fd n =
    let n' = delete_event fd epollin n in record n' { fd_handlers = erase fd n'.fd_handlers }

-- `disconnect` of class EpollNetTcp.
unfoldable pub disconnect : ℕ → Net → Net
disconnect fd n = kernel (shutdown_fd fd) n

-- Writes through the shared pointer of the context of `fd`.
unfoldable pub update_context : ℕ → NetContext → Net → Net
update_context fd ctxt n = record n { contexts = assign fd ctxt n.contexts }

-- The library with the class `A` that derives from it, whose virtual functions are `Handlers`.
pub record Sys (A : Type 0) : Type 0 where
  pub net : Net
  pub app : A

pub record Handlers (A : Type 0) : Type 0 where
  pub process_data : ℕ → List ℕ → Sys A → ℕ × Sys A
  pub on_connect : ℕ → Sys A → Sys A
  pub on_disconnect : ℕ → Sys A → Sys A
  pub on_error : ℕ → ℕ → Sys A → Sys A

abbrev pub on_net : {A : Type 0} → (Net → Net) → Sys A → Sys A
on_net f s = record s { net = f s.net }
