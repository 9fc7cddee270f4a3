-- ===== src/Net/Socket.antt =====
-- What epoll_net.cpp relies on of the kernel's `read` and `write` on a non-blocking socket. A
-- connection is any type with these calls and the laws below, which are POSIX's.
use vwnet_lib.Base.{ℕ, ◌≤◌, ◌≡◌, Bool, ◌||◌, List, ◌++◌, length, take, ◌==◌}

-- errno; EAGAIN and EWOULDBLOCK are one number on Linux.
abbrev pub eagain : ℕ
eagain = 11

abbrev pub ewouldblock : ℕ
ewouldblock = 11

abbrev pub would_block : ℕ → Bool
would_block errno = errno == eagain || errno == ewouldblock

-- `got []` is the return value 0; `read_error errno` is -1.
pub data ReadResult : Type 0 where
  got : List ℕ → ReadResult
  read_error : ℕ → ReadResult

-- `read` returns at most as many bytes as asked for, and takes them off the front of the stream.
pub record Inbound : Type 1 where
  pub Conn : Type 0
  pub read : Conn → ℕ → ReadResult × Conn
  pub incoming : Conn → List ℕ
  pub read_fits :
      (c : Conn) (n : ℕ) (bytes : List ℕ) (c' : Conn)
      → read c n ≡ (got bytes, c')
      → length bytes ≤ n
  pub read_stream :
      (c : Conn) (n : ℕ) (bytes : List ℕ) (c' : Conn)
      → read c n ≡ (got bytes, c')
      → incoming c ≡ bytes ++ incoming c'
  pub error_stream :
      (c : Conn) (n errno : ℕ) (c' : Conn)
      → read c n ≡ (read_error errno, c')
      → incoming c ≡ incoming c'

-- `write_error errno` is -1.
pub data WriteResult : Type 0 where
  wrote : ℕ → WriteResult
  write_error : ℕ → WriteResult

-- `write` takes a first part of the bytes that it is given, and reports its length.
pub record Outbound : Type 1 where
  pub Conn : Type 0
  pub write : Conn → List ℕ → WriteResult × Conn
  pub sent : Conn → List ℕ
  pub write_fits :
      (c : Conn) (bytes : List ℕ) (n : ℕ) (c' : Conn)
      → write c bytes ≡ (wrote n, c')
      → n ≤ length bytes
  pub write_stream :
      (c : Conn) (bytes : List ℕ) (n : ℕ) (c' : Conn)
      → write c bytes ≡ (wrote n, c')
      → sent c' ≡ sent c ++ take n bytes
  pub error_stream :
      (c : Conn) (bytes : List ℕ) (errno : ℕ) (c' : Conn)
      → write c bytes ≡ (write_error errno, c')
      → sent c' ≡ sent c
