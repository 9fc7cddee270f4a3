-- ===== src/Tests/Data.antt =====
-- The inputs: a socket that gives and takes a few bytes at a time, an account, a server.
use vwnet_lib.Base.{
  ℕ, zero, suc, ◌≤◌, ◌≡◌, refl, false, List, [], ◌∷◌, ◌++◌, some, arith, min, ℤ, pos, take, drop,
  length, length-take, take-append-drop, replicate, find, nat_eq, int_eq_iff, int_eq_instance,
}
use vwnet_lib.Net.State.{Net, Sys, epollet}
use vwnet_lib.Net.Socket.{
  Inbound, ReadResult, got, read_error, Outbound, WriteResult, wrote, write_error, eagain,
}
use vwnet_lib.Server.State.{broadcast, BseAccount, Bse, missing, no_code}

-- At most five bytes a read; EAGAIN when nothing is on its way.
abbrev read_some : List ℕ → ℕ → ReadResult × List ℕ
read_some [] n = (read_error eagain, [])
read_some (b ∷ bytes) n = (got (take (min n 5) (b ∷ bytes)), drop (min n 5) (b ∷ bytes))

pub read_some_fits :
    (c : List ℕ) (n : ℕ) (bytes c' : List ℕ) → read_some c n ≡ (got bytes, c') → length bytes ≤ n
read_some_fits [] n bytes c' e = ground arith
read_some_fits (b ∷ c) n bytes c' e = ground (arith, length-take (min n 5) (b ∷ c))

pub read_some_stream :
    (c : List ℕ) (n : ℕ) (bytes c' : List ℕ) → read_some c n ≡ (got bytes, c') → c ≡ bytes ++ c'
read_some_stream [] n bytes c' e = ground arith
read_some_stream (b ∷ c) n bytes c' e = ground (arith, take-append-drop (min n 5) (b ∷ c))

pub read_some_error :
    (c : List ℕ) (n errno : ℕ) (c' : List ℕ) → read_some c n ≡ (read_error errno, c') → c ≡ c'
read_some_error [] n errno c' e = ground arith
read_some_error (b ∷ c) n errno c' e = ground arith

abbrev pub five_a_read : Inbound
five_a_read = record {
  Conn = List ℕ;
  read = read_some;
  incoming = λ c. c;
  read_fits = read_some_fits;
  read_stream = read_some_stream;
  error_stream = read_some_error;
}

-- At most three bytes a write, for so many writes.
abbrev pub SendBuffer : Type 0
SendBuffer = List ℕ × ℕ

abbrev write_some : SendBuffer → List ℕ → WriteResult × SendBuffer
write_some (s, zero) bytes = (write_error eagain, (s, zero))
write_some (s, suc n) bytes = (wrote (length (take 3 bytes)), (s ++ take 3 bytes, n))

take-length-take : (bytes : List ℕ) → take (length (take 3 bytes)) bytes ≡ take 3 bytes
take-length-take [] = refl
take-length-take (a ∷ []) = refl
take-length-take (a ∷ b ∷ []) = refl
take-length-take (a ∷ b ∷ c ∷ bytes) = refl

pub write_some_fits :
    (c : SendBuffer) (bytes : List ℕ) (n : ℕ) (c' : SendBuffer)
    → write_some c bytes ≡ (wrote n, c')
    → n ≤ length bytes
write_some_fits (s, zero) bytes n c' e = ground arith
write_some_fits (s, suc m) bytes n c' e = ground (arith, length-take 3 bytes)

pub write_some_stream :
    (c : SendBuffer) (bytes : List ℕ) (n : ℕ) (c' : SendBuffer)
    → write_some c bytes ≡ (wrote n, c')
    → c'.0 ≡ c.0 ++ take n bytes
write_some_stream (s, zero) bytes n c' e = ground arith
write_some_stream (s, suc m) bytes n c' e = ground (arith, take-length-take bytes)

pub write_some_error :
    (c : SendBuffer) (bytes : List ℕ) (errno : ℕ) (c' : SendBuffer)
    → write_some c bytes ≡ (write_error errno, c')
    → c'.0 ≡ c.0
write_some_error (s, zero) bytes errno c' e = ground arith
write_some_error (s, suc m) bytes errno c' e = ground arith

abbrev pub three_a_write : Outbound
three_a_write = record {
  Conn = SendBuffer;
  write = write_some;
  sent = λ c. c.0;
  write_fits = write_some_fits;
  write_stream = write_some_stream;
  error_stream = write_some_error;
}

abbrev pub account : BseAccount
account = record {
  type = broadcast;
  code = pos 7;
  jnl_rate = pos 0;
  name = [];
  pwd = 49 ∷ [];
  pb_file = [];
  jnl_file = [];
  q_files = [];
}

abbrev pub other_account : BseAccount
other_account = record account { code = pos 8 }

abbrev pub block : List ℕ
block = replicate 100 0

abbrev pub net : Net
net = record {
  buf_size = 100;
  mode = epollet;
  contexts =
      (
        5,
        record {
          read_buf = record { r_buf = block; r_data = 0; r_size = 0 };
          w_req_q = [];
          rt_saddr = 0;
        },
      )
      ∷ [];
  fd_handlers = [];
  mallocs = [];
  undefined = false;
  calls = [];
}

abbrev pub bse : Bse
bse = record {
  accounts = (pos 7, account) ∷ [];
  sock_lookup = [];
  client_context = [];
  inotify = [];
  play_rounds = [];
  files = λ path. missing;
  quit_current_task = false;
}

abbrev pub server : Sys Bse
server = record { net = net; app = bse }

-- With a connection.
abbrev pub connected : Sys Bse
connected = record server { app = record bse { sock_lookup = (5, no_code) ∷ [] } }

-- The bytes of a log-in as code 7 with the password "1".
abbrev pub login_bytes : List ℕ
login_bytes = 0 ∷ 0 ∷ 7 ∷ 9 ∷ 0 ∷ 7 ∷ 0 ∷ 0 ∷ 49 ∷ replicate 71 0

pub account_keyed : (c : ℤ) (acc : BseAccount) → find c bse.accounts ≡ some acc → acc.code ≡ c
unfolding find
account_keyed c acc e = ground (arith, int_eq_iff (pos 7) c)
