-- ===== src/Client/Config.antt =====
-- The client's configuration file, and the clients that main makes of it. What the file system says
-- of the file is an argument: it cannot be opened, or it has these bytes.
pub mod Order
use vwnet_lib.Base.{ℕ, ◌+◌, ◌^◌, List, [], ◌∷◌, ◌++◌, Option, none, some, ℤ, if◌then◌else◌}
use vwnet_lib.Config.{
  Json, Reading, ok, threw, no_fuel, ◌>>=◌, asked, for_uint16, get_uint, get_string, Key, ip, port,
  threads, buf_size, accounts, code, name, pwd, ts, jnl_file, query,
}
use vwnet_lib.Net.Setup.{Service, set_sizes, init, net_do_bind}
use vwnet_lib.Server.Process.{to_int}
use vwnet_lib.Client.State.{ClientAccount, BseClient, on_client, to_unsigned}

-- struct client_config
pub record ClientConfig : Type 0 where
  pub ip : List ℕ
  pub port : ℤ
  pub threads : ℤ
  pub buf_size : ℤ
  pub accounts : List ClientAccount

-- How get_config ends: the two returns of false, an exception that nothing catches, a loop without an
-- end, or true.
pub data ConfigResult : Type 0 where
  no_file not_json raised stuck : ConfigResult
  read : ClientConfig → ConfigResult

-- The body of both loops: what is read at a place is put behind the others.
unfoldable pub push_back {ℓ} : {A : Type ℓ} → (ℕ → Reading A) → ℕ → List A → Reading (List A)
push_back at i known = do a ← at i; ok (known ++ (a ∷ []))

module _ (json : Json) where
  open json use {Value}

  unfoldable pub query_at : Value → ℕ → Reading ℤ
  query_at queries j = do
    value ← asked (json.at queries j)
    number ← asked (json.as_uint value)
    ok (to_int number)

  unfoldable pub read_queries : ℕ → Value → Reading (List ℤ)
  read_queries fuel account = do
    queries ← asked (json.member account query)
    if json.is_array queries
        then for_uint16 (push_back (query_at queries)) fuel 0 (json.size queries) []
        else ok []

  unfoldable pub client_account_at : ℕ → Value → ℕ → Reading ClientAccount
  client_account_at fuel list i = do
    account ← asked (json.at list i)
    ac_name ← get_string json account name
    ac_code ← get_uint json account code
    ac_pwd ← get_string json account pwd
    ac_ts ← get_string json account ts
    ac_jnl ← get_string json account jnl_file
    msgs ← read_queries fuel account
    ok (record {
      code = to_int ac_code;
      name = ac_name;
      pwd = ac_pwd;
      ts = ac_ts;
      jnl_file = ac_jnl;
      query_msgs = msgs;
    })

  unfoldable pub read_client_accounts : ℕ → Value → Reading (List ClientAccount)
  read_client_accounts fuel list =
      for_uint16 (push_back (client_account_at fuel list)) fuel 0 (json.size list) []

  unfoldable pub read_client_config : ℕ → Value → Reading ClientConfig
  read_client_config fuel root = do
    host ← get_string json root ip
    port_number ← get_uint json root port
    thread_n ← get_uint json root threads
    buf_n ← get_uint json root buf_size
    list ← asked (json.member root accounts)
    found ← read_client_accounts fuel list
    ok (record {
      ip = host;
      port = to_int port_number;
      threads = to_int thread_n;
      buf_size = to_int buf_n;
      accounts = found;
    })

  unfoldable pub get_config : ℕ → Option (List ℕ) → ConfigResult
  get_config fuel none = no_file
  get_config fuel (some text) = elim (json.parse text) [
    | none ↦ not_json
    | some root ↦ elim (read_client_config fuel root) [
      | ok config ↦ read config
      | threw ↦ raised
      | no_fuel ↦ stuck
    ]
  ]

-- The client that main makes for an account: set_account, Set and Init; `int` sizes become `size_t` and
-- `uint16_t`.
unfoldable pub new_client :
    (List ℕ → ℕ) → ClientConfig → ClientAccount → Service BseClient → Service BseClient
new_client inet_addr config account s =
    let owner = record s { sys = on_client (λ c. record c { account = account }) s.sys } in
    (init inet_addr net_do_bind config.ip (to_unsigned 16 config.port)
      (set_sizes (to_unsigned 64 config.buf_size) (to_unsigned 16 config.threads) owner)).1
