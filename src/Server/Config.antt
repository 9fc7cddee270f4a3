-- ===== src/Server/Config.antt =====
-- The server's configuration file, and start_service with its keep-alive options. What the file system
-- says of the file is an argument: it cannot be opened, or it has these bytes.
pub mod Accounts
pub mod Start
use vwnet_lib.Base.{
  ℕ, ◌^◌, ◌==◌, Bool, true, false, List, [], Option, none, some, ℤ, pos, Map, emplace,
  int_eq_instance, if◌then◌else◌,
}
use vwnet_lib.Config.{
  Json, Reading, ok, threw, no_fuel, ◌>>=◌, asked, for_uint16, get_uint, get_string, get_text, Key,
  port, threads, buf_size, keep_alive, enable, idle, interval, count, accounts, code, type, query,
  msg, q_file, name, pwd, pb_file, jnl_file, jnl_rate,
}
use vwnet_lib.Net.Setup.{
  Service, try_call, set_keep_alive, set_sizes, init, server_do_bind, server_start_service,
}
use vwnet_lib.Server.State.{AcType, admin, broadcast, BseAccount, Bse, on_app}
use vwnet_lib.Server.Process.{to_int}

-- struct keep_alive_para
pub record KeepAlivePara : Type 0 where
  pub enable : Bool
  pub idle : ℤ
  pub interval : ℤ
  pub count : ℤ

-- What class BSESimulator adds to its base class here.
pub record Simulator : Type 0 where
  pub service : Service Bse
  pub keep_alive_setting : KeepAlivePara

-- How init_from_cfgfile ends: the two returns of false, an exception that nothing catches, a loop
-- without an end, or what Init returned.
pub data CfgResult : Type 0 where
  no_file not_json raised stuck : CfgResult
  inited : Bool → Simulator → CfgResult

-- What is read before Set and Init are called: the port, the sizes, the setting, the accounts.
pub record ServerConfig : Type 0 where
  pub cfg_port : ℕ
  pub cfg_threads : ℕ
  pub cfg_buf_size : ℕ
  pub cfg_keep_alive : KeepAlivePara
  pub cfg_accounts : Map ℤ BseAccount

-- Set and Init, from what was read.
unfoldable pub set_and_init : (List ℕ → ℕ) → ServerConfig → Simulator → CfgResult
set_and_init inet_addr config s =
    let known = record s.service {
      sys = on_app (λ a. record a { accounts = config.cfg_accounts }) s.service.sys;
    } in
    let (done, service) =
      init inet_addr server_do_bind [] config.cfg_port
        (set_sizes config.cfg_buf_size config.cfg_threads known) in
    inited done (record { service = service; keep_alive_setting = config.cfg_keep_alive })

module _ (json : Json) where
  open json use {Value}

  -- The loop over the queries of an account.
  unfoldable pub read_query : Value → ℕ → Map ℤ (List ℕ) → Reading (Map ℤ (List ℕ))
  read_query queries j q_files = do
    item ← asked (json.at queries j)
    message ← get_uint json item msg
    file ← get_string json item q_file
    ok (emplace (to_int message) file q_files)

  unfoldable pub read_type : ℕ → Value → ℕ → Reading (AcType × Map ℤ (List ℕ))
  read_type fuel account number =
      if number == 1
      then ok (broadcast, [])
      else if number == 2
      then (do
        queries ← asked (json.member account query)
        q_files ←
            (if json.is_array queries
              then for_uint16 (read_query queries) fuel 0 (json.size queries) []
              else ok [])
        ok (AcType.query, q_files))
      else ok (admin, [])

  unfoldable pub read_rate : Value → Reading ℤ
  read_rate account = do
    value ← asked (json.member account jnl_rate)
    if json.is_int value then asked (json.as_int value) else ok (pos 0)

  -- The account at one place of the array. A member that is missing is left as `make_shared` has
  -- initialised it: no path, and the rate 0.
  unfoldable pub parse_account : ℕ → Value → ℕ → Reading BseAccount
  parse_account fuel list i = do
    account ← asked (json.at list i)
    ac_code ← get_uint json account code
    number ← get_uint json account type
    kind ← read_type fuel account number
    ac_name ← get_string json account name
    ac_pwd ← get_string json account pwd
    ac_pb ← get_text json account pb_file
    ac_jnl ← get_text json account jnl_file
    rate ← read_rate account
    ok (record {
      type = kind.0;
      code = to_int ac_code;
      jnl_rate = rate;
      name = ac_name;
      pwd = ac_pwd;
      pb_file = ac_pb;
      jnl_file = ac_jnl;
      q_files = kind.1;
    })

  -- The body of the loop over the accounts.
  unfoldable pub read_account : ℕ → Value → ℕ → Map ℤ BseAccount → Reading (Map ℤ BseAccount)
  read_account fuel list i known = do
    account ← parse_account fuel list i
    ok (emplace account.code account known)

  unfoldable pub read_keep_alive : Value → KeepAlivePara → Reading KeepAlivePara
  read_keep_alive root old = do
    setting ← asked (json.member root keep_alive)
    if json.is_object setting
        then (do
          enabled ← get_uint json setting enable
          idle_time ← get_uint json setting idle
          wait ← get_uint json setting interval
          times ← get_uint json setting count
          ok (record {
            enable = enabled == 1;
            idle = to_int idle_time;
            interval = to_int wait;
            count = to_int times;
          }))
        else ok (record old { enable = false })

  unfoldable pub read_config : ℕ → Value → KeepAlivePara → Map ℤ BseAccount → Reading ServerConfig
  read_config fuel root setting known = do
    port_number ← get_uint json root port
    thread_n ← get_uint json root threads
    buf_n ← get_uint json root buf_size
    keep ← read_keep_alive root setting
    list ← asked (json.member root accounts)
    found ← for_uint16 (read_account fuel list) fuel 0 (json.size list) known
    ok (record {
      cfg_port = port_number;
      cfg_threads = thread_n;
      cfg_buf_size = buf_n;
      cfg_keep_alive = keep;
      cfg_accounts = found;
    })

  unfoldable pub init_from_cfgfile : (List ℕ → ℕ) → ℕ → Option (List ℕ) → Simulator → CfgResult
  init_from_cfgfile inet_addr fuel none s = no_file
  init_from_cfgfile inet_addr fuel (some text) s = elim (json.parse text) [
    | none ↦ not_json
    | some root ↦ elim (read_config fuel root s.keep_alive_setting s.service.sys.app.accounts) [
      | ok config ↦ set_and_init inet_addr config s
      | threw ↦ raised
      | no_fuel ↦ stuck
    ]
  ]

-- BSESimulator::start_service; what the options answer is not looked at.
unfoldable pub bse_start_service : KeepAlivePara → Service Bse → Bool × Service Bse
bse_start_service setting s =
    let option = λ (t : Service Bse). (try_call set_keep_alive t).1 in
    server_start_service (if setting.enable then option (option (option (option s))) else s)
