-- ===== src/Server/Config/Accounts.antt =====
-- The accounts that a configuration gives the server.
use vwnet_lib.Base.{
  ℕ, ◌≤◌, ◌<◌, ◌^◌, ◌==◌, ◌≡◌, List, [], some, ℤ, Map, find, emplace, find-emplace, int_eq_iff,
  int_eq_instance, arith, if_both,
}
use vwnet_lib.Config.{Json}
use vwnet_lib.Config.Ends.{
  Ends, Any, bind_Ends, asked_Ends, get_uint_Ends, get_string_Ends, get_text_Ends, for_uint16_Ends,
}
use vwnet_lib.Server.State.{BseAccount}
use vwnet_lib.Server.Config.{
  KeepAlivePara, read_query, read_type, read_rate, parse_account, read_account, read_keep_alive,
  read_config,
}

-- Each account stands under its code.
abbrev pub Keyed : Map ℤ BseAccount → Type 0
Keyed m = (c : ℤ) (acc : BseAccount) → find c m ≡ some acc → acc.code ≡ c

emplace-Keyed :
    (account : BseAccount) (m : Map ℤ BseAccount) → Keyed m → Keyed (emplace account.code account m)
emplace-Keyed account m keyed c acc e =
    ground (arith, find-emplace account.code c account m, int_eq_iff account.code c, keyed c acc)

module _ (json : Json) (few : (v : json.Value) → json.size v < 2 ^ 16) (fuel : ℕ)
    (enough : 2 ^ 16 ≤ fuel) where
  read_query_Ends :
      (queries : json.Value) (j : ℕ) (m : Map ℤ (List ℕ)) → Ends Any (read_query json queries j m)
  unfolding read_query
  read_query_Ends queries j m = bind_Ends Any _ _ _ (asked_Ends _) (λ item t.
      bind_Ends Any _ _ _ (get_uint_Ends json _ _)
        (λ message t. bind_Ends Any _ _ _ (get_string_Ends json _ _) (λ file t. tt)))

  read_type_Ends :
      (account : json.Value) (number : ℕ) → Ends Any (read_type json fuel account number)
  unfolding read_type
  read_type_Ends account number = if_both (Ends Any) (number == 1) tt (
      if_both (Ends Any) (number == 2)
        (bind_Ends Any _ _ _ (asked_Ends _) (λ queries t.
          bind_Ends Any _ _ _
            (if_both (Ends Any) (json.is_array queries)
              (for_uint16_Ends (read_query json queries) Any (λ j m t. read_query_Ends queries j m)
                fuel (json.size queries) [] (few queries) (omega (arith, few queries)) tt)
              tt)
            (λ q_files t. tt)))
        tt)

  read_rate_Ends : (account : json.Value) → Ends Any (read_rate json account)
  unfolding read_rate
  read_rate_Ends account =
      bind_Ends Any _ _ _ (asked_Ends _)
        (λ value t. if_both (Ends Any) (json.is_int value) (asked_Ends (json.as_int value)) tt)

  parse_account_Ends : (list : json.Value) (i : ℕ) → Ends Any (parse_account json fuel list i)
  unfolding parse_account
  parse_account_Ends list i = bind_Ends Any _ _ _ (asked_Ends _) (λ account t.
      bind_Ends Any _ _ _ (get_uint_Ends json _ _) (λ ac_code t.
        bind_Ends Any _ _ _ (get_uint_Ends json _ _) (λ number t.
          bind_Ends Any _ _ _ (read_type_Ends account number) (λ kind t.
            bind_Ends Any _ _ _ (get_string_Ends json _ _) (λ ac_name t.
              bind_Ends Any _ _ _ (get_string_Ends json _ _) (λ ac_pwd t.
                bind_Ends Any _ _ _ (get_text_Ends json _ _) (λ ac_pb t.
                  bind_Ends Any _ _ _ (get_text_Ends json _ _)
                    (λ ac_jnl t. bind_Ends Any _ _ _ (read_rate_Ends account) (λ rate t. tt)))))))))

  read_account-Keyed :
      (list : json.Value) (i : ℕ) (m : Map ℤ BseAccount)
      → Keyed m
      → Ends Keyed (read_account json fuel list i m)
  unfolding read_account
  read_account-Keyed list i m keyed =
      bind_Ends Any _ _ _ (parse_account_Ends list i) (λ account t. emplace-Keyed account m keyed)

  read_keep_alive_Ends :
      (root : json.Value) (old : KeepAlivePara) → Ends Any (read_keep_alive json root old)
  unfolding read_keep_alive
  read_keep_alive_Ends root old = bind_Ends Any _ _ _ (asked_Ends _) (λ setting t.
      if_both (Ends Any) (json.is_object setting)
        (bind_Ends Any _ _ _ (get_uint_Ends json _ _) (λ enabled t.
          bind_Ends Any _ _ _ (get_uint_Ends json _ _) (λ idle_time t.
            bind_Ends Any _ _ _ (get_uint_Ends json _ _)
              (λ wait t. bind_Ends Any _ _ _ (get_uint_Ends json _ _) (λ times t. tt)))))
        tt)

  -- The reading of the configuration ends, and each account then stands under its code.
  pub read_config-Keyed :
      (root : json.Value) (setting : KeepAlivePara) (known : Map ℤ BseAccount)
      → Keyed known
      → Ends (λ config. Keyed config.cfg_accounts) (read_config json fuel root setting known)
  unfolding read_config
  read_config-Keyed root setting known keyed =
      bind_Ends Any _ _ _ (get_uint_Ends json _ _) (λ port_number t.
        bind_Ends Any _ _ _ (get_uint_Ends json _ _) (λ thread_n t.
          bind_Ends Any _ _ _ (get_uint_Ends json _ _) (λ buf_n t.
            bind_Ends Any _ _ _ (read_keep_alive_Ends root setting) (λ keep t.
              bind_Ends Any _ _ _ (asked_Ends _) (λ list t.
                bind_Ends Keyed _ _ _
                  (for_uint16_Ends (read_account json fuel list) Keyed (read_account-Keyed list)
                    fuel (json.size list) known (few list) (omega (arith, few list)) keyed)
                  (λ found k. k))))))
