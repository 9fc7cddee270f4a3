-- ===== src/Server/Config/Start.antt =====
-- From a configuration file to a server under its event loop.
use vwnet_lib.Base.{
  ℕ, ◌≤◌, ◌<◌, ◌^◌, ◌≡◌, refl, sym, subst, find, int_eq_instance, arith, Bool, true, false, List,
  [], Option, none, some, ℤ, pos, negsuc, if◌then◌else◌, if_both,
}
use vwnet_lib.Net.State.{Sys, make_nonblock}
use vwnet_lib.Net.Setup.{
  Service, try_call, net_at, set_reuse, set_keep_alive, next_ok, new_socket, sock_addr, set_sizes,
  init, server_do_bind,
}
use vwnet_lib.Net.Run.Members.{SameFds, SameFds-trans, KeepsFds, server_start_service-KeepsFds}
use vwnet_lib.Net.Run.Connections.{NoConnection, StartsNone, server_start_service-StartsNone}
use vwnet_lib.Config.{Json, Reading, ok, threw, no_fuel}
use vwnet_lib.Config.Ends.{Ends}
use vwnet_lib.Server.State.{Bse}
use vwnet_lib.Server.Config.{
  KeepAlivePara, ServerConfig, Simulator, CfgResult, not_json, raised, stuck, inited, read_config,
  set_and_init, init_from_cfgfile, bse_start_service,
}
use vwnet_lib.Server.Config.Accounts.{Keyed, read_config-Keyed}

-- Against the state before: each account stands under its code, and the clients, the connections, the
-- flag of what is undefined and the coming mallocs are as before.
pub record Configured (before s : Sys Bse) : Type 0 where
  pub keyed : Keyed s.app.accounts
  pub same_socks : s.app.sock_lookup ≡ before.app.sock_lookup
  pub same_clients : s.app.client_context ≡ before.app.client_context
  pub same_connections : s.net.contexts ≡ before.net.contexts
  pub same_undefined : s.net.undefined ≡ before.net.undefined
  pub same_mallocs : s.net.mallocs ≡ before.net.mallocs

-- A result that is no loop without an end, and if it is Init's, then a configured state.
abbrev pub Started : Sys Bse → CfgResult → Type 0
Started before stuck = ⊥
Started before (inited done s) = Configured before s.service.sys × (s.service.init_done ≡ done)
Started before _ = Unit {0}

module _ (before : Sys Bse) where
  abbrev Ready : Service Bse → Type 0
  Ready s = Configured before s.sys

  net_at-Ready : (fd : ℤ) (s : Service Bse) → Ready s → Ready (net_at fd make_nonblock s)
  unfolding make_nonblock
  net_at-Ready (pos fd) s f = record {
    keyed = f.keyed;
    same_socks = f.same_socks;
    same_clients = f.same_clients;
    same_connections = f.same_connections;
    same_undefined = f.same_undefined;
    same_mallocs = f.same_mallocs;
  }
  net_at-Ready (negsuc n) s f = f

  new_socket-Ready : (addr : ℕ) (s : Service Bse) → Ready s → Ready (new_socket addr s)
  unfolding new_socket
  new_socket-Ready addr s f = if_both (λ (t : Service Bse). Ready t) _ f f

  server_do_bind-Ready : (s : Service Bse) → Ready s → Ready (server_do_bind s).1
  unfolding server_do_bind
  server_do_bind-Ready s f =
      if_both (λ (out : Bool × Service Bse). Ready out.1) (next_ok s.oks).0
        (net_at-Ready s.svr_sfd _ f) f

  init-Ready :
      (inet_addr : List ℕ → ℕ) (port : ℕ) (s : Service Bse)
      → Ready s
      → let (done, s') = init inet_addr server_do_bind [] port s in Ready s' × (s'.init_done ≡ done)
  unfolding init
  init-Ready inet_addr port s f =
      let s₁ = (try_call set_reuse (new_socket (sock_addr inet_addr [] port) s)).1 in
      if_both (λ (out : Bool × Service Bse). Ready out.1 × (out.1.init_done ≡ out.0)) _
        (server_do_bind-Ready s₁ (new_socket-Ready _ s f), refl) (new_socket-Ready _ s f, refl)

set_and_init-Started :
    (inet_addr : List ℕ → ℕ) (config : ServerConfig) (s : Simulator)
    → Keyed config.cfg_accounts
    → Started s.service.sys (set_and_init inet_addr config s)
unfolding set_and_init set_sizes
set_and_init-Started inet_addr config s keyed =
    init-Ready s.service.sys inet_addr config.cfg_port _ (record {
      keyed = keyed;
      same_socks = refl;
      same_clients = refl;
      same_connections = refl;
      same_undefined = refl;
      same_mallocs = refl;
    })

-- For a simulator without accounts, as the constructor leaves it, and a configuration file in which no
-- array has more than 65535 elements: init_from_cfgfile ends, whatever else the file holds and the
-- kernel answers. If it comes to call Init, it returns what Init returned, each account of the server
-- stands under its own code, and the server's clients and connections are as they were, as are the
-- flag of what is undefined and the coming mallocs.
pub init_from_cfgfile-Started :
    (json : Json) (inet_addr : List ℕ → ℕ) (fuel : ℕ) (file : Option (List ℕ)) (s : Simulator)
    → ((v : json.Value) → json.size v < 2 ^ 16)
    → 2 ^ 16 ≤ fuel
    → s.service.sys.app.accounts ≡ []
    → Started s.service.sys (init_from_cfgfile json inet_addr fuel file s)
unfolding init_from_cfgfile find
init_from_cfgfile-Started json inet_addr fuel none s few enough none_yet = tt
init_from_cfgfile-Started json inet_addr fuel (some text) s few enough none_yet =
    parsed (json.parse text)
  where
    after :
        (config : Reading ServerConfig)
        → Ends (λ c. Keyed c.cfg_accounts) config
        → Started s.service.sys
            (elim config [ ok c ↦ set_and_init inet_addr c s | threw ↦ raised | no_fuel ↦ stuck ])
    after (ok c) keyed = set_and_init-Started inet_addr c s keyed
    after threw keyed = tt
    after no_fuel keyed = keyed

    no_accounts : Keyed s.service.sys.app.accounts
    no_accounts = subst Keyed (sym none_yet) (λ c account e. absurd (ground (arith, e)))

    parsed :
        (answer : Option json.Value)
        → Started s.service.sys (elim answer [
          | none ↦ not_json
          | some root ↦
              elim (read_config json fuel root s.keep_alive_setting s.service.sys.app.accounts) [
                | ok config ↦ set_and_init inet_addr config s
                | threw ↦ raised
                | no_fuel ↦ stuck
              ]
        ])
    parsed none = tt
    parsed (some root) = after _ (
        read_config-Keyed json few fuel enough root s.keep_alive_setting s.service.sys.app.accounts
          no_accounts)

option-SameFds : (s : Service Bse) → SameFds s (try_call set_keep_alive s).1
option-SameFds s = record {
  same_epollfd = refl;
  same_svr_sfd = refl;
  same_cmdfd = refl;
  same_fds = refl;
  same_opened = refl;
  same_fifo = refl;
}

options-SameFds :
    (enabled : Bool) (s : Service Bse)
    → let option = λ (t : Service Bse). (try_call set_keep_alive t).1 in
      SameFds s (if enabled then option (option (option (option s))) else s)
options-SameFds true s =
    let option = λ (t : Service Bse). (try_call set_keep_alive t).1 in
    SameFds-trans (option-SameFds s) (
      SameFds-trans (option-SameFds (option s)) (
        SameFds-trans (option-SameFds (option (option s)))
          (option-SameFds (option (option (option s))))))
options-SameFds false s = record {
  same_epollfd = refl;
  same_svr_sfd = refl;
  same_cmdfd = refl;
  same_fds = refl;
  same_opened = refl;
  same_fifo = refl;
}

-- start_service neither opens nor closes a descriptor, keep-alive or not.
pub bse_start_service-KeepsFds : (setting : KeepAlivePara) → KeepsFds (bse_start_service setting)
unfolding bse_start_service
bse_start_service-KeepsFds setting s =
    SameFds-trans (options-SameFds setting.enable s) (server_start_service-KeepsFds _)

options-NoConnection :
    (enabled : Bool) (s : Service Bse)
    → let option = λ (t : Service Bse). (try_call set_keep_alive t).1 in
      NoConnection s → NoConnection (if enabled then option (option (option (option s))) else s)
options-NoConnection true s empty = empty
options-NoConnection false s empty = empty

-- Nor does it make a connection.
pub bse_start_service-StartsNone :
    (setting : KeepAlivePara) → StartsNone (bse_start_service setting)
unfolding bse_start_service
bse_start_service-StartsNone setting s empty denied =
    server_start_service-StartsNone _ (options-NoConnection setting.enable s empty) denied
