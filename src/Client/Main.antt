-- ===== src/Client/Main.antt =====
-- main of client/bse_client.cpp: a client for each account, a pool with a thread for each client, and
-- the console. The new clients, by their places, are arguments: what the kernel will answer them is in
-- their state.
use vwnet_lib.Base.{
  ℕ, zero, suc, ◌+◌, ◌≤◌, ◌<◌, ◌%◌, ◌^◌, ◌≡◌, ◌⊎◌, refl, ap, inl, Bool, true, false, List, [], ◌∷◌,
  Option, some, arith, length, replicate, ◌==◌, if◌then◌else◌,
}
use vwnet_lib.Config.{Json}
use vwnet_lib.Venues.Trim.{trim}
use vwnet_lib.Net.Command.{command}
use vwnet_lib.Net.Setup.{Service}
use vwnet_lib.Pool.{Worker, looping, is_waiting, Pool, Action, run}
use vwnet_lib.Pool.Steps.{run_keeps}
use vwnet_lib.Pool.Wake.{tally, is_coming, IsAwake, step-IsAwake, tally-replicate}
use vwnet_lib.Pool.Busy.{is_executing, IsManned, step-IsManned}
use vwnet_lib.Client.State.{ClientAccount, BseClient}
use vwnet_lib.Client.Config.{
  ClientConfig, no_file, not_json, raised, stuck, read, get_config, new_client,
}

-- The loop over the accounts.
unfoldable pub bse_clients :
    (List ℕ → ℕ)
    → ClientConfig
    → (ℕ → Service BseClient)
    → ℕ
    → List ClientAccount
    → List (Service BseClient)
bse_clients inet_addr config made i [] = []
bse_clients inet_addr config made i (account ∷ rest) =
    new_client inet_addr config account (made i) ∷ bse_clients inet_addr config made (suc i) rest

-- The pool when Start has returned: each Run is committed before, when there is no thread to notify.
-- The number of the threads is a `uint16_t`.
unfoldable pub client_pool : {Client : Type 0} → List Client → Pool Client
client_pool clients = record {
  running = true;
  tasks = clients;
  workers = replicate (length clients % 2 ^ 16) looping;
  started = [];
  committed = clients;
  notify_owed = 0;
  stop_owed = false;
}

-- 'q', and whatever stands behind it.
abbrev starts_q : List ℕ → Bool
starts_q [] = false
starts_q (ch ∷ rest) = ch == 113

unfoldable pub asks_quit : List ℕ → Bool
asks_quit cmd_line = starts_q (trim cmd_line)

-- Whether one of the lines ends the loop.
unfoldable pub client_console : List (List ℕ) → Bool
client_console [] = false
client_console (cmd_line ∷ lines) =
    let rest = client_console lines in if asks_quit cmd_line then true else rest

-- What Stop writes into the pipe of each client.
abbrev pub stop_records : {Client : Type 0} → List Client → List (List ℕ)
stop_records [] = []
stop_records (client ∷ clients) = command 1 [] ∷ stop_records clients

-- Where main is after the lines: it has returned 1, an exception has ended it, it reads the
-- configuration for ever, it waits for a line, or it has stopped the clients.
pub data MainEnd : Type 0 where
  failed uncaught endless : MainEnd
  serving : Pool (Service BseClient) → MainEnd
  stopping : Pool (Service BseClient) → List (List ℕ) → MainEnd

unfoldable pub client_main :
    Json → (List ℕ → ℕ) → (ℕ → Service BseClient) → ℕ → Option (List ℕ) → List (List ℕ) → MainEnd
client_main json inet_addr made fuel text lines = elim (get_config json fuel text) [
  | no_file ↦ failed
  | not_json ↦ failed
  | raised ↦ uncaught
  | stuck ↦ endless
  | read config ↦
      let clients = bse_clients inet_addr config made 0 config.accounts in
      if client_console lines
      then stopping (client_pool clients) (stop_records clients)
      else serving (client_pool clients)
]

module _ {Client : Type 0} (clients : List Client) (few : length clients < 2 ^ 16) where
  all_idle :
      (k : ℕ)
      → (length {A = Worker Client} (replicate k looping) ≡ k)
        × (tally {A = Worker Client} is_executing (replicate k looping) ≡ 0)
  all_idle zero = (refl, refl)
  all_idle (suc k) = (omega (arith, (all_idle k).0), omega (arith, (all_idle k).1))

  client_pool-IsManned : IsManned (length clients) (client_pool clients)
  unfolding client_pool
  client_pool-IsManned = record {
    threads = omega (arith, (all_idle (length clients % 2 ^ 16)).0);
    at_work = omega (arith, (all_idle (length clients % 2 ^ 16)).1);
  }

  client_pool-IsAwake : IsAwake (client_pool clients)
  unfolding client_pool
  client_pool-IsAwake = record {
    holder = inl (tally-replicate _ looping (length clients % 2 ^ 16) refl);
    woken = λ on. inl (tally-replicate is_waiting looping (length clients % 2 ^ 16) refl);
  }

  -- For the pool of the client's main, with less than 65536 clients, however its threads interleave
  -- while nothing more is committed and the pool runs: for each client whose Run has not been started
  -- there is a thread that does not execute a Run; and if a thread sleeps, there is for each of them
  -- a notification that is owed or a thread that will look at the queue before it sleeps.
  pub client_pool_serves :
      (actions : List (Action Client)) (p : Pool Client)
      → run actions (client_pool clients) ≡ some p
      → p.committed ≡ clients
      → p.running ≡ true
      → (tally is_executing p.workers + length p.tasks ≤ length p.workers)
        × ((tally is_waiting p.workers ≡ 0)
            ⊎ (length p.tasks ≤ p.notify_owed + tally is_coming p.workers))
  client_pool_serves actions p e same on =
      let n = length clients in
      let manned : IsManned n p =
        run_keeps (IsManned n) (step-IsManned n) actions (client_pool clients) p e
          client_pool-IsManned in
      (
        omega (arith, manned.threads, manned.at_work, ap length same),
        (run_keeps IsAwake step-IsAwake actions (client_pool clients) p e client_pool-IsAwake).woken
            on,
      )
