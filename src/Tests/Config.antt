-- ===== src/Tests/Config.antt =====
-- Configurations: a json library of a few nodes.
use vwnet_lib.Base.{
  ℕ, ◌<◌, ◌^◌, ◌≡◌, refl, false, List, [], ◌∷◌, Option, none, some, arith, ℤ, pos, Map, find,
  emplace, nat_eq, int_eq_instance, length,
}
use vwnet_lib.Config.{
  Json, ok, no_fuel, ◌>>=◌, for_uint16, Key, port, threads, buf_size, accounts, code, type, name,
  pwd,
}
use vwnet_lib.Config.Loop.{for_uint16_endless}
use vwnet_lib.Server.State.{BseAccount}
use vwnet_lib.Server.Config.{
  Simulator, read_type, read_rate, parse_account, read_account, init_from_cfgfile,
}
use vwnet_lib.Server.Config.Start.{Started, init_from_cfgfile-Started}
use vwnet_lib.Server.Commands.{command_list}
use vwnet_lib.Server.Commands.Listing.{is_printed, is_code, command_list-find}
use vwnet_lib.Client.Config.{client_account_at, read_client_accounts}
use vwnet_lib.Client.Config.Order.{in_order, read_client_accounts-in_order}
use vwnet_lib.Tests.Data.{connected}
use vwnet_lib.Server.State.{no_code}
use vwnet_lib.Tests.Run.{new_service, alive}

-- The root; an array of equal accounts of so many elements; an account; a number; a text; null.
data Node : Type 0 where
  root an_account nothing : Node
  array number : ℕ → Node
  a_text : List ℕ → Node

abbrev member_of : Node → Key → Option Node
member_of root port = some (number 8000)
member_of root threads = some (number 2)
member_of root buf_size = some (number 100)
member_of root accounts = some (array 2)
member_of root _ = some nothing
member_of an_account code = some (number 7)
member_of an_account type = some (number 1)
member_of an_account name = some (a_text [])
member_of an_account pwd = some (a_text (49 ∷ []))
member_of an_account _ = some nothing
member_of _ _ = none

abbrev element_at : Node → ℕ → Option Node
element_at (array n) i = some an_account
element_at _ i = none

abbrev size_of : Node → ℕ
size_of (array n) = 2
size_of _ = 0

abbrev uint_of : Node → Option ℕ
uint_of (number n) = some n
uint_of nothing = some 0
uint_of _ = none

abbrev string_of : Node → Option (List ℕ)
string_of (a_text s) = some s
string_of nothing = some []
string_of _ = none

abbrev node_json : Json
node_json = record {
  Value = Node;
  parse = λ text. some root;
  member = member_of;
  at = element_at;
  size = size_of;
  as_uint = uint_of;
  as_int = λ v. none;
  as_string = string_of;
  is_object = λ v. false;
  is_array = λ v. false;
  is_string = λ v. false;
  is_int = λ v. false;
}

two_at_most : (v : Node) → size_of v < 2 ^ 16
two_at_most root = omega arith
two_at_most an_account = omega arith
two_at_most nothing = omega arith
two_at_most (array n) = omega arith
two_at_most (number n) = omega arith
two_at_most (a_text s) = omega arith

abbrev new_simulator : Simulator
new_simulator = record {
  service = record new_service {
    sys = record new_service.sys { app = record new_service.sys.app { accounts = [] } };
  };
  keep_alive_setting = alive;
}

init_from_cfgfile-Started_example :
    Started new_simulator.service.sys
      (init_from_cfgfile node_json length 65536 (some []) new_simulator)
init_from_cfgfile-Started_example =
    init_from_cfgfile-Started node_json length 65536 (some []) new_simulator two_at_most
      (omega arith) refl

abbrev the_account : BseAccount
the_account = record {
  type = vwnet_lib.Server.State.broadcast;
  code = pos 7;
  jnl_rate = pos 0;
  name = [];
  pwd = 49 ∷ [];
  pb_file = [];
  jnl_file = [];
  q_files = [];
}

reads_account :
    (i : ℕ) (known : Map ℤ BseAccount)
    → (after : Map ℤ BseAccount) × (read_account node_json 9 (array 2) i known ≡ ok after)
unfolding read_account parse_account read_type read_rate ◌>>=◌
reads_account i known = (emplace (pos 7) the_account known, refl)

for_uint16_endless_example :
    for_uint16 (read_account node_json 9 (array 2)) 70000 0 65536 [] ≡ no_fuel
for_uint16_endless_example =
    for_uint16_endless (read_account node_json 9 (array 2)) 70000 0 65536 [] (omega arith)
      (omega arith) reads_account

read_client_accounts-in_order_example :
    read_client_accounts node_json 3 (array 2)
    ≡ in_order (client_account_at node_json 3 (array 2)) 0 2
read_client_accounts-in_order_example =
    read_client_accounts-in_order node_json 3 (array 2) (omega arith) (omega arith)

command_list-find_example :
    is_printed 5 no_code (command_list connected)
    ≡ is_code no_code (find 5 connected.app.sock_lookup)
command_list-find_example = command_list-find connected 5 no_code refl
