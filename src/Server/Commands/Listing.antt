-- ===== src/Server/Commands/Listing.antt =====
-- What command_list prints.
use vwnet_lib.Base.{
  ℕ, ◌==◌, ◌≡◌, refl, inl, inr, Bool, true, false, not, ◌||◌, ◌&&◌, List, [], ◌∷◌, Option, none,
  some, ℤ, int_eq, int_eq_iff, Map, find, emplace, assign, insert, member, member-insert, nat_eq,
  int_eq_instance, arith, Option-cases,
}
use vwnet_lib.Net.State.{Net, Sys}
use vwnet_lib.Server.State.{Bse}
use vwnet_lib.Server.Commands.{
  group_client, group_clients, ClientLine, CodeLines, client_lines, code_lines, command_list,
}

-- A client has a line under a code.
abbrev pub has_client : ℕ → List ClientLine → Bool
has_client fd [] = false
has_client fd (line ∷ lines) = line.fd == fd || has_client fd lines

abbrev pub is_printed : ℕ → ℤ → List CodeLines → Bool
is_printed fd code [] = false
is_printed fd code (lines ∷ rest) =
    (int_eq lines.code code && has_client fd lines.clients) || is_printed fd code rest

-- A descriptor stands at most once in the lookup, as in every `map`.
abbrev pub is_key : ℕ → Map ℕ ℤ → Bool
is_key fd [] = false
is_key fd ((fd', code) ∷ rest) = fd' == fd || is_key fd rest

abbrev pub is_map : Map ℕ ℤ → Bool
is_map [] = true
is_map ((fd, code) ∷ rest) = not (is_key fd rest) && is_map rest

abbrev pub is_code : ℤ → Option ℤ → Bool
is_code code none = false
is_code code (some code') = int_eq code' code

-- Some set under the code has the client.
abbrev in_sets : ℕ → ℤ → Map ℤ (List ℕ) → Bool
in_sets fd code [] = false
in_sets fd code ((code', fds) ∷ rest) = (int_eq code' code && member fd fds) || in_sets fd code rest

client_lines-member :
    (n : Net) (fds : List ℕ) (fd : ℕ) → has_client fd (client_lines n fds) ≡ member fd fds
unfolding client_lines
client_lines-member n [] fd = refl
client_lines-member n (fd' ∷ fds) fd = ground (arith, client_lines-member n fds fd)

code_lines-in_sets :
    (s : Sys Bse) (onlines : Map ℤ (List ℕ)) (fd : ℕ) (code : ℤ)
    → is_printed fd code (code_lines s onlines) ≡ in_sets fd code onlines
unfolding code_lines
code_lines-in_sets s [] fd code = refl
code_lines-in_sets s ((code', fds) ∷ onlines) fd code =
    rw (client_lines-member s.net fds fd, code_lines-in_sets s onlines fd code) refl

emplace-in_sets :
    (fd' : ℕ) (code' : ℤ) (onlines : Map ℤ (List ℕ)) (fd : ℕ) (code : ℤ)
    → find code' onlines ≡ none
    → in_sets fd code (emplace code' (insert fd' []) onlines)
      ≡ ((fd' == fd && int_eq code' code) || in_sets fd code onlines)
unfolding find emplace
emplace-in_sets fd' code' [] fd code e = ground (arith, member-insert fd' fd [])
emplace-in_sets fd' code' ((c, fds) ∷ onlines) fd code e =
    ground (arith, emplace-in_sets fd' code' onlines fd code)

assign-in_sets :
    (fd' : ℕ) (code' : ℤ) (on : List ℕ) (onlines : Map ℤ (List ℕ)) (fd : ℕ) (code : ℤ)
    → find code' onlines ≡ some on
    → in_sets fd code (assign code' (insert fd' on) onlines)
      ≡ ((fd' == fd && int_eq code' code) || in_sets fd code onlines)
unfolding find assign
assign-in_sets fd' code' on [] fd code e = ground arith
assign-in_sets fd' code' on ((c, fds) ∷ onlines) fd code e = ground (
  arith,
  int_eq_iff c code',
  member-insert fd' fd on,
  assign-in_sets fd' code' on onlines fd code,
)

group_client-in_sets :
    (fd' : ℕ) (code' : ℤ) (onlines : Map ℤ (List ℕ)) (fd : ℕ) (code : ℤ)
    → in_sets fd code (group_client fd' code' onlines)
      ≡ ((fd' == fd && int_eq code' code) || in_sets fd code onlines)
unfolding group_client
group_client-in_sets fd' code' onlines fd code = elim (Option-cases (find code' onlines)) [
  | inl e ↦ rw (e, group_client) (emplace-in_sets fd' code' onlines fd code e)
  | inr (on, e) ↦ rw (e, group_client) (assign-in_sets fd' code' on onlines fd code e)
]

not_key : (lookup : Map ℕ ℤ) (fd : ℕ) → is_key fd lookup ≡ false → find fd lookup ≡ none
unfolding find
not_key [] fd e = refl
not_key ((fd', code) ∷ rest) fd e = ground (arith, not_key rest fd)

group_clients-in_sets :
    (lookup : Map ℕ ℤ) (onlines : Map ℤ (List ℕ)) (fd : ℕ) (code : ℤ)
    → is_map lookup ≡ true
    → in_sets fd code (group_clients lookup onlines)
      ≡ (is_code code (find fd lookup) || in_sets fd code onlines)
unfolding group_clients find
group_clients-in_sets [] onlines fd code keys = refl
group_clients-in_sets ((fd', code') ∷ rest) onlines fd code keys = ground (
  arith,
  group_clients-in_sets rest (group_client fd' code' onlines) fd code,
  group_client-in_sets fd' code' onlines fd code,
  not_key rest fd,
)

-- If each descriptor stands once in the lookup of sockets, command_list prints a client under a code
-- exactly if the lookup gives the client this code: it leaves no client out and prints none under a
-- second code.
pub command_list-find :
    (s : Sys Bse) (fd : ℕ) (code : ℤ)
    → is_map s.app.sock_lookup ≡ true
    → is_printed fd code (command_list s) ≡ is_code code (find fd s.app.sock_lookup)
unfolding command_list
command_list-find s fd code keys = ground (
  arith,
  code_lines-in_sets s (group_clients s.app.sock_lookup []) fd code,
  group_clients-in_sets s.app.sock_lookup [] fd code keys,
)
