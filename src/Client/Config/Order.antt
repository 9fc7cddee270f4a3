-- ===== src/Client/Config/Order.antt =====
-- The accounts of the client's configuration, in the order of the file.
use native.Mathlib.Nat.{zero-add}
use vwnet_lib.Base.{
  ℕ, zero, suc, ◌+◌, ◌<◌, ◌^◌, ◌≡◌, refl, sym, ap, ◌∙◌, List, [], ◌∷◌, ◌++◌, append-nil,
  append_assoc, arith,
}
use vwnet_lib.Config.{Json, Reading, ok, threw, no_fuel, ◌>>=◌, for_uint16}
use vwnet_lib.Config.Loop.{each, for_uint16-each, bind_same}
use vwnet_lib.Client.Config.{push_back, client_account_at, read_client_accounts}

-- What `n` places from `i` on give, in order; the first exception ends it.
abbrev pub in_order {ℓ} : {A : Type ℓ} → (ℕ → Reading A) → ℕ → ℕ → Reading (List A)
in_order at i zero = ok []
in_order at i (suc n) = at i >>= λ a. in_order at (i + 1) n >>= λ rest. ok (a ∷ rest)

bind_assoc {ℓ} :
    {A B C : Type ℓ} (now : Reading A) (f : A → Reading B) (g : B → Reading C)
    → ((now >>= f) >>= g) ≡ (now >>= λ a. f a >>= g)
unfolding ◌>>=◌
bind_assoc (ok a) f g = refl
bind_assoc threw f g = refl
bind_assoc no_fuel f g = refl

ok-bind {ℓ} : {A B : Type ℓ} (a : A) (f : A → Reading B) → (ok a >>= f) ≡ f a
unfolding ◌>>=◌
ok-bind a f = refl

bind-ok {ℓ} : {A : Type ℓ} (now : Reading (List A)) → (now >>= λ xs. ok ([] ++ xs)) ≡ now
unfolding ◌>>=◌
bind-ok (ok a) = refl
bind-ok threw = refl
bind-ok no_fuel = refl

module _ {ℓ} {A : Type ℓ} (at : ℕ → Reading A) where
  each-push_back :
      (i n : ℕ) (known : List A)
      → each (push_back at) i n known ≡ (in_order at i n >>= λ xs. ok (known ++ xs))
  unfolding push_back
  each-push_back i zero known = sym (ok-bind [] _ ∙ ap ok (append-nil known))
  each-push_back i (suc n) known =
      bind_assoc (at i) _ _
      ∙ bind_same (at i) (λ a.
        ok-bind (known ++ (a ∷ [])) _
        ∙ each-push_back (i + 1) n (known ++ (a ∷ []))
        ∙ bind_same (in_order at (i + 1) n) (λ xs. ap ok (append_assoc known (a ∷ []) xs))
        ∙ sym (
            bind_assoc (in_order at (i + 1) n) _ _
            ∙ bind_same (in_order at (i + 1) n) (λ xs. ok-bind (a ∷ xs) _)))
      ∙ sym (bind_assoc (at i) _ _)

  for_uint16-push_back :
      (fuel n : ℕ) → n < 2 ^ 16 → n < fuel → for_uint16 (push_back at) fuel 0 n [] ≡ in_order at 0 n
  for_uint16-push_back fuel n small enough =
      simp zero-add at (for_uint16-each (push_back at) fuel 0 n [] (omega arith) enough)
      ∙ each-push_back 0 n []
      ∙ bind-ok (in_order at 0 n)

-- If the array of accounts has at most 65535 elements, the client has the accounts that its places give,
-- each once and in the order of the file; an account that cannot be read ends the reading with an
-- exception.
pub read_client_accounts-in_order :
    (json : Json) (fuel : ℕ) (list : json.Value)
    → json.size list < 2 ^ 16
    → json.size list < fuel
    → read_client_accounts json fuel list
      ≡ in_order (client_account_at json fuel list) 0 (json.size list)
unfolding read_client_accounts
read_client_accounts-in_order json fuel list small enough =
    for_uint16-push_back (client_account_at json fuel list) fuel (json.size list) small enough
