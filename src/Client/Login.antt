-- ===== src/Client/Login.antt =====
-- The client's log-in as the server reads it.
use vwnet_lib.Base.{
  ℕ, zero, suc, ◌-◌, ◌≤◌, ◌<◌, ◌^◌, ◌≡◌, refl, sym, ap, ◌∙◌, inl, inr, Bool, true, false, not, ◌&&◌,
  List, [], ◌∷◌, ◌++◌, append-nil, reverse, some, arith, ℤ, pos, negsuc, find, int_eq_instance,
  take, take_all, length, length-append, length-replicate, length-take, replicate, before_nul,
  strncpy, bytes_eq_refl, ltb, ◌==◌, Bool-cases,
}
use vwnet_lib.Venues.Endian.Laws.{reverse_endian16-lt, reverse_endian32-lt, reverse_endian16_twice}
use vwnet_lib.Venues.Trim.{trim, all_space, starts_space, trim-append}
use vwnet_lib.Venues.Messages.{
  feed_login, format_data16, format_data32, LoginRequest, login_request_at, login_request_image,
}
use vwnet_lib.Venues.Messages.RoundTrip.{LoginRequestFits, login_request_at-image}
use vwnet_lib.Server.State.{Bse, BseAccount}
use vwnet_lib.Server.Process.{accepted}
use vwnet_lib.Client.State.{ClientAccount, to_unsigned, padded, login_request}

abbrev pub no_nul : List ℕ → Bool
no_nul [] = true
no_nul (ch ∷ s) = not (ch == 0) && no_nul s

before_nul_id : (s : List ℕ) → no_nul s ≡ true → before_nul s ≡ s
before_nul_id [] h = refl
before_nul_id (ch ∷ s) h = ground (arith, before_nul_id s)

no_nul-append : (xs ys : List ℕ) → no_nul xs ≡ true → no_nul ys ≡ true → no_nul (xs ++ ys) ≡ true
no_nul-append [] ys p q = q
no_nul-append (x ∷ xs) ys p q = ground (arith, no_nul-append xs ys)

spaces : (n : ℕ) → (no_nul (replicate n 32) ≡ true) × (all_space (replicate n 32) ≡ true)
spaces zero = (refl, refl)
spaces (suc n) = (ground (arith, spaces n), ground (arith, spaces n))

length-strncpy : (n : ℕ) (s : List ℕ) → length (strncpy n s) ≡ n
length-strncpy n s = omega (
  arith,
  length-append (take n (before_nul s)) (replicate (n - length (take n (before_nul s))) 0),
  length-replicate {A = ℕ} (n - length (take n (before_nul s))) 0,
  length-take n (before_nul s),
)

strncpy_exact : (n : ℕ) (s : List ℕ) → no_nul s ≡ true → length s ≡ n → strncpy n s ≡ s
strncpy_exact n s p e =
    let whole : take n (before_nul s) ≡ s =
      ap (take n) (before_nul_id s p) ∙ take_all n s (omega arith) in
    let none_left : n - length s ≡ 0 = omega arith in rw (whole, none_left) (append-nil s)

padded_lem : (pwd : List ℕ) → length pwd ≤ 64 → padded pwd ≡ pwd ++ replicate (64 - length pwd) 32
unfolding padded
padded_lem pwd h = elim (Bool-cases (ltb (length pwd) 64)) [
  | inl short ↦ rw short
  | inr long ↦ let e : 64 - length pwd ≡ 0 = ground arith in rw (long, e) (sym (append-nil pwd))
]

pub login_request-LoginRequestFits :
    (msg_type : ℕ) (account : ClientAccount) → LoginRequestFits (login_request msg_type account)
unfolding login_request format_data16 format_data32
login_request-LoginRequestFits msg_type account = record {
  type_fits = reverse_endian32-lt msg_type;
  code_fits = reverse_endian16-lt (to_unsigned 16 account.code);
  filler_fits = omega arith;
  password_fits = length-strncpy 64 (padded account.pwd);
  timestamp_fits = length-strncpy 8 account.ts;
}

to_unsigned-lt : (c : ℤ) → to_unsigned 16 c < 2 ^ 16
to_unsigned-lt (pos n) = omega arith
to_unsigned-lt (negsuc n) = omega arith

-- What the server makes of the password field is the password.
password_back :
    (pwd : List ℕ)
    → length pwd ≤ 64
    → no_nul pwd ≡ true
    → starts_space pwd ≡ false
    → starts_space (reverse pwd) ≡ false
    → trim (before_nul (strncpy 64 (padded pwd))) ≡ pwd
password_back pwd fits clean front back =
    rw
      (
        padded_lem pwd fits,
        strncpy_exact 64 (pwd ++ fill) clean' long,
        before_nul_id (pwd ++ fill) clean',
      )
      (trim-append [] pwd fill refl (spaces (64 - length pwd)).1 front back)
  where
    fill : List ℕ
    fill = replicate (64 - length pwd) 32

    clean' : no_nul (pwd ++ fill) ≡ true
    clean' = no_nul-append pwd fill clean (spaces (64 - length pwd)).0

    long : length (pwd ++ fill) ≡ 64
    long = omega (arith, length-append pwd fill, length-replicate {A = ℕ} (64 - length pwd) 32)

accepts :
    (request : LoginRequest) (a : Bse) (found : BseAccount)
    → find (pos (format_data16 request.client_code)) a.accounts ≡ some found
    → found.pwd ≡ trim (before_nul request.password)
    → accepted request a ≡ some found
unfolding accepted
accepts request a found e same =
    rw (e, accepted) (rw (same, bytes_eq_refl (trim (before_nul request.password))) refl)

code_back :
    (account : ClientAccount)
    → format_data16 (login_request feed_login account).client_code ≡ to_unsigned 16 account.code
unfolding login_request format_data16
code_back account =
    reverse_endian16_twice (to_unsigned 16 account.code) (to_unsigned-lt account.code)

pwd_back :
    (account : ClientAccount)
    → length account.pwd ≤ 64
    → no_nul account.pwd ≡ true
    → starts_space account.pwd ≡ false
    → starts_space (reverse account.pwd) ≡ false
    → trim (before_nul (login_request feed_login account).password) ≡ account.pwd
unfolding login_request
pwd_back account = password_back account.pwd

-- If the server has an account under the client's code (as a uint16_t) with the client's password,
-- and the password has at most 64 bytes, none of them zero, and neither begins nor ends with white
-- space, then the server accepts the log-in that the client sends, whatever follows it.
pub accepted-login_request :
    (account : ClientAccount) (a : Bse) (found : BseAccount) (rest : List ℕ)
    → find (pos (to_unsigned 16 account.code)) a.accounts ≡ some found
    → found.pwd ≡ account.pwd
    → length account.pwd ≤ 64
    → no_nul account.pwd ≡ true
    → starts_space account.pwd ≡ false
    → starts_space (reverse account.pwd) ≡ false
    → accepted (login_request_at (login_request_image (login_request feed_login account) ++ rest)) a
      ≡ some found
accepted-login_request account a found rest known same fits clean front back =
    rw
      (login_request_at-image (login_request feed_login account) rest
        (login_request-LoginRequestFits feed_login account))
      (accepts (login_request feed_login account) a found
        (ap (λ c. find (pos c) a.accounts) (code_back account) ∙ known)
        (same ∙ sym (pwd_back account fits clean front back)))
