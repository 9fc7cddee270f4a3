-- ===== src/Server/Process/Login.antt =====
-- handle_login: who is logged in, and what is answered.
use vwnet_lib.Base.{
  before_nul, ℕ, ◌≡◌, ◌⊎◌, refl, inl, inr, ap, sym, ◌∙◌, true, some, arith, pos, find,
  int_eq_instance, bytes_eq, bytes_eq_refl, Option-cases,
}
use vwnet_lib.Venues.Trim.{trim}
use vwnet_lib.Venues.Messages.{
  feed_login, LoginRequest, format_data16, login_reply_image, sizeof_login_reply,
}
use vwnet_lib.Net.State.{Sys}
use vwnet_lib.Server.State.{BseAccount, Bse, create_client_context}
use vwnet_lib.Server.State.Registry.{LoggedIn, create_client_context-LoggedIn}
use vwnet_lib.Server.Process.{accepted, login_reply, login_refused, send_struct, handle_login}
use vwnet_lib.Server.Process.Invariant.{accepted_lem}

-- The request has the code and, up to its first zero byte and trimmed, the password of the account.
pub record Names (request : LoginRequest) (a : Bse) (account : BseAccount) : Type 0 where
  pub known : find (pos (format_data16 request.client_code)) a.accounts ≡ some account
  pub same_pwd : account.pwd ≡ trim (before_nul request.password)

-- The reply with a flag.
abbrev pub answered : ℕ → LoginRequest → ℕ → Sys Bse → Sys Bse
answered fd request flag s =
    send_struct fd
      (login_reply_image (login_reply feed_login (format_data16 request.client_code) flag))
      sizeof_login_reply s

Names-accepted :
    (request : LoginRequest) (a : Bse) (account : BseAccount)
    → Names request a account
    → accepted request a ≡ some account
unfolding accepted
Names-accepted request a account n =
    let same : bytes_eq account.pwd (trim (before_nul request.password)) ≡ true =
      ap (bytes_eq account.pwd) (sym n.same_pwd) ∙ bytes_eq_refl account.pwd in
    rw (n.known, accepted) (rw same refl)

-- For every request: either it names an account by its code and its password, and then the client is
-- logged in under this account and gets a reply with the flag 0; or it names none, and then nothing
-- but the refusing reply is done.
pub handle_login-LoggedIn :
    (fd : ℕ) (request : LoginRequest) (s : Sys Bse)
    → ((account : BseAccount) × Names request s.app account
        × LoggedIn fd account s.app (handle_login fd request s).app
        × (handle_login fd request s ≡ answered fd request 0 (create_client_context fd account s)))
      ⊎ (((account : BseAccount) → ¬ Names request s.app account)
          × (handle_login fd request s ≡ answered fd request login_refused s))
unfolding handle_login
handle_login-LoggedIn fd request s = elim (Option-cases (accepted request s.app)) [
  | inl e ↦ inr (λ account n. ground (arith, e, Names-accepted request s.app account n), rw e refl)
  | inr (account, e) ↦
      let (known, same_pwd) = accepted_lem request s.app account e in
      inl (
        account,
        record { known = known; same_pwd = same_pwd },
        rw e (create_client_context-LoggedIn fd account s),
        rw e refl,
      )
]
