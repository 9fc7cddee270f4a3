-- ===== src/Net/Command/Parse.antt =====
-- A command as it arrives.
use vwnet_lib.Base.{
  ℕ, zero, suc, ◌+◌, ◌-◌, ◌*◌, ◌/◌, ◌%◌, ◌≤◌, ◌<◌, ◌≡◌, refl, sym, ap, ◌∙◌, inl, inr, Bool, true,
  false, not, ◌&&◌, List, [], ◌∷◌, ◌++◌, append-nil, none, some, arith, pos, ℤ, Map, find, int_eq,
  int_eq_instance, take_all, length, length-append, length-replicate, replicate, before_nul, ltb,
  ◌==◌, Bool-cases,
}
use vwnet_lib.Venues.Trim.{is_space, ltrim}
use vwnet_lib.Net.Command.{
  cmd_quit, cmd_delimiter, decimal, print_int, command_text, command, is_digit, number_from, atoi,
  split_at, split_command, committed, is_unterminated, run_command, handle_command,
}

-- Digits only.
abbrev all_digits : List ℕ → Bool
all_digits [] = true
all_digits (ch ∷ s) = is_digit ch && all_digits s

number_from-append :
    (s : List ℕ) (n d : ℕ)
    → all_digits s ≡ true
    → d < 10
    → number_from n (s ++ ((48 + d) ∷ [])) ≡ number_from n s * 10 + d
number_from-append [] n d h lt =
    let digit : is_digit (48 + d) ≡ true = ground arith in rw digit (omega arith)
number_from-append (ch ∷ s) n d h lt =
    let digit : is_digit ch ≡ true = ground arith in
    rw digit (number_from-append s (n * 10 + (ch - 48)) d (ground arith) lt)

all_digits-append :
    (s : List ℕ) (d : ℕ) → all_digits s ≡ true → d < 10 → all_digits (s ++ ((48 + d) ∷ [])) ≡ true
all_digits-append [] d h lt = ground arith
all_digits-append (ch ∷ s) d h lt = ground (arith, all_digits-append s d)

decimal-all_digits : (fuel n : ℕ) → all_digits (decimal fuel n) ≡ true
decimal-all_digits zero n = refl
decimal-all_digits (suc fuel) n = elim (Bool-cases (ltb n 10)) [
  | inl one_digit ↦ rw one_digit (ground arith)
  | inr more ↦ rw more (
      all_digits-append (decimal fuel (n / 10)) (n % 10) (decimal-all_digits fuel (n / 10))
        (omega arith))
]

number_from-decimal : (fuel n : ℕ) → n < fuel → number_from 0 (decimal fuel n) ≡ n
number_from-decimal zero n h = absurd (omega arith)
number_from-decimal (suc fuel) n h = elim (Bool-cases (ltb n 10)) [
  | inl one_digit ↦ rw one_digit (ground arith)
  | inr more ↦ rw more (
      number_from-append (decimal fuel (n / 10)) 0 (n % 10) (decimal-all_digits fuel (n / 10))
        (omega arith)
      ∙ omega (arith, number_from-decimal fuel (n / 10) (ground arith)))
]

-- Digits are read as the number that they spell.
atoi_digits : (s : List ℕ) → all_digits s ≡ true → atoi s ≡ pos (number_from 0 s)
unfolding ltrim
atoi_digits [] h = refl
atoi_digits (ch ∷ s) h = rw (no_space, no_minus, no_plus) refl
  where
    no_space : is_space ch ≡ false
    no_space = ground arith

    no_minus : (ch == 45) ≡ false
    no_minus = ground arith

    no_plus : (ch == 43) ≡ false
    no_plus = ground arith

split_at_digits :
    (s para : List ℕ)
    → all_digits s ≡ true
    → split_at (s ++ (cmd_delimiter ∷ para)) ≡ some (s, para)
split_at_digits [] para h = refl
split_at_digits (ch ∷ s) para h =
    let other : (ch == 124) ≡ false = ground arith in
    rw (other, split_at_digits s para (ground arith)) refl

split_at-none : (s : List ℕ) → all_digits s ≡ true → split_at s ≡ none
split_at-none [] h = refl
split_at-none (ch ∷ s) h =
    let other : (ch == 124) ≡ false = ground arith in
    rw (other, split_at-none s (ground arith)) refl

abbrev pub no_zero : List ℕ → Bool
no_zero [] = true
no_zero (ch ∷ s) = not (ch == 0) && no_zero s

before_nul-append_zeros :
    (s : List ℕ) (n : ℕ) → no_zero s ≡ true → before_nul (s ++ replicate n 0) ≡ s
before_nul-append_zeros [] zero h = refl
before_nul-append_zeros [] (suc n) h = refl
before_nul-append_zeros (ch ∷ s) n h = ground (arith, before_nul-append_zeros s n)

digits-no_zero : (s t : List ℕ) → all_digits s ≡ true → no_zero t ≡ true → no_zero (s ++ t) ≡ true
digits-no_zero [] t h q = q
digits-no_zero (ch ∷ s) t h q = ground (arith, digits-no_zero s t)

before_nul_whole : (s : List ℕ) → no_zero s ≡ true → before_nul s ≡ s
before_nul_whole s h = ap before_nul (sym (append-nil s)) ∙ before_nul-append_zeros s 0 h

split_command-none : (s : List ℕ) → split_at s ≡ none → split_command s ≡ (s, [])
unfolding split_command
split_command-none s e = rw (e, split_command) refl

split_command-some :
    (s front : List ℕ) (ch : ℕ) (back : List ℕ)
    → split_at s ≡ some (front, ch ∷ back)
    → split_command s ≡ (front, ch ∷ back)
unfolding split_command
split_command-some s front ch back e =
    let more : (suc (length back) == 0) ≡ false = ground arith in
    rw (e, split_command) (rw more refl)

split_command_text :
    (cmd : ℕ) (para : List ℕ)
    → no_zero para ≡ true
    → (no_zero (command_text cmd para) ≡ true)
      × (split_command (command_text cmd para) ≡ (print_int cmd, para))
unfolding command_text
split_command_text cmd [] clean = (
  ap no_zero (sym (append-nil (print_int cmd)))
      ∙ digits-no_zero (print_int cmd) [] (decimal-all_digits (suc cmd) cmd) refl,
  split_command-none (print_int cmd)
      (split_at-none (print_int cmd) (decimal-all_digits (suc cmd) cmd)),
)
split_command_text cmd (ch ∷ para) clean = rw (before_nul_whole (ch ∷ para) clean) (
  digits-no_zero (print_int cmd) (cmd_delimiter ∷ (ch ∷ para)) (decimal-all_digits (suc cmd) cmd)
      (ground arith),
  split_command-some (print_int cmd ++ (cmd_delimiter ∷ (ch ∷ para))) (print_int cmd) ch para
      (split_at_digits (print_int cmd) (ch ∷ para) (decimal-all_digits (suc cmd) cmd)),
)

-- The record's text, back from its zeros.
before_nul-command :
    (cmd : ℕ) (para : List ℕ)
    → length (command_text cmd para) ≤ 15
    → no_zero (command_text cmd para) ≡ true
    → (before_nul (command cmd para) ≡ command_text cmd para) × (length (command cmd para) ≡ 16)
unfolding command
before_nul-command cmd para fits clean = rw (take_all 15 (command_text cmd para) fits) (
  before_nul-append_zeros (command_text cmd para) (16 - length (command_text cmd para)) clean,
  omega (
    arith,
    length-append (command_text cmd para) (replicate (16 - length (command_text cmd para)) 0),
    length-replicate {A = ℕ} (16 - length (command_text cmd para)) 0,
  ),
)

-- A record that Command writes for a parameter without zero bytes ends with one.
pub is_unterminated-command :
    (cmd : ℕ) (para : List ℕ)
    → length (command_text cmd para) ≤ 15
    → no_zero para ≡ true
    → is_unterminated (command cmd para) ≡ false
is_unterminated-command cmd para fits clean =
    let (same, _) = before_nul-command cmd para fits (split_command_text cmd para clean).0 in
    ground (arith, ap length same)

run_command_known :
    {H : Type 0} (handlers : Map ℤ H) (para : List ℕ) (cmd : ℤ) (fun : H)
    → int_eq cmd cmd_quit ≡ false
    → find cmd handlers ≡ some fun
    → run_command handlers cmd para ≡ committed cmd para
unfolding run_command
run_command_known handlers para cmd fun other known = rw (other, known) refl

handle_command_parsed :
    {H : Type 0} (handlers : Map ℤ H) (bytes input_cmd para : List ℕ) (cmd : ℤ) (errno : ℕ)
    (fun : H)
    → (length bytes == 0) ≡ false
    → split_command (before_nul bytes) ≡ (input_cmd, para)
    → atoi input_cmd ≡ cmd
    → int_eq cmd cmd_quit ≡ false
    → find cmd handlers ≡ some fun
    → handle_command handlers bytes errno ≡ committed cmd para
unfolding handle_command
handle_command_parsed handlers bytes input_cmd para cmd errno fun some_bytes split number other
      known =
    rw (some_bytes, split, number) (run_command_known handlers para cmd fun other known)

-- A command other than quit that has a handler, whose parameter has no zero byte and whose text has at
-- most fifteen characters, arrives as it was given: handle_command commits its handler with the same
-- number and the same parameter.
pub handle_command-command :
    {H : Type 0} (handlers : Map ℤ H) (cmd : ℕ) (para : List ℕ) (errno : ℕ) (fun : H)
    → length (command_text cmd para) ≤ 15
    → no_zero para ≡ true
    → int_eq (pos cmd) cmd_quit ≡ false
    → find (pos cmd) handlers ≡ some fun
    → handle_command handlers (command cmd para) errno ≡ committed (pos cmd) para
handle_command-command handlers cmd para errno fun fits clean other known =
    let (clean', split) = split_command_text cmd para clean in
    let (text, long) = before_nul-command cmd para fits clean' in
    handle_command_parsed handlers (command cmd para) (print_int cmd) para (pos cmd) errno fun
      (ground arith) (ap split_command text ∙ split)
      (atoi_digits (print_int cmd) (decimal-all_digits (suc cmd) cmd)
        ∙ ap pos (number_from-decimal (suc cmd) cmd (omega arith)))
      other known
