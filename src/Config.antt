-- ===== src/Config.antt =====
-- What the configurations of the server and the client rely on: jsoncpp as any type of values with the
-- calls that the programs make, the ways reading can end, and the loop over an array.
pub mod Loop
pub mod Ends
use vwnet_lib.Base.{
  ℕ, zero, suc, ◌+◌, ◌%◌, ◌^◌, Bool, true, false, List, [], Option, none, some, ℤ, ltb,
  if◌then◌else◌,
}

-- The names of the members that are asked for.
pub data Key : Type 0 where
  ip port threads buf_size keep_alive enable idle interval count : Key
  accounts code type query msg q_file name pwd pb_file jnl_file jnl_rate ts : Key

-- Json::Reader::parse, and the calls on a Json::Value; `none` is an exception. The library adds a
-- member that is asked for and missing, as null, which no later call sees.
pub record Json : Type 1 where
  pub Value : Type 0
  pub parse : List ℕ → Option Value
  pub member : Value → Key → Option Value
  pub at : Value → ℕ → Option Value
  pub size : Value → ℕ
  pub as_uint : Value → Option ℕ
  pub as_int : Value → Option ℤ
  pub as_string : Value → Option (List ℕ)
  pub is_object : Value → Bool
  pub is_array : Value → Bool
  pub is_string : Value → Bool
  pub is_int : Value → Bool

-- A value, an exception, or a loop that has not ended within its fuel.
pub data Reading {ℓ} (A : Type ℓ) : Type ℓ where
  ok : A → Reading A
  threw no_fuel : Reading A

infixl 10 ◌>>=◌
unfoldable pub ◌>>=◌ {ℓ κ} : {A : Type ℓ} {B : Type κ} → Reading A → (A → Reading B) → Reading B
ok a >>= f = f a
threw >>= f = threw
no_fuel >>= f = no_fuel

abbrev pub asked {ℓ} : {A : Type ℓ} → Option A → Reading A
asked none = threw
asked (some a) = ok a

-- `for(uint16_t i = 0;i<size;i++)`: the counter wraps.
unfoldable pub for_uint16 {ℓ} : {S : Type ℓ} → (ℕ → S → Reading S) → ℕ → ℕ → ℕ → S → Reading S
for_uint16 body zero i size s = no_fuel
for_uint16 body (suc fuel) i size s = elim (ltb i size) [
  | true ↦ body i s >>= for_uint16 body fuel ((i + 1) % 2 ^ 16) size
  | false ↦ ok s
]

-- What the programs ask of a value by the name of a member.
module _ (json : Json) where
  open json use {Value}

  abbrev pub get_uint : Value → Key → Reading ℕ
  get_uint v key = do value ← asked (json.member v key); asked (json.as_uint value)

  abbrev pub get_string : Value → Key → Reading (List ℕ)
  get_string v key = do value ← asked (json.member v key); asked (json.as_string value)

  -- A text, if it is one.
  abbrev pub get_text : Value → Key → Reading (List ℕ)
  get_text v key = do
    value ← asked (json.member v key)
    if json.is_string value then asked (json.as_string value) else ok []
