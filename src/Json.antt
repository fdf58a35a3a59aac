-- ===== src/Json.antt =====
-- nlohmann::json, which the program only calls: the operations that it uses, and what their
-- documentation promises. An object is built from its pairs; a getter throws on a value of another
-- kind. Numbers are read and written at the C++ type of the field.
pub mod Fields
use chowdy.Base.{
  ℕ, ◌^◌, ◌<◌, ◌≡◌, Bool, true, false, Option, none, some, List, Str, Result, ok, err, ℤ, Str-Eq,
}
use chowdy.Base.Dict.{lookup}

pub record JsonLib : Type 1 where
  pub J : Type 0
  pub object : List (Str × J) → J
  pub of_str : Str → J
  pub of_unsigned : ℕ → J
  pub of_int : ℤ → J
  pub of_f64 : ℕ → J
  pub of_bool : Bool → J
  pub of_list : List J → J
  pub contains : Str → J → Bool
  pub at : Str → J → Result J
  pub is_object : J → Bool
  pub is_string : J → Bool
  pub get_str : J → Result Str
  pub get_u32 : J → Result ℕ
  pub get_u64 : J → Result ℕ
  pub get_int : J → Result ℤ
  pub get_f64 : J → Result ℕ
  pub get_bool : J → Result Bool
  pub get_list : J → Result (List J)
  -- what() of the exception that `at` throws for a key that an object lacks
  pub missing : Str → Str

abbrev pub is_some {ℓ} : {A : Type ℓ} → Option A → Bool
is_some none = false
is_some (some a) = true

abbrev pub or_throw {ℓ} : {A : Type ℓ} → Str → Option A → Result A
or_throw what none = err what
or_throw what (some a) = ok a

-- The values that an `int` of the host holds.
abbrev pub IsInt32 : ℤ → Type 0
IsInt32 (ℤ.pos n) = n < 2 ^ 31
IsInt32 (ℤ.negsuc n) = n < 2 ^ 31

pub record IsLawful (L : JsonLib) : Type 0 where
  pub contains-object :
      (k : Str) (kvs : List (Str × L.J)) → L.contains k (L.object kvs) ≡ is_some (lookup k kvs)
  pub at-object :
      (k : Str) (kvs : List (Str × L.J))
      → L.at k (L.object kvs) ≡ or_throw (L.missing k) (lookup k kvs)
  pub is_string-of_str : (s : Str) → L.is_string (L.of_str s) ≡ true
  pub get_str-of_str : (s : Str) → L.get_str (L.of_str s) ≡ ok s
  pub get_u32-of_unsigned : (n : ℕ) → n < 2 ^ 32 → L.get_u32 (L.of_unsigned n) ≡ ok n
  pub get_u64-of_unsigned : (n : ℕ) → n < 2 ^ 64 → L.get_u64 (L.of_unsigned n) ≡ ok n
  pub get_int-of_int : (n : ℤ) → IsInt32 n → L.get_int (L.of_int n) ≡ ok n
  pub get_f64-of_f64 : (x : ℕ) → L.get_f64 (L.of_f64 x) ≡ ok x
  pub get_bool-of_bool : (b : Bool) → L.get_bool (L.of_bool b) ≡ ok b
  pub get_list-of_list : (xs : List L.J) → L.get_list (L.of_list xs) ≡ ok xs
