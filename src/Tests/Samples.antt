-- ===== src/Tests/Samples.antt =====
-- Concrete parameters and data: a toy arithmetic in place of the processor's floating point, in which
-- a pattern stands for its number and -1.0 is least, and a small JSON library.
use chowdy.Base.{
  ℕ, zero, suc, ◌+◌, ◌-◌, ◌*◌, ◌≡◌, refl, ap, Bool, true, false, List, [], ◌∷◌, length, Option,
  none, some, Str, codes, Result, ok, err, ℤ, pos, pos_part, ltb, leb, nat_eq, if◌then◌else◌, arith,
  Str-Eq,
}
use chowdy.Base.Dict.{lookup}
use chowdy.Floats.{FloatOps, IsOrdered, f64_minus_one}
use chowdy.Json.{JsonLib, IsLawful, is_some, or_throw}

unfoldable pub key : ℕ → ℕ
key a = if nat_eq a f64_minus_one then 0 else suc a

abbrev pub toy : FloatOps
toy = record {
  add64 = λ a b. a + b;
  mul64 = λ a b. a * b;
  div64 = λ a b. a;
  sqrt64 = λ a. a;
  lt64 = λ a b. ltb (key a) (key b);
  le64 = λ a b. leb (key a) (key b);
  add32 = λ a b. a + b;
  sub32 = λ a b. a - b;
  mul32 = λ a b. a * b;
  div32 = λ a b. a;
  lt32 = λ a b. ltb a b;
  to_f64 = λ a. a;
  to_f32 = λ a. a;
  of_int = λ i. pos_part i;
  trunc32 = λ a. pos a;
}

ltb_irrefl : (a : ℕ) → ltb a a ≡ false
ltb_irrefl a = ground arith

ltb_trans : (a b c : ℕ) → ltb a b ≡ true → ltb b c ≡ true → ltb a c ≡ true
ltb_trans a b c h k = ground (arith, h, k)

ltb-leb_trans : (a b c : ℕ) → ltb a b ≡ true → leb b c ≡ true → ltb a c ≡ true
ltb-leb_trans a b c h k = ground (arith, h, k)

leb-ltb_trans : (a b c : ℕ) → leb a b ≡ true → ltb b c ≡ true → ltb a c ≡ true
leb-ltb_trans a b c h k = ground (arith, h, k)

pub toy-IsOrdered : IsOrdered toy
toy-IsOrdered = record {
  lt64_irrefl = λ a. ltb_irrefl (key a);
  lt64_trans = λ a b c h k. ltb_trans (key a) (key b) (key c) h k;
  lt64_le64_trans = λ a b c h k. ltb-leb_trans (key a) (key b) (key c) h k;
  le64_lt64_trans = λ a b c h k. leb-ltb_trans (key a) (key b) (key c) h k;
  lt32_irrefl = λ a. ltb_irrefl a;
  lt32_trans = λ a b c h k. ltb_trans a b c h k;
}

-- An object is given by its keys and their values, an array by its size and its elements.
pub data Json : Type 0 where
  null : Json
  str : Str → Json
  unsigned : ℕ → Json
  int : ℤ → Json
  float : ℕ → Json
  bool : Bool → Json
  arr : ℕ → (ℕ → Json) → Json
  obj : (Str → Bool) → (Str → Json) → Json

value_or_null : Option Json → Json
value_or_null none = null
value_or_null (some j) = j

element : List Json → ℕ → Json
element [] n = null
element (j ∷ js) zero = j
element (j ∷ js) (suc n) = element js n

elements : ℕ → (ℕ → Json) → List Json
elements zero f = []
elements (suc n) f = f 0 ∷ elements n (λ i. f (suc i))

elements-element : (js : List Json) → elements (length js) (element js) ≡ js
unfolding elements element
elements-element [] = refl
elements-element (j ∷ js) = ap (◌∷◌ j) (elements-element js)

wrong_kind : Str
wrong_kind = codes "type error"

has_key : Str → Json → Bool
has_key k (obj has f) = has k
has_key k _ = false

at_key : Str → Json → Result Json
unfolding wrong_kind
at_key k (obj has f) = if has k then ok (f k) else err k
at_key k _ = err wrong_kind

is_obj : Json → Bool
is_obj (obj has f) = true
is_obj _ = false

is_str : Json → Bool
is_str (str s) = true
is_str _ = false

as_str : Json → Result Str
unfolding wrong_kind
as_str (str s) = ok s
as_str _ = err wrong_kind

as_unsigned : Json → Result ℕ
unfolding wrong_kind
as_unsigned (unsigned n) = ok n
as_unsigned _ = err wrong_kind

as_int : Json → Result ℤ
unfolding wrong_kind
as_int (int n) = ok n
as_int _ = err wrong_kind

as_float : Json → Result ℕ
unfolding wrong_kind
as_float (float x) = ok x
as_float _ = err wrong_kind

as_bool : Json → Result Bool
unfolding wrong_kind
as_bool (bool b) = ok b
as_bool _ = err wrong_kind

as_list : Json → Result (List Json)
unfolding wrong_kind elements
as_list (arr n f) = ok (elements n f)
as_list _ = err wrong_kind

unfoldable pub json : JsonLib
unfolding has_key at_key is_obj is_str as_str as_unsigned as_int as_float as_bool as_list
    value_or_null element
json = record {
  J = Json;
  object = λ kvs. obj (λ k. is_some (lookup k kvs)) (λ k. value_or_null (lookup k kvs));
  of_str = str;
  of_unsigned = unsigned;
  of_int = int;
  of_f64 = float;
  of_bool = bool;
  of_list = λ js. arr (length js) (element js);
  contains = has_key;
  at = at_key;
  is_object = is_obj;
  is_string = is_str;
  get_str = as_str;
  get_u32 = as_unsigned;
  get_u64 = as_unsigned;
  get_int = as_int;
  get_f64 = as_float;
  get_bool = as_bool;
  get_list = as_list;
  missing = λ k. k;
}

at-lookup :
    (k : Str) (o : Option Json) → (if is_some o then ok (value_or_null o) else err k) ≡ or_throw k o
unfolding value_or_null
at-lookup k none = refl
at-lookup k (some j) = refl

pub json-IsLawful : IsLawful json
unfolding json elements
json-IsLawful = record {
  contains-object = λ k kvs. refl;
  at-object = λ k kvs. at-lookup k (lookup k kvs);
  is_string-of_str = λ s. refl;
  get_str-of_str = λ s. refl;
  get_u32-of_unsigned = λ n h. refl;
  get_u64-of_unsigned = λ n h. refl;
  get_int-of_int = λ n h. refl;
  get_f64-of_f64 = λ x. refl;
  get_bool-of_bool = λ b. refl;
  get_list-of_list = λ xs. ap ok (elements-element xs);
}
