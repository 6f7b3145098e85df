-- ===== src/Rpc/SmallJson.antt =====
-- A small JSON library for tests, whose texts hold no number and which decodes one fixed request.
use connext_triad.Prelude.{
  ℕ, ℤ, pos, List, [], ◌∷◌, ◌≡◌, refl, String, Bool, true, false, Option, none, some, lookup,
  is_some, ◌==◌, string_eq, arith, if◌then◌else◌,
}
use connext_triad.Rpc.Json.{JsonLib, Result, result, thrown}
use connext_triad.Rpc.Requests.{ReadsObjects}

pub data Small : Type 0 where
  nil : Small
  field : String → Small → Small → Small
  entry : Small → Small → Small
  txt : String → Small
  num : ℤ → Small
  flag : Bool → Small

abbrev pub small_object : List (String × Small) → Small
small_object [] = nil
small_object ((k, j) ∷ fields) = field k j (small_object fields)

abbrev pub small_array : List Small → Small
small_array [] = nil
small_array (j ∷ js) = entry j (small_array js)

abbrev pub find_field : String → Small → Option Small
find_field k (field k' j rest) = if k' == k then some j else find_field k rest
find_field k nil = none
find_field k (entry j rest) = none
find_field k (txt t) = none
find_field k (num n) = none
find_field k (flag b) = none

abbrev pub text_of : String → Option Small → Result String
text_of default none = result default
text_of default (some (txt t)) = result t
text_of default (some j) = thrown "type must be string"

abbrev pub int_of : ℤ → Option Small → Result ℤ
int_of default none = result default
int_of default (some (num n)) = result n
int_of default (some j) = thrown "type must be number"

abbrev pub bool_of : Bool → Option Small → Result Bool
bool_of default none = result default
bool_of default (some (flag b)) = result b
bool_of default (some j) = thrown "type must be boolean"

abbrev pub or_else : Small → Option Small → Small
or_else default none = default
or_else default (some j) = j

abbrev pub is_fields : Small → Bool
is_fields nil = true
is_fields (field k j rest) = true
is_fields j = false

abbrev pub example : Small
example = small_object (
    ("op", txt "create")
    ∷ ("target", small_object (("kind", txt "participant") ∷ []))
    ∷ ("args", small_object (("domain", num (pos 3)) ∷ []))
    ∷ [])

abbrev pub example_of : List ℕ → Result Small
example_of [] = thrown "unexpected end of input"
example_of (b ∷ bytes) = result example

abbrev pub small_json : JsonLib
small_json = record {
  Json = Small;
  null = nil;
  object = small_object;
  array = small_array;
  text = txt;
  number = num;
  boolean = flag;
  from_cbor = example_of;
  to_cbor = λ j. 160 ∷ [];
  dump = λ j. result "";
  is_object = is_fields;
  contains = λ k j. is_some (find_field k j);
  item = λ k j. result (or_else nil (find_field k j));
  value_text = λ k default j. text_of default (find_field k j);
  value_int = λ k default j. int_of default (find_field k j);
  value_bool = λ k default j. bool_of default (find_field k j);
  value_json = λ k default j. result (or_else default (find_field k j));
}

find_field-object :
    (k : String) (fields : List (String × Small))
    → find_field k (small_object fields) ≡ lookup k fields
unfolding lookup
find_field-object k [] = refl
find_field-object k ((j, v) ∷ fields) = ground (arith, find_field-object k fields)

pub small_json-ReadsObjects : ReadsObjects small_json
small_json-ReadsObjects = record {
  item = λ k j fields e. rw (find_field-object k fields) (rw e refl);
  contains = λ k fields. rw (find_field-object k fields) refl;
  is_object = is_fields-object;
  value_text = λ k default t fields e. rw (find_field-object k fields) (rw e refl);
  value_int = λ k default n fields h e. rw (find_field-object k fields) (rw e refl);
  value_json = λ k default j fields e. rw (find_field-object k fields) (rw e refl);
}
  where
    is_fields-object : (fields : List (String × Small)) → is_fields (small_object fields) ≡ true
    is_fields-object [] = refl
    is_fields-object ((k, j) ∷ fields) = refl
