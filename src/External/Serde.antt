-- ===== src/External/Serde.antt =====
-- serde_json's `Value` and `Map`.
use nexus_client.Prelude.{
  ℕ, ℤ, ◌≡◌, ◌<◌, ◌^◌, Bool, Option, none, some, List, [], ◌∷◌, String, ◌==◌, lookup, IsNodup,
  if◌then◌else◌,
}

pub record Serde : Type 1 where
  pub Value : Type 0
  pub Map : Type 0
  -- `Value`'s constructors, at the payloads that the program builds
  pub null : Value
  pub bool : Bool → Value
  pub uint : ℕ → Value
  pub int : ℤ → Value
  pub string : String → Value
  pub array : List Value → Value
  pub object : Map → Value
  -- `Value::get(key)` and the `as_…` views
  pub get : Value → String → Option Value
  pub is_null : Value → Bool
  pub as_bool : Value → Option Bool
  pub as_u64 : Value → Option ℕ
  pub as_i64 : Value → Option ℤ
  pub as_str : Value → Option String
  pub as_array : Value → Option (List Value)
  pub as_object : Value → Option Map
  -- `Map`
  pub map_new : Map
  pub map_insert : Map → String → Value → Map
  pub map_get : Map → String → Option Value
  pub entries : Map → List (String × Value)
  -- `from_str` (`none` is a parse error) and `to_string`
  pub from_str : String → Option Value
  pub to_string : Value → String
  -- `to_vec` of a struct, by its fields in their order
  pub struct_to_vec : List (String × Value) → List ℕ
  -- the documented behaviour that proofs rely on
  pub get-object : (m : Map) (k : String) → get (object m) k ≡ map_get m k
  pub get_of_not_object : (v : Value) (k : String) → as_object v ≡ none → get v k ≡ none
  pub object_of_as_object : (v : Value) (m : Map) → as_object v ≡ some m → v ≡ object m
  pub as_str-string : (s : String) → as_str (string s) ≡ some s
  pub as_u64-uint : (n : ℕ) → n < 2 ^ 64 → as_u64 (uint n) ≡ some n
  pub map_get-new : (k : String) → map_get map_new k ≡ none
  pub map_get-insert :
      (m : Map) (k j : String) (v : Value)
      → map_get (map_insert m k v) j ≡ (if k == j then some v else map_get m j)
  pub lookup-entries : (m : Map) (k : String) → lookup k (entries m) ≡ map_get m k
  pub entries-IsNodup : (m : Map) → IsNodup (entries m)

module _ (S : Serde) where
  open S use {Value, Map, map_new, map_insert, object}

  abbrev insert_all : Map → List (String × Value) → Map
  insert_all m [] = m
  insert_all m ((k, v) ∷ rest) = insert_all (map_insert m k v) rest

  -- `json!({ "k": v, … })`
  unfoldable pub json : List (String × Value) → Value
  json fields = object (insert_all map_new fields)
