-- ===== src/Examples/Json.antt =====
-- A small JSON model that meets the laws of `Serde`. Its parser knows the texts of the examples.
use nexus_client.Prelude.{
  ℕ, ℤ, ◌≡◌, refl, Bool, true, false, Option, none, some, List, [], ◌∷◌, String, ◌==◌, eq_iff,
  lookup, IsNodup, if◌then◌else◌, arith,
}
use nexus_client.External.Serde.{Serde}

mutual
  pub data Value : Type 0 where
    null : Value
    bool : Bool → Value
    uint : ℕ → Value
    int : ℤ → Value
    string : String → Value
    array : Items → Value
    object : Fields → Value

  pub data Items : Type 0 where
    nil : Items
    cons : Value → Items → Items

  pub data Fields : Type 0 where
    end : Fields
    field : String → Value → Fields → Fields

abbrev from_list : List Value → Items
from_list [] = nil
from_list (v ∷ vs) = cons v (from_list vs)

abbrev to_list : Items → List Value
to_list nil = []
to_list (cons v vs) = v ∷ to_list vs

abbrev find : Fields → String → Option Value
find end k = none
find (field j v m) k = if j == k then some v else find m k

abbrev without : String → List (String × Value) → List (String × Value)
without k [] = []
without k ((j, v) ∷ es) = if j == k then without k es else (j, v) ∷ without k es

abbrev entries : Fields → List (String × Value)
entries end = []
entries (field k v m) = (k, v) ∷ without k (entries m)

abbrev pub get : Value → String → Option Value
get (object m) k = find m k
get _ k = none

abbrev is_null : Value → Bool
is_null null = true
is_null _ = false

abbrev as_bool : Value → Option Bool
as_bool (bool b) = some b
as_bool _ = none

abbrev as_u64 : Value → Option ℕ
as_u64 (uint n) = some n
as_u64 _ = none

abbrev as_i64 : Value → Option ℤ
as_i64 (uint n) = some (ℤ.pos n)
as_i64 (int n) = some n
as_i64 _ = none

abbrev as_str : Value → Option String
as_str (string s) = some s
as_str _ = none

abbrev as_array : Value → Option (List Value)
as_array (array vs) = some (to_list vs)
as_array _ = none

abbrev as_object : Value → Option Fields
as_object (object m) = some m
as_object _ = none

abbrev delta_of : String → Value
delta_of text = object (
    field "choices"
      (array (cons (object (field "delta" (object (field "content" (string text) end)) end)) nil))
      end)

abbrev unsigned_of : String → Value
unsigned_of tx = object (field "unsignedTxB64" (string tx) end)

abbrev pub result_of : Value → Value
result_of value = object (field "result" (object (field "value" value end)) end)

-- One account of a wallet.
abbrev pub account_of : String → Value
account_of amount = object (
    field "account"
      (object (
        field "data"
          (object (
            field "parsed"
              (object (
                field "info"
                  (object (field "tokenAmount" (object (field "amount" (string amount) end)) end))
                  end))
              end))
          end))
      end)

abbrev pub two_accounts : Value
two_accounts = array (cons (account_of "3") (cons (account_of "+4") nil))

abbrev pub open_job : String → String → ℕ → Value
open_job owner task reward = object (
    field "status" (string "open") (
      field "owner_pk" (string owner) (
        field "reward_lamports" (uint reward) (
          field "task_pda" (string task)
            (field "parcel_uid" (string "parcel") (field "title" (string " Build it ") end))))))

-- The texts that the examples parse.
abbrev from_str : String → Option Value
from_str txt =
    if txt == "CHALLENGE"
    then some (object (field "kind" (string "challenge") (field "nonce" (string "n") end)))
    else if txt == "READY"
    then some (object (field "kind" (string "ready") end))
    else if txt == "REJECTED"
    then some (object (field "kind" (string "rejected") (field "reason" (string "not_staked") end)))
    else if txt == "JOB"
    then some (object (field "kind" (string "job") (field "job_id" (string "j1") end)))
    else if txt == "HI"
    then some (delta_of "hi")
    else if txt == "TX"
    then some (unsigned_of "tx")
    else if txt == "SUBMITTX"
    then some (unsigned_of "submit")
    else if txt == "BOARD"
    then some (object (field "jobs" (array (cons (open_job "other" "task" 9_000_000) nil)) end))
    else if txt == "RESULT"
    then some (object (field "result" (string "sig") end))
    else if txt == "FINALIZED"
    then some (
        result_of (array (cons (object (field "confirmationStatus" (string "finalized") end)) nil)))
    else none

pub get_of_not_object : (v : Value) (k : String) → as_object v ≡ none → get v k ≡ none
get_of_not_object (object m) k h = cc
get_of_not_object _ k h = refl

pub object_of_as_object : (v : Value) (m : Fields) → as_object v ≡ some m → v ≡ object m
object_of_as_object (object m) n h = cc
object_of_as_object _ n h = cc

lookup-without_self : (k : String) (es : List (String × Value)) → lookup k (without k es) ≡ none
lookup-without_self k [] = refl
lookup-without_self k ((j, v) ∷ es) = ground (arith, lookup-without_self k es)

lookup-without_ne :
    (k j : String) (es : List (String × Value))
    → (j == k) ≡ false
    → lookup k (without j es) ≡ lookup k es
lookup-without_ne k j [] h = refl
lookup-without_ne k j ((i, v) ∷ es) h =
    ground (arith, lookup-without_ne k j es h, eq_iff i j, eq_iff i k, eq_iff j k)

lookup-without :
    (k j : String) (es : List (String × Value))
    → lookup k es ≡ none
    → lookup k (without j es) ≡ none
lookup-without k j [] h = refl
lookup-without k j ((i, v) ∷ es) h = ground (arith, lookup-without k j es)

without-IsNodup : (k : String) (es : List (String × Value)) → IsNodup es → IsNodup (without k es)
without-IsNodup k [] h = tt
without-IsNodup k ((j, v) ∷ es) (fresh, h) =
    ground (arith, without-IsNodup k es h, lookup-without j k es fresh)

pub lookup-entries : (m : Fields) (k : String) → lookup k (entries m) ≡ find m k
lookup-entries end k = refl
lookup-entries (field j v m) k =
    ground (arith, lookup-entries m k, lookup-without_ne k j (entries m))

pub entries-IsNodup : (m : Fields) → IsNodup (entries m)
entries-IsNodup end = tt
entries-IsNodup (field k v m) =
    (lookup-without_self k (entries m), without-IsNodup k (entries m) (entries-IsNodup m))

abbrev pub sample_serde : Serde
sample_serde = record {
  Value = Value;
  Map = Fields;
  null = null;
  bool = bool;
  uint = uint;
  int = int;
  string = string;
  array = λ vs. array (from_list vs);
  object = object;
  get = get;
  is_null = is_null;
  as_bool = as_bool;
  as_u64 = as_u64;
  as_i64 = as_i64;
  as_str = as_str;
  as_array = as_array;
  as_object = as_object;
  map_new = end;
  map_insert = λ m k v. field k v m;
  map_get = find;
  entries = entries;
  from_str = from_str;
  to_string = λ v. "{}";
  struct_to_vec = λ fields. [];
  get-object = λ m k. refl;
  get_of_not_object = get_of_not_object;
  object_of_as_object = object_of_as_object;
  as_str-string = λ s. refl;
  as_u64-uint = λ n h. refl;
  map_get-new = λ k. refl;
  map_get-insert = λ m k j v. refl;
  lookup-entries = lookup-entries;
  entries-IsNodup = entries-IsNodup;
}
