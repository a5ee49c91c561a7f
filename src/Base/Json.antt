-- ===== src/Base/Json.antt =====
-- `serde_json::Value` as the program uses it. A number is an integer or the bits of an `f64`. An
-- object is a `BTreeMap`: its members stand in the order of their keys' bytes.
pub mod Objects
use rest_diameter_bridge.Base.{false, true}
use Prim.Native.Nat.{ℕ, ◌^◌}
use mathlib.Core.Bool.{Bool}
use mathlib.Core.Option.{Option, none, some}
use mathlib.Core.List.{[], ◌∷◌}
use rest_diameter_bridge.Base.Tests.{if◌then◌else◌, ltb, ◌==◌}
use rest_diameter_bridge.Base.Int.{ℤ, pos, negsuc}
use rest_diameter_bridge.Base.Text.{Text, text_eq}

pub data Number : Type 0 where
  integer : ℤ → Number
  float : ℕ → Number

mutual
  pub data Value : Type 0 where
    null : Value
    boolean : Bool → Value
    number : Number → Value
    string : Text → Value
    array : Items → Value
    object : Entries → Value

  pub data Items : Type 0 where
    no_item : Items
    item : Value → Items → Items

  pub data Entries : Type 0 where
    no_entry : Entries
    entry : Text → Value → Entries → Entries

-- `Ord` of `String`.
unfoldable pub text_lt : Text → Text → Bool
text_lt s [] = false
text_lt [] (y ∷ ys) = true
text_lt (x ∷ xs) (y ∷ ys) =
    let rest = text_lt xs ys in if ltb x y then true else if x == y then rest else false

-- `Map::get` and `Map::insert`.
unfoldable pub get : Text → Entries → Option Value
get k no_entry = none
get k (entry j v es) = let rest = get k es in if text_eq k j then some v else rest

unfoldable pub insert_entry : Text → Value → Entries → Entries
insert_entry k v no_entry = entry k v no_entry
insert_entry k v (entry j w es) =
    let rest = insert_entry k v es in
    if text_eq k j
    then entry j v es
    else if text_lt k j
    then entry k v (entry j w es)
    else entry j w rest

-- `Value::as_*`.
abbrev pub number_as_u64 : Number → Option ℕ
number_as_u64 (integer (pos n)) = some n
number_as_u64 (integer (negsuc n)) = none
number_as_u64 (float x) = none

abbrev pub number_as_i64 : Number → Option ℤ
number_as_i64 (integer (pos n)) = if ltb n (2 ^ 63) then some (pos n) else none
number_as_i64 (integer (negsuc n)) = some (negsuc n)
number_as_i64 (float x) = none

abbrev pub as_u64 : Value → Option ℕ
as_u64 (number n) = number_as_u64 n
as_u64 _ = none

abbrev pub as_bool : Value → Option Bool
as_bool (boolean b) = some b
as_bool _ = none

abbrev pub as_str : Value → Option Text
as_str (string s) = some s
as_str _ = none
