-- ===== src/Json.antt =====
-- json.hpp over the values of rapidjson, which is third-party: what the source asks of a parsed
-- document is its type, its members by name and its numbers. Texts are byte lists and may hold NUL.
use epic_miner.Common.{
  ℕ, ◌^◌, Bool, true, false, List, Option, none, some, if◌then◌else◌, ltb, bytes_eq,
}

mutual
  pub data Value : Type 0 where
    null : Value
    bool : Bool → Value
    -- A number without fraction or exponent that is not negative, one below zero (-(n + 1)), and
    -- any other.
    uint : ℕ → Value
    negative : ℕ → Value
    real : Value
    str : List ℕ → Value
    arr : Items → Value
    obj : Members → Value

  pub data Items : Type 0 where
    nil : Items
    cons : Value → Items → Items

  pub data Members : Type 0 where
    end : Members
    member : List ℕ → Value → Members → Members

-- rapidjson's Type
pub data JsonType : Type 0 where
  null_type false_type true_type object_type array_type string_type number_type : JsonType

unfoldable pub get_type : Value → JsonType
get_type null = null_type
get_type (bool true) = true_type
get_type (bool false) = false_type
get_type (uint n) = number_type
get_type (negative n) = number_type
get_type real = number_type
get_type (str s) = string_type
get_type (arr xs) = array_type
get_type (obj ms) = object_type

-- IsString and GetString, IsUint and GetUint, IsObject with the object's members.
unfoldable pub as_string : Value → Option (List ℕ)
as_string (str s) = some s
as_string null = none
as_string (bool b) = none
as_string (uint n) = none
as_string (negative n) = none
as_string real = none
as_string (arr xs) = none
as_string (obj ms) = none

unfoldable pub as_uint : Value → Option ℕ
as_uint (uint n) = if ltb n (2 ^ 32) then some n else none
as_uint null = none
as_uint (bool b) = none
as_uint (negative n) = none
as_uint real = none
as_uint (str s) = none
as_uint (arr xs) = none
as_uint (obj ms) = none

unfoldable pub as_object : Value → Option Members
as_object (obj ms) = some ms
as_object null = none
as_object (bool b) = none
as_object (uint n) = none
as_object (negative n) = none
as_object real = none
as_object (str s) = none
as_object (arr xs) = none

unfoldable pub is_null : Value → Bool
is_null null = true
is_null (bool b) = false
is_null (uint n) = false
is_null (negative n) = false
is_null real = false
is_null (str s) = false
is_null (arr xs) = false
is_null (obj ms) = false

-- GetObjectMember on an object: FindMember gives the first member of that name; `none` is nullptr.
unfoldable pub get_object_member : Members → List ℕ → Option Value
get_object_member end key = none
get_object_member (member name value rest) key =
    if bytes_eq name key then some value else get_object_member rest key
