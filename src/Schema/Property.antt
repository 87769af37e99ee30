-- ===== src/Schema/Property.antt =====
-- `_parse_property_type` of src/realm_schema.cpp: the notation of a property's type, such as
-- "int?[]". Each stage is one of its tests on the end of the text.
mod Stages
pub mod Notation
pub mod Reading
pub mod Nested
use realm_lua_bootcamp.Prelude.{ℕ, ◌-◌, true, [], ◌==◌, if◌then◌else◌, length}
use realm_lua_bootcamp.Text.{Bytes, codes, text_eq, substr, ends_with}
use realm_lua_bootcamp.Lua.{Exec, raise, pure}
use realm_lua_bootcamp.Schema.Types.{
  PropertyType, int, bool, binary, mixed, timestamp, float, double, decimal128, object, object_id,
  uuid, list_of, set_of, dictionary_of, PropertyInfo,
}

-- A property and what is left of the text of its type.
abbrev pub Stage : Type 0
Stage = PropertyInfo × Bytes

abbrev pub cut : Bytes → ℕ → Bytes
cut type n = substr type 0 (length type - n)

abbrev pub set_nullable : PropertyInfo → PropertyInfo
set_nullable prop = record prop { flags = record prop.flags { nullable = true } }

unfoldable pub strip_list : Stage → Stage
unfolding ends_with
strip_list (prop, type) =
    if ends_with type (codes "[]")
    then (record prop { collection_type = list_of }, cut type 2)
    else (prop, type)

unfoldable pub strip_set : Stage → Stage
unfolding ends_with
strip_set (prop, type) =
    if ends_with type (codes "<>")
    then (record prop { collection_type = set_of }, cut type 2)
    else (prop, type)

unfoldable pub strip_nullable : Stage → Stage
unfolding ends_with
strip_nullable (prop, type) =
    if ends_with type (codes "?") then (set_nullable prop, cut type 1) else (prop, type)

-- The chain of comparisons at the end; what is no primitive names an object type.
unfoldable pub base_type : PropertyInfo → Bytes → PropertyInfo
unfolding text_eq
base_type prop type =
    if text_eq type (codes "bool")
    then record prop { type = bool }
    else if text_eq type (codes "mixed")
    then record prop { type = mixed }
    else if text_eq type (codes "int")
    then record prop { type = int }
    else if text_eq type (codes "float")
    then record prop { type = float }
    else if text_eq type (codes "double")
    then record prop { type = double }
    else if text_eq type (codes "string")
    then record prop { type = PropertyType.string }
    else if text_eq type (codes "date")
    then record prop { type = timestamp }
    else if text_eq type (codes "data")
    then record prop { type = binary }
    else if text_eq type (codes "decimal128")
    then record prop { type = decimal128 }
    else if text_eq type (codes "objectId")
    then record prop { type = object_id }
    else if text_eq type (codes "uuid")
    then record prop { type = uuid }
    else record prop { type = object; link_target = type }

-- The dictionary test, and the type "{}" that ends there.
unfoldable pub dictionary_or_base : Stage → PropertyInfo
unfolding ends_with base_type
dictionary_or_base (prop, type) =
    if ends_with type (codes "{}")
    then (let prop' : PropertyInfo = record prop { collection_type = dictionary_of } in
        if text_eq (cut type 2) (codes "")
        then set_nullable (record prop' { type = mixed })
        else base_type prop' (cut type 2))
    else base_type prop type

unfoldable pub parsed_type : PropertyInfo → Bytes → PropertyInfo
unfolding strip_list strip_set strip_nullable dictionary_or_base
parsed_type prop type = dictionary_or_base (strip_nullable (strip_set (strip_list (prop, type))))

-- An empty text is refused with an empty message.
unfoldable pub parse_property_type : {W : Type 0} → PropertyInfo → Bytes → Exec W PropertyInfo
unfolding parsed_type
parse_property_type prop type = if length type == 0 then raise [] else pure (parsed_type prop type)
