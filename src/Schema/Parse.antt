-- ===== src/Schema/Parse.antt =====
-- `_parse_schema` of src/realm_schema.cpp: the schema that is on the top of the stack, a table of
-- class tables, read into the arrays that `realm_schema_new` is called with.
pub mod Stack
pub mod Encoded
use mathlib.Core.Option
use realm_lua_bootcamp.Prelude.{
  ℕ, zero, suc, ◌+◌, List, [], ◌∷◌, Option, none, some, if◌then◌else◌, length,
}
use realm_lua_bootcamp.Text.{Bytes, codes, text_eq, c_string}
use realm_lua_bootcamp.Lua.{
  Value, Fields, end, field, nil, table, is_nil, t_table, t_string, raw_len, Exec, top, bottom,
  gettop, push, pop, push_value, read, pure, crash, call, lua_getfield, lua_rawgeti,
  lua_l_checktype, c_text_at, type_of, get_field, get_index, Conversions, to_text, ◌>>=◌, ◌>>◌,
}
use realm_lua_bootcamp.Schema.Types.{
  int, no_collection, Flags, normal, primary, PropertyInfo, ClassInfo,
}
use realm_lua_bootcamp.Schema.Property.{parse_property_type}

abbrev pub Class : Type 0
Class = ClassInfo × List PropertyInfo

-- The initialiser of `property_info`; the rest of its fields are zero.
abbrev pub fresh_property : Bytes → Flags → PropertyInfo
fresh_property name flags = record {
  name = name;
  public_name = codes "";
  type = int;
  collection_type = no_collection;
  link_target = codes "";
  link_origin_property_name = codes "";
  flags = flags;
}

-- `strcmp` with the primary key, which is read through a pointer that may be null.
unfoldable pub key_flags : {W : Type 0} → Bytes → Option Bytes → Exec W Flags
key_flags name none = crash
key_flags name (some pk) = pure (if text_eq name pk then primary else normal)

module _ {W : Type 0} ⦃cv : Conversions⦄ where
  -- One entry of the table of properties: `lua_next` has pushed its key and value.
  unfoldable pub parse_property : Option Bytes → Exec W PropertyInfo
  unfolding key_flags to_text type_of
  parse_property primary_key = do
    push_value (top 2)
    lua_l_checktype (top 1) t_string
    lua_l_checktype (top 2) t_string
    name ← c_text_at (top 1)
    flags ← key_flags name primary_key
    type ← c_text_at (top 2)
    prop ← parse_property_type (fresh_property name flags) type
    pop 2
    pure prop

  -- The loop over `lua_next`, which pops the last key, and pushes the next entry if there is one.
  unfoldable pub parse_properties : Option Bytes → Fields → Exec W (List PropertyInfo)
  parse_properties primary_key end = do pop 1; pure []
  parse_properties primary_key (field key value rest) = do
    pop 1
    push key
    push value
    prop ← parse_property primary_key
    props ← parse_properties primary_key rest
    pure (prop ∷ props)

  abbrev fields_of : Value → Exec W Fields
  fields_of (table fs) = pure fs
  fields_of _ = crash

  -- The loop's body from the table of properties on, which is on the top.
  unfoldable pub parse_class_entries : Option Bytes → Option Bytes → Exec W Class
  unfolding type_of
  parse_class_entries name primary_key = do
    lua_l_checktype (top 1) t_table
    entries ← read (top 1)
    fields ← fields_of entries
    push nil
    props ← parse_properties primary_key fields
    pop 1
    pure (record { name = name; primary_key = primary_key; num_properties = length props }, props)

  -- The loop's body from the class table on, which stays on the stack.
  unfoldable pub parse_class_table : Exec W Class
  unfolding to_text get_field
  parse_class_table = do
    lua_getfield (top 1) (codes "name")
    name ← read (top 1)
    pop 1
    lua_getfield (top 1) (codes "primaryKey")
    key ← read (top 1)
    pop 1
    lua_getfield (top 1) (codes "properties")
    parse_class_entries (Option.map c_string (to_text name))
        (if is_nil key then some (codes "") else Option.map c_string (to_text key))

  -- The body of the loop over the classes.
  unfoldable pub parse_class : ℕ → ℕ → Exec W Class
  unfolding get_index
  parse_class argument_index i = do lua_rawgeti (bottom argument_index) i; parse_class_table

  -- Classes `i` to `i + n - 1`.
  unfoldable pub parse_classes : ℕ → ℕ → ℕ → Exec W (List Class)
  parse_classes argument_index i zero = pure []
  parse_classes argument_index i (suc n) = do
    class ← parse_class argument_index i
    classes ← parse_classes argument_index (i + 1) n
    pure (class ∷ classes)

  module _ (realm_schema_new : List Class → W → ℕ × W) where
    unfoldable pub parse_schema : Exec W ℕ
    parse_schema = do
      schema ← read (top 1)
      argument_index ← gettop
      classes ← parse_classes argument_index 1 (raw_len schema)
      pop 1
      call (realm_schema_new classes)
