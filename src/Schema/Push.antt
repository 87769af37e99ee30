-- ===== src/Schema/Push.antt =====
-- `_push_schema_info` of src/realm_schema.cpp: the schema of an open realm as a Lua table, from class
-- names to class information.
pub mod Frame
pub mod Lookup
use realm_lua_bootcamp.Prelude.{ℕ, Bool, List, [], ◌∷◌, ltb, length, if◌then◌else◌}
use realm_lua_bootcamp.Text.{Bytes, codes, c_string}
use realm_lua_bootcamp.Lua.{
  integer, string, Exec, top, push, pure, crash, lua_newtable, lua_newuserdata, lua_setfield, store,
  ◌>>=◌, ◌>>◌,
}

-- realm-core's `Property`: its type is a set of bits, here the number of it in the C interface and
-- the bits that are tested.
pub record Property : Type 0 where
  pub name : Bytes
  pub column_key : ℕ
  pub type : ℕ
  pub is_collection : Bool
  pub is_array : Bool
  pub is_set : Bool
  pub is_dictionary : Bool
  pub object_type : Bytes

pub record ObjectSchema : Type 0 where
  pub name : Bytes
  pub table_key : ℕ
  pub primary_key : Bytes
  pub persisted_properties : List Property

module _ {W : Type 0} where
  -- The numbers of `CollectionType` in lib/realm/classes.lua. A collection of no kind would be read
  -- from a variable that was never set.
  unfoldable pub collection_number : Property → Exec W ℕ
  collection_number p =
      if p.is_array
      then pure 1
      else if p.is_set
      then pure 2
      else if p.is_dictionary
      then pure 4
      else crash

  -- `if (text.size() > 0)`, then a field with the text.
  unfoldable pub set_text_if_any : Bytes → Bytes → Exec W (Unit {0})
  unfolding c_string
  set_text_if_any key text =
      if ltb 0 (length text)
      then (do push (string (c_string text)); lua_setfield (top 2) key)
      else pure tt

  unfoldable pub set_collection_if_any : Property → Exec W (Unit {0})
  unfolding collection_number
  set_collection_if_any p =
      if p.is_collection
      then (do
        collection_type ← collection_number p
        push (integer collection_type)
        lua_setfield (top 2) (codes "collectionType"))
      else pure tt

  -- One entry of the table of properties, which is on the top.
  unfoldable pub push_property : Property → Exec W (Unit {0})
  unfolding c_string
  push_property p = do
    lua_newtable
    push (string (c_string p.name))
    lua_setfield (top 2) (codes "name")
    key_userdata ← lua_newuserdata
    store key_userdata p.column_key
    lua_setfield (top 2) (codes "key")
    push (integer p.type)
    lua_setfield (top 2) (codes "type")
    set_text_if_any (codes "objectType") p.object_type
    set_collection_if_any p
    lua_setfield (top 2) (c_string p.name)

  unfoldable pub push_properties : List Property → Exec W (Unit {0})
  push_properties [] = pure tt
  push_properties (p ∷ ps) = do push_property p; push_properties ps

  -- One entry of the table of classes, which is on the top.
  unfoldable pub push_class : ObjectSchema → Exec W (Unit {0})
  unfolding c_string
  push_class c = do
    lua_newtable
    push (string (c_string c.name))
    lua_setfield (top 2) (codes "name")
    push (integer c.table_key)
    lua_setfield (top 2) (codes "key")
    set_text_if_any (codes "primaryKey") c.primary_key
    lua_newtable
    push_properties c.persisted_properties
    lua_setfield (top 2) (codes "properties")
    lua_setfield (top 2) (c_string c.name)

  unfoldable pub push_classes : List ObjectSchema → Exec W (Unit {0})
  push_classes [] = pure tt
  push_classes (c ∷ cs) = do push_class c; push_classes cs

  unfoldable pub push_schema_info : List ObjectSchema → Exec W (Unit {0})
  push_schema_info schema = do lua_newtable; push_classes schema
