-- ===== src/Realm/Objects.antt =====
-- lib/realm/object.lua: the properties of an object, as a Lua program reads and writes them.
pub mod Children
pub mod Creation
pub mod Classes
pub mod Created
pub mod Keyed
pub mod Described
pub mod Initial
pub mod Opened
pub mod Properties
pub mod References
pub mod Tracked
use realm_lua_bootcamp.Prelude.{ℕ, Bool, true, false, ◌==◌, if◌then◌else◌, List, [], ◌∷◌, ◌++◌}
use realm_lua_bootcamp.Text.{Bytes, codes}
use realm_lua_bootcamp.Lua.{
  Value, nil, integer, string, function, table, Fields, end, field, get_field, not_indexable,
  to_boolean, Exec, pure, raise, call_c, call_results, ◌>>=◌, ◌>>◌,
}
use realm_lua_bootcamp.Native.Api.{RealmApi}
use realm_lua_bootcamp.Native.Objects.{lib_realm_get_value, lib_realm_set_value}
use realm_lua_bootcamp.Notifications.{NotificationApi, lib_realm_object_add_listener}
use realm_lua_bootcamp.Native.Lists.{lib_realm_get_list}
use realm_lua_bootcamp.Native.Dictionaries.{lib_realm_get_dictionary}
use realm_lua_bootcamp.Native.Sets.{lib_realm_get_set}
use realm_lua_bootcamp.Lua.{Conversions}
use realm_lua_bootcamp.Realm.{LuaRealm, Messages}
use realm_lua_bootcamp.Realm.Collections.{
  Item, plain, object, Collection, with_child, object_of_handle,
}

pub record LuaObject : Type 0 where
  pub handle : Value
  pub realm : LuaRealm
  pub class : Value

-- What reading a property gives, with the realm whose children have grown.
pub data PropertyValue : Type 0 where
  item : Item × LuaRealm → PropertyValue
  list dictionary set : Collection → PropertyValue

abbrev pub same_number : Value → Value → Bool
same_number (integer m) (integer n) = m == n
same_number _ _ = false

module _ {W : Type 0} where
  -- A table's entry under a name.
  abbrev pub lua_index : Value → Bytes → Exec W Value
  lua_index (table fs) k = pure (get_field k fs)
  lua_index _ k = raise not_indexable

  -- An entry under any key, in a table whose keys are texts.
  abbrev pub lookup : Value → Value → Exec W Value
  lookup (table fs) (string k) = pure (get_field k fs)
  lookup (table fs) _ = pure nil
  lookup _ _ = raise not_indexable

  unfoldable pub find_class : Messages W → Fields → Value → Exec W Value
  unfolding get_field
  find_class messages end class_key = raise (
      messages.position (codes "object.lua") 79 ++ codes "Given a class key without a cached class")
  find_class messages (field name (table info) schema) class_key =
      let others = find_class messages schema class_key in
      if same_number (get_field (codes "key") info) class_key then pure (table info) else others
  find_class messages (field name _ schema) class_key = raise not_indexable

  abbrev class_in : Messages W → Value → Value → Exec W Value
  class_in messages (table schema) class_key = find_class messages schema class_key
  class_in messages _ class_key = raise not_indexable

  abbrev pub concatenated : Bytes → Value → Bytes → Exec W Bytes
  concatenated before (string name) after = pure (before ++ name ++ after)
  concatenated before _ after = raise (codes "attempt to concatenate a value")

module _ {W : Type 0} ⦃cv : Conversions⦄ ⦃api : RealmApi W⦄ (messages : Messages W)
    (o : LuaObject) where
  -- A value that comes with a class's key is an object.
  abbrev value_or_object : Value → Value → Exec W PropertyValue
  value_or_object value nil = pure (item (plain value, o.realm))
  value_or_object value class_key = do
    class_in messages o.realm.schema class_key
    pure (item (object_of_handle value o.realm))

  unfoldable pub read_scalar : Value → Exec W PropertyValue
  unfolding find_class object_of_handle
  read_scalar key = do
    results ← call_results lib_realm_get_value (key ∷ o.handle ∷ o.realm.handle ∷ [])
    value_or_object (results 0) (results 1)

  unfoldable pub read_list : Value → Exec W PropertyValue
  read_list key = do
    handle ← call_c lib_realm_get_list (key ∷ o.handle ∷ [])
    pure (list (record { handle = handle; realm = with_child handle o.realm }))

  unfoldable pub read_dictionary : Value → Exec W PropertyValue
  read_dictionary key = do
    handle ← call_c lib_realm_get_dictionary (key ∷ o.handle ∷ [])
    pure (dictionary (record { handle = handle; realm = with_child handle o.realm }))

  unfoldable pub read_set : Value → Exec W PropertyValue
  read_set key = do
    handle ← call_c lib_realm_get_set (key ∷ o.handle ∷ [])
    pure (set (record { handle = handle; realm = with_child handle o.realm }))

  -- By `classes.CollectionType`: a list, a dictionary, a set, or none of them.
  unfoldable pub read_property : Value → Value → Exec W PropertyValue
  unfolding read_scalar read_list read_dictionary read_set
  read_property (integer n) key =
      if n == 1
      then read_list key
      else if n == 4
      then read_dictionary key
      else if n == 2
      then read_set key
      else read_scalar key
  read_property _ key = read_scalar key

  -- `RealmObject:__index`
  unfoldable pub object_index : Bytes → Exec W PropertyValue
  unfolding get_field read_property
  object_index prop = do
    properties ← lua_index o.class (codes "properties")
    property ← lua_index properties prop
    object_type ← lua_index property (codes "objectType")
    lookup o.realm.schema object_type
    collection_type ← lua_index property (codes "collectionType")
    key ← lua_index property (codes "key")
    read_property collection_type key

  abbrev no_property : Bytes → Exec W Value
  no_property prop = do
    class_name ← lua_index o.class (codes "name")
    message ←
        concatenated (codes "Property '" ++ prop ++ codes "' not found on type ") class_name []
    raise (messages.position (codes "object.lua") 116 ++ message)

  -- The property that is assigned, or the error that there is none.
  unfoldable pub property_of : Bytes → Exec W Value
  unfolding get_field to_boolean
  property_of prop = do
    properties ← lua_index o.class (codes "properties")
    property ← lua_index properties prop
    if to_boolean property then pure property else no_property prop

  abbrev pub write_property : Value → Value → LuaRealm → Exec W LuaRealm
  write_property property value realm = do
    key ← lua_index property (codes "key")
    call_c lib_realm_set_value (value ∷ key ∷ o.handle ∷ realm.handle ∷ [])
    pure realm

module _ {W : Type 0} ⦃notifications : NotificationApi W⦄ ⦃api : RealmApi W⦄ where
  -- `addListener`. The listener's function is the one that gives the object on to what the program has
  -- registered.
  unfoldable pub object_add_listener : LuaObject → ℕ → Exec W (Value × LuaRealm)
  object_add_listener o listener = do
    token ← call_c lib_realm_object_add_listener (function listener ∷ o.handle ∷ [])
    pure (token, with_child token o.realm)
