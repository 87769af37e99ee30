-- ===== src/Realm/Objects/Creation.antt =====
-- lib/realm/object.lua: objects that are made, with the values of a table, and what is assigned to
-- their properties; and `Realm:create` of lib/realm/init.lua. A value is a plain one, a Realm object or
-- another table, whose keys are texts.
use realm_lua_bootcamp.Prelude.{Bool, false, ◌||◌, if◌then◌else◌, [], ◌∷◌, ◌++◌, Option, none, some}
use realm_lua_bootcamp.Text.{Bytes, codes, text_eq}
use realm_lua_bootcamp.Lua.{
  Value, nil, string, table, Fields, end, field, get_field, is_nil, Exec, pure, raise, crash,
  call_c, Conversions, ◌>>=◌, ◌>>◌,
}
use realm_lua_bootcamp.Native.Api.{RealmApi}
use realm_lua_bootcamp.Native.Objects.{
  lib_realm_object_create, lib_realm_object_create_with_primary_key,
}
use realm_lua_bootcamp.Realm.{LuaRealm, Messages, safe_get_class}
use realm_lua_bootcamp.Realm.Collections.{with_child}
use realm_lua_bootcamp.Realm.Objects.{LuaObject, lua_index, lookup, property_of, write_property}

mutual
  pub data Given : Type 0 where
    plain : Value → Given
    object : Value → Given
    values : Values → Given

  -- The entries of a table, in the order of `pairs`.
  pub data Values : Type 0 where
    no_values : Values
    entry : Bytes → Given → Values → Values

-- The value itself; of a Realm object's table, the handle.
unfoldable mutual
  pub as_value : Given → Value
  as_value (plain v) = v
  as_value (object handle) = table (field (string (codes "_handle")) handle end)
  as_value (values vs) = table (as_fields vs)

  pub as_fields : Values → Fields
  as_fields no_values = end
  as_fields (entry name given vs) = field (string name) (as_value given) (as_fields vs)

unfoldable pub value_of_name : Bytes → Values → Given
unfolding text_eq
value_of_name k no_values = plain nil
value_of_name k (entry name v vs) = if text_eq name k then v else value_of_name k vs

abbrev pub is_absent : Given → Bool
is_absent (plain v) = is_nil v
is_absent _ = false

-- `classInfo.primaryKey`, if it is not nil and not empty.
abbrev pub primary_key : Value → Option Value
primary_key nil = none
primary_key (string []) = none
primary_key name = some name

abbrev pub given_key : Value → Option Values → Given
given_key (string name) (some vs) = value_of_name name vs
given_key _ _ = plain nil

-- The entry that is taken out of the table of values, since it is in the object already.
abbrev pub is_key : Option Value → Bytes → Bool
is_key (some (string key)) name = text_eq key name
is_key _ name = false

-- What an object's table holds by itself: an assignment to these names does not reach `__newindex`.
abbrev pub is_own : Bytes → Bool
is_own name =
    text_eq (codes "_handle") name
    || text_eq (codes "_realm") name
    || text_eq (codes "class") name
    || text_eq (codes "addListener") name

module _ {W : Type 0} where
  -- Without its realm an object is none any more: what becomes of it is not followed. That another
  -- `addListener` hides the object's is not either.
  abbrev pub set_own : Bytes → Value → LuaObject → Exec W LuaObject
  set_own name v o =
      if text_eq (codes "_handle") name
      then pure (record o { handle = v })
      else if text_eq (codes "class") name
      then pure (record o { class = v })
      else if text_eq (codes "_realm") name
      then crash
      else pure o

module _ {W : Type 0} ⦃cv : Conversions⦄ ⦃api : RealmApi W⦄ (messages : Messages W) where
  abbrev pub keyed_handle : LuaRealm → Value → Given → Exec W Value
  keyed_handle realm class_key given =
      if is_absent given
      then raise
          (messages.position (codes "object.lua") 43 ++ codes "Primary key not set at declaration")
      else call_c lib_realm_object_create_with_primary_key
          (as_value given ∷ class_key ∷ realm.handle ∷ [])

  -- The object in the database, by whether its class has a primary key.
  unfoldable pub new_handle : LuaRealm → Value → Option Value → Option Values → Exec W Value
  unfolding get_field value_of_name as_value
  new_handle realm class_info none vs = do
    class_key ← lua_index class_info (codes "key")
    call_c lib_realm_object_create (class_key ∷ realm.handle ∷ [])
  new_handle realm class_info (some name) vs = do
    class_key ← lua_index class_info (codes "key")
    keyed_handle realm class_key (given_key name vs)

  -- The object without its values, and the name of its primary key.
  unfoldable pub new_object : LuaRealm → Value → Option Values → Exec W (LuaObject × Option Value)
  unfolding get_field new_handle
  new_object realm class_info vs = do
    name ← lua_index class_info (codes "primaryKey")
    handle ← new_handle realm class_info (primary_key name) vs
    pure (
      record { handle = handle; realm = with_child handle realm; class = class_info },
      primary_key name,
    )

  unfoldable mutual
    unfolding get_field property_of new_object text_eq as_value

    -- `RealmObject:__newindex`
    pub object_newindex : Given → LuaObject → Bytes → Exec W LuaRealm
    object_newindex (plain v) o prop = do
      property ← property_of messages o prop
      write_property messages o property v o.realm
    object_newindex (object handle) o prop = do
      property ← property_of messages o prop
      write_property messages o property handle o.realm
    object_newindex (values vs) o prop = do
      property ← property_of messages o prop
      object_type ← lua_index property (codes "objectType")
      target ← lookup o.realm.schema object_type
      started ← new_object o.realm target (some vs)
      made ← assign_values vs started.1 started.0
      write_property messages o property made.handle made.realm

    -- `object[prop] = value` for each entry of the table, but for the primary key.
    pub assign_values : Values → Option Value → LuaObject → Exec W LuaObject
    assign_values no_values key o = pure o
    assign_values (entry name given vs) key o =
        let assigned = object_newindex given o name in
        let others = assign_values vs key in
        if is_key key name
        then others o
        else if is_own name
        then (do changed ← set_own name (as_value given) o; others changed)
        else (do realm ← assigned; others (record o { realm = realm }))

  -- `RealmObject._new`
  unfoldable pub object_new : LuaRealm → Value → Option Values → Value → Exec W LuaObject
  unfolding new_object assign_values
  object_new realm class_info none nil = do
    started ← new_object realm class_info none
    pure started.0
  object_new realm class_info (some vs) nil = do
    started ← new_object realm class_info (some vs)
    assign_values vs started.1 started.0
  object_new realm class_info vs handle = do
    lua_index class_info (codes "primaryKey")
    pure (record { handle = handle; realm = with_child handle realm; class = class_info })

  -- `Realm:create`
  unfoldable pub realm_create : LuaRealm → Bytes → Option Values → Value → Exec W LuaObject
  unfolding safe_get_class object_new
  realm_create realm class_name vs handle = do
    class_info ← safe_get_class messages realm class_name
    object_new realm class_info vs handle
