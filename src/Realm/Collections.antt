-- ===== src/Realm/Collections.antt =====
-- lib/realm/list.lua, set.lua, dictionary.lua and results.lua: what a Lua program reads and writes in
-- a collection. Indices are Lua integers, and count from 1.
pub mod Indices
pub mod Erased
pub mod Members
pub mod Entries
pub mod Filters
use realm_lua_bootcamp.Prelude.{
  ℕ, length, ◌+◌, ◌-◌, ◌%◌, ◌^◌, false, List, [], ◌∷◌, ◌++◌, Option, none, some,
}
use realm_lua_bootcamp.Text.{Bytes, codes}
use realm_lua_bootcamp.Lua.{
  Value, nil, boolean, integer, string, function, table, userdata, get_field, Exec, pure, raise,
  call_c, Conversions, ◌>>=◌, ◌>>◌,
}
use realm_lua_bootcamp.Native.Api.{RealmApi}
use realm_lua_bootcamp.Native.Lists.{
  lib_realm_list_get, lib_realm_list_insert, lib_realm_list_erase, lib_realm_list_size,
}
use realm_lua_bootcamp.Native.Sets.{
  lib_realm_set_find, lib_realm_set_insert, lib_realm_set_erase, lib_realm_set_size,
}
use realm_lua_bootcamp.Native.Dictionaries.{
  lib_realm_dictionary_find, lib_realm_dictionary_insert, lib_realm_dictionary_erase,
  lib_realm_dictionary_size,
}
use realm_lua_bootcamp.Native.Results.{
  lib_realm_results_get, lib_realm_results_count, lib_realm_results_filter,
  lib_realm_object_get_all,
}
use realm_lua_bootcamp.Notifications.{NotificationApi, lib_realm_results_add_listener}
use realm_lua_bootcamp.Realm.{LuaRealm, Messages, safe_get_class}

-- A Lua value, or a table that is a Realm object, by its handle.
pub data Item : Type 0 where
  plain object : Value → Item

pub record Collection : Type 0 where
  pub handle : Value
  pub realm : LuaRealm

-- `table.insert`, at the first border.
abbrev pub put_child : Value → List (Option Value) → List (Option Value)
put_child v [] = some v ∷ []
put_child v (none ∷ handles) = some v ∷ handles
put_child v (some h ∷ handles) = some h ∷ put_child v handles

abbrev pub with_child : Value → LuaRealm → LuaRealm
with_child handle realm = record realm { child_handles = put_child handle realm.child_handles }

-- Arguments, pushed first to last.
abbrev pub push_all : List Value → List Value → List Value
push_all [] below = below
push_all (v ∷ vs) below = push_all vs (v ∷ below)

-- `RealmObject._new` with a handle: the object, whose handle becomes a child of the realm.
unfoldable pub object_of_handle : Value → LuaRealm → Item × LuaRealm
object_of_handle handle realm = (object handle, with_child handle realm)

unfoldable pub item_of : Value → LuaRealm → Item × LuaRealm
unfolding object_of_handle
item_of (userdata u) realm = object_of_handle (userdata u) realm
item_of v realm = (plain v, realm)

-- `value._handle`, if the value is a table.
unfoldable pub argument : Item → Value
unfolding get_field
argument (object handle) = handle
argument (plain (table fs)) = get_field (codes "_handle") fs
argument (plain v) = v

-- `index - 1`, as a Lua integer.
abbrev pub before : ℕ → ℕ
before index = (index + 2 ^ 64 - 1) % 2 ^ 64

-- `Realm:objects`
unfoldable pub realm_objects :
    {W : Type 0} ⦃cv : Conversions⦄ ⦃api : RealmApi W⦄
    → Messages W
    → LuaRealm
    → Bytes
    → Exec W Collection
unfolding safe_get_class
realm_objects messages realm class_name = do
  safe_get_class messages realm class_name
  handle ← call_c lib_realm_object_get_all (string class_name ∷ realm.handle ∷ [])
  pure (record { handle = handle; realm = with_child handle realm })

module _ {W : Type 0} ⦃cv : Conversions⦄ ⦃api : RealmApi W⦄ (c : Collection) where
  unfoldable pub list_index : ℕ → Exec W (Item × LuaRealm)
  unfolding item_of
  list_index key = do
    value ← call_c lib_realm_list_get (integer (before key) ∷ c.realm.handle ∷ c.handle ∷ [])
    pure (item_of value c.realm)

  unfoldable pub list_newindex : ℕ → Item → Exec W Value
  unfolding argument
  list_newindex index (plain nil) =
      call_c lib_realm_list_erase (integer (before index) ∷ c.handle ∷ [])
  list_newindex index value =
      call_c lib_realm_list_insert (argument value ∷ integer (before index) ∷ c.handle ∷ [])

  unfoldable pub list_len : Exec W Value
  list_len = call_c lib_realm_list_size (c.handle ∷ [])

  unfoldable pub results_index : ℕ → Exec W (Item × LuaRealm)
  unfolding object_of_handle
  results_index index = do
    handle ← call_c lib_realm_results_get (integer (before index) ∷ c.handle ∷ [])
    pure (object_of_handle handle c.realm)

  -- The query's class is the one of the results, and what it makes are results again.
  unfoldable pub results_filter : Bytes → Value → List Value → Exec W Collection
  results_filter class_name query_string arguments = do
    handle ← call_c lib_realm_results_filter (
        push_all arguments (
          integer (length arguments)
          ∷ query_string
          ∷ string class_name
          ∷ c.realm.handle
          ∷ c.handle
          ∷ []))
    pure (record { handle = handle; realm = with_child handle c.realm })

  -- The listener's function is the one that gives the results on to what the program has registered.
  unfoldable pub results_add_listener :
      ⦃notifications : NotificationApi W⦄ → ℕ → Exec W (Value × LuaRealm)
  results_add_listener listener = do
    token ← call_c lib_realm_results_add_listener (function listener ∷ c.handle ∷ [])
    pure (token, with_child token c.realm)

  unfoldable pub results_len : Exec W Value
  results_len = call_c lib_realm_results_count (c.handle ∷ [])

module _ {W : Type 0} ⦃api : RealmApi W⦄ (c : Collection) where
  unfoldable pub set_index : Item → Exec W Value
  unfolding argument
  set_index value = call_c lib_realm_set_find (argument value ∷ c.handle ∷ [])

  -- `not value == true` holds of `false` only.
  unfoldable pub set_newindex : Messages W → Item → Value → Exec W Value
  unfolding argument
  set_newindex messages entry nil = call_c lib_realm_set_erase (argument entry ∷ c.handle ∷ [])
  set_newindex messages entry (boolean false) = raise (
      messages.position (codes "set.lua") 42
      ++ codes "Entries in a set can only have a value of true")
  set_newindex messages entry _ = call_c lib_realm_set_insert (argument entry ∷ c.handle ∷ [])

  unfoldable pub set_len : Exec W Value
  set_len = call_c lib_realm_set_size (c.handle ∷ [])

  unfoldable pub dictionary_index : Value → Exec W (Item × LuaRealm)
  unfolding item_of
  dictionary_index key = do
    value ← call_c lib_realm_dictionary_find (c.realm.handle ∷ key ∷ c.handle ∷ [])
    pure (item_of value c.realm)

  abbrev dictionary_write : Value → Value → Exec W Value
  dictionary_write key nil = call_c lib_realm_dictionary_erase (key ∷ c.handle ∷ [])
  dictionary_write key value = call_c lib_realm_dictionary_insert (value ∷ key ∷ c.handle ∷ [])

  unfoldable pub dictionary_newindex : Value → Item → Exec W Value
  unfolding argument
  dictionary_newindex key value = dictionary_write key (argument value)

  unfoldable pub dictionary_len : Exec W Value
  dictionary_len = call_c lib_realm_dictionary_size (c.handle ∷ [])
