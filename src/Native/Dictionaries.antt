-- ===== src/Native/Dictionaries.antt =====
-- Dictionaries, of src/realm_native_lib.cpp.
pub mod Keys
use realm_lua_bootcamp.Prelude.{ℕ}
use realm_lua_bootcamp.Lua.{integer, Exec, bottom, pure, push, call, handle_at, ◌>>=◌, ◌>>◌}
use realm_lua_bootcamp.Native.Api.{RealmApi}
use realm_lua_bootcamp.Native.Convert.{
  inform_realm_error, lua_to_realm_value, realm_to_lua_value, push_handle, or_realm_error,
  value_or_realm_error,
}

module _ {W : Type 0} ⦃api : RealmApi W⦄ where
  unfoldable pub lib_realm_get_dictionary : Exec W ℕ
  lib_realm_get_dictionary = do
    object ← handle_at (bottom 1)
    property_key ← handle_at (bottom 2)
    push_handle (api.get_dictionary object property_key)
    pure 1

  unfoldable pub lib_realm_dictionary_find : Exec W ℕ
  unfolding inform_realm_error
  lib_realm_dictionary_find = do
    dictionary ← handle_at (bottom 1)
    key ← lua_to_realm_value (bottom 2)
    realm ← handle_at (bottom 3)
    out_value ← call (api.dictionary_find dictionary key)
    value ← value_or_realm_error out_value
    realm_to_lua_value realm value

  unfoldable pub lib_realm_dictionary_size : Exec W ℕ
  unfolding inform_realm_error
  lib_realm_dictionary_size = do
    dictionary ← handle_at (bottom 1)
    out_size ← call (api.dictionary_size dictionary)
    size ← value_or_realm_error out_size
    push (integer size)
    pure 1

  unfoldable pub lib_realm_dictionary_insert : Exec W ℕ
  unfolding inform_realm_error
  lib_realm_dictionary_insert = do
    value ← lua_to_realm_value (bottom 3)
    dictionary ← handle_at (bottom 1)
    index ← lua_to_realm_value (bottom 2)
    success ← call (api.dictionary_insert dictionary index value)
    or_realm_error success
    pure 0

  unfoldable pub lib_realm_dictionary_erase : Exec W ℕ
  unfolding inform_realm_error
  lib_realm_dictionary_erase = do
    dictionary ← handle_at (bottom 1)
    key ← lua_to_realm_value (bottom 2)
    success ← call (api.dictionary_erase dictionary key)
    or_realm_error success
    pure 0
