-- ===== src/Modules.antt =====
-- The `luaopen_*` functions of src/realm_native_lib.cpp, src/realm_scheduler.cpp, src/realm_app.cpp and
-- src/realm_user.cpp: which functions a Lua module has, and under which names.
pub mod Tables
pub mod Provided
use realm_lua_bootcamp.Prelude.{ℕ, Bool, List, [], ◌∷◌, Option, none, some}
use realm_lua_bootcamp.Text.{Bytes, codes}
use realm_lua_bootcamp.Lua.{
  Value, string, table, function, Fields, end, field, State, Exec, gets, top, push, pop, pure, read,
  call, Conversions, lua_newtable, lua_setfield, ◌>>=◌, ◌>>◌,
}
use realm_lua_bootcamp.Native.Api.{RealmApi}
use realm_lua_bootcamp.Native.Open.{OpenApi, lib_realm_open}
use realm_lua_bootcamp.Native.Transactions.{
  lib_realm_release, lib_realm_begin_write, lib_realm_commit_transaction,
  lib_realm_cancel_transaction,
}
use realm_lua_bootcamp.Native.Objects.{
  lib_realm_object_create, lib_realm_object_create_with_primary_key, lib_realm_object_delete,
  lib_realm_object_is_valid, lib_realm_set_value, lib_realm_get_value,
}
use realm_lua_bootcamp.Native.Results.{
  lib_realm_object_get_all, lib_realm_results_get, lib_realm_results_count,
  lib_realm_results_filter,
}
use realm_lua_bootcamp.Native.Lists.{
  lib_realm_list_insert, lib_realm_list_get, lib_realm_list_size, lib_realm_list_erase,
  lib_realm_get_list,
}
use realm_lua_bootcamp.Native.Dictionaries.{
  lib_realm_get_dictionary, lib_realm_dictionary_find, lib_realm_dictionary_size,
  lib_realm_dictionary_insert, lib_realm_dictionary_erase,
}
use realm_lua_bootcamp.Native.Sets.{
  lib_realm_get_set, lib_realm_set_insert, lib_realm_set_size, lib_realm_set_erase,
  lib_realm_set_find,
}
use realm_lua_bootcamp.Notifications.{
  NotificationApi, lib_realm_results_add_listener, lib_realm_object_add_listener,
}
use realm_lua_bootcamp.Scheduler.{InvocationQueue}
use realm_lua_bootcamp.Scheduler.Create.{SchedulerApi, create_scheduler}
use realm_lua_bootcamp.Scheduler.Functions.{LoopAccess, lib_should_close, lib_close, lib_do_work}
use realm_lua_bootcamp.App.{
  AppApi, lib_realm_app_create, lib_realm_app_credentials_new_anonymous,
  lib_realm_app_credentials_new_email_password,
  lib_realm_app_email_password_provider_client_register_email, lib_realm_app_get_current_user,
  lib_realm_app_log_in_with_credentials, lib_realm_user_log_out, lib_realm_user_get_identity,
}

-- `luaL_Reg` arrays, without the entry that ends them.
abbrev pub Functions : Type 0 → Type 0
Functions W = List (Bytes × Exec W ℕ)

-- The address of a C function, and the registry's metatables by their names.
pub record ModuleApi (W : Type 0) : Type 0 where
  pub address : Exec W ℕ → ℕ
  pub metatable : Bytes → W → Option Fields
  pub register : Bytes → Value → W → W

-- A new metatable, which has its name in it, unless the registry has one of that name.
abbrev pub metatable_or_new : Bytes → Option Fields → Fields
metatable_or_new name none = field (string (codes "__name")) (string name) end
metatable_or_new name (some fs) = fs

module _ {W : Type 0} ⦃modules : ModuleApi W⦄ where
  -- `luaL_setfuncs`, into the table on the top.
  abbrev pub lua_l_setfuncs : Functions W → Exec W (Unit {0})
  lua_l_setfuncs [] = pure tt
  lua_l_setfuncs ((name, f) ∷ fs) = do
    push (function (modules.address f))
    lua_setfield (top 2) name
    lua_l_setfuncs fs

  abbrev pub lua_l_newlib : Functions W → Exec W (Unit {0})
  lua_l_newlib fs = do lua_newtable; lua_l_setfuncs fs

  abbrev pub lua_l_newmetatable : Bytes → Exec W (Unit {0})
  lua_l_newmetatable name = do
    fs ← gets (λ s. metatable_or_new name (modules.metatable name s.world))
    push (table fs)

  -- The registry shares the metatable: it has there what was put into it until it is popped.
  abbrev pub pop_metatable : Bytes → Exec W (Unit {0})
  pop_metatable name = do
    shared ← read (top 1)
    pop 1
    call (λ w. (tt, modules.register name shared w))

  unfoldable pub realm_handle_funcs : ⦃api : RealmApi W⦄ → Functions W
  realm_handle_funcs = (codes "__gc", lib_realm_release) ∷ []

module _ {W : Type 0} ⦃modules : ModuleApi W⦄ ⦃cv : Conversions⦄ ⦃api : RealmApi W⦄ where
  unfoldable pub lib : ⦃opening : OpenApi W⦄ ⦃notifications : NotificationApi W⦄ → Functions W
  lib =
      (codes "realm_open", lib_realm_open)
      ∷ (codes "realm_release", lib_realm_release)
      ∷ (codes "realm_begin_write", lib_realm_begin_write)
      ∷ (codes "realm_commit_transaction", lib_realm_commit_transaction)
      ∷ (codes "realm_cancel_transaction", lib_realm_cancel_transaction)
      ∷ (codes "realm_object_create", lib_realm_object_create)
      ∷ (codes "realm_object_create_with_primary_key", lib_realm_object_create_with_primary_key)
      ∷ (codes "realm_object_delete", lib_realm_object_delete)
      ∷ (codes "realm_set_value", lib_realm_set_value)
      ∷ (codes "realm_get_value", lib_realm_get_value)
      ∷ (codes "realm_object_is_valid", lib_realm_object_is_valid)
      ∷ (codes "realm_object_get_all", lib_realm_object_get_all)
      ∷ (codes "realm_object_add_listener", lib_realm_object_add_listener)
      ∷ (codes "realm_results_get", lib_realm_results_get)
      ∷ (codes "realm_results_count", lib_realm_results_count)
      ∷ (codes "realm_results_add_listener", lib_realm_results_add_listener)
      ∷ (codes "realm_results_filter", lib_realm_results_filter)
      ∷ (codes "realm_list_insert", lib_realm_list_insert)
      ∷ (codes "realm_list_get", lib_realm_list_get)
      ∷ (codes "realm_list_size", lib_realm_list_size)
      ∷ (codes "realm_get_list", lib_realm_get_list)
      ∷ (codes "realm_get_dictionary", lib_realm_get_dictionary)
      ∷ (codes "realm_dictionary_find", lib_realm_dictionary_find)
      ∷ (codes "realm_dictionary_size", lib_realm_dictionary_size)
      ∷ (codes "realm_dictionary_insert", lib_realm_dictionary_insert)
      ∷ (codes "realm_dictionary_erase", lib_realm_dictionary_erase)
      ∷ (codes "realm_list_erase", lib_realm_list_erase)
      ∷ (codes "realm_get_set", lib_realm_get_set)
      ∷ (codes "realm_set_size", lib_realm_set_size)
      ∷ (codes "realm_set_erase", lib_realm_set_erase)
      ∷ (codes "realm_set_find", lib_realm_set_find)
      ∷ (codes "realm_set_insert", lib_realm_set_insert)
      ∷ []

  unfoldable pub luaopen_realm_native :
      ⦃opening : OpenApi W⦄ ⦃notifications : NotificationApi W⦄ → Exec W ℕ
  luaopen_realm_native = do
    lua_l_newmetatable (codes "_realm_handle")
    lua_l_setfuncs realm_handle_funcs
    pop_metatable (codes "_realm_handle")
    lua_l_newlib lib
    pure 1

  unfoldable pub app_funcs : ⦃app : AppApi W⦄ → Bool → Functions W
  app_funcs garbage =
      (codes "realm_app_create", lib_realm_app_create)
      ∷ (
        codes "realm_app_credentials_new_anonymous",
        lib_realm_app_credentials_new_anonymous garbage,
      )
      ∷ (
        codes "realm_app_credentials_new_email_password",
        lib_realm_app_credentials_new_email_password,
      )
      ∷ (
        codes "realm_app_email_password_provider_client_register_email",
        lib_realm_app_email_password_provider_client_register_email,
      )
      ∷ (codes "realm_app_get_current_user", lib_realm_app_get_current_user)
      ∷ (codes "realm_app_log_in_with_credentials", lib_realm_app_log_in_with_credentials)
      ∷ []

  -- `garbage` is the variable of an anonymous log-in that is never set.
  unfoldable pub luaopen_realm_app_native : ⦃app : AppApi W⦄ → Bool → Exec W ℕ
  luaopen_realm_app_native garbage = do lua_l_newlib (app_funcs garbage); pure 1

  unfoldable pub user_funcs : ⦃app : AppApi W⦄ → Functions W
  user_funcs =
      (codes "realm_user_log_out", lib_realm_user_log_out)
      ∷ (codes "realm_user_get_identity", lib_realm_user_get_identity)
      ∷ []

  unfoldable pub luaopen_realm_app_user_native : ⦃app : AppApi W⦄ → Exec W ℕ
  luaopen_realm_app_user_native = do lua_l_newlib user_funcs; pure 1

-- The registry's table of loaded libraries is an argument of `create_scheduler`.
unfoldable pub scheduler_funcs :
    {W : Type 0} ⦃api : RealmApi W⦄ ⦃sched : SchedulerApi W⦄ → Fields → Functions W
scheduler_funcs clibs = (codes "create_scheduler", create_scheduler clibs) ∷ []

module _ {W Q : Type 0} ⦃modules : ModuleApi W⦄ ⦃api : RealmApi W⦄ ⦃iq : InvocationQueue Q⦄ where
  unfoldable pub userdata_meta : LoopAccess W Q → Functions W
  userdata_meta loops = (codes "__gc", lib_close loops) ∷ []

  unfoldable pub userdata_funcs : LoopAccess W Q → Functions W
  userdata_funcs loops =
      (codes "should_close", lib_should_close loops)
      ∷ (codes "close", lib_close loops)
      ∷ (codes "do_work", lib_do_work loops)
      ∷ []

  unfoldable pub luaopen_realm_scheduler_libuv_native :
      ⦃sched : SchedulerApi W⦄ → LoopAccess W Q → Fields → Exec W ℕ
  luaopen_realm_scheduler_libuv_native loops clibs = do
    lua_l_newmetatable (codes "realm_scheduler_luv_userdata")
    lua_l_setfuncs (userdata_meta loops)
    lua_l_newlib (userdata_funcs loops)
    lua_setfield (top 2) (codes "__index")
    pop_metatable (codes "realm_scheduler_luv_userdata")
    lua_l_newlib (scheduler_funcs clibs)
    pure 1
