-- ===== src/Modules/Provided.antt =====
-- What a Lua module has: the functions that the files of lib/realm call in it.
use realm_lua_bootcamp.Prelude.{ℕ, ◌≡◌, refl, ap, ◌∙◌, Bool, [], ◌∷◌, map, ◌++◌, some, none}
use realm_lua_bootcamp.Text.{codes, text_eq}
use realm_lua_bootcamp.Lua.{
  function, table, Fields, end, get_field, set_field, State, Outcome, Conversions,
  get_field-set_field,
}
use realm_lua_bootcamp.Native.Api.{RealmApi}
use realm_lua_bootcamp.Native.Open.{OpenApi, lib_realm_open}
use realm_lua_bootcamp.Native.Transactions.{
  lib_realm_release, lib_realm_begin_write, lib_realm_commit_transaction,
  lib_realm_cancel_transaction,
}
use realm_lua_bootcamp.Native.Objects.{
  lib_realm_object_create, lib_realm_object_create_with_primary_key, lib_realm_object_delete,
  lib_realm_object_is_valid, lib_realm_set_value, lib_realm_get_value,
}
use realm_lua_bootcamp.Native.Results.{
  lib_realm_object_get_all, lib_realm_results_get, lib_realm_results_count,
  lib_realm_results_filter,
}
use realm_lua_bootcamp.Native.Lists.{
  lib_realm_list_insert, lib_realm_list_get, lib_realm_list_size, lib_realm_list_erase,
  lib_realm_get_list,
}
use realm_lua_bootcamp.Native.Dictionaries.{
  lib_realm_get_dictionary, lib_realm_dictionary_find, lib_realm_dictionary_size,
  lib_realm_dictionary_insert, lib_realm_dictionary_erase,
}
use realm_lua_bootcamp.Native.Sets.{
  lib_realm_get_set, lib_realm_set_insert, lib_realm_set_size, lib_realm_set_erase,
  lib_realm_set_find,
}
use realm_lua_bootcamp.Notifications.{
  NotificationApi, lib_realm_results_add_listener, lib_realm_object_add_listener,
}
use realm_lua_bootcamp.Scheduler.{InvocationQueue}
use realm_lua_bootcamp.Scheduler.Create.{SchedulerApi, create_scheduler}
use realm_lua_bootcamp.Scheduler.Functions.{LoopAccess, lib_should_close, lib_close, lib_do_work}
use realm_lua_bootcamp.App.{
  AppApi, lib_realm_app_create, lib_realm_app_credentials_new_anonymous,
  lib_realm_app_credentials_new_email_password,
  lib_realm_app_email_password_provider_client_register_email, lib_realm_app_get_current_user,
  lib_realm_app_log_in_with_credentials, lib_realm_user_log_out, lib_realm_user_get_identity,
}
use realm_lua_bootcamp.Modules.Tables.{
  filled, open_lib, open_lib_lem, get_field-filled, named, Opens, Binds, BindsBut, Binds-filled,
  opened, opened_but, IsRegistered,
}
use realm_lua_bootcamp.Modules.{
  Functions, ModuleApi, metatable_or_new, realm_handle_funcs, lib, luaopen_realm_native, app_funcs,
  luaopen_realm_app_native, user_funcs, luaopen_realm_app_user_native, userdata_meta,
  userdata_funcs, scheduler_funcs, luaopen_realm_scheduler_libuv_native,
}

module _ {W : Type 0} ⦃cv : Conversions⦄ ⦃api : RealmApi W⦄ where
  -- What each file of lib/realm calls in `realm.native`, with the function that it means.
  abbrev init_calls : ⦃opening : OpenApi W⦄ → Functions W
  init_calls =
      (codes "realm_begin_write", lib_realm_begin_write)
      ∷ (codes "realm_commit_transaction", lib_realm_commit_transaction)
      ∷ (codes "realm_cancel_transaction", lib_realm_cancel_transaction)
      ∷ (codes "realm_release", lib_realm_release)
      ∷ (codes "realm_object_delete", lib_realm_object_delete)
      ∷ (codes "realm_object_is_valid", lib_realm_object_is_valid)
      ∷ (codes "realm_object_get_all", lib_realm_object_get_all)
      ∷ (codes "realm_open", lib_realm_open)
      ∷ []

  abbrev object_calls : ⦃notifications : NotificationApi W⦄ → Functions W
  object_calls =
      (codes "realm_object_add_listener", lib_realm_object_add_listener)
      ∷ (codes "realm_object_create", lib_realm_object_create)
      ∷ (codes "realm_object_create_with_primary_key", lib_realm_object_create_with_primary_key)
      ∷ (codes "realm_get_list", lib_realm_get_list)
      ∷ (codes "realm_get_dictionary", lib_realm_get_dictionary)
      ∷ (codes "realm_get_set", lib_realm_get_set)
      ∷ (codes "realm_get_value", lib_realm_get_value)
      ∷ (codes "realm_set_value", lib_realm_set_value)
      ∷ []

  abbrev results_calls : ⦃notifications : NotificationApi W⦄ → Functions W
  results_calls =
      (codes "realm_results_add_listener", lib_realm_results_add_listener)
      ∷ (codes "realm_results_filter", lib_realm_results_filter)
      ∷ (codes "realm_results_get", lib_realm_results_get)
      ∷ (codes "realm_results_count", lib_realm_results_count)
      ∷ []

  abbrev collection_calls : Functions W
  collection_calls =
      (codes "realm_list_get", lib_realm_list_get)
      ∷ (codes "realm_list_erase", lib_realm_list_erase)
      ∷ (codes "realm_list_insert", lib_realm_list_insert)
      ∷ (codes "realm_list_size", lib_realm_list_size)
      ∷ (codes "realm_dictionary_find", lib_realm_dictionary_find)
      ∷ (codes "realm_dictionary_erase", lib_realm_dictionary_erase)
      ∷ (codes "realm_dictionary_insert", lib_realm_dictionary_insert)
      ∷ (codes "realm_dictionary_size", lib_realm_dictionary_size)
      ∷ (codes "realm_set_find", lib_realm_set_find)
      ∷ (codes "realm_set_erase", lib_realm_set_erase)
      ∷ (codes "realm_set_insert", lib_realm_set_insert)
      ∷ (codes "realm_set_size", lib_realm_set_size)
      ∷ []

  abbrev pub native_calls : ⦃opening : OpenApi W⦄ ⦃notifications : NotificationApi W⦄ → Functions W
  native_calls = init_calls ++ object_calls ++ results_calls ++ collection_calls

  -- What app.lua and app/credentials.lua call in `realm.app.native`, and app/user.lua in
  -- `realm.app.user.native`.
  abbrev pub app_calls : ⦃app : AppApi W⦄ → Bool → Functions W
  app_calls garbage =
      (codes "realm_app_get_current_user", lib_realm_app_get_current_user)
      ∷ (
        codes "realm_app_email_password_provider_client_register_email",
        lib_realm_app_email_password_provider_client_register_email,
      )
      ∷ (codes "realm_app_log_in_with_credentials", lib_realm_app_log_in_with_credentials)
      ∷ (codes "realm_app_create", lib_realm_app_create)
      ∷ (
        codes "realm_app_credentials_new_anonymous",
        lib_realm_app_credentials_new_anonymous garbage,
      )
      ∷ (
        codes "realm_app_credentials_new_email_password",
        lib_realm_app_credentials_new_email_password,
      )
      ∷ []

  abbrev pub user_calls : ⦃app : AppApi W⦄ → Functions W
  user_calls =
      (codes "realm_user_log_out", lib_realm_user_log_out)
      ∷ (codes "realm_user_get_identity", lib_realm_user_get_identity)
      ∷ []

-- The methods that scheduler/libuv.lua calls on the userdata, and what it calls in the module.
abbrev pub method_calls :
    {W Q : Type 0} ⦃api : RealmApi W⦄ ⦃iq : InvocationQueue Q⦄ → LoopAccess W Q → Functions W
method_calls loops =
    (codes "should_close", lib_should_close loops)
    ∷ (codes "close", lib_close loops)
    ∷ (codes "do_work", lib_do_work loops)
    ∷ []

abbrev pub scheduler_calls :
    {W : Type 0} ⦃api : RealmApi W⦄ ⦃sched : SchedulerApi W⦄ → Fields → Functions W
scheduler_calls clibs = (codes "create_scheduler", create_scheduler clibs) ∷ []

module _ {W : Type 0} ⦃modules : ModuleApi W⦄ ⦃cv : Conversions⦄ ⦃api : RealmApi W⦄
    ⦃opening : OpenApi W⦄ ⦃notifications : NotificationApi W⦄ where
  native_found :
      (map (λ b. named b.0 (lib {W = W})) (native_calls {W = W})
        ≡ map (λ b. some b.1) (native_calls {W = W}))
      × (named (codes "realm_clone") (lib {W = W}) ≡ none)
  unfolding lib text_eq
  native_found = (refl, refl)

  luaopen_realm_native-opens :
      (s : State W)
      → Opens (BindsBut (codes "realm_clone") (native_calls {W = W})) s (luaopen_realm_native s)
        × IsRegistered
            (codes "_realm_handle")
            (codes "__gc")
            lib_realm_release
            s
            (luaopen_realm_native s)
  unfolding luaopen_realm_native realm_handle_funcs open_lib get_field text_eq
  luaopen_realm_native-opens s =
      let m = filled {W = W} realm_handle_funcs (
        metatable_or_new (codes "_realm_handle")
          (modules.metatable (codes "_realm_handle") s.world)) in
      let t : State W = record s {
        world = modules.register (codes "_realm_handle") (table m) s.world;
      } in
      (
        opened_but (codes "realm_clone") lib native_calls t native_found.0 native_found.1,
        (
          m,
          ap (λ u. u.1.world) (open_lib_lem lib t),
          get_field-filled {W = W} (codes "__gc") realm_handle_funcs _,
        ),
      )

module _ {W Q : Type 0} ⦃modules : ModuleApi W⦄ ⦃api : RealmApi W⦄ ⦃iq : InvocationQueue Q⦄
    ⦃sched : SchedulerApi W⦄ (loops : LoopAccess W Q) where
  -- The userdata's metatable closes it when it is collected, and finds its methods.
  abbrev pub IsUserdataMeta : State W → Outcome ℕ × State W → Type 0
  IsUserdataMeta s t =
      (m : Fields) × (methods : Fields) × (t.1.world
        ≡ modules.register (codes "realm_scheduler_luv_userdata") (table m) s.world)
      × (get_field (codes "__gc") m ≡ function (modules.address (lib_close loops)))
      × (get_field (codes "__index") m ≡ table methods)
      × Binds (method_calls loops) methods

  luaopen_realm_scheduler_libuv_native-opens :
      (clibs : Fields) (s : State W)
      → let t = luaopen_realm_scheduler_libuv_native loops clibs s in
        Opens (Binds (scheduler_calls {W = W} clibs)) s t × IsUserdataMeta s t
  unfolding luaopen_realm_scheduler_libuv_native userdata_meta userdata_funcs scheduler_funcs
      open_lib get_field set_field text_eq
  luaopen_realm_scheduler_libuv_native-opens clibs s =
      let methods = filled {W = W} (userdata_funcs loops) end in
      let m0 =
        metatable_or_new (codes "realm_scheduler_luv_userdata")
          (modules.metatable (codes "realm_scheduler_luv_userdata") s.world) in
      let m1 = filled {W = W} (userdata_meta loops) m0 in
      let m = set_field (codes "__index") (table methods) m1 in
      let t : State W = record s {
        world = modules.register (codes "realm_scheduler_luv_userdata") (table m) s.world;
      } in
      (
        opened (scheduler_funcs clibs) (scheduler_calls clibs) t refl,
        (
          m,
          methods,
          ap (λ u. u.1.world) (open_lib_lem (scheduler_funcs clibs) t),
          get_field-set_field (codes "__gc") (codes "__index") (table methods) m1
              ∙ get_field-filled {W = W} (codes "__gc") (userdata_meta loops) m0,
          get_field-set_field (codes "__index") (codes "__index") (table methods) m1,
          Binds-filled (method_calls loops) (userdata_funcs loops) end refl,
        ),
      )

module _ {W Q : Type 0} ⦃modules : ModuleApi W⦄ ⦃cv : Conversions⦄ ⦃api : RealmApi W⦄
    ⦃opening : OpenApi W⦄ ⦃notifications : NotificationApi W⦄ ⦃app : AppApi W⦄
    ⦃iq : InvocationQueue Q⦄ ⦃sched : SchedulerApi W⦄ where
  -- Each of the four modules is one new table on the stack, and every name that a file of lib/realm
  -- calls in it has the function that the caller means by it, but for `realm_clone` of `realm.native`,
  -- which is nil. The collector releases a handle and closes the scheduler's userdata, and the
  -- userdata's methods `should_close`, `close` and `do_work` are found through its metatable.
  pub luaopen-provides :
      (loops : LoopAccess W Q) (garbage : Bool) (clibs : Fields) (s : State W)
      → Opens (BindsBut (codes "realm_clone") (native_calls {W = W})) s (luaopen_realm_native s)
        × IsRegistered
            (codes "_realm_handle")
            (codes "__gc")
            lib_realm_release
            s
            (luaopen_realm_native s)
        × Opens (Binds (app_calls {W = W} garbage)) s (luaopen_realm_app_native garbage s)
        × Opens (Binds (user_calls {W = W})) s (luaopen_realm_app_user_native s)
        × Opens
            (Binds (scheduler_calls {W = W} clibs))
            s
            (luaopen_realm_scheduler_libuv_native loops clibs s)
        × IsUserdataMeta loops s (luaopen_realm_scheduler_libuv_native loops clibs s)
  unfolding app_funcs user_funcs luaopen_realm_app_native luaopen_realm_app_user_native open_lib
      text_eq
  luaopen-provides loops garbage clibs s =
      let native = luaopen_realm_native-opens s in
      let scheduler = luaopen_realm_scheduler_libuv_native-opens loops clibs s in
      (
        native.0,
        native.1,
        opened (app_funcs garbage) (app_calls garbage) s refl,
        opened user_funcs user_calls s refl,
        scheduler.0,
        scheduler.1,
      )
