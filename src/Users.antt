-- ===== src/Users.antt =====
-- lib/realm/app.lua, app/user.lua and app/credentials.lua: the app and its users, as a Lua program sees
-- them. An app and credentials are their handles.
pub mod Current
use realm_lua_bootcamp.Prelude.{ℕ, Bool, [], ◌∷◌, Option, none, some}
use realm_lua_bootcamp.Text.{codes}
use realm_lua_bootcamp.Lua.{
  Value, nil, function, table, get_field, not_indexable, Exec, pure, raise, call_c, Conversions,
  ◌>>=◌,
}
use realm_lua_bootcamp.Native.Api.{RealmApi}
use realm_lua_bootcamp.App.{
  AppApi, lib_realm_app_create, lib_realm_app_email_password_provider_client_register_email,
  lib_realm_app_credentials_new_email_password, lib_realm_app_credentials_new_anonymous,
  lib_realm_app_log_in_with_credentials, lib_realm_app_get_current_user, lib_realm_user_log_out,
  lib_realm_user_get_identity,
}

pub record LuaUser : Type 0 where
  pub handle : Value
  pub identity : Value

module _ {W : Type 0} ⦃api : RealmApi W⦄ ⦃app : AppApi W⦄ where
  -- `user._new`
  unfoldable pub user_new : Value → Exec W (Option LuaUser)
  user_new nil = pure none
  user_new handle = do
    identity ← call_c lib_realm_user_get_identity (handle ∷ [])
    pure (some (record { handle = handle; identity = identity }))

  -- `User:logOut`
  unfoldable pub log_out : LuaUser → Exec W Value
  log_out user = call_c lib_realm_user_log_out (user.handle ∷ [])

  -- `App:currentUser`
  unfoldable pub current_user : Value → Exec W (Option LuaUser)
  unfolding user_new
  current_user app_handle = do
    user_handle ← call_c lib_realm_app_get_current_user (app_handle ∷ [])
    user_new user_handle

  -- The function that `App:logIn` makes around the program's one, which is given a user in place of a
  -- handle.
  unfoldable pub logged_in :
      {A : Type 0} → (Option LuaUser → Value → Exec W A) → Value → Value → Exec W A
  unfolding user_new
  logged_in on_logged_in user_handle error = do user ← user_new user_handle; on_logged_in user error

  -- `App:logIn`; `callback` is the number of that function.
  unfoldable pub log_in : Value → Value → ℕ → Exec W Value
  log_in app_handle credentials callback =
      call_c lib_realm_app_log_in_with_credentials
        (function callback ∷ credentials ∷ app_handle ∷ [])

  -- `credentials.anonymous`; what its argument is, is left to the native function.
  unfoldable pub anonymous : Bool → Value → Exec W Value
  anonymous garbage reuse_credentials =
      call_c (lib_realm_app_credentials_new_anonymous garbage) (reuse_credentials ∷ [])

module _ {W : Type 0} ⦃cv : Conversions⦄ ⦃api : RealmApi W⦄ ⦃app : AppApi W⦄ where
  abbrev app_id_field : Value → Exec W Value
  app_id_field (table fs) = pure (get_field (codes "appId") fs)
  app_id_field _ = raise not_indexable

  -- `module.new` of app.lua: the app's handle.
  unfoldable pub app_new : Value → Exec W Value
  unfolding get_field
  app_new config = do app_id ← app_id_field config; call_c lib_realm_app_create (app_id ∷ [])

  -- `App:registerEmail`
  unfoldable pub register_email : Value → Value → Value → Value → Exec W Value
  register_email app_handle email password on_registered =
      call_c lib_realm_app_email_password_provider_client_register_email
        (on_registered ∷ password ∷ email ∷ app_handle ∷ [])

  -- `credentials.emailPassword`
  unfoldable pub email_password : Value → Value → Exec W Value
  email_password email password =
      call_c lib_realm_app_credentials_new_email_password (password ∷ email ∷ [])
