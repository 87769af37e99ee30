-- ===== src/App.antt =====
-- src/realm_app.cpp and src/realm_user.cpp: the app client, its callbacks and the user.
pub mod Completion
pub mod Create
use realm_lua_bootcamp.Prelude.{ℕ, zero, suc, Bool, Option, none, some, ◌==◌, if◌then◌else◌}
use realm_lua_bootcamp.Text.{Bytes, codes, c_string}
use realm_lua_bootcamp.Lua.{
  nil, string, Exec, bottom, gettop, push, pure, crash, read, gets, call, handle_at, c_text_at,
  Conversions, to_text, to_boolean, push_ref, ◌>>=◌, ◌>>◌,
}
use realm_lua_bootcamp.Callbacks.{Behaviour, LuaUserdata, lua_pcall, log_lua_error, new_userdata}
use realm_lua_bootcamp.Native.Api.{RealmApi}
use realm_lua_bootcamp.Native.Convert.{
  inform_realm_error, push_handle, or_realm_error, handle_or_realm_error,
}

pub data AppOption : Type 0 where
  platform sdk sdk_version platform_version : Bytes → AppOption

-- realm-core's app client, whose code is not in this repository; 0 is the null pointer.
pub record AppApi (W : Type 0) : Type 0 where
  pub make_curl_http_transport : W → ℕ × W
  pub app_config_new : Bytes → ℕ → W → ℕ × W
  pub app_config_set : ℕ → AppOption → W → W
  pub sync_client_config_new : W → ℕ × W
  pub current_path : W → Bytes
  pub set_base_file_path : ℕ → Bytes → W → W
  pub set_plaintext_metadata : ℕ → W → W
  pub app_create : ℕ → ℕ → W → ℕ × W
  pub register_email : ℕ → Bytes → Bytes → LuaUserdata → W → Bool × W
  pub credentials_new_email_password : Bytes → Bytes → W → ℕ × W
  pub credentials_new_anonymous : Bool → W → ℕ × W
  pub log_in_with_credentials : ℕ → ℕ → LuaUserdata → W → Bool × W
  pub get_current_user : ℕ → W → ℕ × W
  pub clone : ℕ → W → ℕ × W
  pub user_log_out : ℕ → W → Bool × W
  pub user_get_identity : ℕ → W → Bytes × W

module _ {W : Type 0} where
  abbrev effect : (W → W) → Exec W (Unit {0})
  effect f = call (λ w. (tt, f w))

  -- The message for the callback, if there is an error, and the number of its arguments.
  abbrev push_error : Option Bytes → Exec W ℕ
  push_error none = pure 0
  push_error (some message) = do push (string (c_string message)); pure 1

  -- A callback's own error is logged and goes no further.
  unfoldable pub on_register_email_complete :
      Behaviour W → LuaUserdata → Option Bytes → Exec W (Option Bytes)
  unfolding log_lua_error
  on_register_email_complete run userdata error = do
    push_ref userdata.callback_reference
    num_callback_args ← push_error error
    status ← lua_pcall run num_callback_args
    log_lua_error status

  abbrev push_failure : Option Bytes → Exec W ℕ
  push_failure none = crash
  push_failure (some message) = do push nil; push (string (c_string message)); pure 2

module _ {W : Type 0} ⦃api : RealmApi W⦄ ⦃app : AppApi W⦄ where
  -- The user, or nil and a message. Without a user the error is read through a pointer.
  abbrev push_user : ℕ → Option Bytes → Exec W ℕ
  push_user zero error = push_failure error
  push_user (suc user) error = do push_handle (app.clone (suc user)); pure 1

  unfoldable pub on_log_in_complete :
      Behaviour W → LuaUserdata → ℕ → Option Bytes → Exec W (Option Bytes)
  unfolding log_lua_error
  on_log_in_complete run userdata user_arg error = do
    push_ref userdata.callback_reference
    num_callback_args ← push_user user_arg error
    status ← lua_pcall run num_callback_args
    log_lua_error status

module _ {W : Type 0} ⦃cv : Conversions⦄ ⦃api : RealmApi W⦄ ⦃app : AppApi W⦄ where
  unfoldable pub lib_realm_app_create : Exec W ℕ
  unfolding to_text c_string inform_realm_error
  lib_realm_app_create = do
    app_id ← c_text_at (bottom 1)
    http_transport ← call app.make_curl_http_transport
    app_config ← call (app.app_config_new app_id http_transport)
    effect (app.app_config_set app_config (platform (codes "Realm Lua")))
    effect (app.app_config_set app_config (sdk (codes "Lua")))
    effect (app.app_config_set app_config (sdk_version (codes "0.0.1-alpha")))
    effect (app.app_config_set app_config (platform_version (codes "macOS")))
    sync_client_config ← call app.sync_client_config_new
    path ← gets (λ s. app.current_path s.world)
    effect (app.set_base_file_path sync_client_config (c_string path))
    effect (app.set_plaintext_metadata sync_client_config)
    p ← push_handle (app.app_create app_config sync_client_config)
    effect (api.release http_transport)
    effect (api.release app_config)
    effect (api.release sync_client_config)
    handle_or_realm_error p
    pure 1

  abbrev password_text : Option Bytes → Exec W Bytes
  password_text none = crash
  password_text (some password) = pure password

  -- The password goes with its length: a zero byte does not end it.
  unfoldable pub lib_realm_app_email_password_provider_client_register_email : Exec W ℕ
  unfolding to_text c_string inform_realm_error new_userdata
  lib_realm_app_email_password_provider_client_register_email = do
    p ← handle_at (bottom 1)
    email ← c_text_at (bottom 2)
    password ← read (bottom 3)
    password ← password_text (to_text password)
    userdata ← new_userdata
    status ← call (app.register_email p email password userdata)
    or_realm_error status
    pure 0

  unfoldable pub lib_realm_app_credentials_new_email_password : Exec W ℕ
  unfolding to_text c_string
  lib_realm_app_credentials_new_email_password = do
    email ← c_text_at (bottom 1)
    password ← read (bottom 2)
    password ← password_text (to_text password)
    push_handle (app.credentials_new_email_password email password)
    pure 1

module _ {W : Type 0} ⦃api : RealmApi W⦄ ⦃app : AppApi W⦄ where
  unfoldable pub lib_realm_app_log_in_with_credentials : Exec W ℕ
  unfolding inform_realm_error new_userdata
  lib_realm_app_log_in_with_credentials = do
    p ← handle_at (bottom 1)
    app_credentials ← handle_at (bottom 2)
    userdata ← new_userdata
    status ← call (app.log_in_with_credentials p app_credentials userdata)
    or_realm_error status
    pure 0

  -- A user that is there goes into a new handle.
  abbrev push_user_or_nil : ℕ → Exec W (Unit {0})
  push_user_or_nil zero = push nil
  push_user_or_nil (suc user) = do push_handle (λ w. (suc user, w)); pure tt

  unfoldable pub lib_realm_app_get_current_user : Exec W ℕ
  lib_realm_app_get_current_user = do
    p ← handle_at (bottom 1)
    user ← call (app.get_current_user p)
    push_user_or_nil user
    pure 1

  -- Called without an argument it reads a variable that was never set: `garbage`.
  unfoldable pub lib_realm_app_credentials_new_anonymous : Bool → Exec W ℕ
  unfolding to_boolean
  lib_realm_app_credentials_new_anonymous garbage = do
    n ← gettop
    given ← read (bottom 1)
    push_handle (app.credentials_new_anonymous (if n == 1 then to_boolean given else garbage))
    pure 1

  unfoldable pub lib_realm_user_log_out : Exec W ℕ
  unfolding inform_realm_error
  lib_realm_user_log_out = do
    user ← handle_at (bottom 1)
    status ← call (app.user_log_out user)
    or_realm_error status
    pure 0

  unfoldable pub lib_realm_user_get_identity : Exec W ℕ
  unfolding c_string
  lib_realm_user_get_identity = do
    user ← handle_at (bottom 1)
    identity ← call (app.user_get_identity user)
    push (string (c_string identity))
    pure 1
