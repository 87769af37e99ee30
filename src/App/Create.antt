-- ===== src/App/Create.antt =====
-- What the creation of an app client makes and releases.
use realm_lua_bootcamp.Prelude.{ℕ, zero, suc, ◌≡◌, List, [], ◌∷◌, arith}
use realm_lua_bootcamp.Text.{Bytes, codes, c_string}
use realm_lua_bootcamp.Lua.{string, State, Outcome, ok, raised, on, Conversions, to_text}
use realm_lua_bootcamp.Native.Api.{RealmApi}
use realm_lua_bootcamp.Native.Convert.{inform_realm_error}
use realm_lua_bootcamp.Native.Convert.Handles.{with_handle, push_handle_lem}
use realm_lua_bootcamp.App.{
  AppApi, AppOption, platform, sdk, sdk_version, platform_version, lib_realm_app_create,
}

abbrev pub app_options : List AppOption
app_options =
    platform (codes "Realm Lua")
    ∷ sdk (codes "Lua")
    ∷ sdk_version (codes "0.0.1-alpha")
    ∷ platform_version (codes "macOS")
    ∷ []

abbrev pub set_options : {W : Type 0} → AppApi W → ℕ → List AppOption → W → W
set_options app config [] w = w
set_options app config (o ∷ os) w = set_options app config os (app.app_config_set config o w)

-- What becomes of the call, by the app that is returned.
abbrev pub creation : {W : Type 0} → RealmApi W → ℕ → W → Outcome ℕ
creation api zero w = raised (c_string (api.format (api.get_last_error w) []))
creation api (suc app) w = ok 1

-- Creating an app makes a transport, an app configuration with that transport and the four options,
-- and a sync client configuration with the current directory's path and plain metadata; the app is
-- made of the two, goes into a handle, and the three are then released once each, whether there is
-- an app or, with an error, none.
pub app_create-released :
    {W : Type 0} ⦃cv : Conversions⦄ ⦃api : RealmApi W⦄ ⦃app : AppApi W⦄ (id : Bytes) (s : State W)
    → let start = on s (string id ∷ []) in
      let transport = app.make_curl_http_transport s.world in
      let config = app.app_config_new (c_string id) transport.0 transport.1 in
      let sync = app.sync_client_config_new (set_options app config.0 app_options config.1) in
      let based = app.set_base_file_path sync.0 (c_string (app.current_path sync.1)) sync.1 in
      let made = app.app_create config.0 sync.0 (app.set_plaintext_metadata sync.0 based) in
      let freed = api.release sync.0 (api.release config.0 (api.release transport.0 made.1)) in
      lib_realm_app_create start ≡ (creation api made.0 freed, with_handle start made.0 freed)
unfolding lib_realm_app_create to_text inform_realm_error
app_create-released id s = rw push_handle_lem (ground arith)
