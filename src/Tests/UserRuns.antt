-- ===== src/Tests/UserRuns.antt =====
-- An app, whose handle is the second userdata, with a user.
use realm_lua_bootcamp.Prelude.{◌≡◌, refl, some}
use realm_lua_bootcamp.Text.{codes, c_string}
use realm_lua_bootcamp.Lua.{userdata, string, ok}
use realm_lua_bootcamp.Native.Convert.{push_handle}
use realm_lua_bootcamp.App.{lib_realm_app_get_current_user, lib_realm_user_get_identity}
use realm_lua_bootcamp.Users.{current_user}
use realm_lua_bootcamp.Tests.World.{one_list, one_user, start}

user_of_start :
    (current_user (userdata 1) start).0
    ≡ ok (some (record { handle = userdata 4; identity = string (codes "me") }))
unfolding current_user lib_realm_app_get_current_user lib_realm_user_get_identity push_handle
    c_string
user_of_start = refl
