-- ===== src/Tests/ModuleRuns.antt =====
-- The modules opened in the small world; a function's address tells what it does when it is called
-- with nothing.
use realm_lua_bootcamp.Prelude.{ℕ, suc, false, List, none}
use realm_lua_bootcamp.Text.{codes}
use realm_lua_bootcamp.Lua.{Outcome, ok, raised, fault, end}
use realm_lua_bootcamp.Native.Transactions.{lib_realm_release}
use realm_lua_bootcamp.Notifications.{NotificationApi}
use realm_lua_bootcamp.Scheduler.{start}
use realm_lua_bootcamp.Scheduler.Functions.{LoopAccess}
use realm_lua_bootcamp.Modules.{
  ModuleApi, luaopen_realm_native, luaopen_realm_app_native, luaopen_realm_app_user_native,
  luaopen_realm_scheduler_libuv_native,
}
use realm_lua_bootcamp.Modules.Tables.{Opens, Binds, BindsBut, IsRegistered}
use realm_lua_bootcamp.Modules.Provided.{
  native_calls, app_calls, user_calls, scheduler_calls, IsUserdataMeta, luaopen-provides,
}
use realm_lua_bootcamp.Tests.World.{World, one_list, no_floats, one_user}
use realm_lua_bootcamp.Tests.World as Small
use realm_lua_bootcamp.Tests.OpenRuns.{one_realm}
use realm_lua_bootcamp.Tests.LoopRuns.{list_queue, one_scheduler}

abbrev told : Outcome ℕ → ℕ
told (ok n) = suc (suc n)
told (raised m) = 1
told fault = 0

instance abbrev one_module : ModuleApi World
one_module = record {
  address = λ f. told (f Small.start).0;
  metatable = λ name w. none;
  register = λ name m w. w;
}

instance abbrev pub two_tokens : NotificationApi World
two_tokens = record {
  results_add_notification_callback = λ r u w. (15, w);
  object_add_notification_callback = λ o u w. (16, w);
}

abbrev idle : LoopAccess World (List ℕ)
idle = record { loop_of = λ u w. start false; set_loop = λ u l w. w }

luaopen-provides_example :
    let s = Small.start in
    Opens (BindsBut (codes "realm_clone") (native_calls {W = World})) s (luaopen_realm_native s)
    × IsRegistered
        (codes "_realm_handle")
        (codes "__gc")
        lib_realm_release
        s
        (luaopen_realm_native s)
    × Opens (Binds (app_calls {W = World} false)) s (luaopen_realm_app_native false s)
    × Opens (Binds (user_calls {W = World})) s (luaopen_realm_app_user_native s)
    × Opens
        (Binds (scheduler_calls {W = World} end))
        s
        (luaopen_realm_scheduler_libuv_native idle end s)
    × IsUserdataMeta idle s (luaopen_realm_scheduler_libuv_native idle end s)
luaopen-provides_example = luaopen-provides idle false end Small.start
