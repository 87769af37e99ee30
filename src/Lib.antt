-- ===== src/Lib.antt =====
-- Realm Lua: the C++ bindings that make realm-core usable from Lua.
--
-- The program's parts. A Lua program calls C functions of the module `realm.native`, which read
-- their arguments from the Lua stack, call realm-core's C interface, and push their results or
-- raise an error. Opening a realm parses a schema, a Lua table, and pushes back what realm-core
-- knows of its classes. A handle is a full userdata that holds one pointer, and is released by the
-- garbage collector. Listeners and the app's completion handlers are Lua functions that C++ keeps in
-- the registry and calls later; realm-core calls them on the thread of a scheduler, which wakes a
-- libuv loop. The app client sends its requests over libcurl. The Lua files of
-- lib/realm wrap handles in tables whose metamethods call these functions. The playground is a
-- program that makes a Lua state with the four modules and runs a script in it.
--
-- Which file models which part, by its path from the repository's root:
--   Text.antt: `ends_with` of src/realm_util.hpp, and C strings.
--   Lua.antt and below: the part of Lua's C interface that is called, with the stack, userdata, the
--     registry and errors: `Exec` is a function on `State` whose outcome is a value, an error or
--     undefined behaviour (`fault`, such as a read through a null pointer).
--   Schema/Property.antt: `_parse_property_type`; Schema/Parse.antt: `_parse_schema`;
--     Schema/Push.antt: `_push_schema_info`; all of src/realm_schema.cpp.
--   Native/Convert.antt: the conversions and errors of src/realm_util.cpp and src/realm_util.hpp.
--   Native/Open.antt, Transactions.antt, Objects.antt, Results.antt, Lists.antt, Dictionaries.antt
--     and Sets.antt: the functions `lib_realm_*` of src/realm_native_lib.cpp, under their names.
--   Callbacks.antt: `realm_lua_userdata`, `free_lua_userdata`, `log_lua_error` of
--     src/realm_util.hpp and src/realm_util.cpp.
--   Notifications.antt: src/realm_notifications.cpp.
--   App.antt: src/realm_app.cpp and src/realm_user.cpp.
--   Scheduler.antt: the scheduler of src/realm_scheduler.cpp and the handler of
--     lib/realm/scheduler/libuv.lua; Scheduler/Create.antt: `create_scheduler`.
--     Scheduler/Functions.antt: the functions of its userdata.
--   Modules.antt: the arrays of functions and the `luaopen_*` functions of src/realm_native_lib.cpp,
--     src/realm_scheduler.cpp, src/realm_app.cpp and src/realm_user.cpp.
--   Playground.antt: the protected calls of playground/main.cpp; Playground/Main.antt: its `main`.
--   Realm.antt: `Realm.open`, `write`, `close`, `delete` and `isValid` of lib/realm/init.lua;
--     Realm/Collections.antt: the metamethods of list.lua, set.lua, dictionary.lua and results.lua,
--     and `Realm:objects`; Realm/Objects.antt: reading an object's properties, of
--     object.lua; Realm/Objects/Creation.antt: writing them, `RealmObject._new` and `Realm:create`.
--   Users.antt: lib/realm/app.lua, app/user.lua and app/credentials.lua.
--   Http/Guard.antt, Headers.antt and Request.antt: `CurlGlobalGuard`, `curl_header_cb`,
--     `curl_write_cb` and `send_request_to_server` of src/curl_http_transport.cpp.
--   Prelude.antt and below: lists, tests and names that the parts share. Tests.antt and below: the
--     theorems at concrete inputs.
--
-- Not in the repository, and so arguments: realm-core (`RealmApi`, `OpenApi`, `AppApi`,
-- `NotificationApi`, `InvocationQueue`, functions on a world of any type), Lua's conversions between
-- numbers and texts (`Conversions`), what a Lua function does (`Behaviour`), libcurl
-- (`CurlApi`), the symbols of a library (`SchedulerApi`), the registry's metatables (`ModuleApi`),
-- the loop of a userdata (`LoopAccess`), what the playground calls of Lua and of the C library
-- (`HostApi`), and what Lua adds to a message (`Messages`). What the theorems rely on of these is
-- a hypothesis: the laws of a list, a dictionary, a set and an object handle
-- (`ListLaws`, `EraseLaws`, `DictionaryLaws`, `SetLaws`, `PropertyLaws`), of an object created with
-- its primary key (`KeyedLaws`), of transactions (`TransactionLaws`), of libcurl's handles and lists
-- (`CurlLaws`) and of the queue.
--
-- Choices. Bytes are numbers, a text a list of them, an integer its 64 bits, a float the bits of a
-- double. A table is the list of its entries in the order of `lua_next`, and is copied where it is
-- read: the bindings write only to tables that they have just made and that nothing else holds; that
-- `RealmObject._new` takes the primary key out of the caller's table is not seen outside of it. A
-- thread's call is one step, and steps come in any order. Two loops run on fuel: the stripping of
-- line ends in `drop_line_end` has the text's length, of which each round takes one byte, and the
-- border of a table in `border` has the number of its entries, one of which each round finds. The
-- playground's message handler is given an error of its own at most `max_c_calls` times, and needs it
-- once.
--
-- An object's own fields (`_handle`, `class`, `_realm`, `addListener`) are set past `__newindex`; what
-- becomes of an object whose `_realm` is overwritten is not followed: it is a fault. An object that a
-- collection yields is its handle and its realm, without its class: that object.lua fails on a class
-- that is nil is not followed there. How libcurl takes the options of a request is its own:
-- `timeout_ms` is passed to it as 64 bits.
--
-- Not modelled: the Lua files of lib/realm but for the functions above, memory that Lua or C++ fails to
-- allocate, and the limit of the Lua stack.
pub mod Prelude
pub mod Text
pub mod Lua
pub mod Schema
pub mod Native
pub mod Http
pub mod Scheduler
pub mod Callbacks
pub mod Notifications
pub mod App
pub mod Modules
pub mod Playground
pub mod Realm
pub mod Users
pub mod Tests
