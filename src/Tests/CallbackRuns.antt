-- ===== src/Tests/CallbackRuns.antt =====
-- Runs of the callbacks: the function 3 is under reference 0.
use realm_lua_bootcamp.Prelude.{◌≡◌, ◌++◌, refl, false, [], ◌∷◌, none, some}
use realm_lua_bootcamp.Text.{codes, c_string}
use realm_lua_bootcamp.Lua.{State, nil, function, string, userdata, ok, on}
use realm_lua_bootcamp.Native.Convert.Handles.{handle_box}
use realm_lua_bootcamp.Callbacks.{LuaUserdata, new_userdata, free_lua_userdata}
use realm_lua_bootcamp.Notifications.{
  CollectionChanges, ObjectChanges, add_token, lib_realm_results_add_listener,
  lib_realm_object_add_listener, on_collection_change, on_object_change,
}
use realm_lua_bootcamp.Notifications.Listeners.{
  Listening, silent, results_added, object_added, freed, Listening-calls,
}
use realm_lua_bootcamp.Notifications.Collections.{collection_table, object_table, notified, left_on}
use realm_lua_bootcamp.App.{on_log_in_complete}
use realm_lua_bootcamp.App.Completion.{on_log_in_complete-calls}
use realm_lua_bootcamp.Tests.World.{World, no_floats, one_list, one_user, noting, start}
use realm_lua_bootcamp.Tests.ModuleRuns.{two_tokens}

abbrev one_inserted : CollectionChanges
one_inserted = record {
  deletions = [];
  insertions = 0 ∷ 4 ∷ [];
  modifications_old = [];
  modifications_new = 2 ∷ [];
}

abbrev one_modified : ObjectChanges
one_modified = record { is_deleted = false; modified_properties = 2 ∷ [] }

-- The function 3 listens to results and the function 8 to an object; then the first is freed.
abbrev one_listens : State World
one_listens = (lib_realm_results_add_listener (on start (function 3 ∷ userdata 2 ∷ []))).1

abbrev both_listen : State World
both_listen = (lib_realm_object_add_listener (on one_listens (function 8 ∷ userdata 1 ∷ []))).1

abbrev one_left : State World
one_left = (free_lua_userdata (record { callback_reference = some 1 }) both_listen).1

one_left-Listening : Listening one_left ((2, 8) ∷ [])
unfolding lib_realm_results_add_listener new_userdata add_token
one_left-Listening =
    freed 1 1 3
      (object_added 8 1 (handle_box 7) (results_added 3 2 (handle_box 9) (silent start) refl) refl)
      refl

Listening-calls_example :
    let userdata : LuaUserdata = record { callback_reference = some 2 } in
    let called = noting (function 8) (collection_table one_inserted ∷ []) one_left.world in
    let t = on_collection_change noting userdata one_inserted one_left in
    let told = noting (function 8) (object_table [] one_modified ∷ []) one_left.world in
    let u = on_object_change noting [] userdata one_modified one_left in
    (t.0 ≡ notified one_list called.0)
    × (t.1.world ≡ called.1)
    × (t.1.stack ≡ left_on called.0 one_left.stack)
    × (u.0 ≡ notified one_list told.0)
    × (u.1.world ≡ told.1)
    × (u.1.stack ≡ left_on told.0 one_left.stack)
Listening-calls_example =
    Listening-calls noting [] 0 2 8 one_inserted one_modified one_left-Listening refl

on_log_in_complete-calls_example :
    let welcomed = noting (function 3) (userdata 4 ∷ []) start.world in
    let refused = noting (function 3) (nil ∷ string (c_string (codes "no")) ∷ []) start.world in
    (on_log_in_complete noting (record { callback_reference = some 0 }) 6 none start ≡ (
      ok welcomed.0,
      record start { boxes = start.boxes ++ handle_box 6 ∷ []; world = welcomed.1 },
    ))
    × (on_log_in_complete noting
          (record { callback_reference = some 0 })
          0
          (some (codes "no"))
          start
        ≡ (ok refused.0, record start { world = refused.1 }))
on_log_in_complete-calls_example = on_log_in_complete-calls noting 0 3 5 (codes "no") start refl
