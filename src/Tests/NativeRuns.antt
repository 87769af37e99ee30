-- ===== src/Tests/NativeRuns.antt =====
-- Runs of the functions of `realm.native` over the small world: userdata 0 is the realm, 1 an object,
-- 2 the list, 3 a property's key.
use realm_lua_bootcamp.Prelude.{◌≡◌, ◌↔◌, refl, [], ◌∷◌, some, get_elem?, arith}
use realm_lua_bootcamp.Text.{Bytes, c_string}
use realm_lua_bootcamp.Text.Laws.{NoZero}
use realm_lua_bootcamp.Lua.{integer, string, userdata, ok, on}
use realm_lua_bootcamp.Native.Api.{RealmValue}
use realm_lua_bootcamp.Native.Convert.Handles.{handle_box, with_handle}
use realm_lua_bootcamp.Native.Convert.RoundTrip.{there_and_back, an_integer, there_and_back-string}
use realm_lua_bootcamp.Native.Transactions.{lib_realm_release}
use realm_lua_bootcamp.Native.Transactions.Release.{release_twice}
use realm_lua_bootcamp.Native.Results.{lib_realm_results_get}
use realm_lua_bootcamp.Native.Results.Arguments.{asked_index, results_get-index}
use realm_lua_bootcamp.Native.Lists.{lib_realm_list_insert}
use realm_lua_bootcamp.Native.Lists.Assign.{
  insert_arguments, assign, assign_outcome, assigned_or_same, list_insert-assign,
}
use realm_lua_bootcamp.Tests.World.{one_list, no_floats, start, list_laws, elements_of, InWrite}

list_insert-assign_example :
    let t = lib_realm_list_insert (on start (insert_arguments 2 1 (integer 5))) in
    let assigned = assign (elements_of start.world) 1 (RealmValue.int 5) in
    (t.0 ≡ assign_outcome one_list assigned)
    × (elements_of t.1.world ≡ assigned_or_same (elements_of start.world) assigned)
list_insert-assign_example =
    list_insert-assign {view = elements_of} {InWrite = InWrite} 9 list_laws start 2 1 (integer 5)
      (an_integer 5) refl tt

abbrev with_zero : Bytes
with_zero = 82 ∷ 0 ∷ 101 ∷ []

there_and_back-string_example :
    (there_and_back 5 (on start (string with_zero ∷ []))
      ≡ (ok 1, on start (string (c_string with_zero) ∷ string with_zero ∷ [])))
    × ((c_string with_zero ≡ with_zero) ↔ NoZero with_zero)
there_and_back-string_example = there_and_back-string 5 with_zero start []

release_twice_example :
    let once = lib_realm_release (on start (userdata 0 ∷ [])) in
    let twice = lib_realm_release once.1 in
    (once.0 ≡ ok 0)
    × (twice.0 ≡ ok 0)
    × (twice.1.world ≡ one_list.release 0 (one_list.release 5 start.world))
    × (get_elem? twice.1.boxes 0 ≡ some (handle_box 0))
release_twice_example = release_twice 0 5 start refl

results_get-index_example :
    let asked = on start (integer 2147483648 ∷ userdata 2 ∷ []) in
    let object = one_list.results_get_object 9 (asked_index 2147483648) start.world in
    lib_realm_results_get asked ≡ (ok 1, with_handle asked object.0 object.1)
results_get-index_example = results_get-index 2 9 2147483648 start refl (omega arith)
