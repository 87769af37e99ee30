-- ===== src/Tests/CollectionRuns.antt =====
-- A list, a dictionary and a set as a Lua program sees them.
use realm_lua_bootcamp.Prelude.{
  ◌-◌, take, drop, ◌≡◌, refl, true, false, [], ◌∷◌, ◌++◌, length, some, inl, arith,
}
use realm_lua_bootcamp.Text.{codes}
use realm_lua_bootcamp.Lua.{nil, boolean, integer, string, userdata, ok, to_boolean}
use realm_lua_bootcamp.Native.Api.{RealmValue}
use realm_lua_bootcamp.Native.Convert.RoundTrip.{an_integer}
use realm_lua_bootcamp.Native.Lists.Assign.{assign}
use realm_lua_bootcamp.Realm.Collections.{
  Collection, plain, list_index, list_newindex, list_len, set_index, set_newindex, dictionary_index,
  results_filter, with_child, dictionary_newindex,
}
use realm_lua_bootcamp.Realm.Collections.Indices.{list_index-newindex}
use realm_lua_bootcamp.Realm.Collections.Erased.{list_newindex-erase}
use realm_lua_bootcamp.Realm.Collections.Members.{set_index-newindex}
use realm_lua_bootcamp.Realm.Collections.Entries.{dictionary_index-newindex}
use realm_lua_bootcamp.Native.Convert.Handles.{handle_box}
use realm_lua_bootcamp.Realm.Collections.Filters.{results_filter-scalars}
use realm_lua_bootcamp.Tests.World.{
  no_floats, one_list, start, elements_of, entries_of, has_member, InWrite, list_laws, erase_laws,
  dictionary_laws, set_laws,
}
use realm_lua_bootcamp.Tests.RealmRuns.{realm, plain_messages}

abbrev ages : Collection
ages = record { handle = userdata 2; realm = realm }

-- The list has two elements: the third is appended.
list_index-newindex_example :
    let t = list_newindex ages 3 (plain (integer 5)) start in
    (t.0 ≡ ok nil)
    × (some (elements_of t.1.world) ≡ assign (elements_of start.world) (3 - 1) (RealmValue.int 5))
    × (list_index ages 3 t.1 ≡ (ok (plain (integer 5), realm), t.1))
list_index-newindex_example =
    list_index-newindex {view = elements_of} {InWrite = InWrite} 9 list_laws ages 2 0 5 3
      (integer 5) start (an_integer 5) refl refl refl refl tt (omega arith) (omega arith)
      (omega arith)

list_newindex-erase_example :
    let t = list_newindex ages 1 (plain nil) start in
    (t.0 ≡ ok nil)
    × (elements_of t.1.world
        ≡ take (1 - 1) (elements_of start.world) ++ drop 1 (elements_of start.world))
    × (list_len ages t.1 ≡ (ok (integer (length (elements_of start.world) - 1)), t.1))
list_newindex-erase_example =
    list_newindex-erase {view = elements_of} {InWrite = InWrite} 9 erase_laws ages 2 1 start refl
      refl tt (omega arith) (omega arith) (omega arith)

dictionary_index-newindex_example :
    let t = dictionary_newindex ages (string (codes "Rex")) (plain (integer 5)) start in
    (t.0 ≡ ok nil)
    × (dictionary_index ages (string (codes "Rex")) t.1 ≡ (ok (plain (integer 5), realm), t.1))
dictionary_index-newindex_example =
    dictionary_index-newindex {view = entries_of} {InWrite = InWrite} 9 dictionary_laws ages 2 0 5
      (codes "Rex") (codes "Rex") (integer 5) (integer 5) start (an_integer 5) (an_integer 5) refl
      refl refl refl tt (inl (refl, refl))

-- Any value but nil and false stands for membership.
five-to_boolean : to_boolean (integer 5) ≡ true
unfolding to_boolean
five-to_boolean = refl

set_index-newindex_example :
    let t = set_newindex ages plain_messages (plain (integer 7)) (integer 5) start in
    let e = set_newindex ages plain_messages (plain (integer 7)) nil t.1 in
    (t.0 ≡ ok nil)
    × (set_index ages (plain (integer 7)) t.1 ≡ (ok (boolean true), t.1))
    × (set_index ages (plain (integer 7)) e.1 ≡ (ok (boolean false), e.1))
set_index-newindex_example =
    set_index-newindex {view = has_member} {InWrite = InWrite} 9 set_laws ages plain_messages 2
      (integer 7) (integer 5) start (an_integer 7) five-to_boolean refl refl tt

-- Two arguments, of which the query gets its number.
results_filter-scalars_example :
    let made = one_list.results_filter 9 2 start.world in
    let filtered = userdata (length start.boxes) in
    results_filter ages (codes "Dog") (string (codes "age > $0")) (integer 3 ∷ integer 4 ∷ []) start
    ≡ (
      ok (record { handle = filtered; realm = with_child filtered realm }),
      record start { boxes = start.boxes ++ handle_box made.0 ∷ []; world = made.1 },
    )
results_filter-scalars_example =
    results_filter-scalars ages 2 0 9 5 4 1 (codes "Dog") (codes "age > $0")
      (integer 3 ∷ integer 4 ∷ []) start.world start.world start (an_integer 3, (an_integer 4, tt))
      refl refl refl refl refl refl
