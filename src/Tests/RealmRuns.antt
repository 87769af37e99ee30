-- ===== src/Tests/RealmRuns.antt =====
-- A realm whose callbacks append an element, and closing it with two child handles.
use realm_lua_bootcamp.Prelude.{◌≡◌, ◌++◌, refl, Bool, false, List, [], ◌∷◌, none, some, arith}
use realm_lua_bootcamp.Text.{codes}
use realm_lua_bootcamp.Lua.{Value, nil, userdata, raised, ok, Exec}
use realm_lua_bootcamp.Native.Api.{RealmApi, RealmValue}
use realm_lua_bootcamp.Realm.{LuaRealm, Messages, realm_write, realm_close}
use realm_lua_bootcamp.Realm.Atomic.{TransactionLaws, IsWritten, realm_write-IsWritten}
use realm_lua_bootcamp.Realm.Refused.{last_error, commit_refused, realm_write-refused}
use realm_lua_bootcamp.Realm.Close.{Held, HoldAll, nulled, release_all, realm_close-releases}
use realm_lua_bootcamp.Tests.World.{World, one_list, elements_of, start}

abbrev is_writing : World → Bool
is_writing w = w.writing

abbrev saved_of : World → List RealmValue
saved_of w = w.saved

abbrev transaction_laws : TransactionLaws one_list 5 elements_of saved_of is_writing
transaction_laws = record {
  begin_ok = λ w h. refl;
  begin_saves = λ w h. refl;
  begin_contents = λ w h. refl;
  commit_contents = λ w h k. refl;
  commit_ends = λ w h k. refl;
  rollback_ok = λ w h. refl;
  rollback_contents = λ w h. refl;
  rollback_ends = λ w h. refl;
}

abbrev pub plain_messages : Messages World
plain_messages = record { traceback = λ m w. m; position = λ file line. file }

abbrev pub realm : LuaRealm
realm = record {
  handle = userdata 0;
  schema = nil;
  child_handles = some (userdata 1) ∷ some (userdata 2) ∷ none ∷ some (userdata 3) ∷ [];
}

-- It appends an element, and then fails.
abbrev failing : Exec World Value
failing s = (
  raised (codes "no"),
  record s { world = record s.world { elements = s.world.elements ++ RealmValue.int 30 ∷ [] } },
)

realm_write-IsWritten_example :
    let begun = (one_list.begin_write 5 start.world).1 in
    let r = failing (record start { stack = []; world = begun }) in
    IsWritten 5 transaction_laws plain_messages start r.0 r.1
      (realm_write plain_messages realm failing start)
realm_write-IsWritten_example =
    realm_write-IsWritten 5 transaction_laws plain_messages realm 0 failing start refl refl refl
      refl refl refl refl

abbrev children : List Held
children = (1, 7) ∷ (2, 9) ∷ []

realm_close-releases_example :
    let once = realm_close realm start in
    let twice = realm_close realm once.1 in
    (once.0 ≡ ok tt)
    × (once.1.world ≡ one_list.release 5 (release_all children start.world))
    × HoldAll once.1.boxes (nulled ((0, 5) ∷ children))
    × (twice.0 ≡ ok tt)
    × (twice.1.world ≡ one_list.release 0 (release_all (nulled children) once.1.world))
realm_close-releases_example =
    realm_close-releases realm 0 5 children (some (some (userdata 3) ∷ [])) start refl refl
      (ground arith) (refl, (refl, (refl, tt)))

-- A realm that cannot commit, after a callback that returned.
abbrev full_disk : RealmApi World
full_disk = record one_list { commit = λ p w. (false, w) }

abbrev appending : Exec World Value
appending s = (
  ok nil,
  record s { world = record s.world { elements = s.world.elements ++ RealmValue.int 30 ∷ [] } },
)

realm_write-refused_example :
    let begun = (one_list.begin_write 5 start.world).1 in
    let r = appending (record start { stack = []; world = begun }) in
    realm_write ⦃api = full_disk⦄ plain_messages realm appending start
    ≡ (raised (last_error ⦃api = full_disk⦄ r.1.world), record r.1 { stack = start.stack })
realm_write-refused_example =
    let begun = (one_list.begin_write 5 start.world).1 in
    let r = appending (record start { stack = []; world = begun }) in
    realm_write-refused ⦃api = full_disk⦄ plain_messages realm 0 5 appending start r.1 r.1.world
      refl refl (commit_refused nil r.1 refl refl refl) refl
