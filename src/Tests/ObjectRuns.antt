-- ===== src/Tests/ObjectRuns.antt =====
-- Objects of a class with two properties, `name` and `age`.
use realm_lua_bootcamp.Prelude.{◌≡◌, refl, [], ◌∷◌, ◌++◌, inl, inr, none, some, arith}
use realm_lua_bootcamp.Text.{codes, text_eq}
use realm_lua_bootcamp.Lua.{
  nil, realm_handle, string, integer, table, userdata, Fields, end, field, ok, get_field, WhenOk,
  State,
}
use realm_lua_bootcamp.Native.Convert.RoundTrip.{an_integer, a_string}
use realm_lua_bootcamp.Native.Convert.{push_handle, lua_to_realm_value}
use realm_lua_bootcamp.Native.Objects.{lib_realm_object_create, lib_realm_set_value}
use realm_lua_bootcamp.Realm.{LuaRealm}
use realm_lua_bootcamp.Realm.Collections as Collections
use realm_lua_bootcamp.Realm.Objects.{LuaObject, item, object_index, find_class}
use realm_lua_bootcamp.Realm.Objects.Creation.{
  plain, object, values, Values, no_values, entry, value_of_name, object_newindex, realm_create,
}
use realm_lua_bootcamp.Native.Api.{link}
use realm_lua_bootcamp.Native.Convert.Handles.{handle_box}
use realm_lua_bootcamp.Realm.Objects.References.{object_index-newindex_object}
use realm_lua_bootcamp.Realm.Collections.{object_of_handle}
use realm_lua_bootcamp.Realm.Objects.Properties.{HasProperty, object_index-newindex}
use realm_lua_bootcamp.Realm.Objects.Initial.{Assigns, nothing, skips, assigns}
use realm_lua_bootcamp.Realm.Objects.Created.{next_object, realm_create-values}
use realm_lua_bootcamp.Realm.Objects.Keyed.{realm_create-keyed}
use realm_lua_bootcamp.Realm.Objects.Children.{Tracks, Keeps}
use realm_lua_bootcamp.Realm.Objects.Tracked.{realm_create-Tracks}
use realm_lua_bootcamp.Tests.World.{
  World, one_list, no_floats, start, value_under, InWrite, AnyValue, property_laws, keyed_laws,
}
use realm_lua_bootcamp.Tests.RealmRuns.{plain_messages}

abbrev age : Fields
age = field (string (codes "key")) (userdata 3) end

abbrev name : Fields
name = field (string (codes "key")) (userdata 1) end

abbrev owner : Fields
owner =
    field (string (codes "objectType")) (string (codes "Dog"))
      (field (string (codes "key")) (userdata 1) end)

abbrev properties : Fields
properties =
    field (string (codes "age")) (table age) (
      field (string (codes "name")) (table name) (field (string (codes "owner")) (table owner) end))

abbrev dog : Fields
dog =
    field (string (codes "properties")) (table properties)
      (field (string (codes "key")) (integer 4) end)

abbrev cat : Fields
cat = field (string (codes "primaryKey")) (string (codes "name")) dog

abbrev schema : Fields
schema = field (string (codes "Dog")) (table dog) (field (string (codes "Cat")) (table cat) end)

abbrev kennel : LuaRealm
kennel = record { handle = userdata 0; schema = table schema; child_handles = [] }

abbrev rex : LuaObject
rex = record { handle = userdata 1; realm = kennel; class = table dog }

age-HasProperty : HasProperty (table dog) (table schema) start.boxes (codes "age") 2
unfolding get_field
age-HasProperty = record {
  class = dog;
  properties = properties;
  info = age;
  schema = schema;
  key = 3;
  key_meta = realm_handle;
  is_class = refl;
  has_properties = refl;
  has_info = refl;
  no_collection = refl;
  has_key = refl;
  is_key = refl;
  has_schema = refl;
}

age_of_cat : HasProperty (table cat) (table schema) start.boxes (codes "age") 2
unfolding get_field
age_of_cat = record {
  class = cat;
  properties = properties;
  info = age;
  schema = schema;
  key = 3;
  key_meta = realm_handle;
  is_class = refl;
  has_properties = refl;
  has_info = refl;
  no_collection = refl;
  has_key = refl;
  is_key = refl;
  has_schema = refl;
}

name_of_cat : HasProperty (table cat) (table schema) start.boxes (codes "name") 7
unfolding get_field
name_of_cat = record {
  class = cat;
  properties = properties;
  info = name;
  schema = schema;
  key = 1;
  key_meta = realm_handle;
  is_class = refl;
  has_properties = refl;
  has_info = refl;
  no_collection = refl;
  has_key = refl;
  is_key = refl;
  has_schema = refl;
}

object_index-newindex_example :
    let t = object_newindex plain_messages (plain (integer 5)) rex (codes "age") start in
    (t.0 ≡ ok kennel)
    × (object_index plain_messages rex (codes "age") t.1
        ≡ (ok (item (Collections.plain (integer 5), kennel)), t.1))
object_index-newindex_example =
    object_index-newindex {view = value_under} {InWrite = InWrite} {Fits = AnyValue} 7 property_laws
      plain_messages rex (codes "age") (codes "age") 2 2 0 5 1 (integer 5) (integer 5) start
      (an_integer 5) (an_integer 5) refl refl refl refl age-HasProperty age-HasProperty tt tt
      (inl (refl, refl))

abbrev one_year : Values
one_year = entry (codes "age") (plain (integer 5)) no_values

abbrev tom : Values
tom = entry (codes "name") (plain (string (codes "Tom"))) one_year

one_year-Assigns :
    Assigns (table dog) (table schema) start.boxes none one_year ((2, integer 5) ∷ [])
unfolding text_eq
one_year-Assigns =
    assigns (codes "age") (integer 5) no_values 2 [] (an_integer 5) refl refl age-HasProperty
      nothing

tom-Assigns :
    Assigns
      (table cat)
      (table schema)
      start.boxes
      (some (string (codes "name")))
      tom
      ((2, integer 5) ∷ [])
unfolding text_eq
tom-Assigns =
    skips (codes "name") (plain (string (codes "Tom"))) one_year ((2, integer 5) ∷ []) refl
      (assigns (codes "age") (integer 5) no_values 2 [] (an_integer 5) refl refl age_of_cat nothing)

dog_in_schema : get_field (codes "Dog") schema ≡ table dog
unfolding get_field
dog_in_schema = refl

cat_in_schema : get_field (codes "Cat") schema ≡ table cat
unfolding get_field
cat_in_schema = refl

dog_key : (get_field (codes "primaryKey") dog ≡ nil) × (get_field (codes "key") dog ≡ integer 4)
unfolding get_field
dog_key = (refl, refl)

cat_key :
    (get_field (codes "primaryKey") cat ≡ string (codes "name"))
    × (get_field (codes "key") cat ≡ integer 4)
unfolding get_field
cat_key = (refl, refl)

name_of_tom : value_of_name (codes "name") tom ≡ plain (string (codes "Tom"))
unfolding value_of_name
name_of_tom = refl

realm_create-values_example :
    let t = realm_create plain_messages kennel (codes "Dog") (some one_year) nil start in
    let o = next_object kennel dog 4 in
    (t.0 ≡ ok o)
    × (object_index plain_messages o (codes "age") t.1
        ≡ (ok (item (Collections.plain (integer 5), o.realm)), t.1))
realm_create-values_example =
    realm_create-values {view = value_under} {InWrite = InWrite} {Fits = AnyValue} 6 property_laws
      plain_messages kennel (codes "Dog") schema dog 0 5 4 one_year ((2, integer 5) ∷ [])
      (codes "age") 2 (integer 5) start refl refl refl dog_in_schema dog_key.0 dog_key.1 refl tt
      one_year-Assigns (tt, tt) (tt, tt) age-HasProperty (an_integer 5) (inl (refl, refl))

realm_create-keyed_example :
    let t = realm_create plain_messages kennel (codes "Cat") (some tom) nil start in
    let o = next_object kennel cat 4 in
    (t.0 ≡ ok o)
    × (object_index plain_messages o (codes "name") t.1
        ≡ (ok (item (Collections.plain (string (codes "Tom")), o.realm)), t.1))
    × (object_index plain_messages o (codes "age") t.1
        ≡ (ok (item (Collections.plain (integer 5), o.realm)), t.1))
realm_create-keyed_example =
    realm_create-keyed {view = value_under} {InWrite = InWrite} {Fits = AnyValue} 6 property_laws
      plain_messages kennel (codes "Cat") schema cat 0 5 4 110 (97 ∷ 109 ∷ 101 ∷ []) 7
      (string (codes "Tom")) tom ((2, integer 5) ∷ []) (codes "age") 2 (integer 5) start keyed_laws
      refl refl refl cat_in_schema cat_key.0 cat_key.1 name_of_cat name_of_tom
      (a_string (codes "Tom") (ground arith)) refl tt tom-Assigns (tt, tt)
      (((λ e. absurd (ground (arith, e))), tt), (tt, tt)) age_of_cat (an_integer 5)
      (inr (inl (refl, refl)))

-- The second object is the value of the first one's property.
abbrev nested : Values
nested = entry (codes "owner") (values one_year) one_year

nested_children :
    (realm_create plain_messages kennel (codes "Dog") (some nested) nil start).0
    ≡ ok (record {
      handle = userdata 4;
      realm = record kennel { child_handles = some (userdata 4) ∷ some (userdata 5) ∷ [] };
      class = table dog;
    })
unfolding realm_create lib_realm_object_create push_handle lib_realm_set_value lua_to_realm_value
nested_children = refl

realm_create-Tracks_example :
    WhenOk
      (λ o t. Tracks 4 o.realm t × Keeps kennel o.realm)
      (realm_create plain_messages kennel (codes "Dog") (some nested) nil start)
realm_create-Tracks_example =
    realm_create-Tracks plain_messages 4 kennel (codes "Dog") (some nested) start
      (λ u from below. absurd (omega (arith, from, below)))

owner-HasProperty : HasProperty (table dog) (table schema) start.boxes (codes "owner") 7
unfolding get_field
owner-HasProperty = record {
  class = dog;
  properties = properties;
  info = owner;
  schema = schema;
  key = 1;
  key_meta = realm_handle;
  is_class = refl;
  has_properties = refl;
  has_info = refl;
  no_collection = refl;
  has_key = refl;
  is_key = refl;
  has_schema = refl;
}

dog_known : (s : State World) → find_class plain_messages schema (integer 4) s ≡ (ok (table dog), s)
unfolding find_class
dog_known s = refl

object_index-newindex_object_example :
    let after =
      (one_list.set_value 7 7 (link (record { target_table = 4; target = 7 })) start.world).1 in
    let written = object_newindex plain_messages (object (userdata 1)) rex (codes "owner") start in
    (written.0 ≡ ok kennel)
    × (object_index plain_messages rex (codes "owner") written.1 ≡ (
      ok (item (object_of_handle (userdata 4) kennel)),
      record start { boxes = start.boxes ++ handle_box 7 ∷ []; world = after },
    ))
object_index-newindex_object_example =
    object_index-newindex_object {view = value_under} {InWrite = InWrite} {Fits = AnyValue} 7
      property_laws plain_messages rex (codes "owner") schema dog start 0 5 1 7 1 7 4 7 start.world
      refl refl refl refl refl refl owner-HasProperty refl tt tt dog_known
