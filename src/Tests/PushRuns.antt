-- ===== src/Tests/PushRuns.antt =====
-- A run of `_push_schema_info`: a class Cat, and a class Dog with a list of ages.
use realm_lua_bootcamp.Prelude.{◌≡◌, refl, true, false, [], ◌∷◌, some, length, get_elem?}
use realm_lua_bootcamp.Text.{codes, c_string, text_eq}
use realm_lua_bootcamp.Lua.{nil, string, integer, table, userdata, Fields, get_field, ok}
use realm_lua_bootcamp.Schema.Push.{Property, ObjectSchema, push_schema_info}
use realm_lua_bootcamp.Schema.Push.Frame.{AllClasses, key_box}
use realm_lua_bootcamp.Schema.Push.Lookup.{NoProperty, NoClass, push_schema_info-property}
use realm_lua_bootcamp.Native.Convert.RoundTrip.{an_integer}
use realm_lua_bootcamp.Realm.Collections as Collections
use realm_lua_bootcamp.Realm.Objects.{item, object_index, find_class}
use realm_lua_bootcamp.Realm.Objects.Creation.{plain, no_values, entry, is_own, realm_create}
use realm_lua_bootcamp.Realm.Objects.Created.{next_object}
use realm_lua_bootcamp.Realm.Objects.Classes.{AreOthers, find_class-pushed}
use realm_lua_bootcamp.Realm.Objects.Opened.{realm_of, push_schema_info-create}
use realm_lua_bootcamp.Tests.RealmRuns.{plain_messages}
use realm_lua_bootcamp.Tests.World.{
  one_list, no_floats, start, value_under, InWrite, AnyValue, property_laws,
}

abbrev named : Property
named = record {
  name = codes "name";
  column_key = 71;
  type = 2;
  is_collection = false;
  is_array = false;
  is_set = false;
  is_dictionary = false;
  object_type = [];
}

abbrev aged : Property
aged = record {
  name = codes "ages";
  column_key = 72;
  type = 0;
  is_collection = true;
  is_array = true;
  is_set = false;
  is_dictionary = false;
  object_type = [];
}

abbrev cat : ObjectSchema
cat = record {
  name = codes "Cat";
  table_key = 3;
  primary_key = [];
  persisted_properties = named ∷ [];
}

abbrev dog : ObjectSchema
dog = record {
  name = codes "Dog";
  table_key = 4;
  primary_key = codes "name";
  persisted_properties = aged ∷ named ∷ [];
}

kinds : AllClasses (cat ∷ dog ∷ [])
kinds = ((refl, tt), ((refl, (refl, tt)), tt))

no_later : NoProperty (c_string (codes "ages")) (named ∷ [])
unfolding c_string text_eq
no_later = (refl, tt)

push_schema_info-property_example :
    let t = push_schema_info (cat ∷ dog ∷ []) start in
    (classes class properties property : Fields) × (t.0 ≡ ok tt)
    × (t.1.stack ≡ table classes ∷ [])
    × (get_field (c_string (codes "Dog")) classes ≡ table class)
    × (get_field (codes "key") class ≡ integer 4)
    × (get_field (codes "properties") class ≡ table properties)
    × (get_field (c_string (codes "ages")) properties ≡ table property)
    × (get_field (codes "type") property ≡ integer 0)
    × (get_field (codes "key") property ≡ userdata 5)
    × (get_elem? t.1.boxes 5 ≡ some (key_box aged))
push_schema_info-property_example =
    push_schema_info-property (cat ∷ []) dog [] [] aged (named ∷ []) start kinds tt refl no_later

no_later_cat : NoClass (c_string (codes "Cat")) (dog ∷ [])
unfolding c_string text_eq
no_later_cat = (refl, tt)

name_foreign : is_own (c_string (codes "name")) ≡ false
unfolding c_string text_eq
name_foreign = refl

push_schema_info-create_example :
    let t = (push_schema_info (cat ∷ dog ∷ []) start).1 in
    (classes class : Fields) × (t.stack ≡ table classes ∷ [])
    × (let realm = realm_of 0 classes in
        let vs = entry (c_string (codes "name")) (plain (integer 5)) no_values in
        let made = realm_create plain_messages realm (c_string (codes "Cat")) (some vs) nil t in
        let object = next_object realm class (length t.boxes) in
        (made.0 ≡ ok object)
        × (object_index plain_messages object (c_string (codes "name")) made.1
            ≡ (ok (item (Collections.plain (integer 5), object.realm)), made.1)))
push_schema_info-create_example =
    push_schema_info-create {view = value_under} {InWrite = InWrite} {Fits = AnyValue} 6
      property_laws plain_messages [] cat (dog ∷ []) [] named [] 0 5 (integer 5) start kinds
      no_later_cat refl tt refl refl name_foreign (an_integer 5) refl refl tt tt

dog_other : AreOthers (c_string (codes "Dog")) 4 (cat ∷ [])
unfolding c_string text_eq
dog_other = ((refl, refl), tt)

find_class-pushed_example :
    (classes class : Fields) × ((push_schema_info (cat ∷ dog ∷ []) start).1.stack
      ≡ table classes ∷ [])
    × (find_class plain_messages classes (integer 4) start ≡ (ok (table class), start))
    × (get_field (codes "name") class ≡ string (c_string (codes "Dog")))
find_class-pushed_example =
    find_class-pushed plain_messages (cat ∷ []) dog [] start start kinds dog_other tt
