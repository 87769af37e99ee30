-- ===== src/Tests/SchemaRuns.antt =====
-- Runs over schemas: a class Dog with a name and the nullable ages of its friends.
use realm_lua_bootcamp.Prelude.{ℕ, ◌≡◌, ◌++◌, refl, true, false, List, [], ◌∷◌, some, length, arith}
use realm_lua_bootcamp.Text.{codes, text_eq}
use realm_lua_bootcamp.Lua.{
  Value, string, integer, table, Fields, end, field, get_field, get_index, raw_len, rest_after, ok,
  on,
}
use realm_lua_bootcamp.Schema.Types.{PropertyInfo, normal}
use realm_lua_bootcamp.Schema.Property.{parse_property_type}
use realm_lua_bootcamp.Schema.Property.Notation.{
  TypeNotation, Primitive, primitive, plain, list, text_of, meaning, int,
}
use realm_lua_bootcamp.Schema.Property.Reading.{parse_property_type-text_of}
use realm_lua_bootcamp.Schema.Parse.{Class, parse_schema, fresh_property}
use realm_lua_bootcamp.Schema.Parse.Stack.{parse_schema-stack}
use realm_lua_bootcamp.Schema.Parse.Encoded.{
  ClassDefinition, Encodes, class_of, encode_properties, parse_schema-encoded,
}
use realm_lua_bootcamp.Tests.World.{World, no_floats, start}

abbrev ages : PropertyInfo
ages = fresh_property (codes "ages") normal

abbrev nullable_ints : TypeNotation
nullable_ints = record { base = primitive int; nullable = true; form = list }

abbrev text : TypeNotation
text = record { base = primitive Primitive.string; nullable = false; form = plain }

parse_property_type-text_of_example :
    parse_property_type ages (text_of (codes "int") true list) start
    ≡ (ok (meaning nullable_ints ages), start)
parse_property_type-text_of_example = parse_property_type-text_of nullable_ints ages start tt

abbrev pub dog : ClassDefinition
dog = record {
  name = codes "Dog";
  primary_key = some (codes "name");
  properties = (codes "name", text) ∷ (codes "ages", nullable_ints) ∷ [];
}

abbrev pub dog_fields : Fields
dog_fields = field (string (codes "name")) (string (codes "Dog")) (
    field (string (codes "primaryKey")) (string (codes "name"))
      (field (string (codes "properties")) (table (encode_properties dog.properties)) end))

abbrev pub schema : Fields
schema = field (integer 1) (table dog_fields) end

abbrev pub schema_new : List Class → World → ℕ × World
schema_new classes w = (11, record w { released = length classes ∷ w.released })

pub dog-Encodes : Encodes dog dog_fields
unfolding get_field text_eq
dog-Encodes = record {
  at_name = refl;
  at_key = refl;
  at_properties = refl;
  name_text = ground arith;
  key_no_zero = ground arith;
  all_properties = ground arith;
}

pub schema-raw_len : raw_len (table schema) ≡ 1
unfolding raw_len get_index
schema-raw_len = refl

pub schema-get_index : get_index 1 schema ≡ table dog_fields
unfolding get_index
schema-get_index = refl

schema-parsed :
    ((parse_schema schema_new (on start (table schema ∷ []))).0 ≡ ok 11)
    × ((parse_schema schema_new (on start (table schema ∷ []))).1.world
        ≡ (schema_new (class_of dog ∷ []) start.world).1)
schema-parsed =
    parse_schema-encoded schema_new (dog ∷ []) schema start [] schema-raw_len
      (dog_fields, schema-get_index, dog-Encodes, tt)

parse_schema-encoded_example :
    ((parse_schema schema_new (on start (table schema ∷ []))).0 ≡ ok 11)
    × ((parse_schema schema_new (on start (table schema ∷ []))).1.world
        ≡ (schema_new (class_of dog ∷ []) start.world).1)
parse_schema-encoded_example =
    parse_schema-encoded schema_new (dog ∷ []) schema start [] schema-raw_len
      (dog_fields, schema-get_index, dog-Encodes, tt)

parse_schema-stack_example :
    let t = (parse_schema schema_new (on start (table schema ∷ []))).1 in
    (vs : List Value) × (length vs ≡ raw_len (table schema))
    × (rest_after 1 (vs ++ table schema ∷ []) ≡ some t.stack)
    × (t.boxes ≡ start.boxes)
    × (t.refs ≡ start.refs)
parse_schema-stack_example =
    parse_schema-stack schema_new start (table schema) [] 11 schema-parsed.0
