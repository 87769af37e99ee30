-- ===== src/Realm/Objects/Described.antt =====
-- The schema that a realm is opened with, as object.lua reads it.
use realm_lua_bootcamp.Prelude.{
  ℕ, ◌+◌, ◌≡◌, refl, false, List, ◌∷◌, ◌++◌, length, if◌then◌else◌, ltb, arith,
}
use realm_lua_bootcamp.Text.{codes, c_string, text_eq}
use realm_lua_bootcamp.Lua.{
  Value, nil, integer, string, table, Fields, end, get_field, set_field, State, ok, plain,
}
use realm_lua_bootcamp.Schema.Push.{Property, ObjectSchema, push_schema_info}
use realm_lua_bootcamp.Schema.Push.Frame.{
  AllClasses, all_key_boxes, property_fields, properties_fields, class_fields, schema_fields,
  push_schema_info-fields,
}
use realm_lua_bootcamp.Schema.Push.Lookup.{
  NoProperty, NoClass, get_field-classes, get_field-class_key, get_field-class_properties,
  get_field-properties, get_field-property_key, get_elem?-key,
}
use realm_lua_bootcamp.Realm.Objects.Properties.{HasProperty}

get_field-collection_type :
    (u : ℕ) (p : Property)
    → p.is_collection ≡ false
    → get_field (codes "collectionType") (property_fields u p) ≡ nil
unfolding get_field set_field text_eq
get_field-collection_type u p h = ground arith

-- The primary key that a class's table names.
abbrev pub key_name : ObjectSchema → Value
key_name c = if ltb 0 (length c.primary_key) then string (c_string c.primary_key) else nil

get_field-primary_key :
    (u : ℕ) (c : ObjectSchema) → get_field (codes "primaryKey") (class_fields u c) ≡ key_name c
unfolding get_field set_field text_eq
get_field-primary_key u c = ground arith

-- What `_push_schema_info` pushes for a realm is what object.lua reads: in the table of classes each class
-- is found by its name, with its key and, if it has one, its primary key; and a property that is no
-- collection is one that `HasProperty` describes, with the key that realm-core has
-- for it. No later class, and no later property of the class, has the same name.
pub push_schema_info-HasProperty :
    {W : Type 0} (before : List ObjectSchema) (c : ObjectSchema) (after : List ObjectSchema)
    (left : List Property) (p : Property) (right : List Property) (s : State W)
    → AllClasses (before ++ c ∷ after)
    → NoClass (c_string c.name) after
    → c.persisted_properties ≡ left ++ p ∷ right
    → NoProperty (c_string p.name) right
    → p.is_collection ≡ false
    → let t = push_schema_info (before ++ c ∷ after) s in
      (classes class : Fields) × (t.0 ≡ ok tt)
      × (t.1.stack ≡ table classes ∷ s.stack)
      × (get_field (c_string c.name) classes ≡ table class)
      × (get_field (codes "key") class ≡ integer c.table_key)
      × (get_field (codes "primaryKey") class ≡ key_name c)
      × HasProperty (table class) (table classes) t.1.boxes (c_string p.name) p.column_key
push_schema_info-HasProperty before c after left p right s kinds last_class split last_property
      single =
    let n = length s.boxes + length (all_key_boxes before) in
    let u = n + length left in
    let classes = schema_fields (length s.boxes) (before ++ c ∷ after) end in
    let found : get_field (c_string p.name) (properties_fields n c.persisted_properties end)
        ≡ table (property_fields u p) =
      rw split (get_field-properties n left p right end last_property) in
    rw (push_schema_info-fields (before ++ c ∷ after) s kinds) (
      classes,
      class_fields n c,
      refl,
      refl,
      get_field-classes (length s.boxes) before c after end last_class,
      get_field-class_key n c,
      get_field-primary_key n c,
      record {
        class = class_fields n c;
        properties = properties_fields n c.persisted_properties end;
        info = property_fields u p;
        schema = classes;
        key = u;
        key_meta = plain;
        is_class = refl;
        has_properties = get_field-class_properties n c;
        has_info = found;
        no_collection = get_field-collection_type u p single;
        has_key = get_field-property_key u p;
        is_key = get_elem?-key s.boxes before c after left p right split;
        has_schema = refl;
      },
    )
