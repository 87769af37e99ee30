-- ===== src/Schema/Parse/Encoded.antt =====
-- What `_parse_schema` reads from a schema that is written as the README says.
use mathlib.Core.Option
use realm_lua_bootcamp.Prelude.{
  suc, arith, drop, ℕ, ◌+◌, ◌≡◌, refl, ap, List, [], ◌∷◌, ◌++◌, Option, none, some, length,
  if◌then◌else◌, map, length-map,
}
use realm_lua_bootcamp.Text.{Bytes, codes, c_string, text_eq}
use realm_lua_bootcamp.Text.Laws.{NoZero, c_string_whole}
use realm_lua_bootcamp.Lua.{
  Value, nil, string, table, Fields, end, field, get_field, get_index, raw_len, State, ok, on,
  Conversions, call, value_at-append, is_nil, to_text, pop, ◌>>◌,
}
use realm_lua_bootcamp.Schema.Types.{PropertyInfo, normal, primary}
use realm_lua_bootcamp.Schema.Property.Notation.{TypeNotation, IsBase, base_text, text_of, meaning}
use realm_lua_bootcamp.Schema.Property.Reading.{parse_property_type-text_of}
use realm_lua_bootcamp.Schema.Parse.{
  parse_property, parse_class_entries, parse_class_table, parse_properties, parse_class,
  parse_classes, parse_schema, Class, fresh_property,
}

abbrev pub notation_text : TypeNotation → Bytes
notation_text t = text_of (base_text t.base) t.nullable t.form

-- A class as its author declares it.
pub record ClassDefinition : Type 0 where
  pub name : Bytes
  pub primary_key : Option Bytes
  pub properties : List (Bytes × TypeNotation)

abbrev pub encode_properties : List (Bytes × TypeNotation) → Fields
encode_properties [] = end
encode_properties ((n, t) ∷ ps) = field (string n) (string (notation_text t)) (encode_properties ps)

abbrev pub IsProperty : Bytes × TypeNotation → Type 0
IsProperty (n, t) = NoZero n × IsBase t.base × NoZero (notation_text t)

abbrev pub AllProperties : List (Bytes × TypeNotation) → Type 0
AllProperties [] = Unit {0}
AllProperties (p ∷ ps) = IsProperty p × AllProperties ps

-- A missing primary key is read as the empty text.
abbrev pub key_text : Option Bytes → Bytes
key_text none = codes ""
key_text (some k) = k

abbrev pub key_value : Option Bytes → Value
key_value none = nil
key_value (some k) = string k

-- `fs` is a Lua table for the class `c`.
pub record Encodes (c : ClassDefinition) (fs : Fields) : Type 0 where
  pub at_name : get_field (codes "name") fs ≡ string c.name
  pub at_key : get_field (codes "primaryKey") fs ≡ key_value c.primary_key
  pub at_properties : get_field (codes "properties") fs ≡ table (encode_properties c.properties)
  pub name_text : NoZero c.name
  pub key_no_zero : NoZero (key_text c.primary_key)
  pub all_properties : AllProperties c.properties

-- The property that realm-core is to be given.
abbrev pub property_of : Bytes → Bytes × TypeNotation → PropertyInfo
property_of pk (n, t) = meaning t (fresh_property n (if text_eq n pk then primary else normal))

abbrev pub class_of : ClassDefinition → Class
class_of c = (
  record {
    name = some c.name;
    primary_key = some (key_text c.primary_key);
    num_properties = length c.properties;
  },
  map (property_of (key_text c.primary_key)) c.properties,
)

read_key :
    ⦃cv : Conversions⦄ (k : Option Bytes)
    → NoZero (key_text k)
    → (if is_nil (key_value k)
        then some (codes "")
        else Option.map c_string (to_text (key_value k)))
      ≡ some (key_text k)
unfolding to_text
read_key none h = refl
read_key (some k) h = ap some (c_string_whole k h)

module _ {W : Type 0} ⦃cv : Conversions⦄ where
  parse_property-encoded :
      (pk : Bytes) (n : Bytes) (t : TypeNotation) (s : State W) (below : List Value)
      → IsProperty (n, t)
      → parse_property (some pk) (on s (string (notation_text t) ∷ string n ∷ below))
        ≡ (ok (property_of pk (n, t)), on s (string n ∷ below))
  unfolding parse_property
  parse_property-encoded pk n t s below h = rw (
    c_string_whole n h.0,
    c_string_whole (notation_text t) h.2,
    parse_property_type-text_of t (fresh_property n (if text_eq n pk then primary else normal)) _
        h.1,
  )

  parse_properties-encoded :
      (pk : Bytes) (ps : List (Bytes × TypeNotation)) (s : State W) (k : Value) (below : List Value)
      → AllProperties ps
      → parse_properties (some pk) (encode_properties ps) (on s (k ∷ below))
        ≡ (ok (map (property_of pk) ps), on s below)
  unfolding parse_properties
  parse_properties-encoded pk [] s k below h = refl
  parse_properties-encoded pk ((n, t) ∷ ps) s k below h = rw (
    parse_property-encoded pk n t s below h.0,
    parse_properties-encoded pk ps s (string n) below h.1,
  )

  parse_class_entries-encoded :
      (c : ClassDefinition) (s : State W) (below : List Value)
      → AllProperties c.properties
      → parse_class_entries
          (some c.name)
          (some (key_text c.primary_key))
          (on s (table (encode_properties c.properties) ∷ below))
        ≡ (ok (class_of c), on s below)
  unfolding parse_class_entries
  parse_class_entries-encoded c s below h = rw (
    parse_properties-encoded (key_text c.primary_key) c.properties s nil _ h,
    length-map c.properties (property_of (key_text c.primary_key)),
  )

  parse_class_table-encoded :
      (c : ClassDefinition) (fs : Fields) (s : State W) (below : List Value)
      → Encodes c fs
      → parse_class_table (on s (table fs ∷ below)) ≡ (ok (class_of c), on s (table fs ∷ below))
  unfolding parse_class_table
  parse_class_table-encoded c fs s below e =
      rw
        (
          e.at_name,
          e.at_key,
          e.at_properties,
          read_key c.primary_key e.key_no_zero,
          c_string_whole c.name e.name_text,
        )
        (parse_class_entries-encoded c s (table fs ∷ below) e.all_properties)

-- Classes from index `i` on in the table of the schema.
abbrev pub EncodesFrom : ℕ → List ClassDefinition → Fields → Type 0
EncodesFrom i [] fs = Unit {0}
EncodesFrom i (c ∷ cs) fs =
    (cf : Fields) × (get_index i fs ≡ table cf) × Encodes c cf × EncodesFrom (i + 1) cs fs

module _ {W : Type 0} ⦃cv : Conversions⦄ (fs : Fields) (below : List Value) where
  parse_class-encoded :
      (c : ClassDefinition) (cf : Fields) (i : ℕ) (us : List Value) (s : State W)
      → get_index i fs ≡ table cf
      → Encodes c cf
      → parse_class (length (table fs ∷ below)) i (on s (us ++ table fs ∷ below))
        ≡ (ok (class_of c), on s (table cf ∷ us ++ table fs ∷ below))
  unfolding parse_class
  parse_class-encoded c cf i us s at e =
      rw (value_at-append us (table fs) below, at)
        (parse_class_table-encoded c cf s (us ++ table fs ∷ below) e)

  parse_classes-encoded :
      (cs : List ClassDefinition) (i : ℕ) (us : List Value) (s : State W)
      → EncodesFrom i cs fs
      → (vs : List Value) × (length vs ≡ length us + length cs)
        × (parse_classes (length (table fs ∷ below)) i (length cs) (on s (us ++ table fs ∷ below))
            ≡ (ok (map class_of cs), on s (vs ++ table fs ∷ below)))
  unfolding parse_classes
  parse_classes-encoded [] i us s h = (us, omega arith, refl)
  parse_classes-encoded (c ∷ cs) i us s h =
      let rest = parse_classes-encoded cs (i + 1) (table h.0 ∷ us) s h.3 in
      (rest.0, omega (arith, rest.1), rw (parse_class-encoded c h.0 i us s h.1 h.2, rest.2))

popped-one :
    {W : Type 0} (f : W → ℕ × W) (s : State W) (n : ℕ) (vs rest : List Value)
    → length vs ≡ suc n
    → (pop 1 >> call f) (on s (vs ++ rest))
      ≡ (ok (f s.world).0, record s { stack = drop 1 vs ++ rest; world = (f s.world).1 })
popped-one f s n [] rest h = absurd (omega arith)
popped-one f s n (v ∷ vs) rest h = refl

-- A schema of some classes leaves the tables of all but one on the stack.
pub parse_schema-some :
    {W : Type 0} ⦃cv : Conversions⦄ (realm_schema_new : List Class → W → ℕ × W)
    (c : ClassDefinition) (cs : List ClassDefinition) (fs : Fields) (s : State W)
    (below : List Value)
    → raw_len (table fs) ≡ length (c ∷ cs)
    → EncodesFrom 1 (c ∷ cs) fs
    → let new = realm_schema_new (map class_of (c ∷ cs)) s.world in
      (vs : List Value) × (parse_schema realm_schema_new (on s (table fs ∷ below))
        ≡ (ok new.0, record s { stack = vs ++ table fs ∷ below; world = new.1 }))
unfolding parse_schema
parse_schema-some realm_schema_new c cs fs s below size h =
    let all = parse_classes-encoded fs below (c ∷ cs) 1 [] s h in
    (
      drop 1 all.0,
      rw (
        size,
        all.2,
        popped-one (realm_schema_new (map class_of (c ∷ cs))) s (length cs) all.0 (table fs ∷ below)
            (omega (arith, all.1)),
      ),
    )

popped-world :
    {W : Type 0} (f : W → ℕ × W) (s : State W) (vs : List Value) (v : Value) (below : List Value)
    → let t = (pop 1 >> call f) (on s (vs ++ v ∷ below)) in
      (t.0 ≡ ok (f s.world).0) × (t.1.world ≡ (f s.world).1)
popped-world f s [] v below = (refl, refl)
popped-world f s (u ∷ vs) v below = (refl, refl)

-- A table that holds the tables of the classes `cs`, each with its name, its primary key or none
-- and its properties in the notation, is read as these classes: `realm_schema_new` is called once,
-- with the classes in their order, each property named and typed as the notation means and marked
-- if it is the primary key, and with the number of the properties.
pub parse_schema-encoded :
    {W : Type 0} ⦃cv : Conversions⦄ (realm_schema_new : List Class → W → ℕ × W)
    (cs : List ClassDefinition) (fs : Fields) (s : State W) (below : List Value)
    → raw_len (table fs) ≡ length cs
    → EncodesFrom 1 cs fs
    → let t = parse_schema realm_schema_new (on s (table fs ∷ below)) in
      let new = realm_schema_new (map class_of cs) s.world in (t.0 ≡ ok new.0) × (t.1.world ≡ new.1)
unfolding parse_schema
parse_schema-encoded realm_schema_new cs fs s below size h =
    let all = parse_classes-encoded fs below cs 1 [] s h in
    rw (size, all.2) (popped-world (realm_schema_new (map class_of cs)) s all.0 (table fs) below)
