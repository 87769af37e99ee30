-- ===== src/Schema/Push/Lookup.antt =====
-- Where lib/realm/classes.lua finds a property's information in what `_push_schema_info` pushes.
use realm_lua_bootcamp.Prelude.{
  ℕ, ◌+◌, ◌≡◌, refl, ap, sym, ◌∙◌, false, List, [], ◌∷◌, ◌++◌, append_assoc, some, arith, length,
  get_elem?, get_elem?-append, length-append, length-map,
}
use realm_lua_bootcamp.Text.{Bytes, codes, c_string, text_eq, text_eq_refl}
use realm_lua_bootcamp.Lua.{
  integer, table, userdata, Fields, end, get_field, set_field, get_field-set_field, State, Box, ok,
}
use realm_lua_bootcamp.Schema.Push.{Property, ObjectSchema, push_schema_info}
use realm_lua_bootcamp.Schema.Push.Frame.{
  AllClasses, key_box, key_boxes, all_key_boxes, property_fields, properties_fields, class_fields,
  schema_fields, push_schema_info-fields,
}

-- None of these has the name `k`.
abbrev pub NoProperty : Bytes → List Property → Type 0
NoProperty k [] = Unit {0}
NoProperty k (p ∷ ps) = (text_eq (c_string p.name) k ≡ false) × NoProperty k ps

abbrev pub NoClass : Bytes → List ObjectSchema → Type 0
NoClass k [] = Unit {0}
NoClass k (c ∷ cs) = (text_eq (c_string c.name) k ≡ false) × NoClass k cs

get_field-properties_other :
    (k : Bytes) (u : ℕ) (ps : List Property) (fs : Fields)
    → NoProperty k ps
    → get_field k (properties_fields u ps fs) ≡ get_field k fs
get_field-properties_other k u [] fs h = refl
get_field-properties_other k u (p ∷ ps) fs h = rw (
  get_field-properties_other k (u + 1) ps
      (set_field (c_string p.name) (table (property_fields u p)) fs) h.1,
  get_field-set_field k (c_string p.name) (table (property_fields u p)) fs,
  h.0,
)

-- The last property of a name is found under it.
pub get_field-properties :
    (u : ℕ) (before : List Property) (p : Property) (after : List Property) (fs : Fields)
    → NoProperty (c_string p.name) after
    → get_field (c_string p.name) (properties_fields u (before ++ p ∷ after) fs)
      ≡ table (property_fields (u + length before) p)
get_field-properties u [] p after fs h =
    let here : u + 0 ≡ u = omega arith in
    rw (
      get_field-properties_other (c_string p.name) (u + 1) after
          (set_field (c_string p.name) (table (property_fields u p)) fs) h,
      get_field-set_field (c_string p.name) (c_string p.name) (table (property_fields u p)) fs,
      text_eq_refl (c_string p.name),
      here,
    )
get_field-properties u (q ∷ before) p after fs h =
    let next : u + 1 + length before ≡ u + length (q ∷ before) = omega arith in
    get_field-properties (u + 1) before p after
      (set_field (c_string q.name) (table (property_fields u q)) fs) h
    ∙ ap (λ n. table (property_fields n p)) next

get_field-classes_other :
    (k : Bytes) (u : ℕ) (cs : List ObjectSchema) (fs : Fields)
    → NoClass k cs
    → get_field k (schema_fields u cs fs) ≡ get_field k fs
get_field-classes_other k u [] fs h = refl
get_field-classes_other k u (c ∷ cs) fs h = rw (
  get_field-classes_other k (u + length c.persisted_properties) cs
      (set_field (c_string c.name) (table (class_fields u c)) fs) h.1,
  get_field-set_field k (c_string c.name) (table (class_fields u c)) fs,
  h.0,
)

pub get_field-classes :
    (u : ℕ) (before : List ObjectSchema) (c : ObjectSchema) (after : List ObjectSchema)
    (fs : Fields)
    → NoClass (c_string c.name) after
    → get_field (c_string c.name) (schema_fields u (before ++ c ∷ after) fs)
      ≡ table (class_fields (u + length (all_key_boxes before)) c)
get_field-classes u [] c after fs h =
    let here : u + 0 ≡ u = omega arith in
    rw (
      get_field-classes_other (c_string c.name) (u + length c.persisted_properties) after
          (set_field (c_string c.name) (table (class_fields u c)) fs) h,
      get_field-set_field (c_string c.name) (c_string c.name) (table (class_fields u c)) fs,
      text_eq_refl (c_string c.name),
      here,
    )
get_field-classes u (b ∷ before) c after fs h =
    let ps = b.persisted_properties in
    let next : u + length ps + length (all_key_boxes before)
        ≡ u + length (all_key_boxes (b ∷ before)) =
      omega (arith, length-append (key_boxes ps) (all_key_boxes before), length-map ps key_box) in
    get_field-classes (u + length ps) before c after
      (set_field (c_string b.name) (table (class_fields u b)) fs) h
    ∙ ap (λ n. table (class_fields n c)) next

-- The fields that every class and every property has.
pub get_field-class_properties :
    (u : ℕ) (c : ObjectSchema)
    → get_field (codes "properties") (class_fields u c)
      ≡ table (properties_fields u c.persisted_properties end)
get_field-class_properties u c = rw (get_field-set_field, text_eq_refl)

pub get_field-class_key :
    (u : ℕ) (c : ObjectSchema) → get_field (codes "key") (class_fields u c) ≡ integer c.table_key
unfolding get_field set_field text_eq
get_field-class_key u c = ground arith

get_field-property_type :
    (u : ℕ) (p : Property) → get_field (codes "type") (property_fields u p) ≡ integer p.type
unfolding get_field set_field text_eq
get_field-property_type u p = ground arith

pub get_field-property_key :
    (u : ℕ) (p : Property) → get_field (codes "key") (property_fields u p) ≡ userdata u
unfolding get_field set_field text_eq
get_field-property_key u p = ground arith

all_key_boxes-split :
    (before : List ObjectSchema) (c : ObjectSchema) (after : List ObjectSchema)
    → all_key_boxes (before ++ c ∷ after)
      ≡ all_key_boxes before ++ (key_boxes c.persisted_properties ++ all_key_boxes after)
all_key_boxes-split [] c after = refl
all_key_boxes-split (b ∷ before) c after =
    ap (λ bs. key_boxes b.persisted_properties ++ bs) (all_key_boxes-split before c after)
    ∙ sym (append_assoc (key_boxes b.persisted_properties) (all_key_boxes before) _)

key_boxes-split :
    (left : List Property) (p : Property) (right : List Property)
    → key_boxes (left ++ p ∷ right) ≡ key_boxes left ++ key_box p ∷ key_boxes right
key_boxes-split [] p right = refl
key_boxes-split (q ∷ left) p right = ap (λ bs. key_box q ∷ bs) (key_boxes-split left p right)

-- The box of a property's key, among those that were pushed.
pub get_elem?-key :
    (bs : List Box) (before : List ObjectSchema) (c : ObjectSchema) (after : List ObjectSchema)
    (left : List Property) (p : Property) (right : List Property)
    → c.persisted_properties ≡ left ++ p ∷ right
    → get_elem?
        (bs ++ all_key_boxes (before ++ c ∷ after))
        (length bs + length (all_key_boxes before) + length left)
      ≡ some (key_box p)
get_elem?-key bs before c after left p right split =
    let front = bs ++ (all_key_boxes before ++ key_boxes left) in
    let place : length front ≡ length bs + length (all_key_boxes before) + length left = omega (
      arith,
      length-append bs (all_key_boxes before ++ key_boxes left),
      length-append (all_key_boxes before) (key_boxes left),
      length-map left key_box,
    ) in
    let rest = key_boxes right ++ all_key_boxes after in
    let whole : bs ++ all_key_boxes (before ++ c ∷ after) ≡ front ++ key_box p ∷ rest = rw (
      all_key_boxes-split before c after,
      split,
      key_boxes-split left p right,
      append_assoc bs (all_key_boxes before ++ key_boxes left) (key_box p ∷ rest),
      append_assoc (all_key_boxes before) (key_boxes left) (key_box p ∷ rest),
      append_assoc (key_boxes left) (key_box p ∷ key_boxes right) (all_key_boxes after),
    ) in
    rw (whole, ← place) (get_elem?-append front (key_box p) rest)

-- `_push_schema_info` pushes one table, in which each class of the schema is found by its name, with
-- its key, and in it each property by its name, with its type and the userdata that holds its key:
-- unless a later class, or a later property of the class, has the same name. Every collection is a
-- list, a set or a dictionary.
pub push_schema_info-property :
    {W : Type 0} (before : List ObjectSchema) (c : ObjectSchema) (after : List ObjectSchema)
    (left : List Property) (p : Property) (right : List Property) (s : State W)
    → AllClasses (before ++ c ∷ after)
    → NoClass (c_string c.name) after
    → c.persisted_properties ≡ left ++ p ∷ right
    → NoProperty (c_string p.name) right
    → let t = push_schema_info (before ++ c ∷ after) s in
      let u = length s.boxes + length (all_key_boxes before) + length left in
      (classes class properties property : Fields) × (t.0 ≡ ok tt)
      × (t.1.stack ≡ table classes ∷ s.stack)
      × (get_field (c_string c.name) classes ≡ table class)
      × (get_field (codes "key") class ≡ integer c.table_key)
      × (get_field (codes "properties") class ≡ table properties)
      × (get_field (c_string p.name) properties ≡ table property)
      × (get_field (codes "type") property ≡ integer p.type)
      × (get_field (codes "key") property ≡ userdata u)
      × (get_elem? t.1.boxes u ≡ some (key_box p))
push_schema_info-property before c after left p right s kinds last_class split last_property =
    let n = length s.boxes + length (all_key_boxes before) in
    let u = n + length left in
    let found : get_field (c_string p.name) (properties_fields n c.persisted_properties end)
        ≡ table (property_fields u p) =
      rw split (get_field-properties n left p right end last_property) in
    rw (push_schema_info-fields (before ++ c ∷ after) s kinds) (
      schema_fields (length s.boxes) (before ++ c ∷ after) end,
      class_fields n c,
      properties_fields n c.persisted_properties end,
      property_fields u p,
      refl,
      refl,
      get_field-classes (length s.boxes) before c after end last_class,
      get_field-class_key n c,
      get_field-class_properties n c,
      found,
      get_field-property_type u p,
      get_field-property_key u p,
      get_elem?-key s.boxes before c after left p right split,
    )
