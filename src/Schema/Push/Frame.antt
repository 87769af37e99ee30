-- ===== src/Schema/Push/Frame.antt =====
-- What `_push_schema_info` leaves on the stack, and where a property's key is found.
use realm_lua_bootcamp.Prelude.{
  ℕ, ◌≡◌, ◌||◌, true, List, [], ◌∷◌, arith, ltb, length, get_elem?-append, set-append, map,
  length-map, ap, ◌∙◌, ◌++◌, append_assoc, append-nil, length-append, ◌+◌, if◌then◌else◌,
}
use realm_lua_bootcamp.Text.{Bytes, codes, c_string, text_eq}
use realm_lua_bootcamp.Lua.{
  Value, integer, string, table, userdata, Fields, end, field, set_field, State, ok, on, Box, plain,
}
use realm_lua_bootcamp.Schema.Push.{
  Property, set_text_if_any, set_collection_if_any, push_property, push_properties, push_class,
  push_classes, push_schema_info, ObjectSchema,
}

-- A property that has a collection type has one of the three kinds.
abbrev pub IsKind : Property → Type 0
IsKind p = (if p.is_collection then p.is_array || p.is_set || p.is_dictionary else true) ≡ true

abbrev pub AllKinds : List Property → Type 0
AllKinds [] = Unit {0}
AllKinds (p ∷ ps) = IsKind p × AllKinds ps

abbrev pub key_box : Property → Box
key_box p = record { pointer = p.column_key; meta = plain }

abbrev pub with_text : Bytes → Bytes → Fields → Fields
with_text key text fs =
    if ltb 0 (length text) then set_field key (string (c_string text)) fs else fs

abbrev pub kind_number : Property → ℕ
kind_number p = if p.is_array then 1 else if p.is_set then 2 else 4

abbrev pub with_kind : Property → Fields → Fields
with_kind p fs =
    if p.is_collection then set_field (codes "collectionType") (integer (kind_number p)) fs else fs

-- The information of a property whose key is in the box `u`.
abbrev pub property_fields : ℕ → Property → Fields
property_fields u p = with_kind p (
    with_text (codes "objectType") p.object_type (
      field (string (codes "name")) (string (c_string p.name)) (
        field (string (codes "key")) (userdata u)
          (field (string (codes "type")) (integer p.type) end))))

set_text_if_any-fields :
    {W : Type 0} (key text : Bytes) (fs : Fields) (s : State W) (below : List Value)
    → set_text_if_any key text (on s (table fs ∷ below))
      ≡ (ok tt, on s (table (with_text key text fs) ∷ below))
unfolding set_text_if_any
set_text_if_any-fields key text fs s below = ground arith

set_collection_if_any-fields :
    {W : Type 0} (p : Property) (fs : Fields) (s : State W) (below : List Value)
    → IsKind p
    → set_collection_if_any p (on s (table fs ∷ below))
      ≡ (ok tt, on s (table (with_kind p fs) ∷ below))
unfolding set_collection_if_any
set_collection_if_any-fields p fs s below h = ground arith

push_property-fields :
    {W : Type 0} (p : Property) (fs : Fields) (s : State W) (below : List Value)
    → IsKind p
    → push_property p (on s (table fs ∷ below)) ≡ (
      ok tt,
      record s {
        stack =
            table (set_field (c_string p.name) (table (property_fields (length s.boxes) p)) fs)
            ∷ below;
        boxes = s.boxes ++ key_box p ∷ [];
      },
    )
unfolding push_property set_field text_eq
push_property-fields {W} p fs s below h =
    let fresh : Box = record { pointer = 0; meta = plain } in
    let u = length s.boxes in
    let named = field (string (codes "name")) (string (c_string p.name)) (
      field (string (codes "key")) (userdata u)
        (field (string (codes "type")) (integer p.type) end)) in
    let t : State W = record s { boxes = s.boxes ++ key_box p ∷ [] } in
    rw (
      get_elem?-append s.boxes fresh [],
      set-append s.boxes fresh (key_box p) [],
      set_text_if_any-fields (codes "objectType") p.object_type named t (table fs ∷ below),
      set_collection_if_any-fields p (with_text (codes "objectType") p.object_type named) t
          (table fs ∷ below) h,
    )

abbrev pub key_boxes : List Property → List Box
key_boxes ps = map key_box ps

-- The table of properties whose keys are in the boxes from `u` on, written over `fs`.
abbrev pub properties_fields : ℕ → List Property → Fields → Fields
properties_fields u [] fs = fs
properties_fields u (p ∷ ps) fs =
    properties_fields (u + 1) ps (set_field (c_string p.name) (table (property_fields u p)) fs)

push_properties-fields :
    {W : Type 0} (ps : List Property) (fs : Fields) (s : State W) (below : List Value)
    → AllKinds ps
    → push_properties ps (on s (table fs ∷ below)) ≡ (
      ok tt,
      record s {
        stack = table (properties_fields (length s.boxes) ps fs) ∷ below;
        boxes = s.boxes ++ key_boxes ps;
      },
    )
unfolding push_properties
push_properties-fields [] fs s below h = rw (append-nil s.boxes)
push_properties-fields {W} (p ∷ ps) fs s below h =
    let t : State W = record s { boxes = s.boxes ++ key_box p ∷ [] } in
    let next : length (s.boxes ++ key_box p ∷ []) ≡ length s.boxes + 1 =
      length-append s.boxes (key_box p ∷ []) in
    rw (
      push_property-fields p fs s below h.0,
      push_properties-fields ps
          (set_field (c_string p.name) (table (property_fields (length s.boxes) p)) fs) t below h.1,
      next,
      append_assoc s.boxes (key_box p ∷ []) (key_boxes ps),
    )

-- The information of a class.
abbrev pub class_fields : ℕ → ObjectSchema → Fields
class_fields u c =
    set_field (codes "properties") (table (properties_fields u c.persisted_properties end)) (
      with_text (codes "primaryKey") c.primary_key (
        field (string (codes "name")) (string (c_string c.name))
          (field (string (codes "key")) (integer c.table_key) end)))

push_class-fields :
    {W : Type 0} (c : ObjectSchema) (fs : Fields) (s : State W) (below : List Value)
    → AllKinds c.persisted_properties
    → push_class c (on s (table fs ∷ below)) ≡ (
      ok tt,
      record s {
        stack =
            table (set_field (c_string c.name) (table (class_fields (length s.boxes) c)) fs)
            ∷ below;
        boxes = s.boxes ++ key_boxes c.persisted_properties;
      },
    )
unfolding push_class set_field text_eq
push_class-fields c fs s below h =
    let named =
      field (string (codes "name")) (string (c_string c.name))
        (field (string (codes "key")) (integer c.table_key) end) in
    rw (
      set_text_if_any-fields (codes "primaryKey") c.primary_key named s (table fs ∷ below),
      push_properties-fields c.persisted_properties end s
          (table (with_text (codes "primaryKey") c.primary_key named) ∷ table fs ∷ below) h,
    )

abbrev pub AllClasses : List ObjectSchema → Type 0
AllClasses [] = Unit {0}
AllClasses (c ∷ cs) = AllKinds c.persisted_properties × AllClasses cs

abbrev pub all_key_boxes : List ObjectSchema → List Box
all_key_boxes [] = []
all_key_boxes (c ∷ cs) = key_boxes c.persisted_properties ++ all_key_boxes cs

-- The table of classes whose properties' keys are in the boxes from `u` on, written over `fs`.
abbrev pub schema_fields : ℕ → List ObjectSchema → Fields → Fields
schema_fields u [] fs = fs
schema_fields u (c ∷ cs) fs =
    schema_fields (u + length c.persisted_properties) cs
      (set_field (c_string c.name) (table (class_fields u c)) fs)

push_classes-fields :
    {W : Type 0} (cs : List ObjectSchema) (fs : Fields) (s : State W) (below : List Value)
    → AllClasses cs
    → push_classes cs (on s (table fs ∷ below)) ≡ (
      ok tt,
      record s {
        stack = table (schema_fields (length s.boxes) cs fs) ∷ below;
        boxes = s.boxes ++ all_key_boxes cs;
      },
    )
unfolding push_classes
push_classes-fields [] fs s below h = rw (append-nil s.boxes)
push_classes-fields {W} (c ∷ cs) fs s below h =
    let ps = c.persisted_properties in
    let t : State W = record s { boxes = s.boxes ++ key_boxes ps } in
    let next : length (s.boxes ++ key_boxes ps) ≡ length s.boxes + length ps =
      length-append s.boxes (key_boxes ps) ∙ ap (λ n. length s.boxes + n) (length-map ps key_box) in
    rw (
      push_class-fields c fs s below h.0,
      push_classes-fields cs
          (set_field (c_string c.name) (table (class_fields (length s.boxes) c)) fs) t below h.1,
      next,
      append_assoc s.boxes (key_boxes ps) (all_key_boxes cs),
    )

-- One table is pushed, and a box for each property's key.
pub push_schema_info-fields :
    {W : Type 0} (cs : List ObjectSchema) (s : State W)
    → AllClasses cs
    → push_schema_info cs s ≡ (
      ok tt,
      record s {
        stack = table (schema_fields (length s.boxes) cs end) ∷ s.stack;
        boxes = s.boxes ++ all_key_boxes cs;
      },
    )
unfolding push_schema_info
push_schema_info-fields cs s h = push_classes-fields cs end s s.stack h
