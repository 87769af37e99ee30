-- ===== src/Schema/Parse/Stack.antt =====
-- What `_parse_schema` leaves on the stack: it pops one value, while each class has left one.
use realm_lua_bootcamp.Prelude.{
  ℕ, zero, suc, ◌+◌, ◌≡◌, refl, ap, sym, ◌∙◌, List, [], ◌∷◌, ◌++◌, Option, some, length, arith,
  length-append, append_assoc,
}
use realm_lua_bootcamp.Text.{Bytes, codes}
use realm_lua_bootcamp.Lua.{
  Value, rest_after, pop, call, WhenOk-elim, or_nil, value_at, bottom, get_field, push_index,
  Fields, end, field, nil, table, raw_len, State, ok, on, Conversions, WhenOk, holds, raises,
  faults, WhenOk-intro, WhenOk-bind, WhenOk-bind_at, WhenOk-bind_some, WhenOk-mono, ◌>>◌,
}
use realm_lua_bootcamp.Schema.Property.{parse_property_type}
use realm_lua_bootcamp.Schema.Parse.{
  parse_property, parse_class_entries, parse_class_table, parse_properties, parse_class,
  parse_classes, parse_schema, Class,
}

module _ {W : Type 0} ⦃cv : Conversions⦄ where
  -- Whatever was read, the state is `s`, but for the stack.
  abbrev Leaves : {A : Type 0} → State W → List Value → A → State W → Type 0
  Leaves s vs _ t = t ≡ on s vs

  -- A property that is read leaves the key for `lua_next`, and nothing else has changed.
  parse_property-frame :
      (pk : Option Bytes) (s : State W) (v k : Value) (below : List Value)
      → WhenOk (Leaves s (k ∷ below)) (parse_property pk (on s (v ∷ k ∷ below)))
  unfolding parse_property parse_property_type
  parse_property-frame pk s v k below = WhenOk-intro _ (λ p h. ground arith)

  -- The loop over a class's properties pops the key that it began with.
  parse_properties-frame :
      (pk : Option Bytes) (fs : Fields) (s : State W) (k : Value) (below : List Value)
      → WhenOk (Leaves s below) (parse_properties pk fs (on s (k ∷ below)))
  unfolding parse_properties
  parse_properties-frame pk end s k below = holds refl
  parse_properties-frame pk (field k' v rest) s k below =
      WhenOk-bind_at (on s (k' ∷ below)) _ _ (parse_property-frame pk s v k' below) λ p.
        WhenOk-bind_at (on s below) _ _ (parse_properties-frame pk rest s k' below)
          (λ ps. holds refl)

  -- The table of properties is popped.
  parse_class_entries-frame :
      (name pk : Option Bytes) (s : State W) (entries : Value) (below : List Value)
      → WhenOk (Leaves s below) (parse_class_entries name pk (on s (entries ∷ below)))
  unfolding parse_class_entries
  parse_class_entries-frame name pk s (table fs) below =
      WhenOk-bind_at (on s (table fs ∷ below)) _ _
        (parse_properties-frame pk fs s nil (table fs ∷ below)) (λ ps. holds refl)
  parse_class_entries-frame name pk s _ below = raises

  -- The table of the class is not.
  parse_class_table-frame :
      (s : State W) (class : Value) (below : List Value)
      → WhenOk (Leaves s (class ∷ below)) (parse_class_table (on s (class ∷ below)))
  unfolding parse_class_table
  parse_class_table-frame s (table fs) below =
      parse_class_entries-frame _ _ s (get_field (codes "properties") fs) (table fs ∷ below)
  parse_class_table-frame s _ below = raises

  abbrev Adds : {A : Type 0} → State W → A → State W → Type 0
  Adds s _ t = (v : Value) × (t ≡ on s (v ∷ s.stack))

  push_index-frame : (i : ℕ) (v : Value) (s : State W) → WhenOk (Adds s) (push_index i v s)
  push_index-frame i (table fs) s = holds (_, refl)
  push_index-frame i _ s = faults

  parse_class-frame : (at i : ℕ) (s : State W) → WhenOk (Adds s) (parse_class at i s)
  unfolding parse_class
  parse_class-frame at i s =
      WhenOk-bind_some (λ v. on s (v ∷ s.stack)) _ (λ _. parse_class_table)
        (push_index-frame i (or_nil (value_at (bottom at) s.stack)) s)
        λ u v. WhenOk-mono (parse_class_table-frame s v s.stack) (λ c t e. (v, e))

  abbrev AddsMany : {A : Type 0} → ℕ → State W → List A → State W → Type 0
  AddsMany n s cs t =
      (vs : List Value) × (t ≡ on s (vs ++ s.stack)) × (length vs ≡ n) × (length cs ≡ n)

  -- Each of the classes has left its table.
  parse_classes-frame : (at i n : ℕ) (s : State W) → WhenOk (AddsMany n s) (parse_classes at i n s)
  unfolding parse_classes
  parse_classes-frame at i zero s = holds ([], refl, refl, refl)
  parse_classes-frame at i (suc n) s =
      WhenOk-bind_some (λ v. on s (v ∷ s.stack)) _ _ (parse_class-frame at i s)
        λ c v. WhenOk-bind _ (parse_classes-frame at (i + 1) n (on s (v ∷ s.stack))) λ cs t h.
          holds (
            h.0 ++ v ∷ [],
            h.1 ∙ ap (on s) (sym (append_assoc h.0 (v ∷ []) s.stack)),
            omega (arith, length-append h.0 (v ∷ []), h.2),
            ap suc h.3,
          )

popped :
    {W : Type 0} (realm_schema_new : List Class → W → ℕ × W) (cs : List Class) (s : State W)
    (schema : Value) (below vs : List Value)
    → WhenOk
        (λ _ t.
          (rest_after 1 (vs ++ schema ∷ below) ≡ some t.stack)
          × (t.boxes ≡ s.boxes)
          × (t.refs ≡ s.refs))
        ((pop 1 >> call (realm_schema_new cs)) (on s (vs ++ schema ∷ below)))
popped realm_schema_new cs s schema below [] = holds (refl, refl, refl)
popped realm_schema_new cs s schema below (v ∷ vs) = holds (refl, refl, refl)

-- The stack that `_parse_schema` leaves when it succeeds is the one it was called on with a table
-- pushed for each class and then one value popped: for no class that is the schema itself, for
-- one class the stack is as before, and for more it has grown. Userdata and references stay.
pub parse_schema-stack :
    {W : Type 0} ⦃cv : Conversions⦄ (realm_schema_new : List Class → W → ℕ × W) (s : State W)
    (schema : Value) (below : List Value) (p : ℕ)
    → (parse_schema realm_schema_new (on s (schema ∷ below))).0 ≡ ok p
    → let t = (parse_schema realm_schema_new (on s (schema ∷ below))).1 in
      (vs : List Value) × (length vs ≡ raw_len schema)
      × (rest_after 1 (vs ++ schema ∷ below) ≡ some t.stack)
      × (t.boxes ≡ s.boxes)
      × (t.refs ≡ s.refs)
unfolding parse_schema
parse_schema-stack realm_schema_new s schema below p h =
    WhenOk-elim
      {P = λ _ t.
        (vs : List Value) × (length vs ≡ raw_len schema)
        × (rest_after 1 (vs ++ schema ∷ below) ≡ some t.stack)
        × (t.boxes ≡ s.boxes)
        × (t.refs ≡ s.refs)}
      p
      (WhenOk-bind _
        (parse_classes-frame (length (schema ∷ below)) 1 (raw_len schema) (on s (schema ∷ below)))
        λ cs t frame. rw frame.1 (
          WhenOk-mono (popped realm_schema_new cs s schema below frame.0)
            (λ q u g. (frame.0, frame.2, g.0, g.1, g.2))))
      h
