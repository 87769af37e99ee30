-- ===== src/Realm/Objects/Initial.antt =====
-- The values that a new object is made with.
use realm_lua_bootcamp.Prelude.{
  ℕ, ◌≡◌, ◌≢◌, ◌⊎◌, inl, inr, refl, ap, sym, ◌∙◌, true, false, List, [], ◌∷◌, ◌++◌, Option, some,
  get_elem?, get_elem?-grown,
}
use realm_lua_bootcamp.Text.{Bytes}
use realm_lua_bootcamp.Lua.{Value, userdata, State, ok, Conversions, Box}
use realm_lua_bootcamp.Native.Api.{RealmApi, RealmValue}
use realm_lua_bootcamp.Native.Convert.Handles.{handle_box}
use realm_lua_bootcamp.Native.Convert.RoundTrip.{IsScalar, realm_value}
use realm_lua_bootcamp.Realm.{Messages}
use realm_lua_bootcamp.Realm.Objects.{LuaObject}
use realm_lua_bootcamp.Realm.Objects.Creation.{
  plain, Given, Values, no_values, entry, is_key, is_own, assign_values,
}
use realm_lua_bootcamp.Realm.Objects.Properties.{PropertyLaws, HasProperty, newindex_lem}

-- A property's key and the value that it is given.
abbrev pub Written : Type 0
Written = ℕ × Value

-- The table's entries, in its order: the primary key, which the object has already, and scalars for
-- properties of the class; `ws` are those.
pub data Assigns (class_info all_classes : Value) (boxes : List Box) (key : Option Value)
    : Values → List Written → Type 0 where
  nothing : Assigns class_info all_classes boxes key no_values []
  skips :
      (name : Bytes) (given : Given) (vs : Values) (ws : List Written)
      → is_key key name ≡ true
      → Assigns class_info all_classes boxes key vs ws
      → Assigns class_info all_classes boxes key (entry name given vs) ws
  assigns :
      (name : Bytes) (v : Value) (vs : Values) (k : ℕ) (ws : List Written)
      → IsScalar v
      → is_key key name ≡ false
      → is_own name ≡ false
      → HasProperty class_info all_classes boxes name k
      → Assigns class_info all_classes boxes key vs ws
      → Assigns class_info all_classes boxes key (entry name (plain v) vs) ((k, v) ∷ ws)

-- Every property takes its value.
abbrev pub AllFit : (ℕ → RealmValue → Type 0) → List Written → Type 0
AllFit Fits [] = Unit {0}
AllFit Fits ((k, v) ∷ ws) = Fits k (realm_value v) × AllFit Fits ws

-- None of the properties has the key `k`.
abbrev pub IsFresh : ℕ → List Written → Type 0
IsFresh k [] = Unit {0}
IsFresh k ((j, v) ∷ ws) = (k ≢ j) × IsFresh k ws

-- No two properties have the same key.
abbrev pub AllFresh : List Written → Type 0
AllFresh [] = Unit {0}
AllFresh ((k, v) ∷ ws) = IsFresh k ws × AllFresh ws

-- The property with key `k` is among them, with the value `v`.
abbrev pub IsGiven : ℕ → Value → List Written → Type 0
IsGiven k v [] = ⊥
IsGiven k v ((j, x) ∷ ws) = ((k ≡ j) × (v ≡ x)) ⊎ IsGiven k v ws

pub HasProperty-grown :
    (class_info all_classes : Value) (boxes others : List Box) (name : Bytes) (k : ℕ)
    → HasProperty class_info all_classes boxes name k
    → HasProperty class_info all_classes (boxes ++ others) name k
HasProperty-grown class_info all_classes boxes others name k h = record {
  class = h.class;
  properties = h.properties;
  info = h.info;
  schema = h.schema;
  key = h.key;
  key_meta = h.key_meta;
  is_class = h.is_class;
  has_properties = h.has_properties;
  has_info = h.has_info;
  no_collection = h.no_collection;
  has_key = h.has_key;
  is_key = get_elem?-grown boxes others h.key h.is_key;
  has_schema = h.has_schema;
}

pub Assigns-grown :
    (class_info all_classes : Value) (boxes others : List Box) (key : Option Value) (vs : Values)
    (ws : List Written)
    → Assigns class_info all_classes boxes key vs ws
    → Assigns class_info all_classes (boxes ++ others) key vs ws
Assigns-grown class_info all_classes boxes others key _ _ nothing = nothing
Assigns-grown class_info all_classes boxes others key _ _ (skips name given vs ws is rest) =
    skips name given vs ws is (Assigns-grown class_info all_classes boxes others key vs ws rest)
Assigns-grown class_info all_classes boxes others key _ _
      (assigns name v vs k ws scalar other foreign property rest) =
    assigns name v vs k ws scalar other foreign
      (HasProperty-grown class_info all_classes boxes others name k property)
      (Assigns-grown class_info all_classes boxes others key vs ws rest)

module _ {W : Type 0} ⦃cv : Conversions⦄ ⦃api : RealmApi W⦄ {view : W → ℕ → RealmValue}
    {InWrite : W → Type 0} {Fits : ℕ → RealmValue → Type 0} (p : ℕ)
    (laws : PropertyLaws api p view InWrite Fits) where
  -- The world after the values have been set.
  abbrev pub write_all : List Written → W → W
  write_all [] w = w
  write_all ((k, v) ∷ ws) w = write_all ws (api.set_value p k (realm_value v) w).1

  pub view-write_all-fresh :
      (k : ℕ) (ws : List Written) (w : W)
      → IsFresh k ws
      → AllFit Fits ws
      → InWrite w
      → view (write_all ws w) k ≡ view w k
  view-write_all-fresh k [] w fresh fit writing = refl
  view-write_all-fresh k ((j, x) ∷ ws) w fresh fit writing =
      view-write_all-fresh k ws (api.set_value p j (realm_value x) w).1 fresh.1 fit.1
        (laws.set_writes w j (realm_value x) writing fit.0)
      ∙ laws.set_other w j (realm_value x) k writing fresh.0

  pub view-write_all :
      (k : ℕ) (v : Value) (ws : List Written) (w : W)
      → IsGiven k v ws
      → AllFresh ws
      → AllFit Fits ws
      → InWrite w
      → view (write_all ws w) k ≡ realm_value v
  view-write_all k v [] w there fresh fit writing = elim there [ ]
  view-write_all k v ((j, x) ∷ ws) w (inl (e, same)) fresh fit writing =
      ap (λ i. view (write_all ws (api.set_value p j (realm_value x) w).1) i) e
      ∙ view-write_all-fresh j ws (api.set_value p j (realm_value x) w).1 fresh.0 fit.1
          (laws.set_writes w j (realm_value x) writing fit.0)
      ∙ laws.set_same w j (realm_value x) writing fit.0
      ∙ ap realm_value (sym same)
  view-write_all k v ((j, x) ∷ ws) w (inr there) fresh fit writing =
      view-write_all k v ws (api.set_value p j (realm_value x) w).1 there fresh.1 fit.1
        (laws.set_writes w j (realm_value x) writing fit.0)

  pub assign_values-write_all :
      (messages : Messages W) (o : LuaObject) (r q u : ℕ) (key : Option Value) (s : State W)
      → o.handle ≡ userdata u
      → o.realm.handle ≡ userdata r
      → get_elem? s.boxes r ≡ some (handle_box q)
      → get_elem? s.boxes u ≡ some (handle_box p)
      → (vs : Values) (ws : List Written) (w : W) → Assigns o.class o.realm.schema s.boxes key vs ws
      → AllFit Fits ws
      → InWrite w
      → assign_values messages vs key o (record s { world = w })
        ≡ (ok o, record s { world = write_all ws w })
  unfolding assign_values
  assign_values-write_all messages o r q u key s ho hor hr hu _ _ w nothing fit writing = refl
  assign_values-write_all messages o r q u key s ho hor hr hu _ _ w (skips name given vs ws is rest)
        fit writing =
      simp
        (is, assign_values-write_all messages o r q u key s ho hor hr hu vs ws w rest fit writing)
  assign_values-write_all messages o r q u key s ho hor hr hu _ _ w
        (assigns name v vs k ws scalar other foreign property rest) fit writing =
      let t : State W = record s { world = w } in
      let after = (api.set_value p k (realm_value v) w).1 in
      simp
        (
          other,
          foreign,
          newindex_lem p laws messages o name t r q u k v scalar ho hor hr hu property writing
              fit.0,
        )
        (assign_values-write_all messages o r q u key s ho hor hr hu vs ws after rest fit.1
          (laws.set_writes w k (realm_value v) writing fit.0))
