-- ===== src/Realm/Objects/Children.antt =====
-- The handles of the objects that are made, among the realm's children.
use realm_lua_bootcamp.Prelude.{
  ℕ, suc, ◌≡◌, ◌⊎◌, inl, inr, refl, subst, sym, Bool, true, false, List, [], ◌∷◌, ◌++◌, Option,
  none, some, ◌≤◌, ◌<◌, length, arith, if◌then◌else◌, dec_lt,
}
use realm_lua_bootcamp.Text.{Bytes, codes}
use realm_lua_bootcamp.Lua.{
  Value, nil, string, table, userdata, State, Exec, Conversions, raise, call_c, ◌>>=◌, WhenOk,
  holds, raises, WhenOk-bind, KeepsBoxes, pure-KeepsBoxes, raise-KeepsBoxes, bind-KeepsBoxes,
  call_c-KeepsBoxes, to_boolean,
}
use realm_lua_bootcamp.Native.Api.{RealmApi}
use realm_lua_bootcamp.Native.Objects.{
  lib_realm_set_value, lib_realm_object_create_with_primary_key,
}
use realm_lua_bootcamp.Native.Objects.Userdata.{
  set_value-KeepsBoxes, MakesHandle, bind-MakesHandle, object_create-MakesHandle,
  object_create_with_primary_key-MakesHandle,
}
use realm_lua_bootcamp.Realm.{LuaRealm, Messages, safe_get_class, schema_field, class_or_error}
use realm_lua_bootcamp.Realm.Collections.{put_child, with_child}
use realm_lua_bootcamp.Realm.Objects.{
  LuaObject, lua_index, lookup, concatenated, property_of, write_property,
}
use realm_lua_bootcamp.Realm.Objects.Creation.{
  Given, Values, as_value, is_absent, given_key, keyed_handle, primary_key, new_handle, new_object,
}

abbrev pub IsChild : Value → List (Option Value) → Type 0
IsChild v [] = ⊥
IsChild v (none ∷ handles) = IsChild v handles
IsChild v (some h ∷ handles) = (v ≡ h) ⊎ IsChild v handles

put_child-IsChild : (v : Value) (handles : List (Option Value)) → IsChild v (put_child v handles)
put_child-IsChild v [] = inl refl
put_child-IsChild v (none ∷ handles) = inl refl
put_child-IsChild v (some h ∷ handles) = inr (put_child-IsChild v handles)

put_child_keeps :
    (v x : Value) (handles : List (Option Value))
    → IsChild x handles
    → IsChild x (put_child v handles)
put_child_keeps v x [] there = elim there [ ]
put_child_keeps v x (none ∷ handles) there = inr there
put_child_keeps v x (some h ∷ handles) (inl same) = inl same
put_child_keeps v x (some h ∷ handles) (inr there) = inr (put_child_keeps v x handles there)

-- The children of a realm stay its children.
abbrev pub Keeps : LuaRealm → LuaRealm → Type 0
Keeps before after = (v : Value) → IsChild v before.child_handles → IsChild v after.child_handles

module _ {W : Type 0} where
  -- Every userdata from `n` on is a child of the realm.
  abbrev pub Tracks : ℕ → LuaRealm → State W → Type 0
  Tracks n realm s = (u : ℕ) → n ≤ u → u < length s.boxes → IsChild (userdata u) realm.child_handles

  Tracks-with_child :
      (n : ℕ) (realm : LuaRealm) (s t : State W)
      → Tracks n realm s
      → length t.boxes ≡ suc (length s.boxes)
      → Tracks n (with_child (userdata (length s.boxes)) realm) t
  Tracks-with_child n realm s t tracked grown u from below = elim (dec_lt u (length s.boxes)) [
    | yes before ↦
        put_child_keeps (userdata (length s.boxes)) (userdata u) realm.child_handles
          (tracked u from before)
    | no here ↦
        let e : length s.boxes ≡ u = omega (arith, grown, below, here) in
        subst
          (λ i. IsChild (userdata i) (put_child (userdata (length s.boxes)) realm.child_handles)) e
          (put_child-IsChild (userdata (length s.boxes)) realm.child_handles)
  ]

  pub step :
      {A B : Type 0} {P : B → State W → Type 0} (n : ℕ) (realm : LuaRealm) (m : Exec W A)
      (f : A → Exec W B) (s : State W)
      → KeepsBoxes m
      → Tracks n realm s
      → ((a : A) (t : State W) → Tracks n realm t → WhenOk P (f a t))
      → WhenOk P ((m >>= f) s)
  step n realm m f s keeps tracked k =
      WhenOk-bind (m s) (keeps s)
        (λ a t same. k a t (λ u from below. tracked u from (subst (λ l. u < l) same below)))

  pub lua_index-KeepsBoxes : (v : Value) (k : Bytes) → KeepsBoxes (lua_index {W = W} v k)
  lua_index-KeepsBoxes (table fs) k s = holds refl
  lua_index-KeepsBoxes _ k s = raises

  pub lookup-KeepsBoxes : (v k : Value) → KeepsBoxes (lookup {W = W} v k)
  lookup-KeepsBoxes (table fs) (string k) s = holds refl
  lookup-KeepsBoxes (table fs) _ s = holds refl
  lookup-KeepsBoxes _ _ s = raises

  when_true :
      {A : Type 0} (b : Bool) (m n : Exec W A)
      → KeepsBoxes m
      → KeepsBoxes n
      → KeepsBoxes (if b then m else n)
  when_true true m n h k = h
  when_true false m n h k = k

  concatenated-KeepsBoxes :
      (before : Bytes) (v : Value) (after : Bytes)
      → KeepsBoxes (concatenated {W = W} before v after)
  concatenated-KeepsBoxes before (string name) after s = holds refl
  concatenated-KeepsBoxes before _ after s = raises

module _ {W : Type 0} ⦃cv : Conversions⦄ ⦃api : RealmApi W⦄ (messages : Messages W) where
  schema_field-KeepsBoxes :
      (class_name : Bytes) (v : Value) → KeepsBoxes (schema_field {W = W} class_name v)
  schema_field-KeepsBoxes class_name (table fs) s = holds refl
  schema_field-KeepsBoxes class_name _ s = raises

  class_or_error-KeepsBoxes :
      (class_name : Bytes) (v : Value) → KeepsBoxes (class_or_error messages class_name v)
  class_or_error-KeepsBoxes class_name nil s = raises
  class_or_error-KeepsBoxes class_name _ s = holds refl

  pub property_of-KeepsBoxes :
      (o : LuaObject) (prop : Bytes) → KeepsBoxes (property_of messages o prop)
  unfolding property_of
  property_of-KeepsBoxes o prop =
      let before = codes "Property '" ++ prop ++ codes "' not found on type " in
      bind-KeepsBoxes (lua_index o.class (codes "properties")) _
        (lua_index-KeepsBoxes o.class (codes "properties"))
        (λ properties.
          bind-KeepsBoxes (lua_index properties prop) _ (lua_index-KeepsBoxes properties prop)
            (λ property. when_true (to_boolean property) _ _ (pure-KeepsBoxes property) (
              bind-KeepsBoxes (lua_index o.class (codes "name")) _
                (lua_index-KeepsBoxes o.class (codes "name"))
                (λ name.
                  bind-KeepsBoxes (concatenated before name []) _
                    (concatenated-KeepsBoxes before name [])
                    (λ message.
                      raise-KeepsBoxes (messages.position (codes "object.lua") 116 ++ message))))))

  pub write_property-Tracks :
      (n : ℕ) (o : LuaObject) (property value : Value) (realm : LuaRealm) (s : State W)
      → Tracks n realm s
      → WhenOk
          (λ r t. Tracks n r t × Keeps realm r)
          (write_property messages o property value realm s)
  write_property-Tracks n o property value realm s tracked =
      step n realm (lua_index property (codes "key")) _ s
        (lua_index-KeepsBoxes property (codes "key")) tracked
        (λ key t t_tracked.
          step n realm (call_c lib_realm_set_value (value ∷ key ∷ o.handle ∷ realm.handle ∷ [])) _ t
            (call_c-KeepsBoxes lib_realm_set_value _ set_value-KeepsBoxes) t_tracked
            (λ _ u u_tracked. holds (u_tracked, λ v there. there)))

  keyed_handle-MakesHandle :
      (realm : LuaRealm) (class_key : Value) (given : Given)
      → MakesHandle (keyed_handle messages realm class_key given)
  unfolding as_value
  keyed_handle-MakesHandle realm class_key given =
      elim (is_absent given)
        as (λ absent. MakesHandle {W = W} (
          if absent
          then raise (
              messages.position (codes "object.lua") 43
              ++ codes "Primary key not set at declaration")
          else call_c lib_realm_object_create_with_primary_key
              (as_value given ∷ class_key ∷ realm.handle ∷ []))) [
                | true ↦ λ s. raises
                | false ↦ object_create_with_primary_key-MakesHandle _
              ]

  new_handle-MakesHandle :
      (realm : LuaRealm) (class_info : Value) (key : Option Value) (vs : Option Values)
      → MakesHandle (new_handle messages realm class_info key vs)
  unfolding new_handle
  new_handle-MakesHandle realm class_info none vs =
      bind-MakesHandle (lua_index class_info (codes "key")) _
        (lua_index-KeepsBoxes class_info (codes "key")) (λ class_key. object_create-MakesHandle _)
  new_handle-MakesHandle realm class_info (some name) vs =
      bind-MakesHandle (lua_index class_info (codes "key")) _
        (lua_index-KeepsBoxes class_info (codes "key"))
        (λ class_key. keyed_handle-MakesHandle realm class_key (given_key name vs))

  pub new_object-Tracks :
      (n : ℕ) (realm : LuaRealm) (class_info : Value) (vs : Option Values) (s : State W)
      → Tracks n realm s
      → WhenOk
          (λ made t. Tracks n made.0.realm t × Keeps realm made.0.realm)
          (new_object messages realm class_info vs s)
  unfolding new_object
  new_object-Tracks n realm class_info vs s tracked =
      step n realm (lua_index class_info (codes "primaryKey")) _ s
        (lua_index-KeepsBoxes class_info (codes "primaryKey")) tracked
        (λ name t t_tracked.
          WhenOk-bind (new_handle messages realm class_info (primary_key name) vs t)
            (new_handle-MakesHandle realm class_info (primary_key name) vs t)
            (λ handle u made. holds (
              subst (λ h. Tracks n (with_child h realm) u) (sym made.0)
                  (Tracks-with_child n realm t u t_tracked made.1),
              λ v. put_child_keeps handle v realm.child_handles,
            )))

  pub safe_get_class-KeepsBoxes :
      (realm : LuaRealm) (class_name : Bytes)
      → KeepsBoxes (safe_get_class messages realm class_name)
  unfolding safe_get_class
  safe_get_class-KeepsBoxes realm class_name =
      bind-KeepsBoxes (schema_field class_name realm.schema) _
        (schema_field-KeepsBoxes class_name realm.schema) (class_or_error-KeepsBoxes class_name)
