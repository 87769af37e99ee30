-- ===== src/Realm/Objects/Tracked.antt =====
-- `Realm:create` keeps track of the objects that it makes.
use realm_lua_bootcamp.Prelude.{ℕ, Bool, true, false, Option, none, some, if◌then◌else◌}
use realm_lua_bootcamp.Text.{Bytes, codes, text_eq}
use realm_lua_bootcamp.Lua.{
  Value, nil, State, Exec, Conversions, pure, crash, WhenOk, holds, faults, WhenOk-bind,
  WhenOk-mono,
}
use realm_lua_bootcamp.Native.Api.{RealmApi}
use realm_lua_bootcamp.Realm.{LuaRealm, Messages, safe_get_class}
use realm_lua_bootcamp.Realm.Objects.{LuaObject, lua_index, lookup, property_of}
use realm_lua_bootcamp.Realm.Objects.Creation.{
  Given, plain, object, values, Values, no_values, entry, is_key, is_own, set_own, as_value,
  new_object, object_newindex, assign_values, object_new, realm_create,
}
use realm_lua_bootcamp.Realm.Objects.Children.{
  Keeps, Tracks, step, lua_index-KeepsBoxes, lookup-KeepsBoxes, property_of-KeepsBoxes,
  write_property-Tracks, new_object-Tracks, safe_get_class-KeepsBoxes,
}

module _ {W : Type 0} ⦃cv : Conversions⦄ ⦃api : RealmApi W⦄ (messages : Messages W) where
  one_of :
      {A : Type 0} {P : A → State W → Type 0} (b c : Bool) (l m n : Exec W A) (s : State W)
      → WhenOk P (l s)
      → WhenOk P (m s)
      → WhenOk P (n s)
      → WhenOk P ((if b then l else if c then m else n) s)
  one_of true c l m n s h i j = h
  one_of false true l m n s h i j = i
  one_of false false l m n s h i j = j

  set_own-Tracks :
      (name : Bytes) (v : Value) (n : ℕ) (o : LuaObject) (s : State W)
      → Tracks n o.realm s
      → WhenOk
          (λ changed t. Tracks n changed.realm t × Keeps o.realm changed.realm)
          (set_own name v o s)
  set_own-Tracks name v n o s tracked =
      one_of (text_eq (codes "_handle") name) (text_eq (codes "class") name) _ _ _ s
        (holds (tracked, λ x there. there)) (holds (tracked, λ x there. there))
        (one_of (text_eq (codes "_realm") name) false crash (pure o) (pure o) s faults
          (holds (tracked, λ x there. there)) (holds (tracked, λ x there. there)))

  mutual
    unfolding object_newindex

    newindex-Tracks :
        (given : Given) (n : ℕ) (o : LuaObject) (prop : Bytes) (s : State W)
        → Tracks n o.realm s
        → WhenOk (λ r t. Tracks n r t × Keeps o.realm r) (object_newindex messages given o prop s)
    newindex-Tracks (plain v) n o prop s tracked =
        step n o.realm (property_of messages o prop) _ s (property_of-KeepsBoxes messages o prop)
          tracked
          (λ property t t_tracked.
            write_property-Tracks messages n o property v o.realm t t_tracked)
    newindex-Tracks (object handle) n o prop s tracked =
        step n o.realm (property_of messages o prop) _ s (property_of-KeepsBoxes messages o prop)
          tracked
          (λ property t t_tracked.
            write_property-Tracks messages n o property handle o.realm t t_tracked)
    newindex-Tracks (values vs) n o prop s tracked =
        step n o.realm (property_of messages o prop) _ s (property_of-KeepsBoxes messages o prop)
          tracked
          (λ property s1 tracked1.
            step n o.realm (lua_index property (codes "objectType")) _ s1
              (lua_index-KeepsBoxes property (codes "objectType")) tracked1
              (λ object_type s2 tracked2.
                step n o.realm (lookup o.realm.schema object_type) _ s2
                  (lookup-KeepsBoxes o.realm.schema object_type) tracked2
                  (λ target s3 tracked3.
                    WhenOk-bind (new_object messages o.realm target (some vs) s3)
                      (new_object-Tracks messages n o.realm target (some vs) s3 tracked3)
                      (λ started s4 h4.
                        WhenOk-bind (assign_values messages vs started.1 started.0 s4)
                          (values-Tracks vs started.1 n started.0 s4 h4.0)
                          (λ made s5 h5.
                            WhenOk-mono
                              (write_property-Tracks messages n o property made.handle made.realm s5
                                h5.0)
                              (λ r t h. (h.0, λ v there. h.1 v (h5.1 v (h4.1 v there)))))))))

    values-Tracks :
        (vs : Values) (key : Option Value) (n : ℕ) (o : LuaObject) (s : State W)
        → Tracks n o.realm s
        → WhenOk
            (λ made t. Tracks n made.realm t × Keeps o.realm made.realm)
            (assign_values messages vs key o s)
    values-Tracks no_values key n o s tracked = holds (tracked, λ v there. there)
    values-Tracks (entry name given vs) key n o s tracked =
        one_of (is_key key name) (is_own name) _ _ _ s (values-Tracks vs key n o s tracked)
          (WhenOk-bind (set_own name (as_value given) o s)
            (set_own-Tracks name (as_value given) n o s tracked)
            (λ changed t h.
              WhenOk-mono (values-Tracks vs key n changed t h.0)
                (λ made u k. (k.0, λ v there. k.1 v (h.1 v there)))))
          (WhenOk-bind (object_newindex messages given o name s)
            (newindex-Tracks given n o name s tracked)
            (λ realm t h.
              WhenOk-mono (values-Tracks vs key n (record o { realm = realm }) t h.0)
                (λ made u k. (k.0, λ v there. k.1 v (h.1 v there)))))

  -- What `Realm:create` makes from a table of values, it keeps track of: however deep the tables are
  -- nested that become objects of their own, every userdata that it makes is the handle of a child of
  -- the realm, and no child is lost. `n` is the number of userdata
  -- from which on all are children already.
  pub realm_create-Tracks :
      (n : ℕ) (realm : LuaRealm) (class_name : Bytes) (vs : Option Values) (s : State W)
      → Tracks n realm s
      → WhenOk
          (λ o t. Tracks n o.realm t × Keeps realm o.realm)
          (realm_create messages realm class_name vs nil s)
  unfolding realm_create object_new
  realm_create-Tracks n realm class_name none s tracked =
      step n realm (safe_get_class messages realm class_name) _ s
        (safe_get_class-KeepsBoxes messages realm class_name) tracked
        (λ class_info t t_tracked.
          WhenOk-bind (new_object messages realm class_info none t)
            (new_object-Tracks messages n realm class_info none t t_tracked)
            (λ started u h. holds h))
  realm_create-Tracks n realm class_name (some vs) s tracked =
      step n realm (safe_get_class messages realm class_name) _ s
        (safe_get_class-KeepsBoxes messages realm class_name) tracked
        (λ class_info t t_tracked.
          WhenOk-bind (new_object messages realm class_info (some vs) t)
            (new_object-Tracks messages n realm class_info (some vs) t t_tracked)
            (λ started u h.
              WhenOk-mono (values-Tracks vs started.1 n started.0 u h.0)
                (λ made x k. (k.0, λ v there. k.1 v (h.1 v there)))))
