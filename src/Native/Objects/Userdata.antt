-- ===== src/Native/Objects/Userdata.antt =====
-- The userdata that the functions on objects make.
use realm_lua_bootcamp.Prelude.{
  ◌++◌, ℕ, zero, suc, ◌%◌, ◌^◌, ◌≡◌, refl, subst, Bool, true, false, [], ◌∷◌, List, arith, length,
  length-append,
}
use realm_lua_bootcamp.Lua.{
  Value, nil, boolean, integer, number, string, table, function, userdata, light, State, Exec,
  LuaType, Index, bottom, realm_handle, on, pure, result_of, Outcome, ◌>>=◌, ◌>>◌, call, handle_at,
  read, type_at, to_integer, call_c, Conversions, WhenOk, holds, raises, faults, WhenOk-bind,
  KeepsBoxes, pure-KeepsBoxes, call-KeepsBoxes, bind-KeepsBoxes, handle_at-KeepsBoxes,
  read-KeepsBoxes, type_at-KeepsBoxes, lua_l_checkudata-KeepsBoxes, lua_l_setmetatable-KeepsBoxes,
  after_call, first_of,
}
use realm_lua_bootcamp.Native.Api.{RealmApi, RealmValue}
use realm_lua_bootcamp.Native.Convert.{
  inform_error, inform_realm_error, lua_to_realm_value, value_of, or_realm_error,
  handle_or_realm_error, push_handle,
}
use realm_lua_bootcamp.Native.Convert.Handles.{push_handle_lem, handle_box}
use realm_lua_bootcamp.Native.Objects.{
  lib_realm_set_value, lib_realm_object_create, lib_realm_object_create_with_primary_key,
}

module _ {W : Type 0} ⦃api : RealmApi W⦄ where
  or_realm_error-KeepsBoxes : (b : Bool) → KeepsBoxes {W = W} (or_realm_error b)
  unfolding inform_realm_error inform_error
  or_realm_error-KeepsBoxes true s = holds refl
  or_realm_error-KeepsBoxes false s = raises

  value_of-KeepsBoxes : (i : Index) (v : Value) (t : LuaType) → KeepsBoxes {W = W} (value_of i v t)
  unfolding value_of inform_error
  value_of-KeepsBoxes i (integer n) t s = holds refl
  value_of-KeepsBoxes i (number d) t s = holds refl
  value_of-KeepsBoxes i (string b) t s = holds refl
  value_of-KeepsBoxes i (boolean b) t s = holds refl
  value_of-KeepsBoxes i (userdata u) t s =
      bind-KeepsBoxes _ _ (lua_l_checkudata-KeepsBoxes i realm_handle)
        (λ _. bind-KeepsBoxes _ _ (handle_at-KeepsBoxes i) (λ object.
          bind-KeepsBoxes _ _ (lua_l_setmetatable-KeepsBoxes realm_handle) (λ _.
            bind-KeepsBoxes (call (api.object_as_link object)) _ (call-KeepsBoxes _)
              (λ l. pure-KeepsBoxes (RealmValue.link l)))))
        s
  value_of-KeepsBoxes i nil t s = raises
  value_of-KeepsBoxes i (table fs) t s = raises
  value_of-KeepsBoxes i (function f) t s = raises
  value_of-KeepsBoxes i (light p) t s = raises

  lua_to_realm_value-KeepsBoxes : (i : Index) → KeepsBoxes {W = W} (lua_to_realm_value i)
  unfolding lua_to_realm_value
  lua_to_realm_value-KeepsBoxes i =
      bind-KeepsBoxes (read i) _ (read-KeepsBoxes i)
        (λ v. bind-KeepsBoxes (type_at i) _ (type_at-KeepsBoxes i) (value_of-KeepsBoxes i v))

module _ {W : Type 0} ⦃cv : Conversions⦄ ⦃api : RealmApi W⦄ where
  pub set_value-KeepsBoxes : KeepsBoxes {W = W} lib_realm_set_value
  unfolding lib_realm_set_value
  set_value-KeepsBoxes = bind-KeepsBoxes _ _ (handle_at-KeepsBoxes (bottom 1)) (λ realm.
      bind-KeepsBoxes _ _ (handle_at-KeepsBoxes (bottom 2)) (λ object.
        bind-KeepsBoxes _ _ (handle_at-KeepsBoxes (bottom 3)) (λ key.
          bind-KeepsBoxes _ _ (lua_to_realm_value-KeepsBoxes (bottom 4)) (λ value.
            bind-KeepsBoxes _ _ (call-KeepsBoxes _) (λ status.
              bind-KeepsBoxes _ _ (or_realm_error-KeepsBoxes status) (λ _. pure-KeepsBoxes 0))))))

module _ {W : Type 0} where
  -- One userdata is made, and it is the first result.
  abbrev MakesOne : Exec W ℕ → Type 0
  MakesOne m =
      (s : State W)
      → WhenOk
          (λ n t.
            (result_of n 0 t.stack ≡ userdata (length s.boxes))
            × (length t.boxes ≡ suc (length s.boxes)))
          (m s)

  bind-MakesOne :
      {A : Type 0} (m : Exec W A) (f : A → Exec W ℕ)
      → KeepsBoxes m
      → ((a : A) → MakesOne (f a))
      → MakesOne (m >>= f)
  bind-MakesOne m f h k s = WhenOk-bind (m s) (h s) (λ a t same.
      subst
        (λ n.
          WhenOk (λ i u. (result_of i 0 u.stack ≡ userdata n) × (length u.boxes ≡ suc n)) (f a t))
        same (k a t))

  -- One userdata is made, and it is the result.
  abbrev pub MakesHandle : Exec W Value → Type 0
  MakesHandle m =
      (s : State W)
      → WhenOk (λ v t. (v ≡ userdata (length s.boxes)) × (length t.boxes ≡ suc (length s.boxes)))
          (m s)

  pub bind-MakesHandle :
      {A : Type 0} (m : Exec W A) (f : A → Exec W Value)
      → KeepsBoxes m
      → ((a : A) → MakesHandle (f a))
      → MakesHandle (m >>= f)
  bind-MakesHandle m f h k s = WhenOk-bind (m s) (h s) (λ a t same.
      subst (λ n. WhenOk (λ v u. (v ≡ userdata n) × (length u.boxes ≡ suc n)) (f a t)) same (k a t))

  called :
      (s : State W) (n : ℕ) (r : Outcome ℕ × State W)
      → WhenOk (λ i t. (result_of i 0 t.stack ≡ userdata n) × (length t.boxes ≡ suc n)) r
      → WhenOk (λ v t. (v ≡ userdata n) × (length t.boxes ≡ suc n)) (first_of (after_call s r))
  called s n _ (holds h) = holds h
  called s n _ raises = raises
  called s n _ faults = faults

module _ {W : Type 0} ⦃api : RealmApi W⦄ where
  or_error :
      (p n : ℕ) (s : State W)
      → length s.boxes ≡ suc n
      → WhenOk
          (λ i t. (result_of i 0 t.stack ≡ userdata n) × (length t.boxes ≡ suc n))
          ((handle_or_realm_error p >> pure 1) (record s { stack = userdata n ∷ s.stack }))
  unfolding inform_realm_error inform_error
  or_error zero n s grown = raises
  or_error (suc p) n s grown = holds (refl, grown)

  push_handle-MakesOne :
      (make : W → ℕ × W)
      → MakesOne {W = W} (do p ← push_handle make; handle_or_realm_error p; pure 1)
  push_handle-MakesOne make s =
      let made = make s.world in
      let t : State W = record s { boxes = s.boxes ++ handle_box made.0 ∷ []; world = made.1 } in
      rw (push_handle_lem make s) (
        or_error made.0 (length s.boxes) t
          (omega (arith, length-append s.boxes (handle_box made.0 ∷ []))))

module _ {W : Type 0} ⦃cv : Conversions⦄ ⦃api : RealmApi W⦄ where
  object_create-MakesOne : MakesOne {W = W} lib_realm_object_create
  unfolding lib_realm_object_create
  object_create-MakesOne =
      bind-MakesOne (handle_at (bottom 1)) _ (handle_at-KeepsBoxes (bottom 1)) (λ realm.
        bind-MakesOne (read (bottom 2)) _ (read-KeepsBoxes (bottom 2))
          (λ key. push_handle-MakesOne (api.object_create realm (to_integer key % 2 ^ 32))))

  object_create_with_primary_key-MakesOne :
      MakesOne {W = W} lib_realm_object_create_with_primary_key
  unfolding lib_realm_object_create_with_primary_key
  object_create_with_primary_key-MakesOne =
      bind-MakesOne (handle_at (bottom 1)) _ (handle_at-KeepsBoxes (bottom 1)) (λ realm.
        bind-MakesOne (read (bottom 2)) _ (read-KeepsBoxes (bottom 2)) (λ key.
          bind-MakesOne (lua_to_realm_value (bottom 3)) _ (lua_to_realm_value-KeepsBoxes (bottom 3))
            (λ pk.
              push_handle-MakesOne
                (api.object_create_with_primary_key realm (to_integer key % 2 ^ 32) pk))))

  pub object_create-MakesHandle :
      (args : List Value) → MakesHandle {W = W} (call_c lib_realm_object_create args)
  object_create-MakesHandle args s =
      called s (length s.boxes) (lib_realm_object_create (on s args))
        (object_create-MakesOne (on s args))

  pub object_create_with_primary_key-MakesHandle :
      (args : List Value)
      → MakesHandle {W = W} (call_c lib_realm_object_create_with_primary_key args)
  object_create_with_primary_key-MakesHandle args s =
      called s (length s.boxes) (lib_realm_object_create_with_primary_key (on s args))
        (object_create_with_primary_key-MakesOne (on s args))
