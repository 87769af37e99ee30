-- ===== src/Native/Objects/Created.antt =====
-- What the functions that create an object leave when realm-core makes it.
use realm_lua_bootcamp.Prelude.{ℕ, suc, ◌%◌, ◌^◌, ◌≡◌, refl, [], ◌∷◌, ◌++◌, some, length, get_elem?}
use realm_lua_bootcamp.Lua.{
  Value, integer, userdata, State, ok, on, bottom, call_c, to_integer, Conversions,
}
use realm_lua_bootcamp.Native.Api.{RealmApi}
use realm_lua_bootcamp.Native.Convert.Handles.{handle_box, push_handle_lem}
use realm_lua_bootcamp.Native.Convert.RoundTrip.{IsScalar, realm_value, lua_to_realm_value-scalar}
use realm_lua_bootcamp.Native.Objects.{
  lib_realm_object_create, lib_realm_object_create_with_primary_key,
}

module _ {W : Type 0} ⦃cv : Conversions⦄ ⦃api : RealmApi W⦄ where
  pub object_create_lem :
      (s : State W) (r q n p : ℕ)
      → get_elem? s.boxes r ≡ some (handle_box q)
      → (api.object_create q (n % 2 ^ 32) s.world).0 ≡ suc p
      → call_c lib_realm_object_create (integer n ∷ userdata r ∷ []) s ≡ (
        ok (userdata (length s.boxes)),
        record s {
          boxes = s.boxes ++ handle_box (suc p) ∷ [];
          world = (api.object_create q (n % 2 ^ 32) s.world).1;
        },
      )
  unfolding lib_realm_object_create to_integer
  object_create_lem s r q n p h made =
      rw
        (
          h,
          push_handle_lem (api.object_create q (n % 2 ^ 32)) (on s (integer n ∷ userdata r ∷ [])),
          made,
        )
        refl

  pub object_create_with_primary_key_lem :
      (s : State W) (r q n p : ℕ) (v : Value)
      → IsScalar v
      → get_elem? s.boxes r ≡ some (handle_box q)
      → (api.object_create_with_primary_key q (n % 2 ^ 32) (realm_value v) s.world).0 ≡ suc p
      → call_c lib_realm_object_create_with_primary_key (v ∷ integer n ∷ userdata r ∷ []) s ≡ (
        ok (userdata (length s.boxes)),
        record s {
          boxes = s.boxes ++ handle_box (suc p) ∷ [];
          world = (api.object_create_with_primary_key q (n % 2 ^ 32) (realm_value v) s.world).1;
        },
      )
  unfolding lib_realm_object_create_with_primary_key to_integer
  object_create_with_primary_key_lem s r q n p v scalar h made =
      let t = on s (v ∷ integer n ∷ userdata r ∷ []) in
      rw
        (
          h,
          lua_to_realm_value-scalar (bottom 3) v t refl scalar,
          push_handle_lem (api.object_create_with_primary_key q (n % 2 ^ 32) (realm_value v)) t,
          made,
        )
        refl
