-- ===== src/Native/Sets/Members.antt =====
-- A set's members, one by one.
use realm_lua_bootcamp.Prelude.{ℕ, ◌≡◌, refl, Bool, true, false, List, [], ◌∷◌, some, get_elem?}
use realm_lua_bootcamp.Lua.{Value, boolean, userdata, State, ok, on, bottom}
use realm_lua_bootcamp.Native.Api.{RealmApi, RealmValue}
use realm_lua_bootcamp.Native.Convert.Handles.{handle_box}
use realm_lua_bootcamp.Native.Convert.RoundTrip.{IsScalar, realm_value, lua_to_realm_value-scalar}
use realm_lua_bootcamp.Native.Sets.{lib_realm_set_insert, lib_realm_set_erase, lib_realm_set_find}

-- What realm-core documents of a set handle `p` in a write transaction: `view` tells its members.
pub record SetLaws {W : Type 0} (api : RealmApi W) (p : ℕ) (view : W → RealmValue → Bool)
    (InWrite : W → Type 0) : Type 0 where
  pub find : (w : W) (v : RealmValue) → api.set_find p v w ≡ (some (view w v), w)
  pub insert_ok : (w : W) (v : RealmValue) → InWrite w → (api.set_insert p v w).0 ≡ true
  pub insert_same : (w : W) (v : RealmValue) → InWrite w → view (api.set_insert p v w).1 v ≡ true
  pub insert_writes : (w : W) (v : RealmValue) → InWrite w → InWrite (api.set_insert p v w).1
  pub erase : (w : W) (v : RealmValue) → InWrite w → (api.set_erase p v w).0 ≡ some (view w v)
  pub erase_same : (w : W) (v : RealmValue) → InWrite w → view (api.set_erase p v w).1 v ≡ false

-- The arguments of the functions of one value.
abbrev pub arguments : ℕ → Value → List Value
arguments u v = v ∷ userdata u ∷ []

module _ {W : Type 0} ⦃api : RealmApi W⦄ {view : W → RealmValue → Bool} {InWrite : W → Type 0}
    (p : ℕ) (laws : SetLaws api p view InWrite) where
  insert_lem :
      (s : State W) (u : ℕ) (v : Value)
      → IsScalar v
      → get_elem? s.boxes u ≡ some (handle_box p)
      → InWrite s.world
      → lib_realm_set_insert (on s (arguments u v)) ≡ (
        ok 0,
        record s { stack = arguments u v; world = (api.set_insert p (realm_value v) s.world).1 },
      )
  unfolding lib_realm_set_insert
  insert_lem s u v scalar h w = rw (
    lua_to_realm_value-scalar (bottom 2) v (on s (arguments u v)) refl scalar,
    h,
    laws.insert_ok s.world (realm_value v) w,
  )

  find_lem :
      (s : State W) (u : ℕ) (v : Value)
      → IsScalar v
      → get_elem? s.boxes u ≡ some (handle_box p)
      → lib_realm_set_find (on s (arguments u v))
        ≡ (ok 1, on s (boolean (view s.world (realm_value v)) ∷ arguments u v))
  unfolding lib_realm_set_find
  find_lem s u v scalar h = rw (
    h,
    lua_to_realm_value-scalar (bottom 2) v (on s (arguments u v)) refl scalar,
    laws.find s.world (realm_value v),
  )

  erase_lem :
      (s : State W) (u : ℕ) (v : Value)
      → IsScalar v
      → get_elem? s.boxes u ≡ some (handle_box p)
      → InWrite s.world
      → lib_realm_set_erase (on s (arguments u v)) ≡ (
        ok 1,
        record s {
          stack = boolean (view s.world (realm_value v)) ∷ arguments u v;
          world = (api.set_erase p (realm_value v) s.world).1;
        },
      )
  unfolding lib_realm_set_erase
  erase_lem s u v scalar h w = rw (
    h,
    lua_to_realm_value-scalar (bottom 2) v (on s (arguments u v)) refl scalar,
    laws.erase s.world (realm_value v) w,
  )

  -- A scalar that is inserted into a set is then found in it; erasing it then tells that it was
  -- there, and after that it is not found. The handle is a set's, as `laws` has it, and the realm is
  -- in a write transaction.
  pub set_find-erase-insert :
      (s : State W) (u : ℕ) (v : Value)
      → IsScalar v
      → get_elem? s.boxes u ≡ some (handle_box p)
      → InWrite s.world
      → let inserted = lib_realm_set_insert (on s (arguments u v)) in
        let found = lib_realm_set_find (on inserted.1 (arguments u v)) in
        let erased = lib_realm_set_erase (on inserted.1 (arguments u v)) in
        let lost = lib_realm_set_find (on erased.1 (arguments u v)) in
        (inserted.0 ≡ ok 0)
        × (found ≡ (ok 1, on inserted.1 (boolean true ∷ arguments u v)))
        × (erased.0 ≡ ok 1)
        × (erased.1.stack ≡ boolean true ∷ arguments u v)
        × (lost ≡ (ok 1, on erased.1 (boolean false ∷ arguments u v)))
  set_find-erase-insert s u v scalar h w =
      let w' = (api.set_insert p (realm_value v) s.world).1 in
      let t : State W = record s { stack = arguments u v; world = w' } in
      let writes = laws.insert_writes s.world (realm_value v) w in
      let e : State W = record s {
        stack = boolean (view w' (realm_value v)) ∷ arguments u v;
        world = (api.set_erase p (realm_value v) w').1;
      } in
      rw
        (
          insert_lem s u v scalar h w,
          find_lem t u v scalar h,
          erase_lem t u v scalar h writes,
          find_lem e u v scalar h,
          laws.insert_same s.world (realm_value v) w,
          laws.erase_same w' (realm_value v) writes,
        )
        (refl, refl, refl, refl, refl)
