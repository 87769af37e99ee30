-- ===== src/Native/Transactions/Release.antt =====
-- A handle is released once: by `Realm:close`, or by the garbage collector after it.
use realm_lua_bootcamp.Prelude.{
  ℕ, ◌≡◌, refl, [], ◌∷◌, some, arith, get_elem?, set, get_elem?-set_self, lt_of_get_elem?,
}
use realm_lua_bootcamp.Lua.{userdata, State, ok, on}
use realm_lua_bootcamp.Native.Api.{RealmApi}
use realm_lua_bootcamp.Native.Convert.Handles.{handle_box}
use realm_lua_bootcamp.Native.Transactions.{lib_realm_release}

module _ {W : Type 0} ⦃api : RealmApi W⦄ (u p : ℕ) (s : State W) where
  -- Releasing a handle releases its pointer and sets it to null.
  release_lem :
      get_elem? s.boxes u ≡ some (handle_box p)
      → lib_realm_release (on s (userdata u ∷ [])) ≡ (
        ok 0,
        record s {
          stack = userdata u ∷ [];
          boxes = set s.boxes u (handle_box 0);
          world = api.release p s.world;
        },
      )
  unfolding lib_realm_release
  release_lem h = ground arith

-- Releasing a handle twice, as closing a realm and then collecting it does, gives its pointer to
-- `realm_release` once: the second call gives the null pointer. Both calls succeed, and the handle
-- holds the null pointer.
pub release_twice :
    {W : Type 0} ⦃api : RealmApi W⦄ (u p : ℕ) (s : State W)
    → get_elem? s.boxes u ≡ some (handle_box p)
    → let once = lib_realm_release (on s (userdata u ∷ [])) in
      let twice = lib_realm_release once.1 in
      (once.0 ≡ ok 0)
      × (twice.0 ≡ ok 0)
      × (twice.1.world ≡ api.release 0 (api.release p s.world))
      × (get_elem? twice.1.boxes u ≡ some (handle_box 0))
release_twice {W} ⦃api⦄ u p s h =
    let bound = lt_of_get_elem? s.boxes u h in
    let t : State W = record s {
      stack = userdata u ∷ [];
      boxes = set s.boxes u (handle_box 0);
      world = api.release p s.world;
    } in
    let null = get_elem?-set_self s.boxes u (handle_box 0) bound in
    rw (release_lem u p s h, release_lem u 0 t null)
      (
        refl,
        refl,
        refl,
        get_elem?-set_self t.boxes u (handle_box 0) (lt_of_get_elem? t.boxes u null),
      )
