-- ===== src/Native/Convert/Handles.antt =====
-- The handle that a function pushes: a new userdata at the end of the boxes.
use realm_lua_bootcamp.Prelude.{ℕ, ◌≡◌, [], ◌∷◌, ◌++◌, length, get_elem?-append, set-append}
use realm_lua_bootcamp.Lua.{State, ok, userdata, Box, realm_handle, plain}
use realm_lua_bootcamp.Native.Api.{RealmApi}
use realm_lua_bootcamp.Native.Convert.{push_handle}

abbrev pub handle_box : ℕ → Box
handle_box p = record { pointer = p; meta = realm_handle }

-- The state with one more userdata, that holds `p`, on the stack.
abbrev pub with_handle : {W : Type 0} → State W → ℕ → W → State W
with_handle s p w = record s {
  stack = userdata (length s.boxes) ∷ s.stack;
  boxes = s.boxes ++ handle_box p ∷ [];
  world = w;
}

pub push_handle_lem :
    {W : Type 0} ⦃api : RealmApi W⦄ (make : W → ℕ × W) (s : State W)
    → push_handle make s ≡ (ok (make s.world).0, with_handle s (make s.world).0 (make s.world).1)
unfolding push_handle
push_handle_lem make s = rw (
  get_elem?-append s.boxes (record { pointer = 0; meta = plain }) [],
  set-append s.boxes (record { pointer = 0; meta = plain }) (handle_box 0) [],
  get_elem?-append s.boxes (handle_box 0) [],
  set-append s.boxes (handle_box 0) (handle_box (make s.world).0) [],
)
