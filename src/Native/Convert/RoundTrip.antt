-- ===== src/Native/Convert/RoundTrip.antt =====
-- Values that go to Realm and come back.
use realm_lua_bootcamp.Prelude.{
  ℕ, ◌≡◌, refl, ◌↔◌, Bool, List, [], ◌∷◌, some, arith, get_elem?, get_elem?-append, set_same,
  length,
}
use realm_lua_bootcamp.Text.{Bytes, codes, c_string}
use realm_lua_bootcamp.Text.Laws.{NoZero, c_string_whole, c_string-NoZero}
use realm_lua_bootcamp.Lua.{
  Index, value_at, Value, nil, boolean, integer, number, string, userdata, State, ok, on, top, Exec,
  ◌>>=◌, type_of,
}
use realm_lua_bootcamp.Native.Api.{RealmApi, RealmValue, link}
use realm_lua_bootcamp.Native.Convert.Handles.{handle_box, push_handle_lem}
use realm_lua_bootcamp.Native.Convert.{lua_to_realm_value, realm_to_lua_value, inform_error}

-- The value on the top, taken to Realm and pushed as it comes back.
abbrev pub there_and_back : {W : Type 0} ⦃api : RealmApi W⦄ → ℕ → Exec W ℕ
there_and_back realm = do value ← lua_to_realm_value (top 1); realm_to_lua_value realm value

-- The Lua values that stand for no object.
pub data IsScalar : Value → Type 0 where
  a_boolean : (b : Bool) → IsScalar (boolean b)
  an_integer : (n : ℕ) → IsScalar (integer n)
  a_number : (d : ℕ) → IsScalar (number d)
  a_string : (t : Bytes) → NoZero t → IsScalar (string t)

-- The Realm value of a scalar.
abbrev pub realm_value : Value → RealmValue
realm_value (boolean b) = RealmValue.bool b
realm_value (integer n) = RealmValue.int n
realm_value (number d) = RealmValue.double d
realm_value (string t) = RealmValue.string t
realm_value _ = RealmValue.null

-- A scalar is converted wherever it stands, and nothing changes.
pub lua_to_realm_value-scalar :
    {W : Type 0} ⦃api : RealmApi W⦄ (i : Index) (v : Value) (s : State W)
    → value_at i s.stack ≡ some v
    → IsScalar v
    → lua_to_realm_value i s ≡ (ok (realm_value v), s)
unfolding lua_to_realm_value
lua_to_realm_value-scalar i _ s h (a_boolean b) = rw h
lua_to_realm_value-scalar i _ s h (an_integer n) = rw h
lua_to_realm_value-scalar i _ s h (a_number d) = rw h
lua_to_realm_value-scalar i _ s h (a_string t z) = rw h

-- A boolean, an integer, a float or a string without a zero byte comes back from Realm as it was,
-- as one result; nothing else changes.
there_and_back-scalar :
    {W : Type 0} ⦃api : RealmApi W⦄ (realm : ℕ) (v : Value) (s : State W) (below : List Value)
    → IsScalar v
    → there_and_back realm (on s (v ∷ below)) ≡ (ok 1, on s (v ∷ v ∷ below))
unfolding lua_to_realm_value realm_to_lua_value
there_and_back-scalar realm _ s below (a_boolean b) = refl
there_and_back-scalar realm _ s below (an_integer n) = refl
there_and_back-scalar realm _ s below (a_number d) = refl
there_and_back-scalar realm _ s below (a_string t h) = rw (c_string_whole t h)

-- A string comes back unchanged exactly if it has no zero byte; otherwise it is cut there.
pub there_and_back-string :
    {W : Type 0} ⦃api : RealmApi W⦄ (realm : ℕ) (t : Bytes) (s : State W) (below : List Value)
    → (there_and_back realm (on s (string t ∷ below))
        ≡ (ok 1, on s (string (c_string t) ∷ string t ∷ below)))
      × ((c_string t ≡ t) ↔ NoZero t)
unfolding lua_to_realm_value realm_to_lua_value
there_and_back-string realm t s below = (refl, (λ e. rw e at (c_string-NoZero t), c_string_whole t))

lua_to_realm_value-handle :
    {W : Type 0} ⦃api : RealmApi W⦄ (u p : ℕ) (s : State W) (below : List Value)
    → get_elem? s.boxes u ≡ some (handle_box p)
    → let l = api.object_as_link p s.world in
      lua_to_realm_value (top 1) (on s (userdata u ∷ below))
      ≡ (ok (link l.0), record s { stack = userdata u ∷ below; world = l.1 })
unfolding lua_to_realm_value
lua_to_realm_value-handle u p s below h = ground (arith, set_same s.boxes u (handle_box p) h)

-- An object comes back as a new handle on what `realm_object_as_link` named, with its class key as a
-- second result; the userdata of the argument stays as it was. The handle is in a box of its own.
there_and_back-object :
    {W : Type 0} ⦃api : RealmApi W⦄ (realm u p : ℕ) (s : State W) (below : List Value)
    → get_elem? s.boxes u ≡ some (handle_box p)
    → let l = api.object_as_link p s.world in
      let object = api.get_object realm l.0.target_table l.0.target l.1 in
      let t = there_and_back realm (on s (userdata u ∷ below)) in
      (t.0 ≡ ok 2)
      × ((n : ℕ) × (t.1.stack ≡ integer l.0.target_table ∷ userdata n ∷ userdata u ∷ below)
          × (get_elem? t.1.boxes n ≡ some (handle_box object.0)))
      × (t.1.world ≡ object.1)
unfolding realm_to_lua_value
there_and_back-object {W} ⦃api⦄ realm u p s below h =
    let l = api.object_as_link p s.world in
    let t : State W = record s { stack = userdata u ∷ below; world = l.1 } in
    rw
      (
        lua_to_realm_value-handle u p s below h,
        push_handle_lem (api.get_object realm l.0.target_table l.0.target) t,
      )
      (refl, (length s.boxes, refl, get_elem?-append s.boxes _ []), refl)

-- Nil is refused, whatever is to be set: nothing is converted and nothing changes.
pub lua_to_realm_value-nil :
    {W : Type 0} ⦃api : RealmApi W⦄ (s : State W) (below : List Value)
    → lua_to_realm_value (top 1) (on s (nil ∷ below))
      ≡ inform_error (codes "Uknown Lua type: %1") (codes "nil" ∷ []) (on s (nil ∷ below))
unfolding lua_to_realm_value type_of
lua_to_realm_value-nil s below = refl
