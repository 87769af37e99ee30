-- ===== src/Realm/Collections/Indices.antt =====
-- What a Lua program finds in a list, a set and a dictionary after it has written to it.
use realm_lua_bootcamp.Prelude.{
  ℕ, ◌+◌, ◌-◌, ◌^◌, ◌≤◌, ◌<◌, ◌≡◌, refl, ap, sym, ◌∙◌, List, [], ◌∷◌, some, length, arith,
  get_elem?,
}
use realm_lua_bootcamp.Lua.{
  Value, nil, integer, userdata, State, ok, Exec, on, Conversions, call_c, pure, ◌>>=◌, result_of,
}
use realm_lua_bootcamp.Text.Laws.{c_string_whole}
use realm_lua_bootcamp.Native.Api.{RealmApi, RealmValue}
use realm_lua_bootcamp.Native.Convert.{realm_to_lua_value}
use realm_lua_bootcamp.Native.Convert.Handles.{handle_box}
use realm_lua_bootcamp.Native.Convert.RoundTrip.{
  IsScalar, a_boolean, an_integer, a_number, a_string, realm_value,
}
use realm_lua_bootcamp.Native.Lists.{lib_realm_list_insert, lib_realm_list_get}
use realm_lua_bootcamp.Native.Lists.Assign.{
  ListLaws, assign, assigned_or_same, assign_outcome, list_insert-assign, list_get-insert,
  assign-some, insert_arguments, get_arguments,
}
use realm_lua_bootcamp.Realm.{LuaRealm}
use realm_lua_bootcamp.Realm.Collections.{
  Item, plain, Collection, before, argument, item_of, list_index, list_newindex,
}

pub item_of-scalar :
    (v : Value) (realm : LuaRealm) → IsScalar v → item_of v realm ≡ (plain v, realm)
unfolding item_of
item_of-scalar _ realm (a_boolean b) = refl
item_of-scalar _ realm (an_integer n) = refl
item_of-scalar _ realm (a_number d) = refl
item_of-scalar _ realm (a_string t h) = refl

-- The place in the list of an index from 1 on.
pub before_lem : (i : ℕ) → 1 ≤ i → i < 2 ^ 64 → before i ≡ i - 1
before_lem i h bound = omega arith

module _ {W : Type 0} where
  -- A call that succeeds, and its first result.
  pub call_c-first :
      (f : Exec W ℕ) (args : List Value) (n : ℕ) (s : State W)
      → (f (on s args)).0 ≡ ok n
      → call_c f args s ≡ (ok (result_of n 0 (f (on s args)).1.stack), on (f (on s args)).1 s.stack)
  call_c-first f args n s h = rw h refl

  pub realm_to_lua_value-scalar :
      ⦃api : RealmApi W⦄ (q : ℕ) (v : Value) (s : State W)
      → IsScalar v
      → realm_to_lua_value q (realm_value v) s ≡ (ok 1, on s (v ∷ s.stack))
  unfolding realm_to_lua_value
  realm_to_lua_value-scalar q _ s (a_boolean b) = refl
  realm_to_lua_value-scalar q _ s (an_integer n) = refl
  realm_to_lua_value-scalar q _ s (a_number d) = refl
  realm_to_lua_value-scalar q _ s (a_string t h) = rw (c_string_whole t h) refl

  list_newindex-insert :
      ⦃cv : Conversions⦄ ⦃api : RealmApi W⦄ (c : Collection) (i : ℕ) (v : Value) (s : State W)
      → IsScalar v
      → list_newindex c i (plain v) s
        ≡ call_c lib_realm_list_insert (v ∷ integer (before i) ∷ c.handle ∷ []) s
  unfolding list_newindex argument
  list_newindex-insert c i _ s (a_boolean b) = refl
  list_newindex-insert c i _ s (an_integer n) = refl
  list_newindex-insert c i _ s (a_number d) = refl
  list_newindex-insert c i _ s (a_string t h) = refl

-- Reading a place of a list.
abbrev fetch :
    {W : Type 0} ⦃cv : Conversions⦄ ⦃api : RealmApi W⦄
    → LuaRealm
    → ℕ
    → Value
    → Value
    → Exec W (Item × LuaRealm)
fetch owner i realm handle = do
  value ← call_c lib_realm_list_get (integer i ∷ realm ∷ handle ∷ [])
  pure (item_of value owner)

module _ {W : Type 0} ⦃cv : Conversions⦄ ⦃api : RealmApi W⦄ {view : W → List RealmValue}
    {InWrite : W → Type 0} (p : ℕ) (laws : ListLaws api p view InWrite) where
  -- After `list[i] = v`, with a scalar and an index from 1 to one more than the list's length, below 2^64, the
  -- list is what `assign` says at the place before `i`, and `list[i]` is `v`; reading changes nothing.
  -- The handle is a list's, as `laws` has it, and the realm is in a write transaction.
  pub list_index-newindex :
      (c : Collection) (u r q i : ℕ) (v : Value) (s : State W)
      → IsScalar v
      → c.handle ≡ userdata u
      → c.realm.handle ≡ userdata r
      → get_elem? s.boxes u ≡ some (handle_box p)
      → get_elem? s.boxes r ≡ some (handle_box q)
      → InWrite s.world
      → 1 ≤ i
      → i ≤ length (view s.world) + 1
      → i < 2 ^ 64
      → let t = list_newindex c i (plain v) s in
        (t.0 ≡ ok nil)
        × (some (view t.1.world) ≡ assign (view s.world) (i - 1) (realm_value v))
        × (list_index c i t.1 ≡ (ok (plain v, c.realm), t.1))
  unfolding list_index
  list_index-newindex c u r q i v s scalar handle realm h hr w positive bound fits =
      let at = before_lem i positive fits in
      let args = insert_arguments u (i - 1) v in
      let e = list_insert-assign p laws s u (i - 1) v scalar h w in
      let l = assign-some (view s.world) (i - 1) (realm_value v) (omega arith) in
      let done : (lib_realm_list_insert (on s args)).0 ≡ ok 0 = e.0 ∙ ap (assign_outcome api) l.1 in
      let got = list_get-insert p laws s u r q (i - 1) v scalar h hr w (omega arith) in
      let t = on (lib_realm_list_insert (on s args)).1 s.stack in
      rw
        (
          list_newindex-insert c i v s scalar,
          handle,
          at,
          call_c-first lib_realm_list_insert args 0 s done,
        )
        (
          refl,
          ap some (e.1 ∙ ap (assigned_or_same (view s.world)) l.1) ∙ sym l.1,
          ap (λ x. fetch c.realm (i - 1) x (userdata u) t) realm
              ∙ rw
                  (
                    got,
                    realm_to_lua_value-scalar q v
                        (on (lib_realm_list_insert (on s args)).1 (get_arguments u r (i - 1)))
                        scalar,
                    item_of-scalar v c.realm scalar,
                  )
                  refl,
        )
