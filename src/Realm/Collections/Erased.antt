-- ===== src/Realm/Collections/Erased.antt =====
-- What is left of a list after a Lua program has erased an element.
use realm_lua_bootcamp.Prelude.{
  ℕ, suc, ◌-◌, ◌^◌, ◌≤◌, ◌<◌, ◌≡◌, refl, ap, ◌∙◌, true, List, [], ◌∷◌, ◌++◌, some, length, arith,
  get_elem?, take, drop, length-append, length-drop, take-append-drop,
}
use realm_lua_bootcamp.Lua.{nil, integer, userdata, State, ok, Conversions, call_c, to_integer}
use realm_lua_bootcamp.Native.Api.{RealmApi, RealmValue}
use realm_lua_bootcamp.Native.Convert.Handles.{handle_box}
use realm_lua_bootcamp.Native.Lists.{lib_realm_list_erase, lib_realm_list_size}
use realm_lua_bootcamp.Realm.Collections.{plain, Collection, list_newindex, list_len}
use realm_lua_bootcamp.Realm.Collections.Indices.{before_lem}

-- What realm-core documents of the size of a list handle `p`, and of erasing in a write transaction:
-- `view` is what it holds.
pub record EraseLaws {W : Type 0} (api : RealmApi W) (p : ℕ) (view : W → List RealmValue)
    (InWrite : W → Type 0) : Type 0 where
  pub size : (w : W) → api.list_size p w ≡ (some (length (view w)), w)
  pub erase_ok : (w : W) (i : ℕ) → InWrite w → i < length (view w) → (api.list_erase p i w).0 ≡ true
  pub erase_takes :
      (w : W) (i : ℕ)
      → InWrite w
      → i < length (view w)
      → view (api.list_erase p i w).1 ≡ take i (view w) ++ drop (suc i) (view w)

length-erased :
    {A : Type 0} (xs : List A) (i : ℕ)
    → i < length xs
    → length (take i xs ++ drop (suc i) xs) ≡ length xs - 1
length-erased xs i inside =
    let whole = ap length (take-append-drop i xs) in
    omega (
      arith,
      length-append (take i xs) (drop (suc i) xs),
      length-append (take i xs) (drop i xs),
      whole,
      length-drop i xs,
      length-drop (suc i) xs,
      inside,
    )

module _ {W : Type 0} ⦃cv : Conversions⦄ ⦃api : RealmApi W⦄ {view : W → List RealmValue}
    {InWrite : W → Type 0} (p : ℕ) (laws : EraseLaws api p view InWrite) where
  erase_lem :
      (u i : ℕ) (s : State W)
      → get_elem? s.boxes u ≡ some (handle_box p)
      → InWrite s.world
      → i < length (view s.world)
      → call_c lib_realm_list_erase (integer i ∷ userdata u ∷ []) s
        ≡ (ok nil, record s { world = (api.list_erase p i s.world).1 })
  unfolding lib_realm_list_erase to_integer
  erase_lem u i s h w inside = rw (h, laws.erase_ok s.world i w inside) refl

  size_lem :
      (u : ℕ) (s : State W)
      → get_elem? s.boxes u ≡ some (handle_box p)
      → call_c lib_realm_list_size (userdata u ∷ []) s ≡ (ok (integer (length (view s.world))), s)
  unfolding lib_realm_list_size
  size_lem u s h = rw (h, laws.size s.world) refl

  -- `list[i] = nil`, with an index from 1 to the list's length, below 2^64, takes the element at that place
  -- out: those before it stay, and those behind it move forward by one. `#list` is then one less. The
  -- handle is a list's, as `laws` has it, and the realm is in a write transaction.
  pub list_newindex-erase :
      (c : Collection) (u i : ℕ) (s : State W)
      → c.handle ≡ userdata u
      → get_elem? s.boxes u ≡ some (handle_box p)
      → InWrite s.world
      → 1 ≤ i
      → i ≤ length (view s.world)
      → i < 2 ^ 64
      → let t = list_newindex c i (plain nil) s in
        (t.0 ≡ ok nil)
        × (view t.1.world ≡ take (i - 1) (view s.world) ++ drop i (view s.world))
        × (list_len c t.1 ≡ (ok (integer (length (view s.world) - 1)), t.1))
  unfolding list_newindex list_len
  list_newindex-erase c u i s handle h w positive inside fits =
      let xs = view s.world in
      let j = i - 1 in
      let within : j < length xs = omega arith in
      let next : suc j ≡ i = omega arith in
      let t : State W = record s { world = (api.list_erase p j s.world).1 } in
      let left : view t.world ≡ take j xs ++ drop i xs =
        laws.erase_takes s.world j w within ∙ ap (λ n. take j xs ++ drop n xs) next in
      let size : length (view t.world) ≡ length xs - 1 =
        ap length (laws.erase_takes s.world j w within) ∙ length-erased xs j within in
      rw (handle, before_lem i positive fits, erase_lem u j s h w within)
        (refl, left, size_lem u t h ∙ ap (λ n. (ok (integer n), t)) size)
