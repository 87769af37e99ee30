-- ===== src/Native/Lists/Assign.antt =====
-- `list[i] = v` and `list[i]` against a plain list.
use mathlib.Core.Option
use realm_lua_bootcamp.Prelude.{
  ℕ, zero, suc, ◌≤◌, ◌<◌, ◌≡◌, refl, ap, ◌∙◌, true, List, [], ◌∷◌, ◌++◌, Option, none, some, arith,
  get_elem?, set, length, get_elem?-append, get_elem?-set_self, lt_of_get_elem?, dec_lt,
}
use realm_lua_bootcamp.Text.{Bytes, codes, c_string}
use realm_lua_bootcamp.Lua.{
  Value, bottom, pure, ◌>>=◌, ◌>>◌, integer, userdata, State, Exec, Outcome, ok, raised, on,
  Conversions,
}
use realm_lua_bootcamp.Native.Api.{RealmApi, RealmValue}
use realm_lua_bootcamp.Native.Convert.{or_realm_error, inform_realm_error, realm_to_lua_value}
use realm_lua_bootcamp.Native.Convert.Handles.{handle_box}
use realm_lua_bootcamp.Native.Convert.RoundTrip.{IsScalar, realm_value, lua_to_realm_value-scalar}
use realm_lua_bootcamp.Native.Lists.{insert_at, lib_realm_list_insert, lib_realm_list_get}

-- What realm-core documents of a list handle `p` in a write transaction: `view` is what it holds.
pub record ListLaws {W : Type 0} (api : RealmApi W) (p : ℕ) (view : W → List RealmValue)
    (InWrite : W → Type 0) : Type 0 where
  pub size : (w : W) → api.list_size p w ≡ (some (length (view w)), w)
  pub get : (w : W) (i : ℕ) → i < length (view w) → api.list_get p i w ≡ (get_elem? (view w) i, w)
  pub append :
      (w : W) (v : RealmValue)
      → InWrite w
      → ((api.list_insert p (length (view w)) v w).0 ≡ true)
        × (view (api.list_insert p (length (view w)) v w).1 ≡ view w ++ v ∷ [])
  pub overwrite :
      (w : W) (i : ℕ) (v : RealmValue)
      → InWrite w
      → i < length (view w)
      → ((api.list_set p i v w).0 ≡ true) × (view (api.list_set p i v w).1 ≡ set (view w) i v)

abbrev pub out_of_bounds : Bytes
out_of_bounds = codes "Index out of bounds when setting value in list"

-- A list after `list[i] = v`; there is none past the end.
abbrev pub assign : {A : Type 0} → List A → ℕ → A → Option (List A)
assign [] zero v = some (v ∷ [])
assign [] (suc i) v = none
assign (x ∷ l) zero v = some (v ∷ l)
assign (x ∷ l) (suc i) v = Option.map (λ l'. x ∷ l') (assign l i v)

abbrev pub assigned_or_same : {A : Type 0} → List A → Option (List A) → List A
assigned_or_same l none = l
assigned_or_same l (some l') = l'

module _ {A : Type 0} where
  assign-inside : (l : List A) (i : ℕ) (v : A) → i < length l → assign l i v ≡ some (set l i v)
  assign-inside [] i v h = elim h [ ]
  assign-inside (x ∷ l) zero v h = refl
  assign-inside (x ∷ l) (suc i) v h = rw (assign-inside l i v (omega arith))

  assign-end : (l : List A) (v : A) → assign l (length l) v ≡ some (l ++ v ∷ [])
  assign-end [] v = refl
  assign-end (x ∷ l) v = rw (assign-end l v)

  assign-past : (l : List A) (i : ℕ) (v : A) → length l < i → assign l i v ≡ none
  assign-past [] zero v h = elim h [ ]
  assign-past [] (suc i) v h = refl
  assign-past (x ∷ l) zero v h = absurd (omega arith)
  assign-past (x ∷ l) (suc i) v h = rw (assign-past l i v (omega arith))

  get_elem?-assign :
      (l : List A) (i : ℕ) (v : A)
      → i ≤ length l
      → get_elem? (assigned_or_same l (assign l i v)) i ≡ some v
  get_elem?-assign l i v h = elim (dec_lt i (length l)) [
    | yes inside ↦ rw (assign-inside l i v inside) (get_elem?-set_self l i v inside)
    | no outside ↦
        let at : i ≡ length l = omega arith in rw (at, assign-end l v) (get_elem?-append l v [])
  ]

  pub assign-some :
      (l : List A) (i : ℕ) (v : A) → i ≤ length l → (l' : List A) × (assign l i v ≡ some l')
  assign-some l i v h = elim (dec_lt i (length l)) [
    | yes inside ↦ (set l i v, assign-inside l i v inside)
    | no outside ↦ let at : i ≡ length l = omega arith in (l ++ v ∷ [], rw at (assign-end l v))
  ]

-- What the assignment comes to.
abbrev pub assign_outcome : {W : Type 0} → RealmApi W → Option (List RealmValue) → Outcome ℕ
assign_outcome api none = raised (c_string (api.format out_of_bounds []))
assign_outcome api (some l) = ok 0

-- The arguments of `realm_list_insert(list, i, v)` and of `realm_list_get(list, realm, i)`.
abbrev pub insert_arguments : ℕ → ℕ → Value → List Value
insert_arguments u i v = v ∷ integer i ∷ userdata u ∷ []

abbrev pub get_arguments : ℕ → ℕ → ℕ → List Value
get_arguments u r i = integer i ∷ userdata r ∷ userdata u ∷ []

abbrev pub insert_and_check :
    {W : Type 0} ⦃cv : Conversions⦄ ⦃api : RealmApi W⦄ → ℕ → ℕ → ℕ → RealmValue → Exec W ℕ
insert_and_check list i size v = do
  success ← insert_at list i size v
  or_realm_error success
  pure 0

module _ {W : Type 0} ⦃cv : Conversions⦄ ⦃api : RealmApi W⦄ {view : W → List RealmValue}
    {InWrite : W → Type 0} (p : ℕ) (laws : ListLaws api p view InWrite) where
  -- An assignment comes down to `insert_at`.
  list_insert-insert_at :
      (s : State W) (u i : ℕ) (v : Value)
      → IsScalar v
      → get_elem? s.boxes u ≡ some (handle_box p)
      → lib_realm_list_insert (on s (insert_arguments u i v))
        ≡ insert_and_check p i
            (length (view s.world))
            (realm_value v)
            (on s (insert_arguments u i v))
  unfolding lib_realm_list_insert
  list_insert-insert_at s u i v scalar h = rw (
    lua_to_realm_value-scalar (bottom 3) v (on s (insert_arguments u i v)) refl scalar,
    h,
    laws.size s.world,
  )

  insert_at-assign :
      (s : State W) (i : ℕ) (v : RealmValue)
      → InWrite s.world
      → let t = insert_and_check p i (length (view s.world)) v s in
        (t.0 ≡ assign_outcome api (assign (view s.world) i v))
        × (view t.1.world ≡ assigned_or_same (view s.world) (assign (view s.world) i v))
  unfolding insert_at inform_realm_error
  insert_at-assign s i v w =
      let l = view s.world in
      elim (dec_lt i (length l)) [
        | yes inside ↦
            rw (assign-inside l i v inside) (ground (arith, laws.overwrite s.world i v w inside))
        | no outside ↦ elim (dec_lt (length l) i) [
          | yes past ↦ rw (assign-past l i v past) (ground arith)
          | no short ↦
              let at : i ≡ length l = omega arith in
              rw (at, assign-end l v) (ground (arith, laws.append s.world v w))
        ]
      ]

  -- Assigning a scalar to an index of a list does what `assign` says: before the end the element is
  -- replaced, at the end it is appended, and past the end there is an error and the list stays. The
  -- handle is a list's, as `laws` has it, and the realm is in a write transaction.
  pub list_insert-assign :
      (s : State W) (u i : ℕ) (v : Value)
      → IsScalar v
      → get_elem? s.boxes u ≡ some (handle_box p)
      → InWrite s.world
      → let t = lib_realm_list_insert (on s (insert_arguments u i v)) in
        let assigned = assign (view s.world) i (realm_value v) in
        (t.0 ≡ assign_outcome api assigned)
        × (view t.1.world ≡ assigned_or_same (view s.world) assigned)
  list_insert-assign s u i v scalar h w =
      rw (list_insert-insert_at s u i v scalar h)
        (insert_at-assign (on s (insert_arguments u i v)) i (realm_value v) w)

  pub list_insert-boxes :
      (s : State W) (u i : ℕ) (v : Value)
      → IsScalar v
      → get_elem? s.boxes u ≡ some (handle_box p)
      → (lib_realm_list_insert (on s (insert_arguments u i v))).1.boxes ≡ s.boxes
  unfolding insert_at inform_realm_error
  list_insert-boxes s u i v scalar h = rw (list_insert-insert_at s u i v scalar h) (ground arith)

  -- What was assigned within the list or at its end is what `list[i]` then returns.
  pub list_get-insert :
      (s : State W) (u r q i : ℕ) (v : Value)
      → IsScalar v
      → get_elem? s.boxes u ≡ some (handle_box p)
      → get_elem? s.boxes r ≡ some (handle_box q)
      → InWrite s.world
      → i ≤ length (view s.world)
      → let t = (lib_realm_list_insert (on s (insert_arguments u i v))).1 in
        lib_realm_list_get (on t (get_arguments u r i))
        ≡ realm_to_lua_value q (realm_value v) (on t (get_arguments u r i))
  unfolding lib_realm_list_get
  list_get-insert s u r q i v scalar h hr w bound =
      let t = (lib_realm_list_insert (on s (insert_arguments u i v))).1 in
      let boxes : t.boxes ≡ s.boxes = list_insert-boxes s u i v scalar h in
      let found =
        ap (λ l. get_elem? l i) (list_insert-assign s u i v scalar h w).1
        ∙ get_elem?-assign (view s.world) i (realm_value v) bound in
      rw (boxes, h, hr, laws.get t.world i (lt_of_get_elem? (view t.world) i found), found)
