-- ===== src/Modules/Tables.antt =====
-- The tables that `luaL_setfuncs` and `luaL_newlib` fill, for any list of functions.
use realm_lua_bootcamp.Prelude.{
  ℕ, ◌≡◌, refl, ap, ◌∙◌, Bool, Bool-cases, List, [], ◌∷◌, Option, none, some, map, if◌then◌else◌,
  arith,
}
use realm_lua_bootcamp.Text.{Bytes, text_eq}
use realm_lua_bootcamp.Lua.{
  Value, nil, function, table, pure, ◌>>◌, Fields, end, get_field, set_field, State, Outcome, ok,
  Exec, on, get_field-set_field,
}
use realm_lua_bootcamp.Modules.{Functions, ModuleApi, lua_l_setfuncs, lua_l_newlib}

module _ {W : Type 0} where
  -- The function of a name: the last one, if there are several.
  abbrev pub or_function : Option (Exec W ℕ) → Bool → Exec W ℕ → Option (Exec W ℕ)
  or_function (some g) same f = some g
  or_function none same f = if same then some f else none

  abbrev first : List (Option (Exec W ℕ)) → Option (Exec W ℕ)
  first [] = none
  first (x ∷ xs) = x

  abbrev others : List (Option (Exec W ℕ)) → List (Option (Exec W ℕ))
  others [] = []
  others (x ∷ xs) = xs

  abbrev pub named : Bytes → Functions W → Option (Exec W ℕ)
  named k [] = none
  named k ((name, f) ∷ fs) = or_function (named k fs) (text_eq name k) f

module _ {W : Type 0} ⦃modules : ModuleApi W⦄ where
  abbrev pub function_or : Value → Option (Exec W ℕ) → Value
  function_or v none = v
  function_or v (some f) = function (modules.address f)

  abbrev pub filled : Functions W → Fields → Fields
  filled [] fields = fields
  filled ((name, f) ∷ fs) fields = filled fs (set_field name (function (modules.address f)) fields)

  lua_l_setfuncs_lem :
      (fs : Functions W) (fields : Fields) (s : State W) (below : List Value)
      → lua_l_setfuncs fs (on s (table fields ∷ below))
        ≡ (ok tt, on s (table (filled fs fields) ∷ below))
  lua_l_setfuncs_lem [] fields s below = refl
  lua_l_setfuncs_lem ((name, f) ∷ fs) fields s below =
      lua_l_setfuncs_lem fs (set_field name (function (modules.address f)) fields) s below

  pub get_field-filled :
      (k : Bytes) (fs : Functions W) (fields : Fields)
      → get_field k (filled fs fields) ≡ function_or (get_field k fields) (named k fs)
  unfolding get_field
  get_field-filled k [] fields = refl
  get_field-filled k ((name, f) ∷ fs) fields =
      get_field-filled k fs (set_field name (function (modules.address f)) fields)
      ∙ ground (
        arith,
        Bool-cases (text_eq name k),
        get_field-set_field k name (function (modules.address f)) fields,
      )

  -- Each name has the function that stands with it.
  abbrev pub Binds : Functions W → Fields → Type 0
  Binds calls m = map (λ b. get_field b.0 m) calls ≡ map (λ b. function (modules.address b.1)) calls

  get_fields-filled :
      (calls fs : Functions W) (fields : Fields)
      → map (λ b. get_field b.0 (filled fs fields)) calls
        ≡ map (λ b. function_or (get_field b.0 fields) (named b.0 fs)) calls
  get_fields-filled [] fs fields = refl
  get_fields-filled (b ∷ calls) fs fields =
      rw (get_field-filled b.0 fs fields, get_fields-filled calls fs fields) refl

  functions_of :
      (calls fs : Functions W) (fields : Fields)
      → map (λ b. named b.0 fs) calls ≡ map (λ b. some b.1) calls
      → map (λ b. function_or (get_field b.0 fields) (named b.0 fs)) calls
        ≡ map (λ b. function (modules.address b.1)) calls
  functions_of [] fs fields found = refl
  functions_of (b ∷ calls) fs fields found =
      rw (ap first found, functions_of calls fs fields (ap others found)) refl

  pub Binds-filled :
      (calls fs : Functions W) (fields : Fields)
      → map (λ b. named b.0 fs) calls ≡ map (λ b. some b.1) calls
      → Binds calls (filled fs fields)
  Binds-filled calls fs fields found =
      get_fields-filled calls fs fields ∙ functions_of calls fs fields found

  -- The same, and the name `absent` is nil.
  abbrev pub BindsBut : Bytes → Functions W → Fields → Type 0
  BindsBut absent calls m = Binds calls m × (get_field absent m ≡ nil)

  -- The module is one table on the stack, of which `P` holds.
  abbrev pub Opens : (Fields → Type 0) → State W → Outcome ℕ × State W → Type 0
  Opens P s t = (t.0 ≡ ok 1) × ((m : Fields) × (t.1.stack ≡ table m ∷ s.stack) × P m)

module _ {W : Type 0} ⦃modules : ModuleApi W⦄ where
  unfoldable pub open_lib : Functions W → Exec W ℕ
  open_lib fs = do lua_l_newlib fs; pure 1

  pub open_lib_lem :
      (fs : Functions W) (s : State W)
      → open_lib fs s ≡ (ok 1, on s (table (filled fs end) ∷ s.stack))
  unfolding open_lib
  open_lib_lem fs s = rw (lua_l_setfuncs_lem fs end s s.stack) refl

  opens :
      (P : Fields → Type 0) (fs : Functions W) (s : State W)
      → P (filled fs end)
      → Opens P s (open_lib fs s)
  opens P fs s holds =
      let e = open_lib_lem fs s in (ap (λ t. t.0) e, (filled fs end, ap (λ t. t.1.stack) e, holds))

  pub opened :
      (fs calls : Functions W) (s : State W)
      → map (λ b. named b.0 fs) calls ≡ map (λ b. some b.1) calls
      → Opens (Binds calls) s (open_lib fs s)
  opened fs calls s found = opens (Binds calls) fs s (Binds-filled calls fs end found)

  pub opened_but :
      (absent : Bytes) (fs calls : Functions W) (s : State W)
      → map (λ b. named b.0 fs) calls ≡ map (λ b. some b.1) calls
      → named absent fs ≡ none
      → Opens (BindsBut absent calls) s (open_lib fs s)
  unfolding get_field
  opened_but absent fs calls s found missing = opens (BindsBut absent calls) fs s (
    Binds-filled calls fs end found,
    get_field-filled absent fs end ∙ ap (function_or nil) missing,
  )

  -- The metatable that is registered under a name has the function `f` as its entry `key`.
  abbrev pub IsRegistered : Bytes → Bytes → Exec W ℕ → State W → Outcome ℕ × State W → Type 0
  IsRegistered name key f s t =
      (m : Fields) × (t.1.world ≡ modules.register name (table m) s.world)
      × (get_field key m ≡ function (modules.address f))
