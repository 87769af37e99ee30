-- ===== src/Lua/Machine.antt =====
-- A C function's view of Lua: its stack, the userdata boxes, the registry's references, and beside
-- them the world of the libraries that the function calls. An error leaves the function with what
-- it had done; `fault` is undefined behaviour, such as a read through a null pointer.
use realm_lua_bootcamp.Prelude.{
  ℕ, zero, suc, ◌-◌, [], List, ◌∷◌, Option, none, some, leb, if◌then◌else◌, length, get_elem?,
}
use realm_lua_bootcamp.Text.{Bytes}
use realm_lua_bootcamp.Lua.Values.{Value, nil, LuaType, absent, type_of}

-- The metatables that the bindings register.
pub data Meta : Type 0 where
  plain realm_handle scheduler_userdata uv_async : Meta

-- A full userdata holds one pointer; 0 is the null pointer.
pub record Box : Type 0 where
  pub pointer : ℕ
  pub meta : Meta

-- The head of `stack` is the top. A value that is neither a table nor a full userdata shares its
-- metatable with all values of its type: `type_metas` lists what was set for those, newest first.
pub record State (W : Type 0) : Type 0 where
  pub stack : List Value
  pub boxes : List Box
  pub refs : List (Option Value)
  pub type_metas : List (LuaType × Meta)
  pub world : W

pub data Outcome (A : Type 0) : Type 0 where
  ok : A → Outcome A
  raised : Bytes → Outcome A
  fault : Outcome A

abbrev pub Exec : Type 0 → Type 0 → Type 0
Exec W A = State W → Outcome A × State W

module _ {W A B : Type 0} where
  abbrev pub continue : Outcome A → (A → Exec W B) → Exec W B
  continue (ok a) f s = f a s
  continue (raised m) f s = (raised m, s)
  continue fault f s = (fault, s)

  infixl 10 ◌>>=◌ ◌>>◌
  abbrev pub ◌>>=◌ : Exec W A → (A → Exec W B) → Exec W B
  ◌>>=◌ m f s = continue (m s).0 f (m s).1

  abbrev pub ◌>>◌ : Exec W A → Exec W B → Exec W B
  ◌>>◌ m n s = continue (m s).0 (λ _. n) (m s).1

module _ {W A : Type 0} where
  abbrev pub pure : A → Exec W A
  pure a s = (ok a, s)

  -- `lua_error`
  abbrev pub raise : Bytes → Exec W A
  raise m s = (raised m, s)

  abbrev pub crash : Exec W A
  crash s = (fault, s)

  abbrev pub gets : (State W → A) → Exec W A
  gets f s = (ok (f s), s)

  -- A call of a library on its world.
  abbrev pub call : (W → A × W) → Exec W A
  call f s = (ok (f s.world).0, record s { world = (f s.world).1 })

-- An index counts from the bottom (1 is the first) or from the top (-1 is the top).
pub data Index : Type 0 where
  bottom top : ℕ → Index

-- The place of an index, counted from the top, which is 0; past the end where it names nothing.
abbrev pub place : Index → List Value → ℕ
place (bottom i) s = if leb i (length s) then length s - i else length s
place (top i) s = i - 1

abbrev pub type_or_absent : Option Value → LuaType
type_or_absent none = absent
type_or_absent (some v) = type_of v

-- What is left of a stack, if it is deep enough.
abbrev pub rest_after : ℕ → List Value → Option (List Value)
rest_after zero vs = some vs
rest_after (suc n) [] = none
rest_after (suc n) (v ∷ vs) = rest_after n vs

-- Reading what does not exist yields nil, as `lua_toboolean` and the like take it.
abbrev pub or_nil : Option Value → Value
or_nil none = nil
or_nil (some v) = v

abbrev pub value_at : Index → List Value → Option Value
value_at i s = get_elem? s (place i s)

module _ {W : Type 0} where
  abbrev pub gettop : Exec W ℕ
  gettop s = (ok (length s.stack), s)

  abbrev pub push : Value → Exec W (Unit {0})
  push v s = (ok tt, record s { stack = v ∷ s.stack })

  abbrev keep_rest : Option (List Value) → Exec W (Unit {0})
  keep_rest none s = (fault, s)
  keep_rest (some rest) s = (ok tt, record s { stack = rest })

  -- `lua_pop`: popping more than there is has no defined result.
  abbrev pub pop : ℕ → Exec W (Unit {0})
  pop n s = keep_rest (rest_after n s.stack) s

  abbrev pub read : Index → Exec W Value
  read i s = (ok (or_nil (value_at i s.stack)), s)

  abbrev pub type_at : Index → Exec W LuaType
  type_at i s = (ok (type_or_absent (value_at i s.stack)), s)

  -- `lua_pushvalue`
  abbrev pub push_value : Index → Exec W (Unit {0})
  push_value i s = push (or_nil (value_at i s.stack)) s

-- The state with another stack.
abbrev pub on : {W : Type 0} → State W → List Value → State W
on s vs = record s { stack = vs }
