-- ===== src/Lua/Access.antt =====
-- Tables, userdata and references, as operations of the machine.
use realm_lua_bootcamp.Prelude.{
  ℕ, zero, suc, Bool, true, false, List, [], ◌∷◌, ◌++◌, Option, none, some, if◌then◌else◌, length,
  get_elem?, set,
}
use realm_lua_bootcamp.Text.{Bytes, codes}
use realm_lua_bootcamp.Lua.Values.{
  LuaType, type_of, Value, nil, table, userdata, end, get_field, set_field, get_index, set_index,
}
use realm_lua_bootcamp.Lua.Machine.{
  Meta, plain, realm_handle, scheduler_userdata, uv_async, Box, ok, fault, Exec, Index, place,
  value_at, or_nil, raise, crash, pure, push, pop, ◌>>=◌,
}

-- The words of Lua's own messages are not modelled, only that there is an error.
abbrev pub not_indexable : Bytes
not_indexable = codes "attempt to index a value"

abbrev pub bad_argument : Bytes
bad_argument = codes "bad argument"

abbrev pub is_meta : Meta → Meta → Bool
is_meta realm_handle realm_handle = true
is_meta scheduler_userdata scheduler_userdata = true
is_meta uv_async uv_async = true
is_meta _ _ = false

abbrev pub mark : Meta → List Box → ℕ → Option Box → List Box
mark m bs u none = bs
mark m bs u (some b) = set bs u (record b { meta = m })

abbrev pub mark_top : Meta → List Value → List Box → List Box
mark_top m (userdata u ∷ below) bs = mark m bs u (get_elem? bs u)
mark_top m _ bs = bs

abbrev mark_type : Meta → List Value → List (LuaType × Meta) → List (LuaType × Meta)
mark_type m [] ts = ts
mark_type m (userdata u ∷ below) ts = ts
mark_type m (table fs ∷ below) ts = ts
mark_type m (v ∷ below) ts = (type_of v, m) ∷ ts

abbrev point : Option Box → ℕ → List Box → ℕ → List Box
point none u bs p = bs
point (some b) u bs p = set bs u (record b { pointer = p })

-- The first free reference, or a new one.
abbrev pub free_ref : List (Option Value) → ℕ
free_ref [] = 0
free_ref (none ∷ rs) = 0
free_ref (some v ∷ rs) = suc (free_ref rs)

abbrev pub put_ref : List (Option Value) → ℕ → Option Value → List (Option Value)
put_ref [] n r = r ∷ []
put_ref (x ∷ rs) zero r = r ∷ rs
put_ref (x ∷ rs) (suc n) r = x ∷ put_ref rs n r

abbrev pub drop_ref : List (Option Value) → ℕ → List (Option Value)
drop_ref [] n = []
drop_ref (x ∷ rs) zero = none ∷ rs
drop_ref (x ∷ rs) (suc n) = x ∷ drop_ref rs n

abbrev ref_value : Option (Option Value) → Value
ref_value (some (some v)) = v
ref_value _ = nil

module _ {W : Type 0} where
  -- `lua_getfield` on a value: pushes the entry.
  abbrev push_field : Bytes → Value → Exec W (Unit {0})
  push_field k (table fs) = push (get_field k fs)
  push_field k _ = raise not_indexable

  abbrev pub lua_getfield : Index → Bytes → Exec W (Unit {0})
  lua_getfield i k s = push_field k (or_nil (value_at i s.stack)) s

  -- `lua_rawgeti` and `lua_rawseti` want a table.
  abbrev pub push_index : ℕ → Value → Exec W (Unit {0})
  push_index n (table fs) = push (get_index n fs)
  push_index n _ = crash

  abbrev pub lua_rawgeti : Index → ℕ → Exec W (Unit {0})
  lua_rawgeti i n s = push_index n (or_nil (value_at i s.stack)) s

  -- Writes to the table at a place, then pops the value that was written.
  abbrev write_field : Bytes → ℕ → Option Value → List Value → Exec W (Unit {0})
  write_field k p (some (table fs)) (v ∷ below) s =
      pop 1 (record s { stack = set s.stack p (table (set_field k v fs)) })
  write_field k p _ _ s = raise not_indexable s

  abbrev pub lua_setfield : Index → Bytes → Exec W (Unit {0})
  lua_setfield i k s = write_field k (place i s.stack) (value_at i s.stack) s.stack s

  abbrev write_index : ℕ → ℕ → Option Value → List Value → Exec W (Unit {0})
  write_index n p (some (table fs)) (v ∷ below) s =
      pop 1 (record s { stack = set s.stack p (table (set_index n v fs)) })
  write_index n p _ _ s = crash s

  abbrev pub lua_rawseti : Index → ℕ → Exec W (Unit {0})
  lua_rawseti i n s = write_index n (place i s.stack) (value_at i s.stack) s.stack s

  abbrev pub lua_newtable : Exec W (Unit {0})
  lua_newtable = push (table end)

  -- `lua_newuserdata`, for a block that holds one pointer; the box's number is its address.
  abbrev pub lua_newuserdata : Exec W ℕ
  lua_newuserdata s = (
    ok (length s.boxes),
    record s {
      stack = userdata (length s.boxes) ∷ s.stack;
      boxes = s.boxes ++ record { pointer = 0; meta = plain } ∷ [];
    },
  )

  -- `luaL_setmetatable`, of the value on the top.
  abbrev pub lua_l_setmetatable : Meta → Exec W (Unit {0})
  lua_l_setmetatable m s = (
    ok tt,
    record s { boxes = mark_top m s.stack s.boxes; type_metas = mark_type m s.stack s.type_metas },
  )

  abbrev pub checked : Meta → ℕ → Option Box → Exec W ℕ
  checked m u none = raise bad_argument
  checked m u (some b) = if is_meta b.meta m then pure u else raise bad_argument

  abbrev pub check_value : Meta → Value → Exec W ℕ
  check_value m (userdata u) s = checked m u (get_elem? s.boxes u) s
  check_value m _ s = raise bad_argument s

  -- `luaL_checkudata`: the address of the userdata, or an error; never a null pointer.
  abbrev pub lua_l_checkudata : Index → Meta → Exec W ℕ
  lua_l_checkudata i m s = check_value m (or_nil (value_at i s.stack)) s

  abbrev pub read_box : Option Box → Exec W ℕ
  read_box none = crash
  read_box (some b) = pure b.pointer

  abbrev pub load : ℕ → Exec W ℕ
  load u s = read_box (get_elem? s.boxes u) s

  -- `*userdata = p`
  abbrev pub store : ℕ → ℕ → Exec W (Unit {0})
  store u p s = (ok tt, record s { boxes = point (get_elem? s.boxes u) u s.boxes p })

  abbrev pub address : Value → Exec W ℕ
  address (userdata u) = pure u
  address _ = crash

  -- `lua_touserdata` at an index, a null pointer of which is read through at once.
  abbrev pub touserdata : Index → Exec W ℕ
  touserdata i s = address (or_nil (value_at i s.stack)) s

  -- `*(T**)lua_touserdata(L, i)`
  abbrev pub handle_at : Index → Exec W ℕ
  handle_at i = do u ← touserdata i; load u

  abbrev make_ref : List Value → Exec W (Option ℕ)
  make_ref [] s = (fault, s)
  make_ref (nil ∷ below) s = (ok none, record s { stack = below })
  make_ref (v ∷ below) s = (
    ok (some (free_ref s.refs)),
    record s { stack = below; refs = put_ref s.refs (free_ref s.refs) (some v) },
  )

  -- `luaL_ref` in the registry: pops the top; `none` is LUA_REFNIL.
  abbrev pub lua_l_ref : Exec W (Option ℕ)
  lua_l_ref s = make_ref s.stack s

  abbrev pub lua_l_unref : Option ℕ → Exec W (Unit {0})
  lua_l_unref none s = (ok tt, s)
  lua_l_unref (some r) s = (ok tt, record s { refs = drop_ref s.refs r })

  -- `lua_rawgeti` of the registry.
  abbrev pub push_ref : Option ℕ → Exec W (Unit {0})
  push_ref none s = push nil s
  push_ref (some r) s = push (ref_value (get_elem? s.refs r)) s
