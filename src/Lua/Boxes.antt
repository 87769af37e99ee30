-- ===== src/Lua/Boxes.antt =====
-- Steps that make no userdata.
use realm_lua_bootcamp.Prelude.{
  ℕ, ◌≡◌, refl, subst, true, false, List, ◌∷◌, Option, none, some, if◌then◌else◌, length,
  length-set, get_elem?,
}
use realm_lua_bootcamp.Text.{Bytes}
use realm_lua_bootcamp.Lua.Values.{Value, userdata}
use realm_lua_bootcamp.Lua.Machine.{
  State, Outcome, Exec, Box, Meta, Index, pure, raise, call, read, type_at, gets, on, value_at,
  or_nil, ◌>>=◌,
}
use realm_lua_bootcamp.Lua.Access.{
  address, read_box, load, handle_at, checked, check_value, lua_l_checkudata, mark, mark_top,
  lua_l_setmetatable, bad_argument, is_meta,
}
use realm_lua_bootcamp.Lua.Partial.{WhenOk, holds, raises, faults, WhenOk-bind}
use realm_lua_bootcamp.Lua.Calls.{after_call, first_of, call_c}

length-mark :
    (m : Meta) (bs : List Box) (u : ℕ) (b : Option Box) → length (mark m bs u b) ≡ length bs
length-mark m bs u none = refl
length-mark m bs u (some b) = length-set bs u _

length-mark_top :
    (m : Meta) (vs : List Value) (bs : List Box) → length (mark_top m vs bs) ≡ length bs
length-mark_top m (userdata u ∷ below) bs = length-mark m bs u (get_elem? bs u)
length-mark_top m _ bs = refl

module _ {W A : Type 0} where
  -- If it succeeds there are as many userdata as before.
  abbrev pub KeepsBoxes : Exec W A → Type 0
  KeepsBoxes m = (s : State W) → WhenOk (λ _ t. length t.boxes ≡ length s.boxes) (m s)

  pub pure-KeepsBoxes : (a : A) → KeepsBoxes (pure a)
  pure-KeepsBoxes a s = holds refl

  pub raise-KeepsBoxes : (m : Bytes) → KeepsBoxes (raise m)
  raise-KeepsBoxes m s = raises

  pub call-KeepsBoxes : (f : W → A × W) → KeepsBoxes (call f)
  call-KeepsBoxes f s = holds refl

  pub gets-KeepsBoxes : (f : State W → A) → KeepsBoxes (gets f)
  gets-KeepsBoxes f s = holds refl

module _ {W A B : Type 0} where
  pub bind-KeepsBoxes :
      (m : Exec W A) (f : A → Exec W B)
      → KeepsBoxes m
      → ((a : A) → KeepsBoxes (f a))
      → KeepsBoxes (m >>= f)
  bind-KeepsBoxes m f h k s =
      WhenOk-bind (m s) (h s)
        (λ a t same. subst (λ n. WhenOk (λ _ u. length u.boxes ≡ n) (f a t)) same (k a t))

module _ {W : Type 0} where
  pub read-KeepsBoxes : (i : Index) → KeepsBoxes (read {W = W} i)
  read-KeepsBoxes i s = holds refl

  pub type_at-KeepsBoxes : (i : Index) → KeepsBoxes (type_at {W = W} i)
  type_at-KeepsBoxes i s = holds refl

  address-KeepsBoxes : (v : Value) → KeepsBoxes (address {W = W} v)
  address-KeepsBoxes (userdata u) s = holds refl
  address-KeepsBoxes _ s = faults

  load-KeepsBoxes : (u : ℕ) → KeepsBoxes (load {W = W} u)
  load-KeepsBoxes u s =
      elim (get_elem? s.boxes u)
        as (λ b. WhenOk (λ _ t. length t.boxes ≡ length s.boxes) (read_box b s)) [
          | none ↦ faults
          | some b ↦ holds refl
        ]

  pub handle_at-KeepsBoxes : (i : Index) → KeepsBoxes (handle_at {W = W} i)
  handle_at-KeepsBoxes i =
      bind-KeepsBoxes _ _ (λ s. address-KeepsBoxes (or_nil (value_at i s.stack)) s) load-KeepsBoxes

  checked-KeepsBoxes : (m : Meta) (u : ℕ) (b : Option Box) → KeepsBoxes (checked {W = W} m u b)
  checked-KeepsBoxes m u none s = raises
  checked-KeepsBoxes m u (some b) s =
      elim (is_meta b.meta m)
        as (λ x.
          WhenOk (λ _ t. length t.boxes ≡ length s.boxes)
            ((if x then pure u else raise bad_argument) s)) [ true ↦ holds refl | false ↦ raises ]

  check_value-KeepsBoxes : (m : Meta) (v : Value) → KeepsBoxes (check_value {W = W} m v)
  check_value-KeepsBoxes m (userdata u) s = checked-KeepsBoxes m u (get_elem? s.boxes u) s
  check_value-KeepsBoxes m _ s = raises

  pub lua_l_checkudata-KeepsBoxes :
      (i : Index) (m : Meta) → KeepsBoxes (lua_l_checkudata {W = W} i m)
  lua_l_checkudata-KeepsBoxes i m s = check_value-KeepsBoxes m (or_nil (value_at i s.stack)) s

  pub lua_l_setmetatable-KeepsBoxes : (m : Meta) → KeepsBoxes (lua_l_setmetatable {W = W} m)
  lua_l_setmetatable-KeepsBoxes m s = holds (length-mark_top m s.stack s.boxes)

  called :
      (s : State W) (r : Outcome ℕ × State W)
      → WhenOk (λ _ t. length t.boxes ≡ length s.boxes) r
      → WhenOk (λ _ t. length t.boxes ≡ length s.boxes) (first_of (after_call s r))
  called s _ (holds h) = holds h
  called s _ raises = raises
  called s _ faults = faults

  pub call_c-KeepsBoxes :
      (f : Exec W ℕ) (args : List Value) → KeepsBoxes f → KeepsBoxes (call_c f args)
  call_c-KeepsBoxes f args h s = called s (f (on s args)) (h (on s args))
