-- ===== src/Playground/Arguments.antt =====
-- The table of arguments that a script finds.
use realm_lua_bootcamp.Prelude.{
  ℕ, suc, ◌+◌, ◌-◌, ◌^◌, ◌≤◌, ◌<◌, ◌≡◌, refl, ap, ◌∙◌, true, false, ◌==◌, leb, List, [], ◌∷◌,
  Option, none, some, length, arith, if◌then◌else◌, get_elem?, ◌≢◌, Bool-cases, inl, inr, dec_lt,
  ℕ_discrete, subst,
}
use realm_lua_bootcamp.Text.{Bytes, codes, c_string}
use realm_lua_bootcamp.Lua.{
  Value, nil, string, table, Fields, end, get_index, set_index, get_index-set_index, State, ok, on,
}
use realm_lua_bootcamp.Playground.{HostApi}
use realm_lua_bootcamp.Playground.Main.{arg_index, fill_arg, createargtable}

abbrev pub arg_fields : ℕ → ℕ → List Bytes → Fields → Fields
arg_fields script i [] fs = fs
arg_fields script i (arg ∷ argv) fs =
    arg_fields script (i + 1) argv (set_index (arg_index i script) (string (c_string arg)) fs)

fill_arg_lem :
    {W : Type 0} ⦃host : HostApi W⦄ (script i : ℕ) (argv : List Bytes) (fs : Fields) (s : State W)
    (below : List Value)
    → fill_arg script i argv (on s (table fs ∷ below))
      ≡ (ok tt, on s (table (arg_fields script i argv fs) ∷ below))
unfolding fill_arg
fill_arg_lem script i [] fs s below = refl
fill_arg_lem script i (arg ∷ argv) fs s below =
    fill_arg_lem script (i + 1) argv (set_index (arg_index i script) (string (c_string arg)) fs) s
      below

-- Different places have different indices.
arg_index-injective :
    (i k script : ℕ)
    → i < 2 ^ 63
    → k < 2 ^ 63
    → script < 2 ^ 63
    → arg_index i script ≡ arg_index k script
    → i ≡ k
arg_index-injective i k script hi hk hs e = omega arith

abbrev pub arg_or : Value → Option Bytes → Value
arg_or v none = v
arg_or v (some arg) = string (c_string arg)

-- The argument `k` of those from `i` on.
abbrev pub arg_from : ℕ → ℕ → List Bytes → Option Bytes
arg_from i k argv = if leb i k then get_elem? argv (k - i) else none

place_differs :
    (i k script : ℕ)
    → i < 2 ^ 63
    → k < 2 ^ 63
    → script < 2 ^ 63
    → i ≢ k
    → (arg_index i script == arg_index k script) ≡ false
place_differs i k script hi hk hs differ =
    elim (Bool-cases (arg_index i script == arg_index k script)) [
      | inl same ↦ absurd (differ (arg_index-injective i k script hi hk hs (ground arith)))
      | inr other ↦ other
    ]

arg_from-next :
    (i k : ℕ) (arg : Bytes) (argv : List Bytes)
    → i ≢ k
    → arg_from i k (arg ∷ argv) ≡ arg_from (i + 1) k argv
arg_from-next i k arg argv differ = elim (dec_lt i k) [
  | yes before ↦
      let now : leb i k ≡ true = ground arith in
      let next : leb (i + 1) k ≡ true = ground arith in
      let at : k - i ≡ suc (k - (i + 1)) = omega arith in rw (now, next, at) refl
  | no after ↦
      let now : leb i k ≡ false = ground arith in
      let next : leb (i + 1) k ≡ false = ground arith in rw (now, next) refl
]

arg_from-here : (i : ℕ) (arg : Bytes) (argv : List Bytes) → arg_from i i (arg ∷ argv) ≡ some arg
arg_from-here i arg argv =
    let now : leb i i ≡ true = ground arith in let at : i - i ≡ 0 = omega arith in rw (now, at) refl

arg_from_past : (i : ℕ) (argv : List Bytes) → arg_from (i + 1) i argv ≡ none
arg_from_past i argv = ground arith

arg_from_all : (k : ℕ) (argv : List Bytes) → arg_from 0 k argv ≡ get_elem? argv k
arg_from_all k argv =
    let now : leb 0 k ≡ true = ground arith in let at : k - 0 ≡ k = omega arith in rw (now, at) refl

get_index-arg_fields :
    (script i k : ℕ) (argv : List Bytes) (fs : Fields)
    → script < 2 ^ 63
    → i + length argv ≤ 2 ^ 63
    → k < 2 ^ 63
    → get_index (arg_index k script) (arg_fields script i argv fs)
      ≡ arg_or (get_index (arg_index k script) fs) (arg_from i k argv)
get_index-arg_fields script i k [] fs hs hi hk = ground arith
get_index-arg_fields script i k (arg ∷ argv) fs hs hi hk =
    get_index-arg_fields script (i + 1) k argv _ hs (omega arith) hk ∙ elim (ℕ_discrete i k) [
      | yes same ↦
          subst
            (λ j.
              arg_or
                (get_index (arg_index j script)
                  (set_index (arg_index i script) (string (c_string arg)) fs))
                (arg_from (i + 1) j argv)
              ≡ arg_or (get_index (arg_index j script) fs) (arg_from i j (arg ∷ argv)))
            same
            (let same_place : (arg_index i script == arg_index i script) ≡ true = ground arith in
              rw
                (
                  arg_from_past i argv,
                  arg_from-here i arg argv,
                  get_index-set_index (arg_index i script) (arg_index i script)
                      (string (c_string arg)) fs,
                  same_place,
                )
                refl)
      | no differ ↦
          rw
            (
              arg_from-next i k arg argv differ,
              get_index-set_index (arg_index k script) (arg_index i script) (string (c_string arg))
                  fs,
              place_differs i k script (omega arith) hk hs differ,
            )
            refl
    ]

module _ {W : Type 0} ⦃host : HostApi W⦄ where
  -- The global `arg` is set to a table of the arguments, and the stack is as before: the argument `k`
  -- stands under the index `k - script`, as a Lua integer, so the script under 0, what follows it from
  -- 1 on and what comes before it under negative indices; behind the last there is nil.
  pub createargtable-arg :
      (argv : List Bytes) (script k : ℕ) (s : State W)
      → script < length argv
      → length argv < 2 ^ 31
      → k ≤ length argv
      → (arg : Fields) × (createargtable argv script s
          ≡ (ok tt, record s { world = host.set_global (codes "arg") (table arg) s.world }))
        × (get_index (arg_index k script) arg ≡ arg_or nil (get_elem? argv k))
  unfolding createargtable get_index
  createargtable-arg argv script k s hs ha hk = (
    arg_fields script 0 argv end,
    rw (fill_arg_lem script 0 argv end s s.stack) refl,
    get_index-arg_fields script 0 k argv end (omega arith) (omega arith) (omega arith)
        ∙ ap (arg_or nil) (arg_from_all k argv),
  )
