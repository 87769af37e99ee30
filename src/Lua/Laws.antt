-- ===== src/Lua/Laws.antt =====
-- Absolute indices when more has been pushed, and the arrays that are written entry by entry.
use realm_lua_bootcamp.Prelude.{
  false, ℕ, ◌+◌, ◌-◌, ◌≡◌, ap, true, List, [], ◌∷◌, ◌++◌, some, length, arith, leb, le→leb,
  length-append, get_elem?-append, get_elem?-behind, ◌≤◌, ◌==◌, refl, if◌then◌else◌,
}
use realm_lua_bootcamp.Text.{Bytes, text_eq, text_eq_iff}
use realm_lua_bootcamp.Lua.Values.{
  Value, string, integer, Fields, end, field, get_field, set_field, get_index, set_index,
}
use realm_lua_bootcamp.Lua.Machine.{bottom, place, value_at}

-- An absolute index still names its value when more has been pushed.
pub place-append :
    (us : List Value) (v : Value) (vs : List Value)
    → place (bottom (length (v ∷ vs))) (us ++ v ∷ vs) ≡ length us
place-append us v vs =
    let deep : leb (length (v ∷ vs)) (length (us ++ v ∷ vs)) ≡ true =
      le→leb _ _ (omega (arith, length-append us (v ∷ vs))) in
    let at : length (us ++ v ∷ vs) - length (v ∷ vs) ≡ length us =
      omega (arith, length-append us (v ∷ vs)) in
    rw (deep, at)

pub value_at-append :
    (us : List Value) (v : Value) (vs : List Value)
    → value_at (bottom (length (v ∷ vs))) (us ++ v ∷ vs) ≡ some v
value_at-append us v vs = rw (place-append us v vs) (get_elem?-append us v vs)

-- Nor does an absolute index of what is below change its value.
pub value_at-behind :
    (us vs : List Value) (i : ℕ)
    → 1 ≤ i
    → i ≤ length vs
    → value_at (bottom i) (us ++ vs) ≡ value_at (bottom i) vs
value_at-behind us vs i positive inside =
    let deep : leb i (length (us ++ vs)) ≡ true = le→leb _ _ (omega (arith, length-append us vs)) in
    let within : leb i (length vs) ≡ true = le→leb _ _ inside in
    let at : length (us ++ vs) - i ≡ length us + (length vs - i) =
      omega (arith, length-append us vs) in
    rw (deep, within) (get_elem?-behind us vs _ _ at)

-- The array with the entries `vs` from index `k` on.
abbrev pub array : ℕ → List Value → Fields
array k [] = end
array k (v ∷ vs) = field (integer k) v (array (k + 1) vs)

-- The next entry goes to the end.
pub set_index-array :
    (i k : ℕ) (vs : List Value) (v : Value)
    → i ≡ length vs + k
    → set_index i v (array k vs) ≡ array k (vs ++ v ∷ [])
unfolding set_index
set_index-array i k [] v e = ap (λ n. field (integer n) v end) (omega arith)
set_index-array i k (w ∷ vs) v e =
    let other : (k == i) ≡ false = ground arith in
    rw other (ap (λ fs. field (integer k) w fs) (set_index-array i (k + 1) vs v (omega arith)))

-- What a write to a string key leaves under a string key.
pub get_field-set_field :
    (k j : Bytes) (v : Value) (fs : Fields)
    → get_field k (set_field j v fs) ≡ (if text_eq j k then v else get_field k fs)
unfolding get_field set_field
get_field-set_field k j v end = refl
get_field-set_field k j v (field (string i) w fs) =
    ground (arith, text_eq_iff i j, text_eq_iff i k, text_eq_iff j k, get_field-set_field k j v fs)
get_field-set_field k j v (field _ w fs) = get_field-set_field k j v fs

-- And under an integer key.
pub get_index-set_index :
    (j i : ℕ) (v : Value) (fs : Fields)
    → get_index j (set_index i v fs) ≡ (if i == j then v else get_index j fs)
unfolding get_index set_index
get_index-set_index j i v end = refl
get_index-set_index j i v (field (integer k) w fs) = ground (arith, get_index-set_index j i v fs)
get_index-set_index j i v (field _ w fs) = get_index-set_index j i v fs
