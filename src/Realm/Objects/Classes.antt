-- ===== src/Realm/Objects/Classes.antt =====
-- The class of a link: `_findClass` in the table of classes that is pushed for a realm.
use realm_lua_bootcamp.Prelude.{
  ℕ, ◌+◌, ◌≡◌, refl, subst, sym, true, false, Bool-cases, inl, inr, ◌==◌, List, [], ◌∷◌, ◌++◌,
  length, arith, length-append, length-map,
}
use realm_lua_bootcamp.Text.{Bytes, codes, c_string, text_eq, text_eq→eq}
use realm_lua_bootcamp.Lua.{
  integer, string, table, Fields, end, field, get_field, set_field, State, ok,
}
use realm_lua_bootcamp.Schema.Push.{ObjectSchema, push_schema_info}
use realm_lua_bootcamp.Schema.Push.Frame.{
  AllClasses, all_key_boxes, key_boxes, key_box, class_fields, schema_fields,
  push_schema_info-fields,
}
use realm_lua_bootcamp.Schema.Push.Lookup.{get_field-class_key}
use realm_lua_bootcamp.Realm.{Messages}
use realm_lua_bootcamp.Realm.Objects.{find_class, same_number}

-- Each entry is a table whose key is another number than `n`.
pub data LacksKey (n : ℕ) : Fields → Type 0 where
  lacks_end : LacksKey n end
  lacks :
      (name : Bytes) (info fs : Fields)
      → same_number (get_field (codes "key") info) (integer n) ≡ false
      → LacksKey n fs
      → LacksKey n (field (string name) (table info) fs)

-- The first entry whose key is `n` is the class `info`, of the name `k`.
pub data HasClass (k : Bytes) (n : ℕ) (info : Fields) : Fields → Type 0 where
  here : (fs : Fields) → HasClass k n info (field (string k) (table info) fs)
  there :
      (name : Bytes) (other fs : Fields)
      → same_number (get_field (codes "key") other) (integer n) ≡ false
      → HasClass k n info fs
      → HasClass k n info (field (string name) (table other) fs)

find_class-HasClass :
    {W : Type 0} (messages : Messages W) (k : Bytes) (n : ℕ) (info : Fields) (fs : Fields)
    (s : State W)
    → same_number (get_field (codes "key") info) (integer n) ≡ true
    → HasClass k n info fs
    → find_class messages fs (integer n) s ≡ (ok (table info), s)
unfolding find_class
find_class-HasClass messages k n info _ s key (here fs) = rw key refl
find_class-HasClass messages k n info _ s key (there name other fs different found) =
    rw different (find_class-HasClass messages k n info fs s key found)

HasClass-set_field :
    (k : Bytes) (n : ℕ) (info : Fields) (j : Bytes) (other fs : Fields)
    → text_eq k j ≡ false
    → same_number (get_field (codes "key") other) (integer n) ≡ false
    → HasClass k n info fs
    → HasClass k n info (set_field j (table other) fs)
unfolding set_field
HasClass-set_field k n info j other _ distinct different (here fs) = rw distinct (here _)
HasClass-set_field k n info j other _ distinct different (there name next fs fresh found) =
    elim (Bool-cases (text_eq name j)) [
      | inl same ↦ rw same (there name other fs different found)
      | inr apart ↦ rw apart (
          there name next _ fresh (HasClass-set_field k n info j other fs distinct different found))
    ]

LacksKey-set_field :
    (n : ℕ) (j : Bytes) (other fs : Fields)
    → same_number (get_field (codes "key") other) (integer n) ≡ false
    → LacksKey n fs
    → LacksKey n (set_field j (table other) fs)
unfolding set_field
LacksKey-set_field n j other _ different lacks_end = lacks j other end different lacks_end
LacksKey-set_field n j other _ different (lacks name next fs fresh rest) =
    elim (Bool-cases (text_eq name j)) [
      | inl same ↦ rw same (lacks name other fs different rest)
      | inr apart ↦
          rw apart (lacks name next _ fresh (LacksKey-set_field n j other fs different rest))
    ]

HasClass-added :
    (k : Bytes) (n : ℕ) (info fs : Fields)
    → LacksKey n fs
    → HasClass k n info (set_field k (table info) fs)
unfolding set_field
HasClass-added k n info _ lacks_end = here end
HasClass-added k n info _ (lacks name next fs fresh rest) = elim (Bool-cases (text_eq name k)) [
  | inl same ↦ rw same (
      subst (λ j. HasClass k n info (field (string j) (table info) fs))
        (sym (text_eq→eq name k same)) (here fs))
  | inr apart ↦ rw apart (there name next _ fresh (HasClass-added k n info fs rest))
]

-- None of these classes has the name `k` or the key `n`.
abbrev pub AreOthers : Bytes → ℕ → List ObjectSchema → Type 0
AreOthers k n [] = Unit {0}
AreOthers k n (c ∷ cs) =
    ((text_eq k (c_string c.name) ≡ false) × ((c.table_key == n) ≡ false)) × AreOthers k n cs

same_key :
    (u : ℕ) (c : ObjectSchema)
    → same_number (get_field (codes "key") (class_fields u c)) (integer c.table_key) ≡ true
same_key u c = rw (get_field-class_key u c) (ground arith)

get_field-class_name :
    (u : ℕ) (c : ObjectSchema)
    → get_field (codes "name") (class_fields u c) ≡ string (c_string c.name)
unfolding get_field set_field text_eq
get_field-class_name u c = ground arith

different_key :
    (u n : ℕ) (c : ObjectSchema)
    → (c.table_key == n) ≡ false
    → same_number (get_field (codes "key") (class_fields u c)) (integer n) ≡ false
different_key u n c h = rw (get_field-class_key u c) h

HasClass-after :
    (k : Bytes) (n u : ℕ) (info : Fields) (cs : List ObjectSchema) (fs : Fields)
    → AreOthers k n cs
    → HasClass k n info fs
    → HasClass k n info (schema_fields u cs fs)
HasClass-after k n u info [] fs others found = found
HasClass-after k n u info (c ∷ cs) fs others found =
    HasClass-after k n (u + length c.persisted_properties) info cs _ others.1 (
      HasClass-set_field k n info (c_string c.name) (class_fields u c) fs others.0.0
        (different_key u n c others.0.1) found)

-- The class is among those that are pushed, wherever its information starts.
HasClass-pushed :
    (u : ℕ) (before : List ObjectSchema) (c : ObjectSchema) (after : List ObjectSchema)
    (fs : Fields)
    → AreOthers (c_string c.name) c.table_key before
    → AreOthers (c_string c.name) c.table_key after
    → LacksKey c.table_key fs
    → HasClass
        (c_string c.name)
        c.table_key
        (class_fields (u + length (all_key_boxes before)) c)
        (schema_fields u (before ++ c ∷ after) fs)
HasClass-pushed u [] c after fs earlier later lacking =
    let at : u + 0 ≡ u = omega arith in
    rw at (
      HasClass-after (c_string c.name) c.table_key (u + length c.persisted_properties)
        (class_fields u c) after _ later
        (HasClass-added (c_string c.name) c.table_key (class_fields u c) fs lacking))
HasClass-pushed u (b ∷ before) c after fs earlier later lacking =
    let ps = b.persisted_properties in
    let next : u + length ps + length (all_key_boxes before)
        ≡ u + length (all_key_boxes (b ∷ before)) =
      omega (arith, length-append (key_boxes ps) (all_key_boxes before), length-map ps key_box) in
    subst
      (λ i. HasClass (c_string c.name) c.table_key (class_fields i c) (
        schema_fields (u + length ps) (before ++ c ∷ after)
          (set_field (c_string b.name) (table (class_fields u b)) fs)))
      next
      (HasClass-pushed (u + length ps) before c after _ earlier.1 later (
        LacksKey-set_field c.table_key (c_string b.name) (class_fields u b) fs
          (different_key u c.table_key b earlier.0.1) lacking))

-- The class key that comes with a link leads to its class: in what `_push_schema_info` pushes, `_findClass`
-- finds a table of information, whose `name` is that of the class with the key. No other class has its
-- name or its key, and every collection of the schema is a list, a set or a dictionary.
pub find_class-pushed :
    {W : Type 0} (messages : Messages W) (before : List ObjectSchema) (c : ObjectSchema)
    (after : List ObjectSchema) (s t : State W)
    → AllClasses (before ++ c ∷ after)
    → AreOthers (c_string c.name) c.table_key before
    → AreOthers (c_string c.name) c.table_key after
    → (classes class : Fields) × ((push_schema_info (before ++ c ∷ after) s).1.stack
        ≡ table classes ∷ s.stack)
      × (find_class messages classes (integer c.table_key) t ≡ (ok (table class), t))
      × (get_field (codes "name") class ≡ string (c_string c.name))
find_class-pushed messages before c after s t kinds earlier later =
    let n = length s.boxes in
    let info = class_fields (n + length (all_key_boxes before)) c in
    rw (push_schema_info-fields (before ++ c ∷ after) s kinds) (
      schema_fields n (before ++ c ∷ after) end,
      info,
      refl,
      find_class-HasClass messages (c_string c.name) c.table_key info _ t
          (same_key (n + length (all_key_boxes before)) c)
          (HasClass-pushed n before c after end earlier later lacks_end),
      get_field-class_name (n + length (all_key_boxes before)) c,
    )
