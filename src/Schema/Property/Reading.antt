-- ===== src/Schema/Property/Reading.antt =====
-- `_parse_property_type` of src/realm_schema.cpp reads each text of the notation back.
use realm_lua_bootcamp.Prelude.{
  ℕ, ◌≡◌, ◌≢◌, refl, sym, ◌∙◌, Bool, true, false, [], ◌∷◌, ◌++◌, length, ◌==◌, arith,
}
use realm_lua_bootcamp.Text.{Bytes, codes, ends_with}
use realm_lua_bootcamp.Text.Laws.{ends_with_other, last_byte, last_byte-append}
use realm_lua_bootcamp.Lua.{State, ok}
use realm_lua_bootcamp.Schema.Types.{PropertyInfo}
use realm_lua_bootcamp.Schema.Property.{base_type, parsed_type, parse_property_type}
use realm_lua_bootcamp.Schema.Property.Stages.{
  strip_list_hit, strip_list_miss, strip_set_hit, strip_set_miss, strip_nullable_hit,
  strip_nullable_miss, parsed_type_lem, dictionary_hit, dictionary_miss,
}
use realm_lua_bootcamp.Schema.Property.Notation.{
  Form, TypeNotation, base_text, text_of, with_form, with_nullable, meaning, IsBare, IsBase,
  IsBare-base, base_type-base, plain, list, set, dictionary,
}

-- A text that ends in one suffix does not end in another.
pub no_other :
    (t : Bytes) (c : ℕ) (e : Bytes) (d : ℕ) (e' : Bytes)
    → last_byte (c ∷ e) ≢ last_byte (d ∷ e')
    → ends_with (t ++ c ∷ e) (d ∷ e') ≡ false
no_other t c e d e' differ =
    ends_with_other (t ++ c ∷ e) d e' (λ same. differ (sym (last_byte-append t c e) ∙ same))

module _ (b : Bytes) (prop : PropertyInfo) (v : IsBare b) where
  -- The bytes of "[", "]", "<", ">", "{", "}" and "?" are 91, 93, 60, 62, 123, 125 and 63.
  parsed_form :
      (n : Bool) (f : Form)
      → parsed_type prop (text_of b n f) ≡ base_type (with_nullable n (with_form f prop)) b
  parsed_form true plain = rw (
    parsed_type_lem,
    strip_list_miss prop _ (no_other b 63 [] 91 (93 ∷ []) (omega arith)),
    strip_set_miss prop _ (no_other b 63 [] 60 (62 ∷ []) (omega arith)),
    strip_nullable_hit,
    dictionary_miss _ b v.no_dictionary,
  )
  parsed_form false plain = rw (
    parsed_type_lem,
    strip_list_miss prop _ v.no_list,
    strip_set_miss prop _ v.no_set,
    strip_nullable_miss prop _ v.no_mark,
    dictionary_miss _ b v.no_dictionary,
  )
  parsed_form true list = rw (
    parsed_type_lem,
    strip_list_hit,
    strip_set_miss _ _ (no_other b 63 [] 60 (62 ∷ []) (omega arith)),
    strip_nullable_hit,
    dictionary_miss _ b v.no_dictionary,
  )
  parsed_form false list = rw (
    parsed_type_lem,
    strip_list_hit,
    strip_set_miss _ _ v.no_set,
    strip_nullable_miss _ _ v.no_mark,
    dictionary_miss _ b v.no_dictionary,
  )
  parsed_form true set = rw (
    parsed_type_lem,
    strip_list_miss prop _ (no_other (b ++ codes "?") 60 (62 ∷ []) 91 (93 ∷ []) (omega arith)),
    strip_set_hit,
    strip_nullable_hit,
    dictionary_miss _ b v.no_dictionary,
  )
  parsed_form false set = rw (
    parsed_type_lem,
    strip_list_miss prop _ (no_other b 60 (62 ∷ []) 91 (93 ∷ []) (omega arith)),
    strip_set_hit,
    strip_nullable_miss _ _ v.no_mark,
    dictionary_miss _ b v.no_dictionary,
  )
  parsed_form true dictionary = rw (
    parsed_type_lem,
    strip_list_miss prop _ (no_other (b ++ codes "{}") 63 [] 91 (93 ∷ []) (omega arith)),
    strip_set_miss prop _ (no_other (b ++ codes "{}") 63 [] 60 (62 ∷ []) (omega arith)),
    strip_nullable_hit,
    dictionary_hit _ b v.filled,
  )
  parsed_form false dictionary = rw (
    parsed_type_lem,
    strip_list_miss prop _ (no_other b 123 (125 ∷ []) 91 (93 ∷ []) (omega arith)),
    strip_set_miss prop _ (no_other b 123 (125 ∷ []) 60 (62 ∷ []) (omega arith)),
    strip_nullable_miss prop _ (no_other b 123 (125 ∷ []) 63 [] (omega arith)),
    dictionary_hit _ b v.filled,
  )

pub text_of-filled :
    (b : Bytes) (n : Bool) (f : Form) → b ≢ [] → (length (text_of b n f) == 0) ≡ false
text_of-filled [] n f h = absurd (h refl)
text_of-filled (c ∷ b) true plain h = ground arith
text_of-filled (c ∷ b) n f h = ground arith

-- The text of a type notation is read as what the notation means: the element's type, nullable or
-- not, and the collection, with the property's other fields as they were. The base is a primitive
-- type or a class name that is no primitive's name, is not empty and ends in no suffix.
pub parse_property_type-text_of :
    {W : Type 0} (t : TypeNotation) (prop : PropertyInfo) (s : State W)
    → IsBase t.base
    → parse_property_type prop (text_of (base_text t.base) t.nullable t.form) s
      ≡ (ok (meaning t prop), s)
unfolding parse_property_type
parse_property_type-text_of t prop s h =
    let v = IsBare-base t.base h in
    rw (
      text_of-filled (base_text t.base) t.nullable t.form v.filled,
      parsed_form (base_text t.base) prop v t.nullable t.form,
      base_type-base t.base (with_nullable t.nullable (with_form t.form prop)) h,
    )
