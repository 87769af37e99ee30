-- ===== src/Schema/Property/Nested.antt =====
-- A mark before a dictionary's braces, where README.md's nullable types would put it: src/realm_schema.cpp looks
-- for it after the braces only.
use realm_lua_bootcamp.Prelude.{
  ◌≡◌, ◌≢◌, ap, sym, ◌∙◌, false, inl, inr, [], ◌∷◌, ◌++◌, arith, Bool-cases,
}
use realm_lua_bootcamp.Text.{Bytes, codes, text_eq, text_eq→eq}
use realm_lua_bootcamp.Text.Laws.{last_byte, last_byte-append}
use realm_lua_bootcamp.Lua.{State, ok}
use realm_lua_bootcamp.Schema.Types.{object, dictionary_of, PropertyInfo}
use realm_lua_bootcamp.Schema.Property.{parse_property_type}
use realm_lua_bootcamp.Schema.Property.Stages.{
  strip_list_miss, strip_set_miss, strip_nullable_miss, parsed_type_lem, dictionary_hit,
}
use realm_lua_bootcamp.Schema.Property.Notation.{
  Primitive, bool, mixed, int, float, double, string, date, bytes, decimal, object_id, uuid,
  primitive_text, base_type-named, dictionary,
}
use realm_lua_bootcamp.Schema.Property.Reading.{no_other, text_of-filled}

marked-text_eq : (t e : Bytes) → last_byte e ≢ 63 → text_eq (t ++ codes "?") e ≡ false
marked-text_eq t e other = elim (Bool-cases (text_eq (t ++ codes "?") e)) [
  | inl same ↦ absurd (other (ap last_byte (sym (text_eq→eq _ e same)) ∙ last_byte-append t 63 []))
  | inr differ ↦ differ
]

marked-no_primitive :
    (t : Bytes) (p : Primitive) → text_eq (t ++ codes "?") (primitive_text p) ≡ false
marked-no_primitive t bool = marked-text_eq t _ (omega arith)
marked-no_primitive t mixed = marked-text_eq t _ (omega arith)
marked-no_primitive t int = marked-text_eq t _ (omega arith)
marked-no_primitive t float = marked-text_eq t _ (omega arith)
marked-no_primitive t double = marked-text_eq t _ (omega arith)
marked-no_primitive t string = marked-text_eq t _ (omega arith)
marked-no_primitive t date = marked-text_eq t _ (omega arith)
marked-no_primitive t bytes = marked-text_eq t _ (omega arith)
marked-no_primitive t decimal = marked-text_eq t _ (omega arith)
marked-no_primitive t object_id = marked-text_eq t _ (omega arith)
marked-no_primitive t uuid = marked-text_eq t _ (omega arith)

marked_filled : (t : Bytes) → t ++ codes "?" ≢ []
marked_filled [] e = cc e
marked_filled (c ∷ t) e = cc e

-- A type such as "int?{}" is not read as a dictionary of nullable values: it is a dictionary of
-- objects whose class is named "int?", and its flags stay, whatever stands before the mark.
parse_property_type-marked_dictionary :
    {W : Type 0} (t : Bytes) (prop : PropertyInfo) (s : State W)
    → parse_property_type prop ((t ++ codes "?") ++ codes "{}") s ≡ (
      ok (record prop {
        collection_type = dictionary_of;
        type = object;
        link_target = t ++ codes "?";
      }),
      s,
    )
unfolding parse_property_type
parse_property_type-marked_dictionary t prop s =
    let b = t ++ codes "?" in
    let filled : b ≢ [] = marked_filled t in
    rw (
      text_of-filled b false dictionary filled,
      parsed_type_lem,
      strip_list_miss prop _ (no_other b 123 (125 ∷ []) 91 (93 ∷ []) (omega arith)),
      strip_set_miss prop _ (no_other b 123 (125 ∷ []) 60 (62 ∷ []) (omega arith)),
      strip_nullable_miss prop _ (no_other b 123 (125 ∷ []) 63 [] (omega arith)),
      dictionary_hit _ b filled,
      base_type-named b (record prop { collection_type = dictionary_of }) (marked-no_primitive t),
    )
