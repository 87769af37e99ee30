-- ===== src/Schema/Property/Notation.antt =====
-- The notation of property types that src/realm_schema.cpp accepts, as a data type with its text.
use realm_lua_bootcamp.Prelude.{◌≡◌, ◌≢◌, refl, Bool, true, false, [], ◌++◌}
use realm_lua_bootcamp.Text.{Bytes, codes, text_eq, ends_with}
use realm_lua_bootcamp.Schema.Types.{
  PropertyType, object, list_of, set_of, dictionary_of, PropertyInfo,
}
use realm_lua_bootcamp.Schema.Property.{set_nullable, base_type}

pub data Primitive : Type 0 where
  bool mixed int float double string date bytes decimal object_id uuid : Primitive

abbrev pub primitive_text : Primitive → Bytes
primitive_text bool = codes "bool"
primitive_text mixed = codes "mixed"
primitive_text int = codes "int"
primitive_text float = codes "float"
primitive_text double = codes "double"
primitive_text string = codes "string"
primitive_text date = codes "date"
primitive_text bytes = codes "data"
primitive_text decimal = codes "decimal128"
primitive_text object_id = codes "objectId"
primitive_text uuid = codes "uuid"

abbrev pub primitive_type : Primitive → PropertyType
primitive_type bool = PropertyType.bool
primitive_type mixed = PropertyType.mixed
primitive_type int = PropertyType.int
primitive_type float = PropertyType.float
primitive_type double = PropertyType.double
primitive_type string = PropertyType.string
primitive_type date = PropertyType.timestamp
primitive_type bytes = PropertyType.binary
primitive_type decimal = PropertyType.decimal128
primitive_type object_id = PropertyType.object_id
primitive_type uuid = PropertyType.uuid

pub data Base : Type 0 where
  primitive : Primitive → Base
  class_named : Bytes → Base

pub data Form : Type 0 where
  plain list set dictionary : Form

-- A type as a schema's author means it.
pub record TypeNotation : Type 0 where
  pub base : Base
  pub nullable : Bool
  pub form : Form

abbrev pub base_text : Base → Bytes
base_text (primitive p) = primitive_text p
base_text (class_named n) = n

-- The text of the element, of a list, a set or a plain property: "int", "int?".
abbrev pub element_text : Bytes → Bool → Bytes
element_text b true = b ++ codes "?"
element_text b false = b

-- A dictionary's "?" comes last.
abbrev pub text_of : Bytes → Bool → Form → Bytes
text_of b n plain = element_text b n
text_of b n list = element_text b n ++ codes "[]"
text_of b n set = element_text b n ++ codes "<>"
text_of b n dictionary = element_text (b ++ codes "{}") n

abbrev pub with_form : Form → PropertyInfo → PropertyInfo
with_form plain prop = prop
with_form list prop = record prop { collection_type = list_of }
with_form set prop = record prop { collection_type = set_of }
with_form dictionary prop = record prop { collection_type = dictionary_of }

abbrev pub with_nullable : Bool → PropertyInfo → PropertyInfo
with_nullable true prop = set_nullable prop
with_nullable false prop = prop

abbrev pub with_base : Base → PropertyInfo → PropertyInfo
with_base (primitive p) prop = record prop { type = primitive_type p }
with_base (class_named n) prop = record prop { type = object; link_target = n }

-- What the notation means for a property.
abbrev pub meaning : TypeNotation → PropertyInfo → PropertyInfo
meaning t prop = with_base t.base (with_nullable t.nullable (with_form t.form prop))

-- A text that no stage takes a suffix from.
pub record IsBare (b : Bytes) : Type 0 where
  pub filled : b ≢ []
  pub no_list : ends_with b (codes "[]") ≡ false
  pub no_set : ends_with b (codes "<>") ≡ false
  pub no_mark : ends_with b (codes "?") ≡ false
  pub no_dictionary : ends_with b (codes "{}") ≡ false

-- The name of an object type: bare, and not the name of a primitive type.
abbrev pub IsBase : Base → Type 0
IsBase (primitive p) = Unit {0}
IsBase (class_named n) = IsBare n × ((p : Primitive) → text_eq n (primitive_text p) ≡ false)

pub IsBare-primitive : (p : Primitive) → IsBare (primitive_text p)
unfolding ends_with
IsBare-primitive bool = record {
  filled = λ e. cc;
  no_list = refl;
  no_set = refl;
  no_mark = refl;
  no_dictionary = refl;
}
IsBare-primitive _ = record {
  filled = λ e. cc;
  no_list = refl;
  no_set = refl;
  no_mark = refl;
  no_dictionary = refl;
}

pub IsBare-base : (b : Base) → IsBase b → IsBare (base_text b)
IsBare-base (primitive p) h = IsBare-primitive p
IsBare-base (class_named n) h = h.0

pub base_type-named :
    (n : Bytes) (prop : PropertyInfo)
    → ((p : Primitive) → text_eq n (primitive_text p) ≡ false)
    → base_type prop n ≡ with_base (class_named n) prop
unfolding base_type
base_type-named n prop other = rw (
  other bool,
  other mixed,
  other int,
  other float,
  other double,
  other string,
  other date,
  other bytes,
  other decimal,
  other object_id,
  other uuid,
)

pub base_type-base :
    (b : Base) (prop : PropertyInfo) → IsBase b → base_type prop (base_text b) ≡ with_base b prop
unfolding base_type
base_type-base (primitive bool) prop h = refl
base_type-base (primitive _) prop h = refl
base_type-base (class_named n) prop h = base_type-named n prop h.1
