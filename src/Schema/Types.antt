-- ===== src/Schema/Types.antt =====
-- The part of realm.h that the schema code fills in: `realm_property_info_t`, `realm_class_info_t`
-- and their enumerations. A field that the code leaves out of the initialiser is zero: the type
-- INT, no collection.
use realm_lua_bootcamp.Prelude.{ℕ, Bool, true, false, Option}
use realm_lua_bootcamp.Text.{Bytes}

pub data PropertyType : Type 0 where
  int bool string binary mixed timestamp float double decimal128 object object_id uuid :
      PropertyType

pub data CollectionType : Type 0 where
  no_collection list_of set_of dictionary_of : CollectionType

-- The bits of `flags`; RLM_PROPERTY_NORMAL is neither.
pub record Flags : Type 0 where
  pub nullable : Bool
  pub primary_key : Bool

pub record PropertyInfo : Type 0 where
  pub name : Bytes
  pub public_name : Bytes
  pub type : PropertyType
  pub collection_type : CollectionType
  pub link_target : Bytes
  pub link_origin_property_name : Bytes
  pub flags : Flags

-- `none` is the null pointer that `lua_tostring` returns for what is no string.
pub record ClassInfo : Type 0 where
  pub name : Option Bytes
  pub primary_key : Option Bytes
  pub num_properties : ℕ

abbrev pub normal : Flags
normal = record { nullable = false; primary_key = false }

abbrev pub primary : Flags
primary = record { nullable = false; primary_key = true }
