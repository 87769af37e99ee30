-- ===== src/Lua/Values.antt =====
-- Lua values. A table is the list of its entries in the order in which `lua_next` visits them; a
-- table is copied where it is read, which is enough since the bindings never write to a table that
-- something else can see. Integers are 64-bit patterns, floats the bits of a double.
use realm_lua_bootcamp.Prelude.{ℕ, zero, suc, ◌+◌, Bool, true, false, ◌==◌, if◌then◌else◌, length}
use realm_lua_bootcamp.Text.{Bytes, text_eq}

mutual
  pub data Value : Type 0 where
    nil : Value
    boolean : Bool → Value
    integer : ℕ → Value
    number : ℕ → Value
    string : Bytes → Value
    table : Fields → Value
    function : ℕ → Value
    userdata : ℕ → Value
    light : ℕ → Value

  pub data Fields : Type 0 where
    end : Fields
    field : Value → Value → Fields → Fields

-- `lua_type`; `absent` is LUA_TNONE, of an index that holds no value.
pub data LuaType : Type 0 where
  absent t_nil t_boolean t_number t_string t_table t_function t_userdata t_light : LuaType

unfoldable pub type_of : Value → LuaType
type_of nil = t_nil
type_of (boolean b) = t_boolean
type_of (integer n) = t_number
type_of (number d) = t_number
type_of (string s) = t_string
type_of (table fs) = t_table
type_of (function f) = t_function
type_of (userdata u) = t_userdata
type_of (light p) = t_light

-- A table's entry under a string key.
unfoldable pub get_field : Bytes → Fields → Value
unfolding text_eq
get_field k end = nil
get_field k (field (string j) v fs) = if text_eq j k then v else get_field k fs
get_field k (field _ v fs) = get_field k fs

unfoldable pub set_field : Bytes → Value → Fields → Fields
unfolding text_eq
set_field k v end = field (string k) v end
set_field k v (field (string j) w fs) =
    if text_eq j k then field (string j) v fs else field (string j) w (set_field k v fs)
set_field k v (field j w fs) = field j w (set_field k v fs)

-- A table's entry under an integer key.
unfoldable pub get_index : ℕ → Fields → Value
get_index i end = nil
get_index i (field (integer j) v fs) = if j == i then v else get_index i fs
get_index i (field _ v fs) = get_index i fs

unfoldable pub set_index : ℕ → Value → Fields → Fields
set_index i v end = field (integer i) v end
set_index i v (field (integer j) w fs) =
    if j == i then field (integer j) v fs else field (integer j) w (set_index i v fs)
set_index i v (field j w fs) = field j w (set_index i v fs)

abbrev pub count_fields : Fields → ℕ
count_fields end = 0
count_fields (field k v fs) = suc (count_fields fs)

abbrev pub is_nil : Value → Bool
is_nil nil = true
is_nil _ = false

-- The length of a table: the first border from `n` on, with as many steps as there are entries.
unfoldable pub border : ℕ → ℕ → Fields → ℕ
unfolding get_index
border zero n fs = n
border (suc f) n fs =
    let next = border f (n + 1) fs in if is_nil (get_index (n + 1) fs) then n else next

-- `lua_rawlen`; a full userdata here is a block of one pointer.
unfoldable pub raw_len : Value → ℕ
unfolding border
raw_len (table fs) = border (count_fields fs) 0 fs
raw_len (string s) = length s
raw_len (userdata u) = 8
raw_len _ = 0
