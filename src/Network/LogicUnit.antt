-- ===== src/Network/LogicUnit.antt =====
-- class unit (include/server_lib/network/unit.h, src/network/unit.cpp).
-- `LogicUnit.unit` is (_success, _data, _nested_content). The move operations copy.
use barbacoa_server_lib.Prelude.{
  ℕ, Bool, true, false, not, List, [], ◌∷◌, ◌++◌, Result, ok, err, logic_error, if◌then◌else◌, ◌&&◌,
  to_string, ◌==◌, bytes_eq,
}
use barbacoa_server_lib.Network.IntegerBuilder.Pack.{pack}

-- variant_type
pub data Variant : Type 0 where
  string : List ℕ → Variant
  integer : ℕ → Variant
  boolean : Bool → Variant

mutual
  pub data LogicUnit : Type 0 where
    unit : Bool → Variant → Units → LogicUnit

  pub data Units : Type 0 where
    nil : Units
    cons : LogicUnit → Units → Units

-- The constructors of the class.
abbrev pub from_bool : Bool → LogicUnit
from_bool success = unit success (boolean success) nil

abbrev pub from_string : List ℕ → LogicUnit
from_string value = unit true (string value) nil

abbrev pub from_integer : ℕ → LogicUnit
from_integer value = unit true (integer value) nil

abbrev pub from_nested : Units → Bool → LogicUnit
from_nested nested success = unit success (boolean success) nested

abbrev pub success : LogicUnit → Bool
success (unit s d n) = s

abbrev pub get_data : LogicUnit → Variant
get_data (unit s d n) = d

abbrev pub get_nested : LogicUnit → Units
get_nested (unit s d n) = n

-- `set` replaces the data and keeps the nested content, but for the overload with nested units.
abbrev pub set_bool : LogicUnit → Bool → LogicUnit
set_bool u ok' = unit ok' (boolean ok') (get_nested u)

abbrev pub set_string : LogicUnit → List ℕ → LogicUnit
set_string u value = unit true (string value) (get_nested u)

abbrev pub set_integer : LogicUnit → ℕ → LogicUnit
set_integer u value = unit true (integer value) (get_nested u)

abbrev pub set_nested : LogicUnit → Units → Bool → LogicUnit
set_nested u nested ok' = unit ok' (boolean ok') nested

abbrev pub push_back : Units → LogicUnit → Units
push_back nil u = cons u nil
push_back (cons v vs) u = cons v (push_back vs u)

-- unit::operator<<
infixl 60 ◌<<◌
abbrev pub ◌<<◌ : LogicUnit → LogicUnit → LogicUnit
unit s d n << u = unit s d (push_back n u)

abbrev pub is_string : LogicUnit → Bool
is_string (unit s (string x) n) = true
is_string (unit s (integer x) n) = false
is_string (unit s (boolean x) n) = false

abbrev pub is_integer : LogicUnit → Bool
is_integer (unit s (string x) n) = false
is_integer (unit s (integer x) n) = true
is_integer (unit s (boolean x) n) = false

abbrev pub is_null : LogicUnit → Bool
is_null (unit s (string x) n) = false
is_null (unit s (integer x) n) = false
is_null (unit s (boolean x) n) = true

abbrev pub is_error : LogicUnit → Bool
is_error u = not (success u)

abbrev pub ok_unit : LogicUnit → Bool
ok_unit u = not (is_error u)

-- operator bool
abbrev pub is_valid : LogicUnit → Bool
is_valid u = not (is_error u) && not (is_null u)

abbrev pub is_root_for_nested_content : LogicUnit → Bool
is_root_for_nested_content (unit s d nil) = false
is_root_for_nested_content (unit s d (cons u us)) = true

abbrev pub as_string : LogicUnit → Result (List ℕ)
as_string (unit s (string x) n) = ok x
as_string (unit s (integer x) n) = err logic_error
as_string (unit s (boolean x) n) = err logic_error

abbrev pub as_integer : LogicUnit → Result ℕ
as_integer (unit s (string x) n) = err logic_error
as_integer (unit s (integer x) n) = ok x
as_integer (unit s (boolean x) n) = err logic_error

abbrev pub error : LogicUnit → Result (List ℕ)
error u = if is_error u then as_string u else err logic_error

-- lunit_data_to_network_string; a bool is not sent.
abbrev pub data_to_network_string : Variant → List ℕ
data_to_network_string (string x) = x
data_to_network_string (integer x) = pack x
data_to_network_string (boolean x) = []

-- lunit_data_to_string, with the '+' or '-' that stands for null data.
abbrev pub data_to_printable_string : Bool → Variant → List ℕ
data_to_printable_string s (string x) = x
data_to_printable_string s (integer x) = to_string x
data_to_printable_string s (boolean x) = if s then b'+' ∷ [] else b'-' ∷ []

unfoldable mutual
  pub to_network_string : LogicUnit → List ℕ
  to_network_string (unit s d n) = data_to_network_string d ++ nested_to_network_string n

  pub nested_to_network_string : Units → List ℕ
  nested_to_network_string nil = []
  nested_to_network_string (cons u us) = to_network_string u ++ nested_to_network_string us

-- The loop over the nested units takes the separator that stands before each of them.
unfoldable mutual
  pub to_printable_string : LogicUnit → List ℕ
  to_printable_string (unit s d n) =
      data_to_printable_string s d ++ nested_to_printable_string n b':'

  pub nested_to_printable_string : Units → ℕ → List ℕ
  nested_to_printable_string nil separator = []
  nested_to_printable_string (cons u us) separator =
      separator ∷ (to_printable_string u ++ nested_to_printable_string us b',')

-- operator==
abbrev pub variant_eq : Variant → Variant → Bool
variant_eq (string x) (string y) = bytes_eq x y
variant_eq (integer x) (integer y) = x == y
variant_eq (boolean true) (boolean b) = b
variant_eq (boolean false) (boolean b) = not b
variant_eq _ _ = false
