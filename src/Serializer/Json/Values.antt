-- ===== src/Serializer/Json/Values.antt =====
-- The values that src/pysilience/cache_serializer_json.py stores, and the trees that the module
-- `json` writes and reads. `N` are the numbers of Python, and `O` the contents of other objects.
use Prim.Native.String.{◌++◌ as ◌followed_by◌}
use pysilience.Prelude.{String, Bool, Option, none, some, if◌then◌else◌}
use text.Mathlib.Text.{◌==◌ as str_eq}
use pysilience.Python.{Exc}

-- A class: `cls.__module__` and `cls.__qualname__`.
pub record PyType : Type 0 where
  pub module_name : String
  pub qualname : String

-- `_type_key`
abbrev pub type_key : PyType → String
type_key cls = (cls.module_name followed_by ".") followed_by cls.qualname

-- A dictionary has texts as keys, in the order of insertion; `object` is any object that `json` does
-- not know.
mutual
  pub data Value (N O : Type 0) : Type 0 where
    null : Value N O
    boolean : Bool → Value N O
    number : N → Value N O
    string : String → Value N O
    array : Items N O → Value N O
    tuple : Items N O → Value N O
    dict : Fields N O → Value N O
    object : PyType → O → Value N O

  pub data Items (N O : Type 0) : Type 0 where
    nil : Items N O
    cons : Value N O → Items N O → Items N O

  pub data Fields (N O : Type 0) : Type 0 where
    end : Fields N O
    field : String → Value N O → Fields N O → Fields N O

-- A tree of `json`. In a text that is read, `malformed` stands where the parser stops, with what it
-- raises.
mutual
  pub data Tree (N : Type 0) : Type 0 where
    null_tree : Tree N
    boolean_tree : Bool → Tree N
    number_tree : N → Tree N
    text_tree : String → Tree N
    array_tree : Trees N → Tree N
    object_tree : Members N → Tree N
    malformed : Exc → Tree N

  pub data Trees (N : Type 0) : Type 0 where
    no_trees : Trees N
    tree : Tree N → Trees N → Trees N

  pub data Members (N : Type 0) : Type 0 where
    no_members : Members N
    member : String → Tree N → Members N → Members N

module _ {N O : Type 0} where
  -- `d.get(key)`
  abbrev pub get_field : String → Fields N O → Option (Value N O)
  get_field key end = none
  get_field key (field k v fs) = if str_eq k key then some v else get_field key fs

  -- `d` without `key`
  abbrev pub drop_field : String → Fields N O → Fields N O
  drop_field key end = end
  drop_field key (field k v fs) = if str_eq k key then fs else field k v (drop_field key fs)

  -- An entry before those of a dictionary. A key that comes again keeps its first place and takes its
  -- last value.
  abbrev pub put_first : String → Value N O → Option (Value N O) → Fields N O → Fields N O
  put_first key value none d = field key value d
  put_first key value (some later) d = field key later (drop_field key d)

  -- `dict(pairs)`
  unfoldable pub dict_of : Fields N O → Fields N O
  dict_of end = end
  dict_of (field key value pairs) = let d = dict_of pairs in put_first key value (get_field key d) d
