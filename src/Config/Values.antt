-- ===== src/Config/Values.antt =====
-- Values of the configuration file, as yaml.load gives them, and config_value (config/config.py).
-- Numbers with a fraction are left out.
use Prim.Native.String
use Prim.Native.Nat.{Ordering}
use qsp_protocol_node.Prelude.{
  is_greater, ℤ, pos, negsuc, String, Bool, true, false, not, Option, none, some, if◌then◌else◌,
  str_eq, ◌==◌, Result, ok, raise, key_error, other,
}

mutual
  pub data Value : Type 0 where
    nothing : Value
    text : String → Value
    num : ℤ → Value
    flag : Bool → Value
    sequence : Items → Value
    mapping : Entries → Value

  pub data Items : Type 0 where
    end : Items
    item : Value → Items → Items

  -- A dictionary in the order of its keys.
  pub data Entries : Type 0 where
    no_entries : Entries
    entry : String → Value → Entries → Entries

abbrev pub is_none : Value → Bool
is_none nothing = true
is_none _ = false

-- `bool`
unfoldable pub is_true : Value → Bool
is_true nothing = false
is_true (text s) = not (str_eq s "")
is_true (num (pos n)) = not (n == 0)
is_true (num (negsuc n)) = true
is_true (flag b) = b
is_true (sequence end) = false
is_true (sequence (item v vs)) = true
is_true (mapping no_entries) = false
is_true (mapping (entry k v es)) = true

-- True and False are the integers 1 and 0.
abbrev pub as_int : Value → Option ℤ
as_int (num n) = some n
as_int (flag true) = some (pos 1)
as_int (flag false) = some (pos 0)
as_int _ = none

abbrev is_after : Ordering → Bool
is_after Ordering.gt = true
is_after _ = false

abbrev pub greater_ints : Option ℤ → Option ℤ → Result Bool
greater_ints (some m) (some n) = ok (is_greater m n)
greater_ints _ _ = raise (other "'>' not supported")

-- `a > b`: integers and texts are ordered, other values raise a TypeError, also two lists here.
unfoldable pub greater : Value → Value → Result Bool
unfolding is_greater
greater (text s) (text t) = ok (is_after (String.compare s t))
greater a b = greater_ints (as_int a) (as_int b)

-- `get` is dpath.util.get: it raises a KeyError on a path that is not there.
unfoldable pub config_value :
    (Value → String → Result Value) → Value → String → Value → Bool → Result Value
config_value get cfg path default accept_none = elim (get cfg path) [
  | ok value ↦ ok value
  | raise e ↦ elim e [
    | key_error ↦
        if not (is_none default)
        then ok default
        else if accept_none
        then ok nothing
        else raise key_error
    | other_error ↦ raise other_error
  ]
]

-- `d.get(key)` on a dictionary, which anything else does not have.
unfoldable pub find_entry : String → Entries → Option Value
find_entry key no_entries = none
find_entry key (entry k v es) = if str_eq k key then some v else find_entry key es

-- `d[key] = value` on a dictionary that has the key: the entry keeps its place.
unfoldable pub set_entry : String → Value → Entries → Entries
set_entry key value no_entries = entry key value no_entries
set_entry key value (entry k v es) =
    let rest = set_entry key value es in if str_eq k key then entry k value es else entry k v rest
