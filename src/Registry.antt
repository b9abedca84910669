-- ===== src/Registry.antt =====
-- The device registry: hive/internal/registry/registry.go.
-- The file is the map that was last written to it. Marshalling the map does not fail, and the file
-- operations are one argument of `name_device`: whether all of them up to the rename succeeded.
pub mod Search
pub mod Assign
pub mod Names
use herdr_hive.Base.{
  ℕ, zero, suc, ◌+◌, Bool, true, false, ◌||◌, ◌&&◌, not, Option, none, some, List, [], ◌∷◌, ◌++◌,
  ltb, leb, if◌then◌else◌, Bytes, bytes_eq, length,
}
use herdr_hive.Base.Dict.{Dict, lookup, insert, delete}
use herdr_hive.Base.Decimal.{decimal}

pub record Registry : Type 0 where
  pub names : Dict Bytes
  pub file : Dict Bytes

abbrev pub max_names : ℕ
max_names = 1024

-- `fmt.Sprintf("%s-%d", wanted, n)`
unfoldable pub suffixed : Bytes → ℕ → Bytes
suffixed wanted n = wanted ++ (b'-' ∷ decimal n)

-- Another owner has the name.
unfoldable pub is_used : Bytes → Bytes → Dict Bytes → Bool
is_used owner name [] = false
is_used owner name ((k, v) ∷ names) =
    not (bytes_eq k owner) && bytes_eq v name || is_used owner name names

-- The loop of `Name`; `none` means that the fuel ran out.
unfoldable pub find_name : ℕ → Bytes → Dict Bytes → Bytes → ℕ → Bytes → Option Bytes
find_name zero owner names wanted n name = none
find_name (suc fuel) owner names wanted n name = elim (is_used owner name names) [
  | true ↦ find_name fuel owner names wanted (n + 1) (suffixed wanted n)
  | false ↦ some name
]

-- `""` for a missing key.
unfoldable pub value_of : Option Bytes → Bytes
value_of none = []
value_of (some v) = v

pub data Named : Type 0 where
  named : Bytes → Named
  full : Named
  unsaved : Bytes → Named
  -- No name within the fuel.
  stuck : Named

-- `r.Names[owner] = old`, or `delete(r.Names, owner)`.
unfoldable pub roll_back : Bytes → Option Bytes → Dict Bytes → Dict Bytes
roll_back owner none names = delete owner names
roll_back owner (some old) names = insert owner old names

unfoldable pub is_new : Option Bytes → Bool
is_new none = true
is_new (some _) = false

unfoldable pub assign : Registry → Bytes → Bool → Option Bytes → Registry × Named
unfolding value_of
assign r owner saved none = (r, stuck)
assign r owner saved (some name) =
    let old = lookup owner r.names in
    let names = insert owner name r.names in
    if bytes_eq (value_of old) name
    then (r, named name)
    else if is_new old && leb max_names (length r.names)
    then (r, full)
    else if saved
    then (record { names = names; file = names }, named name)
    else (record r { names = roll_back owner old names }, unsaved name)

-- `Name`
unfoldable pub name_device : Registry → Bytes → Bytes → Bool → Registry × Named
name_device r owner wanted saved =
    assign r owner saved (find_name (length r.names + 1) owner r.names wanted 2 wanted)
