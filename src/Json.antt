-- ===== src/Json.antt =====
-- JSON values as `encoding/json` gives them to `any`, with the accessors and the rewriting of
-- identifiers of hive/internal/gateway/gateway.go, lines 357 to 404 and 549.
use herdr_hive.Base.{
  ℕ, suc, Bool, true, false, ◌||◌, ◌&&◌, not, Option, List, [], ◌∷◌, if◌then◌else◌, Bytes, bytes_eq,
  codes,
}

-- A number is a non-negative integer, or kept as its text.
mutual
  pub data Value : Type 0 where
    null : Value
    bool : Bool → Value
    num : ℕ → Value
    real : Bytes → Value
    str : Bytes → Value
    arr : Items → Value
    obj : Fields → Value

  pub data Items : Type 0 where
    nil : Items
    cons : Value → Items → Items

  pub data Fields : Type 0 where
    end : Fields
    field : Bytes → Value → Fields → Fields

-- `encoding/json` and `crypto/sha256`, as the gateway calls them.
pub record StdLib : Type 0 where
  pub marshal : Value → Bytes
  pub unmarshal : Bytes → Option Value
  pub sha256 : Bytes → Bytes
  -- `uint64` of a number that is no non-negative integer
  pub truncate : Bytes → ℕ

-- `array`
unfoldable pub array : Value → Items
array (arr xs) = xs
array _ = nil

-- `stringVal`
unfoldable pub string_val : Value → Bytes
string_val (str s) = s
string_val _ = []

-- `uint64(numberVal(v))`
unfoldable pub number_val : StdLib → Value → ℕ
number_val l (num n) = n
number_val l (real s) = l.truncate s
number_val l _ = 0

-- A field of a Go map: `nil` where it is missing.
unfoldable pub get : Bytes → Fields → Value
get k end = null
get k (field j v fs) = if bytes_eq j k then v else get k fs

-- `m[k] = v`
unfoldable pub set : Bytes → Value → Fields → Fields
set k v end = field k v end
set k v (field j w fs) = if bytes_eq j k then field k v fs else field j w (set k v fs)

-- `object(v)[k]`
unfoldable pub member : Bytes → Value → Value
member k (obj fs) = get k fs
member k _ = null

unfoldable pub is_null : Value → Bool
is_null null = true
is_null _ = false

unfoldable pub is_object : Value → Bool
is_object (obj _) = true
is_object _ = false

unfoldable pub append_items : Items → Items → Items
append_items nil ys = ys
append_items (cons x xs) ys = cons x (append_items xs ys)

unfoldable pub count_items : Items → ℕ
count_items nil = 0
count_items (cons x xs) = suc (count_items xs)

pub has_text : Bytes → List Bytes → Bool
has_text k [] = false
has_text k (x ∷ xs) = bytes_eq x k || has_text k xs

abbrev id_fields : List Bytes
id_fields =
    codes "workspace_id"
    ∷ codes "tab_id"
    ∷ codes "pane_id"
    ∷ codes "terminal_id"
    ∷ codes "command_id"
    ∷ codes "source_workspace_id"
    ∷ codes "target_pane_id"
    ∷ codes "source_pane_id"
    ∷ codes "before_workspace_id"
    ∷ codes "active_tab_id"
    ∷ codes "focused_workspace_id"
    ∷ codes "focused_tab_id"
    ∷ codes "focused_pane_id"
    ∷ []

-- `isID`
unfoldable pub is_id : Bytes → Bool
is_id k = has_text k id_fields

-- The identifiers of `agent_order`.
unfoldable pub rename_items : (Bytes → Bytes) → Items → Items
rename_items f nil = nil
rename_items f (cons x xs) = cons (str (f (string_val x))) (rename_items f xs)

-- `transform`
unfoldable mutual
  pub transform : (Bytes → Bytes) → Value → Value
  transform f null = null
  transform f (bool b) = bool b
  transform f (num n) = num n
  transform f (real s) = real s
  transform f (str s) = str s
  transform f (arr xs) = arr (transform_items f xs)
  transform f (obj fs) = obj (transform_fields f fs)

  pub transform_items : (Bytes → Bytes) → Items → Items
  transform_items f nil = nil
  transform_items f (cons x xs) = cons (transform f x) (transform_items f xs)

  pub transform_fields : (Bytes → Bytes) → Fields → Fields
  transform_fields f end = end
  transform_fields f (field k v fs) =
      field k
        (if is_id k && not (is_null v)
          then str (f (string_val v))
          else if bytes_eq k (codes "agent_order")
          then arr (rename_items f (array v))
          else transform f v)
        (transform_fields f fs)
