-- ===== src/Enrollment.antt =====
-- The uses of enrollment tokens: hive/internal/enrollment/enrollment.go, lines 28 to 40 and 189 to 274.
-- The file is the map that it holds, `none` if it does not exist; a negative count, which the load
-- refuses, has no counterpart. How a write ends is an argument.
pub mod Uses
use herdr_hive.Base.{
  starts_with, ℕ, ◌+◌, ◌-◌, ◌*◌, Bool, true, false, ◌||◌, ◌&&◌, not, Option, none, some, List, [],
  ◌∷◌, ◌++◌, ltb, leb, ◌==◌, if◌then◌else◌, Bytes, bytes_eq, codes, length, drop,
}
use herdr_hive.Base.Dict.{Dict, lookup, insert, delete}

abbrev pub max_tokens : ℕ
max_tokens = 1024

abbrev pub max_keys : ℕ
max_keys = 1024

-- What `ReserveUse` reads of a token; no limit is 0.
pub record Token : Type 0 where
  pub id : Bytes
  pub max_uses : ℕ

pub record Use : Type 0 where
  pub uses : ℕ
  pub keys : List Bytes

is_hex : ℕ → Bool
is_hex c = (leb 48 c && leb c 57) || (leb 97 c && leb c 102)

all_hex : Bytes → Bool
unfolding is_hex
all_hex [] = true
all_hex (c ∷ cs) = is_hex c && all_hex cs

-- `validHex`
unfoldable pub valid_hex : Bytes → ℕ → Bool
unfolding all_hex
valid_hex s size = length s == 2 * size && all_hex s

-- The identity of a token.
unfoldable pub valid_id : Bytes → Bool
valid_id s = starts_with (codes "t-") s && valid_hex (drop 2 s) 8

unfoldable pub contains : Bytes → List Bytes → Bool
contains key [] = false
contains key (k ∷ ks) = bytes_eq k key || contains key ks

-- The keys of one record, after those that were seen.
unfoldable pub valid_keys : List Bytes → List Bytes → Bool
valid_keys seen [] = true
valid_keys seen (k ∷ ks) =
    starts_with (codes "SHA256:") k
    && length k == 50
    && not (contains k seen)
    && valid_keys (k ∷ seen) ks

unfoldable pub valid_uses : Dict Use → Bool
valid_uses [] = true
valid_uses ((id, v) ∷ rest) =
    valid_id id && v.uses == length v.keys && valid_keys [] v.keys && valid_uses rest

unfoldable pub count_keys : Dict Use → ℕ
count_keys [] = 0
count_keys ((id, v) ∷ rest) = length v.keys + count_keys rest

-- `LoadUses`
unfoldable pub load_uses : Option (Dict Use) → Option (Dict Use)
load_uses none = some []
load_uses (some u) =
    if ltb max_tokens (length u) || not (valid_uses u) || ltb max_keys (count_keys u)
    then none
    else some u

-- The zero value of a missing key.
unfoldable pub use_of : Option Use → Use
use_of none = record { uses = 0; keys = [] }
use_of (some v) = v

pub data Reserved : Type 0 where
  resumed : Reserved
  exhausted : Reserved
  usage_limit : Reserved
  granted : Dict Use → Reserved

-- `ReserveUse` from the loaded map on, up to the write.
unfoldable pub reserve_in : Token → Bytes → Dict Use → Reserved
reserve_in t key u =
    let v = use_of (lookup t.id u) in
    if contains key v.keys
    then resumed
    else if ltb 0 t.max_uses && leb t.max_uses v.uses
    then exhausted
    else if leb max_tokens (length u) && v.uses == 0
    then usage_limit
    else if leb max_keys (count_keys u)
    then usage_limit
    else granted (insert t.id (record { uses = v.uses + 1; keys = v.keys ++ key ∷ [] }) u)

-- The first occurrence of a key is taken out.
unfoldable pub remove_key : Bytes → List Bytes → List Bytes
remove_key key [] = []
remove_key key (k ∷ ks) = let rest = remove_key key ks in if bytes_eq k key then ks else k ∷ rest

unfoldable pub without_key : Bytes → Use → Use
without_key key v =
    if contains key v.keys then record { uses = v.uses - 1; keys = remove_key key v.keys } else v

-- `ReleaseUse` from the loaded map on, up to the write.
unfoldable pub release_in : Bytes → Bytes → Dict Use → Dict Use
release_in id key u =
    let v = without_key key (use_of (lookup id u)) in
    if v.uses == 0 then delete id u else insert id v u

-- How a write of the file ends; `unsynced` is `ErrCommitted`, after the replacement.
pub data Write : Type 0 where
  written : Write
  unsynced : Write
  failed : Write

pub data UseError : Type 0 where
  bad_state : UseError
  refused : UseError
  not_synced : UseError
  not_written : UseError

saved : Write → Option (Dict Use) → Dict Use → Option (Dict Use) × Option UseError
saved written file u = (some u, none)
saved unsynced file u = (some u, some not_synced)
saved failed file u = (file, some not_written)

synced : Write → Option UseError
synced written = none
synced _ = some not_synced

after_reserve : Write → Option (Dict Use) → Reserved → Option (Dict Use) × Bool × Option UseError
unfolding saved synced
after_reserve w file resumed = (file, false, synced w)
after_reserve w file exhausted = (file, false, some refused)
after_reserve w file usage_limit = (file, false, some refused)
after_reserve w file (granted u) = let r = saved w file u in (r.0, true, r.1)

-- `ReserveUse`: the file, whether a use was reserved, and the error.
unfoldable pub reserve_use :
    Token → Bytes → Write → Option (Dict Use) → Option (Dict Use) × Bool × Option UseError
unfolding after_reserve
reserve_use t key w file = elim (load_uses file) [
  | none ↦ (file, false, some bad_state)
  | some u ↦ after_reserve w file (reserve_in t key u)
]

-- `ReleaseUse`
unfoldable pub release_use :
    Bytes → Bytes → Write → Option (Dict Use) → Option (Dict Use) × Option UseError
unfolding saved
release_use id key w file = elim (load_uses file) [
  | none ↦ (file, some bad_state)
  | some u ↦ saved w file (release_in id key u)
]
