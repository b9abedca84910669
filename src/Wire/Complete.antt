-- ===== src/Wire/Complete.antt =====
-- The retained surface of a publisher: hive/internal/gateway/wire.go, lines 262 to 464.
-- Each operation returns the surface as it leaves it, and whether it returned no error.
pub mod Update
pub mod Patch
pub mod Fits
pub mod Stored
pub mod Shown
use herdr_hive.Base.{
  ℕ, zero, suc, ◌+◌, ◌-◌, ◌*◌, ◌%◌, Bool, true, false, ◌||◌, ◌&&◌, not, Option, none, some, List,
  [], ◌∷◌, ◌++◌, ltb, leb, ◌==◌, if◌then◌else◌, Bytes, bytes_eq, length, take, set,
}
use herdr_hive.Base.Dict.{Dict, lookup, insert}
use herdr_hive.Wire.Encode.{max_frame, number, str}
use herdr_hive.Wire.Decoder.{
  Decoder, decoder, M, ◌>>=◌, ◌>>◌, pure, skip, fail, raw, num, text, many_with, many, option, nums,
}
use herdr_hive.Wire.Codec.{cell, cursor, pane, asset, split, popup, opening, is_empty}

pub record CompleteSurface : Type 0 where
  pub assets : Dict Bytes
  -- `nil` before the first frame
  pub header : Option Bytes
  pub cells : List Bytes
  pub width : ℕ
  pub height : ℕ
  pub cursor_bytes : Bytes
  pub tail : Bytes
  pub revision : ℕ

-- A uint64 wraps.
abbrev pub u64 : ℕ → ℕ
u64 n = n % 18446744073709551616

abbrev pub max_u64 : ℕ
max_u64 = 18446744073709551615

-- The bytes of `b` before those that are left.
abbrev pub before : Bytes → Bytes → Bytes
before b rest = take (length b - length rest) b

-- `cut`
unfoldable pub cut : {A : Type 0} → M A → M Bytes
cut m d = let r = m d in (before d.rest r.1.rest, r.1)

-- `text` with the position put back.
unfoldable pub peek_text : M Bytes
peek_text d = let r = text d in (r.0, record r.1 { rest = d.rest })

-- A rewriting that leaves the identifiers alone.
abbrev pub keep : Bytes → Bytes
keep s = s

unfoldable pub read_cells : M (List Bytes)
read_cells = many_with (λ cells. do c ← cut cell; pure (cells ++ c ∷ [])) []

-- The assets that a scene carries, by key.
incoming_assets : M (Dict Bytes)
incoming_assets =
    many_with (λ found. do key ← cut (asset keep); v ← cut text; pure (insert key v found)) []

-- `add`: a key goes to the end unless it was seen.
has_key : Bytes → List Bytes → Bool
has_key k [] = false
has_key k (x ∷ xs) = bytes_eq x k || has_key k xs

add_key : List Bytes → M (List Bytes)
unfolding has_key
add_key keys = do key ← cut (asset keep); pure (if has_key key keys then keys else keys ++ key ∷ [])

-- The keys that placements and retention name.
named_keys : M (List Bytes)
unfolding add_key
named_keys = do
  placed ← many_with (λ keys. do found ← add_key keys; nums 13; pure found) []
  many_with add_key placed

before_assets : M (Unit {0})
before_assets = do many (skip text); text; many (pane keep); many split; option (popup keep)

-- `v, ok := incoming[key]`, and else the retained asset.
find_asset : Bytes → Dict Bytes → Dict Bytes → Option Bytes
find_asset key incoming assets = elim (lookup key incoming) [
  | some v ↦ some v
  | none ↦ lookup key assets
]

-- The loop over the keys; `none` is `errWire`.
gather : List Bytes → Dict Bytes → Dict Bytes → Dict Bytes → Bytes → Option (Dict Bytes × Bytes)
unfolding find_asset
gather [] incoming assets kept out = some (kept, out)
gather (key ∷ keys) incoming assets kept out = elim (find_asset key incoming assets) [
  | none ↦ none
  | some v ↦
      let written = out ++ (key ++ v) in
      elim (ltb max_frame (length written)) [
        | true ↦ none
        | false ↦ gather keys incoming assets (insert key v kept) written
      ]
]

finish_graphics : CompleteSurface → Bytes → Option (Dict Bytes × Bytes) → CompleteSurface × Bool
finish_graphics s rest none = (s, false)
finish_graphics s rest (some (kept, out)) = (record s { assets = kept; tail = out ++ rest }, true)

-- `retainGraphics`
unfoldable pub retain_graphics : CompleteSurface → CompleteSurface × Bool
unfolding incoming_assets named_keys before_assets gather finish_graphics
retain_graphics s =
    let a = before_assets (decoder s.tail) in
    let b = incoming_assets a.1 in
    let c = named_keys b.1 in
    let front = before s.tail a.1.rest in
    if c.1.failed || not (is_empty c.1.rest)
    then (s, false)
    else finish_graphics s b.1.rest (gather c.0 b.0 s.assets [] (front ++ number (length c.0)))

-- The bytes of the cells.
cells_length : List Bytes → ℕ
cells_length [] = 0
cells_length (c ∷ cs) = length c + cells_length cs

-- The checks at the end of `update`.
unfoldable pub retained : CompleteSurface → ℕ
unfolding cells_length
retained s =
    elim s.header [ none ↦ 0 | some h ↦ length h ]
    + length s.cursor_bytes
    + length s.tail
    + cells_length s.cells

unfoldable pub checks : Decoder → CompleteSurface → CompleteSurface × Bool
unfolding retained
checks d s = (
  s,
  not d.failed && not (ltb max_frame (retained s)) && u64 (s.width * s.height) == length s.cells,
)
