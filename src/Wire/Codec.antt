-- ===== src/Wire/Codec.antt =====
-- The frozen endpoint codecs: hive/internal/gateway/wire.go, lines 160 to 260 and 391 to 410.
-- A rewriting of identifiers is a function on byte strings.
pub mod Echo
pub mod Branches
pub mod Limits
pub mod Rewrite
pub mod Headers
use herdr_hive.Base.{
  ℕ, ◌≡◌, Bool, true, false, ◌||◌, Option, none, some, List, [], ◌∷◌, ltb, ◌==◌, if◌then◌else◌,
  Bytes, not,
}
use herdr_hive.Wire.Decoder.{
  Decoder, decoder, M, ◌>>=◌, ◌>>◌, pure, fail, fail_if, raw, num, text, replace_text, replace_num,
  many, option, enum, nums, skip,
}

unfoldable pub cell : M (Unit {0})
cell = do skip text; nums 3; skip (raw 1); option (skip num)

unfoldable pub cursor : M (Unit {0})
cursor = do nums 2; skip (raw 2)

unfoldable pub frame : M (Unit {0})
frame = do many cell; nums 2; option cursor; many (skip text); skip text

unfoldable pub pane : (Bytes → Bytes) → M (Unit {0})
pane id = do skip (replace_text id); nums 9; option (nums 4); option (nums 3); raw 4; nums 2

asset_body : (Bytes → Bytes) → ℕ → M (Unit {0})
asset_body id kind =
    if kind == 0
    then (do kitty ← num; fail_if (ltb 1 kitty); skip (replace_text id); skip num)
    else if kind == 1
    then (do skip (replace_text id); skip text)
    else fail tt

unfoldable pub asset : (Bytes → Bytes) → M (Unit {0})
unfolding asset_body
asset id = do kind ← num; asset_body id kind; nums 5

unfoldable pub split : M (Unit {0})
split = do nums 10; many (skip (raw 1))

-- The `size` closure of `surface`: any tag but 0 is a percentage.
unfoldable pub loose_size : M (Unit {0})
loose_size = do kind ← num; if kind == 0 then skip num else skip (raw 1)

-- The `size` closure of `popup`.
unfoldable pub size : M (Unit {0})
size = do kind ← num; if kind == 0 then skip num else if kind == 1 then skip (raw 1) else fail tt

popup_with : M (Unit {0}) → (Bytes → Bytes) → M (Unit {0})
popup_with measure id = do
  skip (replace_text id)
  text
  option measure
  option measure
  frame
  raw 2
  nums 2

unfoldable pub popup : (Bytes → Bytes) → M (Unit {0})
unfolding popup_with
popup = popup_with size

-- The popup as `surface` reads it.
unfoldable pub surface_popup : (Bytes → Bytes) → M (Unit {0})
unfolding popup_with
surface_popup = popup_with loose_size

-- What follows the header of a full frame, tag 13.
unfoldable pub full_body : (Bytes → Bytes) → M (Unit {0})
full_body id = do
  num
  frame
  many (pane id)
  many split
  option (surface_popup id)
  many (do asset id; skip text)
  many (do asset id; nums 13)
  many (asset id)

-- One run of cells of a patch.
unfoldable pub row : M (Unit {0})
row = do nums 2; many cell

-- What follows the header of a patch, tag 19.
unfoldable pub patch_body : (Bytes → Bytes) → M (Unit {0})
patch_body id = do nums 2; many row; many (pane id); option cursor

unfoldable pub is_empty : Bytes → Bool
is_empty [] = true
is_empty (_ ∷ _) = false

-- The tag, the boot identity and the revision that every surface begins with.
unfoldable pub opening : M (ℕ × Bytes × ℕ)
opening = do tag ← num; boot ← text; revision ← num; pure (tag, boot, revision)

-- The tag and the two texts of a control frame.
unfoldable pub sideband : M (ℕ × Bytes × Bytes)
sideband = do tag ← num; kind ← text; payload ← text; pure (tag, kind, payload)

-- `d.err != nil || d.p != len(b)` is an error; else the rewritten bytes.
unfoldable pub finish : Decoder → Option Bytes
unfolding is_empty
finish d = if d.failed || not (is_empty d.rest) then none else some d.out

unfoldable pub surface : Bytes → Bytes → ℕ → (Bytes → Bytes) → Option Bytes
surface b boot revision id =
    let r =
      (do tag ← num; skip (replace_text (λ _. boot)); skip (replace_num revision); pure tag)
        (decoder b) in
    if r.0 == 13
    then finish (full_body id r.1).1
    else if r.0 == 19
    then finish (patch_body id r.1).1
    else none

-- `notification`
unfoldable pub notification : ℕ → M (Unit {0})
notification tag =
    if tag == 4
    then (do enum 2; text; option (skip text))
    else if tag == 14
    then (do
      enum 3
      text
      option (skip text)
      option (enum 1)
      option (skip text)
      option (skip text)
      option (skip text)
      option (skip text)
      option (enum 3))
    else fail tt
