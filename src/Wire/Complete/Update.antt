-- ===== src/Wire/Complete/Update.antt =====
-- `update` and `bytes` of hive/internal/gateway/wire.go, lines 275 to 389.
use herdr_hive.Base.{
  ℕ, ◌+◌, ◌*◌, Bool, true, false, ◌||◌, ◌&&◌, not, Option, none, some, List, [], ◌∷◌, ◌++◌, ltb,
  leb, ◌==◌, if◌then◌else◌, Bytes, bytes_eq, length, set,
}
use herdr_hive.Base.Dict.{Dict, lookup, insert}
use herdr_hive.Wire.Encode.{number, str}
use herdr_hive.Wire.Decoder.{
  Decoder, decoder, M, ◌>>=◌, ◌>>◌, pure, skip, fail, num, text, repeat, many_with, many, option,
}
use herdr_hive.Wire.Codec.{cell, cursor, pane, opening}
use herdr_hive.Wire.Complete.{
  CompleteSurface, u64, max_u64, before, cut, peek_text, keep, read_cells, retain_graphics, checks,
}

-- What follows `retainGraphics` in a full update.
unfoldable pub after_graphics : Decoder → CompleteSurface × Bool → CompleteSurface × Bool
after_graphics d (s, false) = (s, false)
after_graphics d (s, true) = checks d s

-- The branch of tag 13, behind the opening of `b`.
unfoldable pub update_full : Bytes → CompleteSurface → Decoder → CompleteSurface × Bool
unfolding after_graphics
update_full b s d =
    let r = num d in
    let s1 = record s { revision = r.0; header = some (before b r.1.rest); cells = [] } in
    if ltb 65536 (num (decoder r.1.rest)).0
    then (s1, false)
    else (let cs = read_cells r.1 in
        let w = num cs.1 in
        let h = num w.1 in
        let c = cut (option cursor) h.1 in
        after_graphics c.1 (
          retain_graphics (record s1 {
            cells = cs.0;
            width = w.0;
            height = h.0;
            cursor_bytes = c.0;
            tail = c.1.rest;
          })))

unfoldable pub header_bytes : Option Bytes → Bytes
header_bytes none = []
header_bytes (some h) = h

unfoldable pub has_header : Option Bytes → Bool
has_header none = false
has_header (some h) = true

-- The patch continues the retained frame.
unfoldable pub continues : CompleteSurface → Bytes → ℕ → ℕ → ℕ → Bool
unfolding header_bytes has_header
continues s boot projection base rev =
    let old = opening (decoder (header_bytes s.header)) in
    has_header s.header
    && not old.1.failed
    && bytes_eq boot old.0.1
    && projection == old.0.2
    && base == s.revision
    && not (base == max_u64)
    && rev == base + 1

-- One cell of a run, with the counter of the loop.
unfoldable pub write_cell : ℕ → ℕ → ℕ → ℕ × List Bytes → M (ℕ × List Bytes)
write_cell width x y (i, cells) =
    let index = u64 (y * width + x + i) in
    if leb (length cells) index
    then fail (i, cells)
    else (do c ← cut cell; pure (i + 1, set cells index c))

unfoldable pub write_run : ℕ → ℕ → List Bytes → ℕ → ℕ → ℕ → M (List Bytes)
write_run width height cells x y n =
    if leb height y || ltb width (u64 (x + n))
    then fail cells
    else (do r ← repeat n (write_cell width x y) (0, cells); pure r.1)

-- The rows of a patch.
unfoldable pub patch_run : ℕ → ℕ → List Bytes → M (List Bytes)
patch_run width height cells = do x ← num; y ← num; n ← num; write_run width height cells x y n

unfoldable pub patch_runs : ℕ → ℕ → List Bytes → M (List Bytes)
patch_runs width height = many_with (patch_run width height)

-- Pane metadata, by pane.
unfoldable pub pane_updates : M (Dict Bytes)
pane_updates =
    many_with (λ found. do id ← peek_text; p ← cut (pane keep); pure (insert id p found)) []

choose_pane : Option Bytes → Bytes → Bytes
choose_pane none p = p
choose_pane (some q) p = q

merge_pane : Dict Bytes → Bytes → M Bytes
unfolding choose_pane
merge_pane found out = do
  id ← peek_text
  p ← cut (pane keep)
  pure (out ++ choose_pane (lookup id found) p)

-- The retained tail with the named panes replaced.
unfoldable pub merge_tail : Dict Bytes → Bytes → Bytes × Decoder
unfolding merge_pane
merge_tail found tail =
    let a = (do many (skip text); text) (decoder tail) in
    let n = num a.1 in
    let m = repeat n.0 (merge_pane found) (before tail a.1.rest ++ number n.0) n.1 in
    (m.0 ++ m.1.rest, m.1)

-- A patch that continues the retained frame, from its rows on.
unfoldable pub apply_patch : CompleteSurface → Bytes → ℕ → ℕ → Decoder → CompleteSurface × Bool
apply_patch s boot projection rev d =
    let runs = patch_runs s.width s.height s.cells d in
    let found = pane_updates runs.1 in
    let c = cut (option cursor) found.1 in
    let s1 = record s { cells = runs.0; cursor_bytes = c.0 } in
    let t = merge_tail found.0 s.tail in
    if t.1.failed
    then (s1, false)
    else checks c.1 (record s1 {
      tail = t.0;
      revision = rev;
      header = some ((13 ∷ str boot) ++ (number projection ++ number rev));
    })

-- The branch of tag 19, behind the opening of the frame.
unfoldable pub update_patch : CompleteSurface → Bytes → ℕ → Decoder → CompleteSurface × Bool
update_patch s boot projection d =
    let base = num d in
    let rev = num base.1 in
    if continues s boot projection base.0 rev.0
    then apply_patch s boot projection rev.0 rev.1
    else (s, false)

-- `update`
unfoldable pub update : CompleteSurface → Bytes → CompleteSurface × Bool
update s b =
    let r = opening (decoder b) in
    if r.0.0 == 13
    then update_full b s r.1
    else if r.0.0 == 19
    then update_patch s r.0.1 r.0.2 r.1
    else (s, false)

unfoldable pub join : List Bytes → Bytes
join [] = []
join (c ∷ cs) = c ++ join cs

unfoldable pub layout : CompleteSurface → Option Bytes → Option Bytes
unfolding join
layout s none = none
layout s (some h) = some (
    h
    ++ (number (length s.cells)
        ++ (join s.cells ++ (number s.width ++ (number s.height ++ (s.cursor_bytes ++ s.tail))))))

-- `bytes`
unfoldable pub bytes : CompleteSurface → Option Bytes
unfolding layout
bytes s = layout s s.header
