-- ===== src/Tests/SurfaceTests.antt =====
-- A retained surface and a patch of it: hive/internal/gateway/wire.go, lines 262 to 464.
use herdr_hive.Base.{◌≡◌, ◌-◌, ◌*◌, refl, true, some, [], ◌∷◌, ◌++◌, Bytes, IsBytes, set, arith}
use herdr_hive.Wire.Encode.{str, number}
use herdr_hive.Wire.Decoder.{
  decoder, ◌>>=◌, ◌>>◌, pure, fail, skip, num, raw, text, many, many_with, repeat, option, nums,
}
use herdr_hive.Wire.Codec.{opening, cell, cursor, pane}
use herdr_hive.Wire.Complete.{CompleteSurface, max_u64, cut, checks}
use herdr_hive.Wire.Complete.Update.{
  header_bytes, has_header, continues, write_cell, write_run, patch_run, patch_runs, pane_updates,
  merge_tail, apply_patch, update_patch, update, bytes,
}
use herdr_hive.Wire.Complete.Stored.{IsStored}
use herdr_hive.Wire.Complete.Patch.{Patched, update_patch-Patched, write_run_wraps}
use herdr_hive.Wire.Complete.Shown.{update-IsStored, opening-bytes-update}

-- One cell with the letter `a`.
abbrev old_cell : Bytes
old_cell = 1 ∷ 97 ∷ 0 ∷ 0 ∷ 0 ∷ 0 ∷ 0 ∷ []

-- One cell with the letter `c`.
abbrev new_cell : Bytes
new_cell = 1 ∷ 99 ∷ 0 ∷ 0 ∷ 0 ∷ 0 ∷ 0 ∷ []

-- A screen of one cell, at revision 5 of the projection 3 of `b`.
abbrev small_screen : CompleteSurface
small_screen = record {
  assets = [];
  header = some (13 ∷ 1 ∷ 98 ∷ 3 ∷ 5 ∷ []);
  cells = old_cell ∷ [];
  width = 1;
  height = 1;
  cursor_bytes = 0 ∷ [];
  tail = 0 ∷ 0 ∷ 0 ∷ [];
  revision = 5;
}

-- What follows the opening of a patch from revision 5 to 6: a run of one cell.
abbrev patch_rest : Bytes
patch_rest = 5 ∷ 6 ∷ 1 ∷ 0 ∷ 0 ∷ 1 ∷ (new_cell ++ (0 ∷ 0 ∷ []))

abbrev patch_frame : Bytes
patch_frame = 19 ∷ 1 ∷ 98 ∷ 3 ∷ patch_rest

patch_accepted : (update_patch small_screen (98 ∷ []) 3 (decoder patch_rest)).1 ≡ true
unfolding update_patch continues header_bytes has_header opening apply_patch patch_runs patch_run
    write_run write_cell pane_updates merge_tail checks cut cell cursor pane ◌>>=◌ ◌>>◌ pure fail
    skip num raw text many many_with repeat option nums str number
patch_accepted = refl

frame_accepted : (update small_screen patch_frame).1 ≡ true
unfolding update update_patch continues header_bytes has_header opening apply_patch patch_runs
    patch_run write_run write_cell pane_updates merge_tail checks cut cell cursor pane ◌>>=◌ ◌>>◌
    pure fail skip num raw text many many_with repeat option nums str number
frame_accepted = refl

-- The cell is the new one.
patched_cell : (update small_screen patch_frame).0.cells ≡ new_cell ∷ []
unfolding update update_patch continues header_bytes has_header opening apply_patch patch_runs
    patch_run write_run write_cell pane_updates merge_tail checks cut cell cursor pane ◌>>=◌ ◌>>◌
    pure fail skip num raw text many many_with repeat option nums str number
patched_cell = refl

update_patch-Patched_example :
    Patched small_screen (update_patch small_screen (98 ∷ []) 3 (decoder patch_rest)).0 (98 ∷ []) 3
update_patch-Patched_example =
    update_patch-Patched small_screen (98 ∷ []) 3 (decoder patch_rest) patch_accepted

update-IsStored_example : IsStored (update small_screen patch_frame).0
update-IsStored_example = update-IsStored small_screen patch_frame frame_accepted

patch_frame-IsBytes : IsBytes patch_frame
patch_frame-IsBytes = ground arith

opening-bytes-update_example :
    (x : Bytes) × (bytes (update small_screen patch_frame).0 ≡ some x)
    × ((opening (decoder x)).0
        ≡ (13, (opening (decoder patch_frame)).0.1, (opening (decoder patch_frame)).0.2))
opening-bytes-update_example =
    opening-bytes-update small_screen patch_frame patch_frame-IsBytes frame_accepted

-- Two rows of one cell; the run names row 1 and writes to row 0.
write_run_wraps_example :
    (write_run 1 2 (old_cell ∷ old_cell ∷ []) max_u64 1 1 (decoder new_cell)).0
    ≡ set (old_cell ∷ old_cell ∷ []) (1 * 1 - 1) (cut cell (decoder new_cell)).0
write_run_wraps_example =
    write_run_wraps 1 2 1 (old_cell ∷ old_cell ∷ []) (decoder new_cell) (omega arith) (omega arith)
      (omega arith) (omega arith) (omega arith) refl
