-- ===== src/Wire/Complete/Patch.antt =====
-- What a patch changes of a surface, and what it leaves alone.
use herdr_hive.Base.{
  ℕ, ◌+◌, ◌-◌, ◌*◌, ◌≤◌, ◌<◌, ◌≡◌, refl, ap, inl, inr, ◌∙◌, true, false, ◌||◌, some, List, ◌∷◌,
  ◌++◌, ltb, leb, Bytes, length, set, length-set, arith, Bool-cases, bytes_eq→eq,
}
use herdr_hive.Wire.Encode.{max_frame, number, str}
use herdr_hive.Wire.Decoder.{Decoder, decoder, M, ◌>>=◌, pure, fail, num, repeat}
use herdr_hive.Wire.Decoder.Reads.{repeat_keeps, many_with_keeps}
use herdr_hive.Wire.Codec.{cell, opening}
use herdr_hive.Wire.Complete.{CompleteSurface, u64, max_u64, cut, retained, checks}
use herdr_hive.Wire.Complete.Fits.{IsFramed, retained-IsFramed}
use herdr_hive.Wire.Complete.Stored.{checks-ok}
use herdr_hive.Wire.Complete.Update.{
  header_bytes, continues, write_cell, write_run, patch_run, patch_runs, merge_tail, pane_updates,
  apply_patch, update_patch,
}

module _ (k width height : ℕ) where
  write_cell-length :
      (x y : ℕ) (s : ℕ × List Bytes) (d : Decoder)
      → length s.1 ≡ k
      → length (write_cell width x y s d).0.1 ≡ k
  unfolding write_cell ◌>>=◌ pure fail
  write_cell-length x y (i, cells) d h =
      elim (Bool-cases (leb (length cells) (u64 (y * width + x + i)))) [
        | inl out ↦ rw out h
        | inr inside ↦ rw inside (length-set cells _ _ ∙ h)
      ]

  write_run-length :
      (x y n : ℕ) (cells : List Bytes) (d : Decoder)
      → length cells ≡ k
      → length (write_run width height cells x y n d).0 ≡ k
  unfolding write_run ◌>>=◌ pure fail
  write_run-length x y n cells d h = elim (Bool-cases (leb height y || ltb width (u64 (x + n)))) [
    | inl out ↦ rw out h
    | inr inside ↦ rw inside (
        repeat_keeps (λ s. length s.1 ≡ k) (write_cell width x y) (write_cell-length x y) n
          (0, cells) d h)
  ]

  patch_run-length :
      (cells : List Bytes) (d : Decoder)
      → length cells ≡ k
      → length (patch_run width height cells d).0 ≡ k
  unfolding patch_run ◌>>=◌
  patch_run-length cells d h = write_run-length _ _ _ cells _ h

  patch_runs-length :
      (cells : List Bytes) (d : Decoder)
      → length cells ≡ k
      → length (patch_runs width height cells d).0 ≡ k
  unfolding patch_runs
  patch_runs-length =
      many_with_keeps (λ cells. length cells ≡ k) (patch_run width height) patch_run-length

continues-ok :
    (s : CompleteSurface) (boot : Bytes) (projection base rev : ℕ)
    → continues s boot projection base rev ≡ true
    → let old = (opening (decoder (header_bytes s.header))).0 in
      (boot ≡ old.1) × (projection ≡ old.2) × (base ≡ s.revision) × (rev ≡ s.revision + 1)
unfolding continues
continues-ok s boot projection base rev h =
    ground (arith, bytes_eq→eq boot (opening (decoder (header_bytes s.header))).0.1)

-- How the surface `t` continues `s`.
pub record Patched (s t : CompleteSurface) (boot : Bytes) (projection : ℕ) : Type 0 where
  pub same_boot : boot ≡ (opening (decoder (header_bytes s.header))).0.1
  pub same_projection : projection ≡ (opening (decoder (header_bytes s.header))).0.2
  pub next_revision : t.revision ≡ s.revision + 1
  pub header : t.header ≡ some ((13 ∷ str boot) ++ (number projection ++ number t.revision))
  pub width : t.width ≡ s.width
  pub height : t.height ≡ s.height
  pub assets : t.assets ≡ s.assets
  pub size : length t.cells ≡ length s.cells
  pub framed : IsFramed t
  pub filled : u64 (t.width * t.height) ≡ length t.cells

apply_patch-ok :
    (s : CompleteSurface) (boot : Bytes) (projection rev : ℕ) (d : Decoder)
    → (apply_patch s boot projection rev d).1 ≡ true
    → let t = (apply_patch s boot projection rev d).0 in
      (t.revision ≡ rev)
      × (t.header ≡ some ((13 ∷ str boot) ++ (number projection ++ number rev)))
      × (t.width ≡ s.width)
      × (t.height ≡ s.height)
      × (t.assets ≡ s.assets)
      × (t.cells ≡ (patch_runs s.width s.height s.cells d).0)
      × (retained t ≤ max_frame)
      × (u64 (t.width * t.height) ≡ length t.cells)
unfolding apply_patch
apply_patch-ok s boot projection rev d h =
    elim (Bool-cases
      (merge_tail (pane_updates (patch_runs s.width s.height s.cells d).1).0 s.tail).1.failed) [
        | inl bad ↦ absurd (cc (rw bad at h))
        | inr good ↦
            let c = checks-ok _ _ (rw good at h) in
            rw good (unfold checks in (refl, refl, refl, refl, refl, refl, c.1, c.2))
      ]

-- A patch that is accepted continues the retained frame: it names that frame's boot identity and
-- projection, its revision becomes the next one, the header is rewritten for it, and the screen's
-- width, height and assets are unchanged; the number of cells is kept, it agrees with the product of
-- width and height as a uint64, and the frame that `bytes` lays out of the surface is at most
-- 27 bytes longer than `MaxFrame`: the check leaves out the count of the cells and the two dimensions.
pub update_patch-Patched :
    (s : CompleteSurface) (boot : Bytes) (projection : ℕ) (d : Decoder)
    → (update_patch s boot projection d).1 ≡ true
    → Patched s (update_patch s boot projection d).0 boot projection
unfolding update_patch
update_patch-Patched s boot projection d h =
    let base = (num d).0 in
    let rev = num (num d).1 in
    elim (Bool-cases (continues s boot projection base rev.0)) [
      | inr stale ↦ absurd (cc (rw stale at h))
      | inl next ↦
          let n = continues-ok s boot projection base rev.0 next in
          let a = apply_patch-ok s boot projection rev.0 rev.1 (rw next at h) in
          rw next (record {
            same_boot = n.0;
            same_projection = n.1;
            next_revision = a.0 ∙ n.3;
            header = rw a.0 a.1;
            width = a.2;
            height = a.3;
            assets = a.4;
            size = ap length a.5 ∙ patch_runs-length _ s.width s.height s.cells rev.1 refl;
            framed = retained-IsFramed _ _ a.1 a.6;
            filled = a.7;
          })
    ]

wrapped_index : (p : ℕ) → 0 < p → p ≤ max_u64 → u64 (p + max_u64 + 0) ≡ p - 1
wrapped_index p h k = omega arith

wrapped_cell :
    (width y : ℕ) (cells : List Bytes) (d : Decoder)
    → 0 < y * width
    → y * width ≤ length cells
    → length cells ≤ max_u64
    → (write_cell width max_u64 y (0, cells) d).0.1 ≡ set cells (y * width - 1) (cut cell d).0
unfolding write_cell ◌>>=◌ pure
wrapped_cell width y cells d hp hc hl =
    let e = wrapped_index (y * width) hp (omega arith) in
    let inside : leb (length cells) (y * width - 1) ≡ false = ground arith in rw e (rw inside)

repeat_once :
    {S : Type 0} (fn : S → M S) (s : S) (d : Decoder) → d.failed ≡ false → repeat 1 fn s d ≡ fn s d
unfolding repeat
repeat_once fn s d h = ground arith

-- The bounds check of a run adds in uint64: a run of one cell at column 2 ^ 64 - 1 of any row but
-- the first passes it, and replaces the last cell of the row above. It is assumed that the screen
-- has columns, that the row lies in it and begins within its cells or at their end, that there are
-- fewer than 2 ^ 64 cells, and that the decoder has no error yet.
pub write_run_wraps :
    (width height y : ℕ) (cells : List Bytes) (d : Decoder)
    → 0 < width
    → 0 < y
    → y < height
    → y * width ≤ length cells
    → length cells ≤ max_u64
    → d.failed ≡ false
    → (write_run width height cells max_u64 y 1 d).0 ≡ set cells (y * width - 1) (cut cell d).0
unfolding write_run ◌>>=◌ pure
write_run_wraps width height y cells d hw hy hh hc hl calm =
    let legal : (leb height y || ltb width (u64 (max_u64 + 1))) ≡ false = ground arith in
    let once = repeat_once (write_cell width max_u64 y) (0, cells) d calm in
    rw legal (ap (λ r. r.0.1) once ∙ wrapped_cell width y cells d (grind arith) hc hl)
