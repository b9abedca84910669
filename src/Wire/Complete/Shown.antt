-- ===== src/Wire/Complete/Shown.antt =====
-- The frame that `bytes` lays out after an update.
use herdr_hive.Base.{
  ℕ, ◌≤◌, ◌<◌, ◌≡◌, refl, ap, ◌∙◌, inl, inr, ◌⊎◌, true, false, some, [], ◌∷◌, ◌++◌, ◌==◌, Bytes,
  IsBytes, length, append_assoc, le_limit, arith, Bool-cases, ==_iff,
}
use herdr_hive.Wire.Encode.{max_frame, number, str}
use herdr_hive.Wire.Decoder.{Decoder, decoder, ◌>>=◌, pure, num, text}
use herdr_hive.Wire.Decoder.Numbers.{at, num-number, text-str}
use herdr_hive.Wire.Decoder.Reads.{
  text_short, num-lt, num-Consumes, text-Consumes, Consumes-IsBytes,
}
use herdr_hive.Wire.Codec.{opening}
use herdr_hive.Wire.Complete.{CompleteSurface}
use herdr_hive.Wire.Complete.Fits.{retained-IsFramed}
use herdr_hive.Wire.Complete.Stored.{IsStored, update_full-ok, kept_opening}
use herdr_hive.Wire.Complete.Patch.{Patched, update_patch-Patched}
use herdr_hive.Wire.Complete.Update.{update_full, update_patch, update, layout, bytes}

num_13 : (t : Bytes) → num (at (13 ∷ t) [] false) ≡ (13, at t (13 ∷ []) false)
unfolding number
num_13 t = num-number 13 t [] false (omega arith)

-- The header that a patch writes opens with tag 13, its boot identity and its projection.
patched_opening :
    (boot x : Bytes) (projection rev : ℕ)
    → length boot ≤ max_frame
    → projection < le_limit 8
    → (opening (decoder (((13 ∷ str boot) ++ (number projection ++ number rev)) ++ x))).0
      ≡ (13, boot, projection)
unfolding opening ◌>>=◌ pure
patched_opening boot x projection rev short small =
    let rest = number rev ++ x in
    let e : ((13 ∷ str boot) ++ (number projection ++ number rev)) ++ x
        ≡ 13 ∷ (str boot ++ (number projection ++ rest)) =
      simp append_assoc in
    rw
      (
        e,
        num_13 (str boot ++ (number projection ++ rest)),
        text-str boot (number projection ++ rest) (13 ∷ []) false short,
      )
      (rw (num-number projection rest (13 ∷ str boot) false small))

-- The boot identity and the projection that a frame opens with are in range.
opening_bounds :
    (d : Decoder)
    → IsBytes d.rest
    → (length (opening d).0.1 ≤ max_frame) × ((opening d).0.2 < le_limit 8)
unfolding opening ◌>>=◌ pure
opening_bounds d h = (
  text_short (num d).1,
  num-lt _ (Consumes-IsBytes text text-Consumes (num d).1 (Consumes-IsBytes num num-Consumes d h)),
)

layout-some :
    (s : CompleteSurface) {h : Bytes}
    → s.header ≡ some h
    → (x : Bytes) × (layout s s.header ≡ some (h ++ x))
unfolding layout
layout-some s e = rw e (_, refl)

module _ (s : CompleteSurface) (b : Bytes) where
  update_other :
      ((opening (decoder b)).0.0 == 13) ≡ false
      → ((opening (decoder b)).0.0 == 19) ≡ false
      → (update s b).1 ≡ false
  unfolding update
  update_other h k = rw h (rw k)

  update-full :
      ((opening (decoder b)).0.0 == 13) ≡ true
      → update s b ≡ update_full b s (opening (decoder b)).1
  unfolding update
  update-full h = rw h

  update-patch :
      ((opening (decoder b)).0.0 == 13) ≡ false
      → ((opening (decoder b)).0.0 == 19) ≡ true
      → update s b
        ≡ update_patch s (opening (decoder b)).0.1 (opening (decoder b)).0.2 (opening (decoder b)).1
  unfolding update
  update-patch h k = rw h (rw k)

  -- What an accepted update is.
  abbrev Accepted : Type 0
  Accepted =
      (((opening (decoder b)).0.0 ≡ 13)
        × (update s b ≡ update_full b s (opening (decoder b)).1)
        × ((update_full b s (opening (decoder b)).1).1 ≡ true))
      ⊎ ((update s b
            ≡ update_patch s (opening (decoder b)).0.1 (opening (decoder b)).0.2
                (opening (decoder b)).1)
          × Patched s (update s b).0 (opening (decoder b)).0.1 (opening (decoder b)).0.2)

  accepted : (update s b).1 ≡ true → Accepted
  accepted h = elim (Bool-cases ((opening (decoder b)).0.0 == 13)) [
    | inl full ↦ inl ((==_iff _ 13).0 full, update-full full, rw (update-full full) at h)
    | inr other ↦ elim (Bool-cases ((opening (decoder b)).0.0 == 19)) [
      | inl patch ↦
          let e = update-patch other patch in
          inr (e, rw e (update_patch-Patched s _ _ _ (rw e at h)))
      | inr bad ↦ absurd (cc (update_other other bad))
    ]
  ]

  -- After every update that returns no error, a full frame or a patch, `bytes` lays out a frame, which
  -- is at most 27 bytes longer than `MaxFrame`, and the surface has its header and as many cells as
  -- its width and height (as a uint64 product) call for.
  pub update-IsStored : (update s b).1 ≡ true → IsStored (update s b).0
  update-IsStored h = elim (accepted h) [
    | inl (_, e, k) ↦
        let q = update_full-ok b s _ k in
        rw e (record { opened = (_, q.0); filled = q.3; framed = retained-IsFramed _ _ q.0 q.2 })
    | inr (_, p) ↦ record { opened = (_, p.header); filled = p.filled; framed = p.framed }
  ]

  -- After every update that returns no error `bytes` returns a frame that opens with tag 13 and
  -- with the boot identity and the projection of the frame that was applied, be it a full frame or
  -- a patch. It is assumed that the frame is made of bytes.
  pub opening-bytes-update :
      IsBytes b
      → (update s b).1 ≡ true
      → (x : Bytes) × (bytes (update s b).0 ≡ some x)
        × ((opening (decoder x)).0 ≡ (13, (opening (decoder b)).0.1, (opening (decoder b)).0.2))
  unfolding bytes
  opening-bytes-update ok h = elim (accepted h) [
    | inl (tag, e, k) ↦
        let q = update_full-ok b s _ k in
        let l = layout-some (update_full b s (opening (decoder b)).1).0 q.0 in
        let with_tag : ℕ → ℕ × Bytes × ℕ =
          λ k. (k, (opening (decoder b)).0.1, (opening (decoder b)).0.2) in
        rw e (_, l.1, kept_opening b l.0 q.1 ∙ ap with_tag tag)
    | inr (_, p) ↦
        let l = layout-some (update s b).0 p.header in
        let r = opening_bounds (decoder b) ok in (_, l.1, patched_opening _ l.0 _ _ r.0 r.1)
  ]
