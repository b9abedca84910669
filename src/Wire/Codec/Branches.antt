-- ===== src/Wire/Codec/Branches.antt =====
-- The header and the branches of `surface`: hive/internal/gateway/wire.go, 219-260.
use herdr_hive.Base.{ℕ, ◌≡◌, true, false, none, some, [], Bytes, ◌==◌, arith}
use herdr_hive.Wire.Decoder.{
  Decoder, decoder, M, ◌>>=◌, ◌>>◌, pure, skip, num, replace_text, replace_num,
}
use herdr_hive.Wire.Codec.{full_body, patch_body, is_empty, finish, surface}

-- The header of `surface`: its tag, with the boot identity and the revision replaced.
abbrev pub header : (Bytes → Bytes) → ℕ → M ℕ
header f revision = do tag ← num; skip (replace_text f); skip (replace_num revision); pure tag

pub finish_calm :
    (d : Decoder) (o : Bytes) → finish d ≡ some o → (d.failed ≡ false) × (d.rest ≡ []) × (d.out ≡ o)
unfolding finish is_empty
finish_calm d o h = ground arith

module _ (b boot : Bytes) (revision : ℕ) (id : Bytes → Bytes) where
  pub surface_full :
      ((header (λ _. boot) revision (decoder b)).0 == 13) ≡ true
      → surface b boot revision id
        ≡ finish (full_body id (header (λ _. boot) revision (decoder b)).1).1
  unfolding surface
  surface_full h = rw h

  pub surface_patch :
      ((header (λ _. boot) revision (decoder b)).0 == 13) ≡ false
      → ((header (λ _. boot) revision (decoder b)).0 == 19) ≡ true
      → surface b boot revision id
        ≡ finish (patch_body id (header (λ _. boot) revision (decoder b)).1).1
  unfolding surface
  surface_patch h k = rw h (rw k)

  pub surface_other :
      ((header (λ _. boot) revision (decoder b)).0 == 13) ≡ false
      → ((header (λ _. boot) revision (decoder b)).0 == 19) ≡ false
      → surface b boot revision id ≡ none
  unfolding surface
  surface_other h k = rw h (rw k)
