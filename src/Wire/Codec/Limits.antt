-- ===== src/Wire/Codec/Limits.antt =====
-- A surface that fits a frame holds no identifier that does not: hive/internal/gateway/wire.go.
use herdr_hive.Base.{
  ℕ, ◌≤◌, ◌≡◌, inl, inr, ◌∙◌, sym, ap, some, Bytes, length, ltb, ◌==◌, Bool-cases, arith,
}
use herdr_hive.Wire.Encode.{max_frame}
use herdr_hive.Wire.Decoder.{
  Decoder, decoder, M, ◌>>◌, skip, fail_if, raw, nums, num, text, replace_text,
}
use herdr_hive.Wire.Decoder.Echo.{fail-Echoes, fail_if-Echoes, raw-Echoes, num-Echoes, text-Echoes}
use herdr_hive.Wire.Decoder.Loops.{nums-Echoes}
use herdr_hive.Wire.Decoder.Limits.{
  Agrees, Echoes-Agrees, bind-Agrees, seq-Agrees, skip-Agrees, if-Agrees, many-Agrees,
  option-Agrees, clipped, renamed-Agrees,
}
use herdr_hive.Wire.Codec.{
  frame, pane, asset_body, asset, loose_size, popup_with, surface_popup, full_body, patch_body,
  finish, surface,
}
use herdr_hive.Wire.Codec.Echo.{
  frame-Echoes, split-Echoes, row-Echoes, loose_size-Echoes, cursor-Echoes,
}
use herdr_hive.Wire.Codec.Branches.{header, finish_calm, surface_full, surface_patch, surface_other}

-- Parts without an identifier.
num_part : Agrees num num
num_part = Echoes-Agrees num-Echoes

skip_num_part : Agrees (skip num) (skip num)
skip_num_part = skip-Agrees num_part

text_part : Agrees text text
text_part = Echoes-Agrees text-Echoes

skip_text_part : Agrees (skip text) (skip text)
skip_text_part = skip-Agrees text_part

raw_part : (n : ℕ) → Agrees (raw n) (raw n)
raw_part n = Echoes-Agrees (raw-Echoes n)

nums_part : (n : ℕ) → Agrees (nums n) (nums n)
nums_part n = Echoes-Agrees (nums-Echoes n)

frame_part : Agrees frame frame
frame_part = Echoes-Agrees frame-Echoes

size_part : Agrees loose_size loose_size
size_part = Echoes-Agrees loose_size-Echoes

ruleset parts = (
  num_part, skip_num_part, text_part, skip_text_part, raw_part, nums_part, frame_part, size_part,
  seq-Agrees, option-Agrees, many-Agrees,
)

module _ (id : Bytes → Bytes) where
  renamed : Agrees (skip (replace_text id)) (skip (replace_text (clipped id)))
  renamed = renamed-Agrees id

  pane-Agrees : Agrees (pane id) (pane (clipped id))
  unfolding pane
  pane-Agrees = search (renamed, parts) depth 14

  kitty-Agrees :
      (kitty : ℕ)
      → Agrees
          (do fail_if (ltb 1 kitty); skip (replace_text id); skip num)
          (do fail_if (ltb 1 kitty); skip (replace_text (clipped id)); skip num)
  kitty-Agrees kitty =
      seq-Agrees (Echoes-Agrees (fail_if-Echoes _)) (seq-Agrees renamed skip_num_part)

  asset_body-Agrees : (kind : ℕ) → Agrees (asset_body id kind) (asset_body (clipped id) kind)
  unfolding asset_body
  asset_body-Agrees kind =
      if-Agrees (kind == 0) (bind-Agrees num_part kitty-Agrees) (
        if-Agrees (kind == 1) (seq-Agrees renamed skip_text_part)
          (Echoes-Agrees (fail-Echoes 0 tt)))

  asset-Agrees : Agrees (asset id) (asset (clipped id))
  unfolding asset
  asset-Agrees = bind-Agrees num_part (λ kind. seq-Agrees (asset_body-Agrees kind) (nums_part 5))

  surface_popup-Agrees : Agrees (surface_popup id) (surface_popup (clipped id))
  unfolding surface_popup popup_with
  surface_popup-Agrees = search (renamed, parts) depth 14

  full_body-Agrees : Agrees (full_body id) (full_body (clipped id))
  unfolding full_body
  full_body-Agrees = seq-Agrees num_part (
      seq-Agrees frame_part (
        seq-Agrees (many-Agrees pane-Agrees) (
          seq-Agrees (many-Agrees (Echoes-Agrees split-Echoes)) (
            seq-Agrees (option-Agrees surface_popup-Agrees) (
              seq-Agrees (many-Agrees (seq-Agrees asset-Agrees skip_text_part)) (
                seq-Agrees (many-Agrees (seq-Agrees asset-Agrees (nums_part 13)))
                  (many-Agrees asset-Agrees)))))))

  patch_body-Agrees : Agrees (patch_body id) (patch_body (clipped id))
  unfolding patch_body
  patch_body-Agrees = seq-Agrees (nums_part 2) (
      seq-Agrees (many-Agrees (Echoes-Agrees row-Echoes))
        (seq-Agrees (many-Agrees pane-Agrees) (option-Agrees (Echoes-Agrees cursor-Echoes))))

  finished :
      (m n : M (Unit {0})) (d : Decoder) (o : Bytes)
      → Agrees m n
      → length o ≤ max_frame
      → finish (m d).1 ≡ some o
      → finish (n d).1 ≡ some o
  finished m n d o a k h =
      let c = finish_calm _ o h in
      ap (λ r. finish r.1) (a d c.0 (omega (arith, k, ap length c.2))).same ∙ h

  -- What `surface` makes with a rewriting that fits the frame is made with the clipped rewriting.
  pub surface-clipped :
      (b boot o : Bytes) (revision : ℕ)
      → length o ≤ max_frame
      → surface b boot revision id ≡ some o
      → surface b boot revision (clipped id) ≡ some o
  surface-clipped b boot o revision k h =
      let d = (header (λ _. boot) revision (decoder b)).1 in
      elim (Bool-cases ((header (λ _. boot) revision (decoder b)).0 == 13)) [
        | inl full ↦
            surface_full b boot revision (clipped id) full
            ∙ finished (full_body id) _ d o full_body-Agrees k
                (sym (surface_full b boot revision id full) ∙ h)
        | inr other ↦ elim (Bool-cases ((header (λ _. boot) revision (decoder b)).0 == 19)) [
          | inl patch ↦
              surface_patch b boot revision (clipped id) other patch
              ∙ finished (patch_body id) _ d o patch_body-Agrees k
                  (sym (surface_patch b boot revision id other patch) ∙ h)
          | inr bad ↦ absurd (cc (surface_other b boot revision id other bad))
        ]
      ]
