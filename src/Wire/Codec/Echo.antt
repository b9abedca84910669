-- ===== src/Wire/Codec/Echo.antt =====
-- Each codec echoes: what `surface` writes is a frame of the same codec.
use herdr_hive.Base.{ℕ, refl, Bytes, ltb, ◌==◌}
use herdr_hive.Wire.Decoder.{M, ◌>>◌, skip, fail_if, raw, num, text, replace_text}
use herdr_hive.Wire.Decoder.Echo.{
  Echoes, IsShort, same, weaken, bind, bind0, seq, seq0, skip-Echoes, if-Echoes, fail-Echoes,
  fail_if-Echoes, raw-Echoes, num-Echoes, text-Echoes, replace_text-Echoes,
}
use herdr_hive.Wire.Decoder.Loops.{many-Echoes, option-Echoes, nums-Echoes, nums_pos-Echoes}
use herdr_hive.Wire.Codec.{
  cell, cursor, frame, pane, asset_body, asset, split, loose_size, popup_with, surface_popup,
  full_body, row, patch_body,
}

-- The weaker claim about an action that appends something.
loose : {A : Type 0} {m m' : M A} → Echoes 1 m m' → Echoes 0 m m'
loose e = weaken 1 e

raw0-Echoes : (n : ℕ) → Echoes 0 (raw n) (raw n)
raw0-Echoes n = weaken n (raw-Echoes n)

skip_text-Echoes : Echoes 1 (skip text) (skip text)
skip_text-Echoes = skip-Echoes 1 text-Echoes

skip_num-Echoes : Echoes 1 (skip num) (skip num)
skip_num-Echoes = skip-Echoes 1 num-Echoes

skip_raw-Echoes : Echoes 1 (skip (raw 1)) (skip (raw 1))
skip_raw-Echoes = skip-Echoes 1 (raw-Echoes 1)

skip_raw0-Echoes : (n : ℕ) → Echoes 0 (skip (raw n)) (skip (raw n))
skip_raw0-Echoes n = skip-Echoes 0 (raw0-Echoes n)

ruleset chain = (seq, seq0, loose, many-Echoes, option-Echoes, nums-Echoes)

ruleset reads = (
  skip_text-Echoes, skip_num-Echoes, skip_raw-Echoes, skip_raw0-Echoes, text-Echoes, num-Echoes,
  raw0-Echoes,
)

cell-Echoes : Echoes 1 cell cell
unfolding cell
cell-Echoes = search (chain, reads) depth 12

pub cursor-Echoes : Echoes 0 cursor cursor
unfolding cursor
cursor-Echoes = search (chain, reads) depth 12

pub frame-Echoes : Echoes 1 frame frame
unfolding frame
frame-Echoes = search (chain, reads, cell-Echoes, cursor-Echoes) depth 12

pub split-Echoes : Echoes 1 split split
unfolding split
split-Echoes = seq (nums_pos-Echoes 9) (loose (many-Echoes skip_raw-Echoes))

pub row-Echoes : Echoes 1 row row
unfolding row
row-Echoes = seq (nums_pos-Echoes 1) (loose (many-Echoes cell-Echoes))

pub loose_size-Echoes : Echoes 1 loose_size loose_size
unfolding loose_size
loose_size-Echoes =
    bind num-Echoes (λ k. if-Echoes 0 _ (loose skip_num-Echoes) (loose skip_raw-Echoes))

module _ (id : Bytes → Bytes) (short : IsShort id) where
  renamed : Echoes 1 (skip (replace_text id)) (skip (replace_text same))
  renamed = replace_text-Echoes id same short (λ s. refl)

  pane-Echoes : Echoes 1 (pane id) (pane same)
  unfolding pane
  pane-Echoes = search (renamed, chain, reads) depth 14

  kitty-Echoes :
      (kitty : ℕ)
      → Echoes 0
          (do fail_if (ltb 1 kitty); skip (replace_text id); skip num)
          (do fail_if (ltb 1 kitty); skip (replace_text same); skip num)
  kitty-Echoes kitty = seq0 (fail_if-Echoes _) (loose (seq renamed (loose skip_num-Echoes)))

  asset_body-Echoes : (kind : ℕ) → Echoes 0 (asset_body id kind) (asset_body same kind)
  unfolding asset_body
  asset_body-Echoes kind =
      if-Echoes 0 (kind == 0) (bind0 (loose num-Echoes) kitty-Echoes)
        (if-Echoes 0 (kind == 1) (loose (seq renamed (loose skip_text-Echoes))) (fail-Echoes 0 tt))

  asset-Echoes : Echoes 1 (asset id) (asset same)
  unfolding asset
  asset-Echoes = bind num-Echoes (λ kind. seq0 (asset_body-Echoes kind) (nums-Echoes 5))

  surface_popup-Echoes : Echoes 1 (surface_popup id) (surface_popup same)
  unfolding surface_popup popup_with
  surface_popup-Echoes = search (renamed, chain, reads, loose_size-Echoes, frame-Echoes) depth 14

  pub full_body-Echoes : Echoes 1 (full_body id) (full_body same)
  unfolding full_body
  full_body-Echoes = seq num-Echoes (
      seq0 (loose frame-Echoes) (
        seq0 (loose (many-Echoes pane-Echoes)) (
          seq0 (loose (many-Echoes split-Echoes)) (
            seq0 (loose (option-Echoes (loose surface_popup-Echoes))) (
              seq0 (loose (many-Echoes (seq asset-Echoes (loose skip_text-Echoes)))) (
                seq0 (loose (many-Echoes (seq asset-Echoes (nums-Echoes 13))))
                  (loose (many-Echoes asset-Echoes))))))))

  pub patch_body-Echoes : Echoes 1 (patch_body id) (patch_body same)
  unfolding patch_body
  patch_body-Echoes =
      seq (nums_pos-Echoes 1) (search (chain, row-Echoes, pane-Echoes, cursor-Echoes) depth 10)
