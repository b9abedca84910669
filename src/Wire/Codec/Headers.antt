-- ===== src/Wire/Codec/Headers.antt =====
-- What a reader finds at the head of the frames that the gateway writes.
use herdr_hive.Base.{
  ℕ, ◌<◌, ◌≤◌, ◌≡◌, refl, ap, sym, ◌∙◌, false, ◌++◌, some, [], ◌∷◌, ◌⊎◌, inl, inr, Bool-cases,
  Bytes, length, le_limit, ◌==◌, arith, append-nil, ==_iff,
}
use herdr_hive.Wire.Encode.{max_frame, number, str, control}
use herdr_hive.Wire.Decoder.{
  Decoder, decoder, M, ◌>>=◌, ◌>>◌, pure, skip, num, text, replace_text, replace_num,
}
use herdr_hive.Wire.Decoder.Numbers.{at, num-number, text-str}
use herdr_hive.Wire.Decoder.Echo.{
  Echoes, weaken, bind, bind0, pure-Echoes, num-Echoes, replace_text-Echoes, replace_num-Echoes,
  number_long, str_long, IsShort,
}
use herdr_hive.Wire.Codec.Echo.{full_body-Echoes, patch_body-Echoes}
use herdr_hive.Wire.Decoder.Limits.{clipped, clipped-IsShort}
use herdr_hive.Wire.Codec.Limits.{surface-clipped}
use herdr_hive.Wire.Codec.Branches.{header, finish_calm, surface_full, surface_patch, surface_other}
use herdr_hive.Wire.Codec.{surface, opening, sideband, finish, full_body, patch_body}

num_20 : (t : Bytes) → num (at (20 ∷ t) [] false) ≡ (20, at t (20 ∷ []) false)
unfolding number
num_20 t = num-number 20 t [] false (omega arith)

text_last :
    (s o : Bytes) → length s ≤ max_frame → text (at (str s) o false) ≡ (s, at [] (o ++ str s) false)
text_last s o h = ap (λ x. text (at x o false)) (sym (append-nil (str s))) ∙ text-str s [] o false h

-- A control frame is read back as tag 20, its kind and its payload, with nothing left over, if each
-- of the two is at most `MaxFrame` long.
pub sideband-control :
    (kind payload : Bytes)
    → length kind ≤ max_frame
    → length payload ≤ max_frame
    → sideband (decoder (control kind payload))
      ≡ ((20, kind, payload), at [] (control kind payload) false)
unfolding sideband control ◌>>=◌ pure
sideband-control kind payload hk hp =
    rw (num_20 (str kind ++ str payload), text-str kind (str payload) (20 ∷ []) false hk)
      (rw (text_last payload (20 ∷ str kind) hp))

-- The header once more, with the identity and the revision as its values.
replaced_text-Echoes :
    (boot : Bytes)
    → length boot ≤ max_frame
    → Echoes 1 (do skip (replace_text (λ _. boot)); pure boot) text
unfolding ◌>>◌ skip pure replace_text
replaced_text-Echoes boot short d h =
    let s = replace_text-Echoes (λ _. boot) (λ _. boot) (λ _. short) (λ x. refl) d h in
    record {
      calm = s.calm;
      written = str boot;
      long = str_long boot;
      grows = refl;
      again = λ t o. text-str boot t o false short;
    }

replaced_num-Echoes : (v : ℕ) → v < le_limit 8 → Echoes 1 (do skip (replace_num v); pure v) num
unfolding ◌>>◌ skip pure replace_num
replaced_num-Echoes v small d h =
    let s = replace_num-Echoes v small d h in
    record {
      calm = s.calm;
      written = number v;
      long = number_long v;
      grows = refl;
      again = λ t o. num-number v t o false small;
    }

-- The header with what it writes as its value.
abbrev stamped : Bytes → ℕ → M (ℕ × Bytes × ℕ)
stamped boot revision = do
  tag ← num
  b ← (do skip (replace_text (λ _. boot)); pure boot)
  v ← (do skip (replace_num revision); pure revision)
  pure (tag, b, v)

stamped-Echoes :
    (boot : Bytes) (revision : ℕ)
    → length boot ≤ max_frame
    → revision < le_limit 8
    → Echoes 1 (stamped boot revision) opening
unfolding opening
stamped-Echoes boot revision short small = bind num-Echoes (λ tag.
    bind0 (weaken 1 (replaced_text-Echoes boot short))
      (λ b. bind0 (weaken 1 (replaced_num-Echoes revision small)) (λ v. pure-Echoes (tag, b, v))))

stamped_lem :
    (boot : Bytes) (revision : ℕ) (d : Decoder)
    → stamped boot revision d
      ≡ (((header (λ _. boot) revision d).0, boot, revision), (header (λ _. boot) revision d).1)
unfolding ◌>>=◌ ◌>>◌ pure skip
stamped_lem boot revision d = refl

module _ (boot : Bytes) (revision : ℕ) (short : length boot ≤ max_frame)
    (small : revision < le_limit 8) where
  opening-finish :
      (b o : Bytes) (body body' : M (Unit {0}))
      → Echoes 1 body body'
      → finish (body (header (λ _. boot) revision (decoder b)).1).1 ≡ some o
      → (opening (decoder o)).0 ≡ ((header (λ _. boot) revision (decoder b)).0, boot, revision)
  opening-finish b o body body' e h =
      let c = finish_calm _ o h in
      let t = e (header (λ _. boot) revision (decoder b)).1 c.0 in
      let q = stamped_lem boot revision (decoder b) in
      let s =
        stamped-Echoes boot revision short small (decoder b) (ap (λ r. r.1.failed) q ∙ t.calm) in
      let whole : o ≡ s.written ++ t.written =
        sym c.2 ∙ t.grows ∙ ap (λ x. x ++ t.written) (ap (λ r. r.1.out) (sym q) ∙ s.grows) in
      rw whole (ap (λ r. r.0) (s.again t.written []) ∙ ap (λ r. r.0) q)

  opens :
      (b o : Bytes) (id : Bytes → Bytes)
      → IsShort id
      → surface b boot revision id ≡ some o
      → (tag : ℕ) × ((opening (decoder o)).0 ≡ (tag, boot, revision)) × ((tag ≡ 13) ⊎ (tag ≡ 19))
  opens b o id short_id h =
      let tag = (header (λ _. boot) revision (decoder b)).0 in
      elim (Bool-cases (tag == 13)) [
        | inl full ↦ (
          tag,
          opening-finish b o (full_body id) _ (full_body-Echoes id short_id)
              (sym (surface_full b boot revision id full) ∙ h),
          inl ((==_iff tag 13).0 full),
        )
        | inr other ↦ elim (Bool-cases (tag == 19)) [
          | inl patch ↦ (
            tag,
            opening-finish b o (patch_body id) _ (patch_body-Echoes id short_id)
                (sym (surface_patch b boot revision id other patch) ∙ h),
            inr ((==_iff tag 19).0 patch),
          )
          | inr bad ↦ absurd (cc (surface_other b boot revision id other bad))
        ]
      ]

  -- Every frame that `surface` makes opens with a tag of the two surface codecs, the boot
  -- identity of the gateway and the revision that it was given, whatever the publisher sent and
  -- whatever the rewriting of identifiers. It is assumed that the boot identity and the rewritten
  -- frame are at most `MaxFrame` long, as `Write` requires, and that the revision fits a uint64.
  pub opening-surface :
      (b o : Bytes) (id : Bytes → Bytes)
      → length o ≤ max_frame
      → surface b boot revision id ≡ some o
      → (tag : ℕ) × ((opening (decoder o)).0 ≡ (tag, boot, revision)) × ((tag ≡ 13) ⊎ (tag ≡ 19))
  opening-surface b o id fits h =
      opens b o (clipped id) (clipped-IsShort id) (surface-clipped id b boot o revision fits h)
