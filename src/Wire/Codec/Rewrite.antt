-- ===== src/Wire/Codec/Rewrite.antt =====
-- The frames that `surface` writes.
use herdr_hive.Base.{
  ℕ, ◌<◌, ◌≤◌, ◌≡◌, refl, ap, sym, ◌∙◌, false, ◌++◌, some, [], inl, inr, Bool-cases, Bytes, length,
  le_limit, ◌==◌, append-nil,
}
use herdr_hive.Wire.Encode.{max_frame}
use herdr_hive.Wire.Decoder.{decoder, M}
use herdr_hive.Wire.Decoder.Numbers.{at}
use herdr_hive.Wire.Decoder.Echo.{
  Echoes, Trace, IsShort, same, weaken, bind, seq0, pure-Echoes, num-Echoes, replace_text-Echoes,
  replace_num-Echoes,
}
use herdr_hive.Wire.Codec.Echo.{full_body-Echoes, patch_body-Echoes}
use herdr_hive.Wire.Codec.{full_body, patch_body, is_empty, finish, surface}
use herdr_hive.Wire.Codec.Branches.{header, finish_calm, surface_full, surface_patch, surface_other}
use herdr_hive.Wire.Decoder.Limits.{clipped, clipped-IsShort}
use herdr_hive.Wire.Codec.Limits.{surface-clipped}

header-Echoes :
    (boot : Bytes) (revision : ℕ)
    → length boot ≤ max_frame
    → revision < le_limit 8
    → Echoes 1 (header (λ _. boot) revision) (header (λ _. boot) revision)
header-Echoes boot revision short small = bind num-Echoes (λ tag.
    seq0 (weaken 1 (replace_text-Echoes (λ _. boot) (λ _. boot) (λ _. short) (λ s. refl)))
      (seq0 (weaken 1 (replace_num-Echoes revision small)) (pure-Echoes tag)))

finish_done : (o : Bytes) → finish (at [] o false) ≡ some o
unfolding finish is_empty
finish_done o = refl

-- A header and a body that went well, and that read their own output again.
record Passed (b boot : Bytes) (revision : ℕ) (body body' : M (Unit {0})) (o : Bytes) : Type 0 where
  head : Trace 1 (header (λ _. boot) revision) (decoder b) (header (λ _. boot) revision (decoder b))
  tail :
      Trace 1 body'
        (header (λ _. boot) revision (decoder b)).1
        (body (header (λ _. boot) revision (decoder b)).1)
  whole : o ≡ head.written ++ tail.written

module _ (boot : Bytes) (revision : ℕ) (short : length boot ≤ max_frame)
    (small : revision < le_limit 8) where
  passed :
      (b : Bytes) (body body' : M (Unit {0})) (o : Bytes)
      → Echoes 1 body body'
      → finish (body (header (λ _. boot) revision (decoder b)).1).1 ≡ some o
      → Passed b boot revision body body' o
  passed b body body' o e h =
      let c = finish_calm _ o h in
      let t = e (header (λ _. boot) revision (decoder b)).1 c.0 in
      let s = header-Echoes boot revision short small (decoder b) t.calm in
      record { head = s; tail = t; whole = sym c.2 ∙ t.grows ∙ ap (λ x. x ++ t.written) s.grows }

  Passed-header :
      {b : Bytes} {body body' : M (Unit {0})} {o : Bytes} (p : Passed b boot revision body body' o)
      → header (λ _. boot) revision (decoder o)
        ≡ ((header (λ _. boot) revision (decoder b)).0, at p.tail.written p.head.written false)
  Passed-header p = rw p.whole (p.head.again p.tail.written [])

  Passed-surface :
      {b : Bytes} {body body' : M (Unit {0})} {o : Bytes} (p : Passed b boot revision body body' o)
      → finish (body' (header (λ _. boot) revision (decoder o)).1).1 ≡ some o
  Passed-surface {body' = body'} {o = o} p = rw (Passed-header p) (
      ap (λ x. finish (body' (at x p.head.written false)).1) (sym (append-nil p.tail.written))
      ∙ ap (λ r. finish r.1) (p.tail.again [] p.head.written)
      ∙ finish_done (p.head.written ++ p.tail.written)
      ∙ ap some (sym p.whole))

  Passed-tag :
      (k : ℕ) {b : Bytes} {body body' : M (Unit {0})} {o : Bytes}
      (p : Passed b boot revision body body' o)
      → ((header (λ _. boot) revision (decoder o)).0 == k)
        ≡ ((header (λ _. boot) revision (decoder b)).0 == k)
  Passed-tag k p = ap (λ r. r.0 == k) (Passed-header p)

  twice :
      (b o : Bytes) (id : Bytes → Bytes)
      → IsShort id
      → surface b boot revision id ≡ some o
      → surface o boot revision same ≡ some o
  twice b o id short_id h = elim (Bool-cases ((header (λ _. boot) revision (decoder b)).0 == 13)) [
    | inl full ↦
        let p =
          passed b (full_body id) (full_body same) o (full_body-Echoes id short_id)
            (sym (surface_full b boot revision id full) ∙ h) in
        surface_full o boot revision same (Passed-tag 13 p ∙ full) ∙ Passed-surface p
    | inr other ↦ elim (Bool-cases ((header (λ _. boot) revision (decoder b)).0 == 19)) [
      | inl patch ↦
          let p =
            passed b (patch_body id) (patch_body same) o (patch_body-Echoes id short_id)
              (sym (surface_patch b boot revision id other patch) ∙ h) in
          surface_patch o boot revision same (Passed-tag 13 p ∙ other) (Passed-tag 19 p ∙ patch)
          ∙ Passed-surface p
      | inr bad ↦ cc (surface_other b boot revision id other bad)
    ]
  ]

  -- A frame that `surface` has rewritten is a frame of the same codec, and rewriting it once more
  -- for the same viewer, with the identifiers left alone, does not change a byte, whatever the
  -- rewriting of identifiers. It is assumed that the boot identity and the rewritten frame are at
  -- most `MaxFrame` long, as `Write` requires, and that the revision fits a uint64.
  pub surface-surface :
      (b o : Bytes) (id : Bytes → Bytes)
      → length o ≤ max_frame
      → surface b boot revision id ≡ some o
      → surface o boot revision same ≡ some o
  surface-surface b o id fits h =
      twice b o (clipped id) (clipped-IsShort id) (surface-clipped id b boot o revision fits h)
