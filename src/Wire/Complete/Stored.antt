-- ===== src/Wire/Complete/Stored.antt =====
-- What a surface holds after an update that returned no error.
use herdr_hive.Base.{
  ℕ, ◌-◌, ◌*◌, ◌≤◌, ◌≡◌, refl, sym, ap, inl, inr, ◌∙◌, Bool, true, false, Option, none, some, List,
  [], ◌++◌, ltb, ltb→le, Bytes, length, length-append, take-append, arith, Bool-cases, if_elim,
}
use herdr_hive.Wire.Encode.{max_frame}
use herdr_hive.Wire.Decoder.{Decoder, decoder, M, ◌>>=◌, pure, num, text, option}
use herdr_hive.Wire.Decoder.Numbers.{at}
use herdr_hive.Wire.Decoder.Echo.{Echoes, weaken, bind, bind0, num-Echoes, text-Echoes, pure-Echoes}
use herdr_hive.Wire.Decoder.Loops.{option-Echoes}
use herdr_hive.Wire.Decoder.Reads.{
  Consumes, bind-Consumes, pure-Consumes, num-Consumes, text-Consumes, many_with-Sticks,
}
use herdr_hive.Wire.Codec.{cursor, opening}
use herdr_hive.Wire.Codec.Echo.{cursor-Echoes}
use herdr_hive.Wire.Complete.{
  CompleteSurface, u64, before, cut, read_cells, retain_graphics, finish_graphics, retained, checks,
}
use herdr_hive.Wire.Complete.Fits.{IsFramed}
use herdr_hive.Wire.Complete.Update.{after_graphics, update_full}

pub checks-ok :
    (d : Decoder) (s : CompleteSurface)
    → (checks d s).1 ≡ true
    → (d.failed ≡ false) × (retained s ≤ max_frame) × (u64 (s.width * s.height) ≡ length s.cells)
unfolding checks
checks-ok d s h = ground (arith, ltb→le max_frame (retained s))

after_graphics-ok :
    (d : Decoder) (x : CompleteSurface × Bool)
    → (after_graphics d x).1 ≡ true
    → ((after_graphics d x).0 ≡ x.0) × ((checks d x.0).1 ≡ true)
unfolding after_graphics checks
after_graphics-ok d (s, false) h = cc
after_graphics-ok d (s, true) h = (refl, h)

retain_graphics-header : (s : CompleteSurface) → (retain_graphics s).0.header ≡ s.header
unfolding retain_graphics
retain_graphics-header s =
    if_elim (λ (x : CompleteSurface × Bool). x.0.header ≡ s.header) _ (s, false) _ refl
      (finish_header _ _)
  where
    finish_header :
        (rest : Bytes) (r : Option (List (Bytes × Bytes) × Bytes))
        → (finish_graphics s rest r).0.header ≡ s.header
    finish_header rest none = refl
    finish_header rest (some x) = refl

-- The surface may be shown: its header is there, it has a cell for each place of the screen, and
-- `bytes` lays it out in a frame of bounded length.
pub record IsStored (s : CompleteSurface) : Type 0 where
  pub opened : (h : Bytes) × (s.header ≡ some h)
  pub filled : u64 (s.width * s.height) ≡ length s.cells
  pub framed : IsFramed s

full_body_ok :
    (b : Bytes) (d : Decoder) (s t : CompleteSurface)
    → (after_graphics d (retain_graphics s)).1 ≡ true
    → (after_graphics d (retain_graphics s)).0 ≡ t
    → (t.header ≡ s.header)
      × (d.failed ≡ false)
      × (retained t ≤ max_frame)
      × (u64 (t.width * t.height) ≡ length t.cells)
full_body_ok b d s t h e =
    let a = after_graphics-ok d (retain_graphics s) h in
    let c = checks-ok d (retain_graphics s).0 a.1 in
    let q = sym a.0 ∙ e in
    (ap (λ x. x.header) (sym q) ∙ retain_graphics-header s, c.0, rw q at c.1, rw q at c.2)

pub update_full-ok :
    (b : Bytes) (s : CompleteSurface) (d : Decoder)
    → (update_full b s d).1 ≡ true
    → let t = (update_full b s d).0 in
      (t.header ≡ some (before b (num d).1.rest))
      × ((num d).1.failed ≡ false)
      × (retained t ≤ max_frame)
      × (u64 (t.width * t.height) ≡ length t.cells)
unfolding update_full
update_full-ok b s d h = elim (Bool-cases (ltb 65536 (num (decoder (num d).1.rest)).0)) [
  | inl big ↦ absurd (cc (rw big at h))
  | inr fits ↦ rw fits (
      let q = full_body_ok b _ _ _ (rw fits at h) refl in
      (q.0, cells_calm (num d).1 (q.1), q.2, q.3))
]
  where
    cells_calm :
        (e : Decoder)
        → (cut (option cursor) (num (num (read_cells e).1).1).1).1.failed ≡ false
        → e.failed ≡ false
    cells_calm e k =
        unfold cut read_cells in
        many_with-Sticks _ [] e
          (num-Echoes _ (num-Echoes _ (option-Echoes cursor-Echoes _ k).calm).calm).calm

-- The opening of a full frame with the number behind it, which makes its header.
abbrev lead : M ((ℕ × Bytes × ℕ) × ℕ)
lead = do o ← opening; v ← num; pure (o, v)

opening-Echoes : Echoes 1 opening opening
unfolding opening
opening-Echoes = bind num-Echoes (λ tag.
    bind0 (weaken 1 text-Echoes)
      (λ boot. bind0 (weaken 1 num-Echoes) (λ v. pure-Echoes (tag, boot, v))))

lead-Echoes : Echoes 1 lead lead
lead-Echoes = bind opening-Echoes (λ o. bind0 (weaken 1 num-Echoes) (λ v. pure-Echoes (o, v)))

pub opening-Consumes : Consumes opening
unfolding opening
opening-Consumes = bind-Consumes num _ num-Consumes (λ tag.
    bind-Consumes text _ text-Consumes
      (λ boot. bind-Consumes num _ num-Consumes (λ v. pure-Consumes (tag, boot, v))))

lead-Consumes : Consumes lead
lead-Consumes =
    bind-Consumes opening _ opening-Consumes
      (λ o. bind-Consumes num _ num-Consumes (λ v. pure-Consumes (o, v)))

lead_lem : (d : Decoder) → lead d ≡ (((opening d).0, (num (opening d).1).0), (num (opening d).1).1)
unfolding ◌>>=◌ pure
lead_lem d = refl

before-append : (w r : Bytes) → before (w ++ r) r ≡ w
before-append w r =
    let e : length (w ++ r) - length r ≡ length w = omega (arith, length-append w r) in
    rw e (take-append w r)

-- The header that a full update keeps opens as the frame did.
pub kept_opening :
    (b x : Bytes)
    → (num (opening (decoder b)).1).1.failed ≡ false
    → (opening (decoder (before b (num (opening (decoder b)).1).1.rest ++ x))).0
      ≡ (opening (decoder b)).0
kept_opening b x calm =
    let q = lead_lem (decoder b) in
    let left = (num (opening (decoder b)).1).1.rest in
    let c = lead-Consumes (decoder b) in
    let t = lead-Echoes (decoder b) (ap (λ r. r.1.failed) q ∙ calm) in
    let w : before b left ≡ t.written =
      ap (λ y. before y left) (c.from ∙ ap (λ r. c.eaten ++ r.1.rest) q)
      ∙ before-append c.eaten left
      ∙ sym c.into
      ∙ t.grows in
    rw w (
      ap (λ r. r.0.0) (sym (lead_lem (at (t.written ++ x) [] false)))
      ∙ ap (λ r. r.0.0) (t.again x [])
      ∙ ap (λ r. r.0.0) q)
