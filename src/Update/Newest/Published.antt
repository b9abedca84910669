-- ===== src/Update/Newest/Published.antt =====
-- Versions that the catalog publishes: internal/update/update.go, 129-149.
use herdr_hive.Base.{
  ◌++◌, codes, starts_with, drop, ap₂, ℕ, zero, suc, ◌+◌, ◌≡◌, refl, ap, ◌∙◌, ◌⊎◌, true, false,
  some, List, [], ◌∷◌, ltb, Bytes, length, arith,
}
use herdr_hive.Update.Version.{is_stable}
use herdr_hive.Update.Catalog.{Release, Answer, ok, candidate}

-- The release publishes the stable version `w` of the component, and is no draft and no prerelease.
pub record IsPublished (component w : Bytes) (r : Release) : Type 0 where
  pub tag : r.tag ≡ (component ++ codes "/v") ++ w
  pub final : r.draft ≡ false
  pub released : r.prerelease ≡ false
  pub stable : is_stable w ≡ true

starts_with-append : (p w : Bytes) → starts_with p (p ++ w) ≡ true
unfolding starts_with
starts_with-append [] w = refl
starts_with-append (b ∷ p) w = ground (arith, starts_with-append p w)

starts_with-drop : (p t : Bytes) → starts_with p t ≡ true → t ≡ p ++ drop (length p) t
unfolding starts_with
starts_with-drop [] t h = refl
starts_with-drop (b ∷ p) [] h = cc
starts_with-drop (b ∷ p) (c ∷ t) h = cons_eq (ground arith) (starts_with-drop p t (ground arith))
  where
    cons_eq : c ≡ b → t ≡ p ++ drop (length p) t → c ∷ t ≡ b ∷ (p ++ drop (length p) t)
    cons_eq e f = ap₂ (λ x xs. x ∷ xs) e f

drop-append : (p w : Bytes) → drop (length p) (p ++ w) ≡ w
drop-append [] w = refl
drop-append (b ∷ p) w = drop-append p w

pub candidate-IsPublished :
    (component w : Bytes) (r : Release) → candidate component r ≡ some w → IsPublished component w r
unfolding candidate
candidate-IsPublished component w r e = record {
  tag = split (ground arith) (ground arith);
  final = ground arith;
  released = ground arith;
  stable = ground arith;
}
  where
    split :
        starts_with (component ++ codes "/v") r.tag ≡ true
        → drop (length (component ++ codes "/v")) r.tag ≡ w
        → r.tag ≡ (component ++ codes "/v") ++ w
    split h f = starts_with-drop _ r.tag h ∙ ap (λ z. (component ++ codes "/v") ++ z) f

pub IsPublished-candidate :
    (component w : Bytes) (r : Release) → IsPublished component w r → candidate component r ≡ some w
unfolding candidate
IsPublished-candidate component w r p =
    rw
      (
        p.tag,
        p.final,
        p.released,
        starts_with-append (component ++ codes "/v") w,
        drop-append (component ++ codes "/v") w,
        p.stable,
      )
      refl

-- A version is published on a page that `latest` reads: on this one, or this one is full and it is
-- on one of those after it.
unfoldable pub IsOn : Bytes → Bytes → List Release → Type 0
IsOn component w [] = ⊥
IsOn component w (r ∷ rs) = IsPublished component w r ⊎ IsOn component w rs

unfoldable pub IsListed : (ℕ → Answer (List Release)) → Bytes → Bytes → ℕ → ℕ → Type 0
unfolding IsOn
IsListed pages component w zero page = ⊥
IsListed pages component w (suc left) page =
    (rs : List Release) × (pages page ≡ ok rs)
    × (IsOn component w rs
        ⊎ ((ltb (length rs) 100 ≡ false) × IsListed pages component w left (page + 1)))
