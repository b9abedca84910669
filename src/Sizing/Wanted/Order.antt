-- ===== src/Sizing/Wanted/Order.antt =====
-- The panes that a viewer wants: bounded, and each once.
use herdr_hive.Base.{
  ℕ, ◌≡◌, ◌≤◌, refl, subst, true, false, ◌&&◌, not, Option, none, some, List, [], ◌∷◌, Bytes,
  bytes_eq_iff, bytes_eq_refl, arith, if_elim, if_case, length, ltb, ltb→le,
}
use herdr_hive.Sizing.Reclaim.{size_slots}
use herdr_hive.Sizing.Panes.{Pane, Answer, contains}
use herdr_hive.Sizing.Panes.Answer.{ok}
use herdr_hive.Sizing.View.{
  View, wanted_tabs, may_want, wanted_panes, bounded, wanted_in, wanted_order,
}

abbrev pub IsUnique : List Bytes → Type 0
IsUnique [] = Unit {0}
IsUnique (k ∷ ks) = (contains k ks ≡ false) × IsUnique ks

wanted_panes-seen :
    (tabs : List Bytes) (panes : Option (List Bytes)) (ps : List Pane) (seen : List Bytes)
    (k : Bytes)
    → contains k seen ≡ true
    → contains k (wanted_panes tabs panes ps seen) ≡ false
unfolding wanted_panes contains
wanted_panes-seen tabs panes [] seen k e = refl
wanted_panes-seen tabs panes (p ∷ ps) seen k e = ground (
  arith,
  bytes_eq_iff p.id k,
  wanted_panes-seen tabs panes ps seen k e,
  wanted_panes-seen tabs panes ps (p.id ∷ seen) k,
)

wanted_panes-IsUnique :
    (tabs : List Bytes) (panes : Option (List Bytes)) (ps : List Pane) (seen : List Bytes)
    → IsUnique (wanted_panes tabs panes ps seen)
unfolding wanted_panes contains
wanted_panes-IsUnique tabs panes [] seen = tt
wanted_panes-IsUnique tabs panes (p ∷ ps) seen =
    if_elim IsUnique (contains p.tab tabs && not (contains p.id seen) && may_want panes p.id) _ _
      (
        wanted_panes-seen tabs panes ps (p.id ∷ seen) p.id (rw (bytes_eq_refl p.id) refl),
        wanted_panes-IsUnique tabs panes ps (p.id ∷ seen),
      )
      (wanted_panes-IsUnique tabs panes ps seen)

-- The panes that a viewer wants are at most 32, and each is in the list once.
pub wanted_order-bounded :
    (now : ℕ) (panes : Option (List Bytes)) (v : View) (order : List Bytes)
    → wanted_order now panes v ≡ ok order
    → (length order ≤ size_slots) × IsUnique order
unfolding wanted_order wanted_in bounded
wanted_order-bounded now panes v order =
    if_elim (λ (a : Answer (List Bytes)). a ≡ ok order → Good order) v.active _ _
      (in_tabs (wanted_tabs now v.pending (v.snapshot.tab ∷ [])))
      (λ e. subst Good (ok_eq e) (omega arith, tt))
  where
    Good : List Bytes → Type 0
    Good ks = (length ks ≤ size_slots) × IsUnique ks

    ok_eq : {a b : List Bytes} → ok a ≡ ok b → a ≡ b
    ok_eq e = cc

    from_bounded : (ks : List Bytes) → IsUnique ks → bounded ks ≡ ok order → Good order
    from_bounded ks u =
        if_case (λ (a : Answer (List Bytes)). a ≡ ok order → Good order)
          (ltb size_slots (length ks)) _ _ (λ x f. cc)
          (λ x f. subst Good (ok_eq f) (ltb→le size_slots (length ks) x, u))

    in_tabs :
        (tabs : Option (List Bytes)) → wanted_in panes v.snapshot.panes tabs ≡ ok order → Good order
    in_tabs none = λ e. cc
    in_tabs (some tabs) =
        from_bounded (wanted_panes tabs panes v.snapshot.panes [])
          (wanted_panes-IsUnique tabs panes v.snapshot.panes [])
