-- ===== src/Update/Newest/Best.antt =====
-- The better of two releases is left.
use herdr_hive.Base.{
  Option, none, Bool, some-injective, none-ne-some, ◌≡◌, refl, sym, subst, ap, ◌∙◌, ◌⊎◌, inl, inr,
  true, false, some, List, [], ◌∷◌, Bytes, arith, Bool-cases, Option-cases,
}
use herdr_hive.Update.Version.{is_stable, newer}
use herdr_hive.Update.Order.{later, numbers}
use herdr_hive.Update.Catalog.{
  Release, Answer, ok, err, ◌>>=◌, candidate, better, consider, best_of,
}
use herdr_hive.Update.Newest.Stable.{
  newer_stable, newer_first_at, not_stable, later_irrefl, later_trans,
}
use herdr_hive.Update.Newest.Published.{IsOn, candidate-IsPublished, IsPublished-candidate}

-- No version is found yet, or a stable one.
unfoldable pub IsBest : Bytes → Type 0
IsBest best = (best ≡ []) ⊎ (is_stable best ≡ true)

-- `w` is no later than the best version.
unfoldable pub IsBeaten : Bytes → Bytes → Type 0
IsBeaten w best = (is_stable best ≡ true) × (later (numbers w) (numbers best) false ≡ false)

pub candidate-stable :
    (component : Bytes) (r : Release) (w : Bytes)
    → candidate component r ≡ some w
    → is_stable w ≡ true
unfolding candidate
candidate-stable component r w e = ground arith

-- One candidate: the better of the two is left.
pub record Improves (best next : Bytes) : Type 0 where
  pub is_best : IsBest next
  pub keeps : (w : Bytes) → IsBeaten w best → IsBeaten w next

pub Improves-refl : (best : Bytes) → IsBest best → Improves best best
Improves-refl best b = record { is_best = b; keeps = λ w k. k }

pub ok_eq : {A : Type 0} {a b : A} → ok a ≡ ok b → a ≡ b
ok_eq e = cc

pub takes :
    (best v : Bytes)
    → is_stable v ≡ true
    → (is_stable best ≡ true → later (numbers v) (numbers best) false ≡ true)
    → Improves best v × IsBeaten v v
unfolding IsBest IsBeaten
takes best v h k = (
  record {
    is_best = inr h;
    keeps = λ w b. (h, later_trans (numbers w) (numbers best) (numbers v) b.1 (k b.0));
  },
  (h, later_irrefl (numbers v)),
)

pub better-Improves :
    (v best next : Bytes)
    → is_stable v ≡ true
    → IsBest best
    → better v (newer v best) best ≡ ok next
    → Improves best next × IsBeaten v next
unfolding better IsBest IsBeaten
better-Improves v best next h (inl e) k =
    subst (λ z. Improves best z × IsBeaten v z)
      (ok_eq (subst (λ o. better v o best ≡ ok next) (newer_first_at v best e) k))
      (takes best v h (λ f. absurd (not_stable best e f)))
better-Improves v best next h (inr e) k =
    elim (Bool-cases (later (numbers v) (numbers best) false)) [
      | inl l ↦
          subst (λ z. Improves best z × IsBeaten v z)
            (ok_eq (subst (λ o. better v o best ≡ ok next) (newer_stable v best h e ∙ ap some l) k))
            (takes best v h (λ f. l))
      | inr l ↦
          subst (λ z. Improves best z × IsBeaten v z)
            (ok_eq (subst (λ o. better v o best ≡ ok next) (newer_stable v best h e ∙ ap some l) k))
            (Improves-refl best (inr e), (e, l))
    ]

pub Improves-trans : (a b c : Bytes) → Improves a b → Improves b c → Improves a c
Improves-trans a b c j k = record { is_best = k.is_best; keeps = λ w x. k.keeps w (j.keeps w x) }

pub consider-Improves :
    (component best next : Bytes) (r : Release)
    → IsBest best
    → consider (candidate component r) best ≡ ok next
    → Improves best next × ((w : Bytes) → candidate component r ≡ some w → IsBeaten w next)
unfolding consider
consider-Improves component best next r b k = elim (Option-cases (candidate component r)) [
  | inl e ↦ (
    subst (Improves best) (ok_eq (subst (λ o. consider o best ≡ ok next) e k))
        (Improves-refl best b),
    λ w f. absurd (none-ne-some _ (sym e ∙ f)),
  )
  | inr (v, e) ↦
      let t =
        better-Improves v best next (candidate-stable component r v e) b
          (subst (λ o. consider o best ≡ ok next) e k) in
      (t.0, λ w f. subst (λ z. IsBeaten z next) (some-injective _ _ (sym e ∙ f)) t.1)
]

pub bind_ok :
    {A B : Type 0} (m : Answer A) (f : A → Answer B) (b : B)
    → (m >>= f) ≡ ok b
    → (a : A) × (m ≡ ok a) × (f a ≡ ok b)
unfolding ◌>>=◌
bind_ok (ok a) f b e = (a, refl, e)
bind_ok (err x) f b e = absurd (err_ok e)
  where
    err_ok : err x ≡ ok b → ⊥
    err_ok g = cc

pub best_of-Improves :
    (component : Bytes) (rs : List Release) (best next : Bytes)
    → IsBest best
    → best_of component rs best ≡ ok next
    → Improves best next × ((w : Bytes) → IsOn component w rs → IsBeaten w next)
unfolding best_of IsOn
best_of-Improves component [] best next b k =
    (subst (Improves best) (ok_eq k) (Improves-refl best b), λ w x. absurd x)
best_of-Improves component (r ∷ rs) best next b k =
    let (mid, e, f) =
      bind_ok (consider (candidate component r) best) (best_of component rs) next k in
    let (i, c) = consider-Improves component best mid r b e in
    let (j, d) = best_of-Improves component rs mid next i.is_best f in
    (
      Improves-trans best mid next i j,
      λ w x. elim x [
        | inl y ↦ j.keeps w (c w (IsPublished-candidate component w r y))
        | inr y ↦ d w y
      ],
    )

-- The best version after a page is the one before it, or one that the page publishes.
better-found :
    (v best next : Bytes) (o : Option Bool) → better v o best ≡ ok next → (next ≡ best) ⊎ (next ≡ v)
unfolding better
better-found v best next none k = cc
better-found v best next (some true) k = inr (sym (ok_eq k))
better-found v best next (some false) k = inl (sym (ok_eq k))

consider-found :
    (best next : Bytes) (o : Option Bytes)
    → consider o best ≡ ok next
    → (next ≡ best) ⊎ (o ≡ some next)
unfolding consider
consider-found best next none k = inl (sym (ok_eq k))
consider-found best next (some v) k = elim (better-found v best next (newer v best) k) [
  | inl e ↦ inl e
  | inr e ↦ inr (ap some (sym e))
]

pub best_of-found :
    (component : Bytes) (rs : List Release) (best next : Bytes)
    → best_of component rs best ≡ ok next
    → (next ≡ best) ⊎ IsOn component next rs
unfolding best_of IsOn
best_of-found component [] best next k = inl (sym (ok_eq k))
best_of-found component (r ∷ rs) best next k =
    let (mid, e, f) =
      bind_ok (consider (candidate component r) best) (best_of component rs) next k in
    elim (best_of-found component rs mid next f) [
      | inl same ↦ elim (consider-found best mid (candidate component r) e) [
        | inl x ↦ inl (same ∙ x)
        | inr x ↦ inr (inl (candidate-IsPublished component next r (x ∙ ap some (sym same))))
      ]
      | inr later_on ↦ inr (inr later_on)
    ]
