-- ===== src/Update/Newest/Pages.antt =====
-- The release that `latest` finds is the newest on the pages that it reads.
use herdr_hive.Base.{
  ℕ, zero, suc, ◌+◌, ◌≡◌, refl, sym, subst, ap, ◌∙◌, ◌⊎◌, inl, inr, true, false, Option, List, [],
  ltb, Bytes, bytes_eq, length, Bool-cases,
}
use herdr_hive.Update.Version.{is_stable}
use herdr_hive.Update.Order.{later, numbers}
use herdr_hive.Update.Catalog.{
  Release, UpdateError, Answer, ok, err, best_of, chosen, go_on, latest_from, latest, page_of, Http,
}
use herdr_hive.Update.Newest.Published.{IsOn, IsListed}
use herdr_hive.Update.Newest.Stable.{not_stable}
use herdr_hive.Update.Newest.Best.{
  IsBest, IsBeaten, ok_eq, bind_ok, best_of-Improves, best_of-found,
}

true-false : true ≡ false → ⊥
true-false g = cc

chosen-best :
    (best v : Bytes) → IsBest best → chosen best ≡ ok v → (is_stable v ≡ true) × (best ≡ v)
unfolding chosen IsBest
chosen-best best v b k = elim (Bool-cases (bytes_eq best [])) [
  | inl e ↦ absurd (err_ok (rw e at k))
  | inr e ↦
      let same = ok_eq (rw e at k) in (subst (λ z. is_stable z ≡ true) same (stable b e), same)
]
  where
    err_ok : {e : UpdateError} → err e ≡ ok v → ⊥
    err_ok g = cc

    stable : IsBest best → bytes_eq best [] ≡ false → is_stable best ≡ true
    stable (inl e) f = absurd (true-false (sym (ap (λ z. bytes_eq z []) e) ∙ f))
    stable (inr e) f = e

IsListed-at :
    (pages : ℕ → Answer (List Release)) (component w : Bytes) (left page : ℕ) (rs : List Release)
    → pages page ≡ ok rs
    → IsListed pages component w (suc left) page
    → IsOn component w rs
      ⊎ ((ltb (length rs) 100 ≡ false) × IsListed pages component w left (page + 1))
unfolding IsListed
IsListed-at pages component w left page rs e (ss, f, z) =
    subst
      (λ xs.
        IsOn component w xs
        ⊎ ((ltb (length xs) 100 ≡ false) × IsListed pages component w left (page + 1)))
      (ok_eq (sym f ∙ e)) z

latest_from-newest :
    (pages : ℕ → Answer (List Release)) (component : Bytes) (left page : ℕ) (best v : Bytes)
    → IsBest best
    → latest_from pages component left page best ≡ ok v
    → (is_stable v ≡ true)
      × ((w : Bytes) → IsBeaten w best → IsBeaten w v)
      × ((w : Bytes) → IsListed pages component w left page → IsBeaten w v)
unfolding latest_from IsListed
latest_from-newest pages component zero page best v b k = absurd (err_ok k)
  where
    err_ok : {e : UpdateError} → err e ≡ ok v → ⊥
    err_ok g = cc
latest_from-newest pages component (suc left) page best v b k =
    let (rs, e, f) = bind_ok (pages page) _ v k in
    let (next, g, h) = bind_ok (best_of component rs best) _ v f in
    let (i, on) = best_of-Improves component rs best next b g in
    elim (Bool-cases (ltb (length rs) 100)) [
      | inl short ↦
          let (st, same) = chosen-best next v i.is_best (rw (go_on, short) at h) in
          (
            st,
            λ w x. subst (IsBeaten w) same (i.keeps w x),
            λ w x. subst (IsBeaten w) same (elim (IsListed-at pages component w left page rs e x) [
              | inl y ↦ on w y
              | inr y ↦ absurd (true-false (sym short ∙ y.0))
            ]),
          )
      | inr full ↦
          let (st, keeps, beats) =
            latest_from-newest pages component left (page + 1) next v i.is_best
              (rw (go_on, full) at h) in
          (
            st,
            λ w x. keeps w (i.keeps w x),
            λ w x. elim (IsListed-at pages component w left page rs e x) [
              | inl y ↦ keeps w (on w y)
              | inr y ↦ beats w y.1
            ],
          )
    ]

-- The version that is found was the best before, or a page that is read publishes it.
latest_from-found :
    (pages : ℕ → Answer (List Release)) (component : Bytes) (left page : ℕ) (best v : Bytes)
    → IsBest best
    → latest_from pages component left page best ≡ ok v
    → (v ≡ best) ⊎ IsListed pages component v left page
unfolding latest_from IsListed
latest_from-found pages component zero page best v b k = cc
latest_from-found pages component (suc left) page best v b k =
    let (rs, e, f) = bind_ok (pages page) _ v k in
    let (next, g, h) = bind_ok (best_of component rs best) _ v f in
    let i = (best_of-Improves component rs best next b g).0.is_best in
    let here : (v ≡ next) → (v ≡ best) ⊎ IsListed pages component v (suc left) page = λ same.
      elim (best_of-found component rs best next g) [
        | inl x ↦ inl (same ∙ x)
        | inr x ↦ inr (rs, e, inl (subst (λ z. IsOn component z rs) (sym same) x))
      ] in
    elim (Bool-cases (ltb (length rs) 100)) [
      | inl short ↦ here (sym (chosen-best next v i (rw (go_on, short) at h)).1)
      | inr full ↦
          elim (latest_from-found pages component left (page + 1) next v i
            (rw (go_on, full) at h)) [ inl same ↦ here same | inr x ↦ inr (rs, e, inr (full, x)) ]
    ]

-- When `latest` returns a version, it is stable, a release on a page that was read publishes it and is
-- no draft and no prerelease, and no such release of the component on those pages has a later version.
pub latest-newest :
    (net : Bytes → Http) (json : Bytes → Option (List Release)) (api component v : Bytes)
    → latest net json api component ≡ ok v
    → (is_stable v ≡ true)
      × IsListed (page_of net json api) component v 10 1
      × ((w : Bytes)
          → IsListed (page_of net json api) component w 10 1
          → later (numbers w) (numbers v) false ≡ false)
unfolding latest IsBest IsBeaten
latest-newest net json api component v e =
    let (st, keeps, beats) =
      latest_from-newest (page_of net json api) component 10 1 [] v (inl refl) e in
    (
      st,
      elim (latest_from-found (page_of net json api) component 10 1 [] v (inl refl) e) [
        | inl none_found ↦ absurd (not_stable v none_found st)
        | inr x ↦ x
      ],
      λ w x. (beats w x).1,
    )
