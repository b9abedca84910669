-- ===== src/Sizing/Wanted/Kept.antt =====
-- What the viewer holds when `reconcile` succeeds.
use herdr_hive.Base.{
  ◌≡◌, refl, sym, subst, ◌∙◌, ◌⊎◌, inl, inr, true, false, ◌&&◌, ◌||◌, not, Option, none, some, List,
  [], ◌∷◌, if◌then◌else◌, Bytes, bytes_eq, bytes_eq→eq, bytes_eq_refl, arith, Bool-cases, if_elim,
  error_case,
}
use herdr_hive.Sizing.Locks.{Sizing}
use herdr_hive.Sizing.Panes.{SizeError, contains}
use herdr_hive.Sizing.Panes.SizeError.{binding_closed}
use herdr_hive.Sizing.Panes.Answer.{ok}
use herdr_hive.Sizing.View.{View, wanted_order}
use herdr_hive.Sizing.Acquire.{
  Native, Pass, preflight, acquire, each, release_one, release_each, release_unwanted, start_pass,
  run_pass, finish, reconcile, with_order, with_catalog, catalog,
}
use herdr_hive.Sizing.Owned.Holdings.{contains-without}
use herdr_hive.Sizing.Wanted.Steps.{preflight-Settles, acquire-Settles}
use herdr_hive.Sizing.Wanted.Loops.{Loops, then-wanted, each-Loops}

pub maybe_release : List Bytes → Bytes → Pass → Pass
maybe_release keeps pane p =
    if contains pane keeps || not (contains pane p.held) then p else release_one pane p

pub maybe_release-held :
    (keeps : List Bytes) (pane k : Bytes) (p : Pass)
    → contains k (maybe_release keeps pane p).held
      ≡ (contains k p.held && (contains k keeps || not (bytes_eq pane k)))
unfolding maybe_release release_one
maybe_release-held keeps pane k p = elim (Bool-cases (bytes_eq pane k)) [
  | inl e ↦
      subst
        (λ j.
          contains j (maybe_release keeps pane p).held
          ≡ (contains j p.held && (contains j keeps || not (bytes_eq pane j))))
        (bytes_eq→eq pane k e)
        (ground (arith, contains-without pane pane p.held, bytes_eq_refl pane))
  | inr e ↦ ground (arith, contains-without pane k p.held)
]

pub maybe_release-error :
    (keeps : List Bytes) (pane : Bytes) (p : Pass) → (maybe_release keeps pane p).error ≡ p.error
unfolding maybe_release release_one
maybe_release-error keeps pane p =
    if_elim (λ (q : Pass). q.error ≡ p.error) (contains pane keeps || not (contains pane p.held)) _
      _ refl refl

-- The releases: the panes that are kept stay, and the others go.
pub release_each-held :
    (keeps ks : List Bytes) (p : Pass) (k : Bytes)
    → contains k (release_each keeps ks p).held
      ≡ (contains k p.held && (contains k keeps || not (contains k ks)))
unfolding release_each contains maybe_release
release_each-held keeps [] p k = ground arith
release_each-held keeps (pane ∷ ks) p k = ground (
  arith,
  release_each-held keeps ks (maybe_release keeps pane p) k,
  maybe_release-held keeps pane k p,
)

pub release_each-error :
    (keeps ks : List Bytes) (p : Pass) → (release_each keeps ks p).error ≡ p.error
unfolding release_each maybe_release
release_each-error keeps [] p = refl
release_each-error keeps (pane ∷ ks) p =
    release_each-error keeps ks (maybe_release keeps pane p) ∙ maybe_release-error keeps pane p

-- The whole pass, when it does not fail.
abbrev pub HoldsWanted : Native → List Bytes → List Bytes → Type 0
HoldsWanted n order held =
    (k : Bytes)
    → (contains k order ≡ true → (contains k held ≡ true) ⊎ (n.exists k ≡ ok false))
      × (contains k held ≡ true → contains k order ≡ true)

pub run_pass-HoldsWanted :
    (n : Native) (order : List Bytes) (v : View) (s : Sizing)
    → (run_pass n order v s).error ≡ none
    → HoldsWanted n order (run_pass n order v s).held
unfolding run_pass release_unwanted
run_pass-HoldsWanted n order v s =
    error_case (λ (q : Pass). q.error ≡ none → HoldsWanted n order q.held) last.error (λ d. last) _
      (λ e x z. absurd (some_none (sym x ∙ z))) (λ x z k. (wants x k, kept k))
  where
    start : Pass
    start = start_pass order v s

    middle : Pass
    middle = each (preflight n) order start

    last : Pass
    last = each (acquire n) order middle

    first : Loops n order false start middle
    first = each-Loops n false (preflight n) (preflight-Settles n) order start

    second : Loops n order true middle last
    second = each-Loops n true (acquire n) (acquire-Settles n) order middle

    some_none : {e : SizeError} → some e ≡ none → ⊥
    some_none f = cc

    true_false : true ≡ false → ⊥
    true_false f = cc

    through :
        (k : Bytes)
        → (contains k last.wanted ≡ contains k order)
          ⊎ ((contains k last.wanted ≡ false) × (n.exists k ≡ ok false))
    through k =
        then-wanted n true (acquire n) (acquire-Settles n) start middle last k (first.wanted k)
          (second.wanted k)

    wants :
        last.error ≡ none
        → (k : Bytes) → contains k order ≡ true
        → (contains k (release_each last.wanted last.held last).held ≡ true)
          ⊎ (n.exists k ≡ ok false)
    wants x k c = elim (through k) [
      | inr e ↦ inr e.1
      | inl e ↦ elim (second.taken refl x k c) [
        | inl h ↦ inl (rw (release_each-held last.wanted last.held last k, h, e, c) refl)
        | inr w ↦ absurd (true_false (sym c ∙ sym e ∙ w))
      ]
    ]

    in_wanted :
        (k : Bytes)
        → contains k (release_each last.wanted last.held last).held ≡ true
        → contains k last.wanted ≡ true
    in_wanted k c = ground (arith, release_each-held last.wanted last.held last k)

    kept :
        (k : Bytes)
        → contains k (release_each last.wanted last.held last).held ≡ true
        → contains k order ≡ true
    kept k c = elim (through k) [
      | inl e ↦ sym e ∙ in_wanted k c
      | inr e ↦ absurd (true_false (sym (in_wanted k c) ∙ e.0))
    ]

pub with_order-HoldsWanted :
    (n : Native) (v : View) (s : Sizing) (order : List Bytes)
    → (with_order n v s (ok order)).2 ≡ none
    → HoldsWanted n order (with_order n v s (ok order)).1.held
unfolding with_order finish
with_order-HoldsWanted n v s order z = run_pass-HoldsWanted n order v s z

pub Holds : Native → List Bytes → Sizing × View × Option SizeError → Type 0
Holds n order r = r.2 ≡ none → HoldsWanted n order r.1.held

pub with_catalog-Holds :
    (n : Native) (v : View) (order : List Bytes) (r : Sizing × Option SizeError)
    → wanted_order n.now r.0.panes v ≡ ok order
    → Holds n order (with_catalog n v r)
unfolding with_catalog wanted_order Holds
with_catalog-Holds n v order (s, some e) f = λ z. absurd (some_none z)
  where
    some_none : {e : SizeError} → some e ≡ none → ⊥
    some_none f = cc
with_catalog-Holds n v order (s, none) f =
    subst (λ a. Holds n order (with_order n (record v { catalog_seen = true }) s a)) (sym f)
      (with_order-HoldsWanted n (record v { catalog_seen = true }) s order)

-- When `reconcile` succeeds and the panes to hold are `order`, the viewer holds every pane of `order`
-- except those that the native API says are gone, and holds no other pane.
pub reconcile-holds :
    (n : Native) (s : Sizing) (v : View) (order : List Bytes)
    → (reconcile n s v).2 ≡ none
    → wanted_order n.now (catalog n v s).0.panes v ≡ ok order
    → HoldsWanted n order (reconcile n s v).1.held
unfolding reconcile Holds
reconcile-holds n s v order z e =
    if_elim (Holds n order) s.closed (s, v, some binding_closed) _ (λ f. absurd (some_none f))
      (with_catalog-Holds n v order (catalog n v s) e) z
  where
    some_none : some binding_closed ≡ none → ⊥
    some_none f = cc
