-- ===== src/Sizing/Wanted/Loops.antt =====
-- What the two loops do over the panes.
use herdr_hive.Base.{
  none-ne-some, ◌≡◌, refl, sym, subst, ◌∙◌, ◌⊎◌, inl, inr, Bool, true, false, none, some, List, [],
  ◌∷◌, Bytes, bytes_eq, bytes_eq→eq, arith, Bool-cases, Option-cases, if_case, error_case,
}
use herdr_hive.Sizing.Panes.{SizeError, contains}
use herdr_hive.Sizing.Panes.Answer.{ok}
use herdr_hive.Sizing.Acquire.{Native, Pass, visit, each}
use herdr_hive.Sizing.Wanted.Steps.{Settles}

-- What a loop over the panes does.
pub record Loops (n : Native) (panes : List Bytes) (takes : Bool) (p q : Pass) : Type 0 where
  pub wanted :
      (k : Bytes)
      → (contains k q.wanted ≡ contains k p.wanted)
        ⊎ ((contains k q.wanted ≡ false) × (n.exists k ≡ ok false))
  pub held : (k : Bytes) → contains k p.held ≡ true → contains k q.held ≡ true
  pub taken :
      takes ≡ true
      → q.error ≡ none
      → (k : Bytes) → contains k panes ≡ true
      → (contains k q.held ≡ true) ⊎ (contains k q.wanted ≡ false)

pub still_dropped :
    (n : Native) (k : Bytes) (p q : Pass)
    → (contains k q.wanted ≡ contains k p.wanted)
      ⊎ ((contains k q.wanted ≡ false) × (n.exists k ≡ ok false))
    → contains k p.wanted ≡ false
    → contains k q.wanted ≡ false
still_dropped n k p q (inl e) f = e ∙ f
still_dropped n k p q (inr e) f = e.0

pub each-error :
    (step : Bytes → Pass → Pass) (panes : List Bytes) (p : Pass) (e : SizeError)
    → p.error ≡ some e
    → (each step panes p).error ≡ some e
unfolding each
each-error step [] p e f = f
each-error step (pane ∷ panes) p e f =
    error_case (λ (q : Pass). q.error ≡ some e) p.error (λ d. p) _ (λ d g. f) (λ z. cc)

module _ (n : Native) (takes : Bool) (step : Bytes → Pass → Pass)
    (settles : (pane : Bytes) (p : Pass) → Settles n pane takes p (step pane p)) where
  pub then-wanted :
      (p r q : Pass) (k : Bytes)
      → (contains k r.wanted ≡ contains k p.wanted)
        ⊎ ((contains k r.wanted ≡ false) × (n.exists k ≡ ok false))
      → (contains k q.wanted ≡ contains k r.wanted)
        ⊎ ((contains k q.wanted ≡ false) × (n.exists k ≡ ok false))
      → (contains k q.wanted ≡ contains k p.wanted)
        ⊎ ((contains k q.wanted ≡ false) × (n.exists k ≡ ok false))
  then-wanted p r q k (inl a) (inl b) = inl (b ∙ a)
  then-wanted p r q k (inr a) (inl b) = inr (b ∙ a.0, a.1)
  then-wanted p r q k a (inr b) = inr b

  pub visit-Loops : (pane : Bytes) (p : Pass) → Loops n (pane ∷ []) takes p (visit step pane p)
  unfolding visit contains
  visit-Loops pane p =
      if_case (Loops n (pane ∷ []) takes p) (contains pane p.wanted) _ _
        (λ e. record {
          wanted = (settles pane p).wanted;
          held = (settles pane p).held;
          taken = λ t z k c.
              subst
                (λ j.
                  (contains j (step pane p).held ≡ true)
                  ⊎ (contains j (step pane p).wanted ≡ false))
                (bytes_eq→eq pane k (ground arith)) (settled pane p z ((settles pane p).taken t));
        })
        (λ e. record {
          wanted = λ k. inl refl;
          held = λ k c. c;
          taken = λ t z k c.
              inr (subst (λ j. contains j p.wanted ≡ false) (bytes_eq→eq pane k (ground arith)) e);
        })
    where
      settled :
          (pane : Bytes) (p : Pass)
          → (step pane p).error ≡ none
          → (contains pane (step pane p).held ≡ true)
            ⊎ ((contains pane (step pane p).wanted ≡ false)
                ⊎ ((e : SizeError) × ((step pane p).error ≡ some e)))
          → (contains pane (step pane p).held ≡ true) ⊎ (contains pane (step pane p).wanted ≡ false)
      settled pane p z (inl x) = inl x
      settled pane p z (inr (inl x)) = inr x
      settled pane p z (inr (inr (e, x))) = cc

  pub join-Loops :
      (pane : Bytes) (panes : List Bytes) (p r q : Pass)
      → Loops n (pane ∷ []) takes p r
      → Loops n panes takes r q
      → (q.error ≡ none → r.error ≡ none)
      → Loops n (pane ∷ panes) takes p q
  unfolding contains
  join-Loops pane panes p r q a b z = record {
    wanted = λ k. then-wanted p r q k (a.wanted k) (b.wanted k);
    held = λ k c. b.held k (a.held k c);
    taken = λ t e k c. elim (Bool-cases (bytes_eq pane k)) [
      | inl x ↦ elim (a.taken t (z e) k (rw x refl)) [
        | inl y ↦ inl (b.held k y)
        | inr y ↦ inr (still_dropped n k r q (b.wanted k) y)
      ]
      | inr x ↦ b.taken t e k (rw x at c)
    ];
  }

  pub failed_before :
      (panes : List Bytes) (p : Pass) → (each step panes p).error ≡ none → p.error ≡ none
  failed_before panes p z = elim (Option-cases p.error) [
    | inl x ↦ x
    | inr (e, x) ↦ absurd (none-ne-some _ (sym z ∙ each-error step panes p e x))
  ]

  pub failed-Loops :
      (panes : List Bytes) (p : Pass) (e : SizeError) → p.error ≡ some e → Loops n panes takes p p
  failed-Loops panes p e x = record {
    wanted = λ k. inl refl;
    held = λ k c. c;
    taken = λ t f k c. cc;
  }

  pub each-Loops : (panes : List Bytes) (p : Pass) → Loops n panes takes p (each step panes p)
  unfolding each contains
  each-Loops [] p = record { wanted = λ k. inl refl; held = λ k c. c; taken = λ t e k c. cc }
  each-Loops (pane ∷ panes) p =
      error_case (Loops n (pane ∷ panes) takes p) p.error (λ d. p) _
        (λ e x. failed-Loops (pane ∷ panes) p e x)
        (λ x.
          join-Loops pane panes p _ _ (visit-Loops pane p) (each-Loops panes _)
            (failed_before panes (visit step pane p)))
