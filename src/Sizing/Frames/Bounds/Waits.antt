-- ===== src/Sizing/Frames/Bounds/Waits.antt =====
-- What a viewer waits for, through `reconcile` and the settling of navigations.
use herdr_hive.Base.{
  ℕ, ◌≡◌, ◌≤◌, refl, sym, subst, true, Option, none, some, List, [], ◌∷◌, Bytes, length, arith,
  if_elim,
}
use herdr_hive.Base.Dict.{Dict}
use herdr_hive.Sizing.Locks.{Sizing}
use herdr_hive.Sizing.Panes.{Snapshot, SizeError, Answer}
use herdr_hive.Sizing.Panes.Answer.{ok, err}
use herdr_hive.Sizing.View.{View, Navigation, settle, wanted_order}
use herdr_hive.Sizing.Acquire.{Native, finish, with_order, with_catalog, catalog, reconcile}
use herdr_hive.Sizing.Client.{Handled, max_pending, after_reconcile}
use herdr_hive.Sizing.Server.{set_floor}

-- At most 64 navigations and at most 64 hides are pending.
pub record IsBounded (v : View) : Type 0 where
  pub pending : length v.pending ≤ max_pending
  pub hide : length v.hide ≤ max_pending

-- `w` waits for no more than `v`.
pub record IsLess (v w : View) : Type 0 where
  pub pending : length w.pending ≤ length v.pending
  pub hide : length w.hide ≤ length v.hide

pub IsLess-IsBounded : (v w : View) → IsLess v w → IsBounded v → IsBounded w
IsLess-IsBounded v w l b = record {
  pending = omega (arith, l.pending, b.pending);
  hide = omega (arith, l.hide, b.hide);
}

unfoldable pub Waits : View → Sizing × View × Option SizeError → Type 0
Waits v r = (r.1.pending ≡ v.pending) × (r.1.hide ≡ v.hide)

pub reconcile-Waits : (n : Native) (s : Sizing) (v : View) → Waits v (reconcile n s v)
unfolding reconcile Waits with_order with_catalog finish
reconcile-Waits n s v = if_elim (Waits v) s.closed _ _ (refl, refl) (from_catalog (catalog n v s))
  where
    from_order :
        (t : Sizing) (a : Answer (List Bytes))
        → Waits v (with_order n (record v { catalog_seen = true }) t a)
    from_order t (err e) = (refl, refl)
    from_order t (ok order) = (refl, refl)

    from_catalog : (r : Sizing × Option SizeError) → Waits v (with_catalog n v r)
    from_catalog (t, some e) = (refl, refl)
    from_catalog (t, none) =
        from_order t (wanted_order n.now t.panes (record v { catalog_seen = true }))

pub length-settle :
    (snapshot : Snapshot) (m : Dict Navigation) → length (settle snapshot m) ≤ length m
unfolding settle
length-settle snapshot [] = omega arith
length-settle snapshot ((k, n) ∷ m) = ground (arith, length-settle snapshot m)

pub length-set_floor :
    (id : Bytes) (r : ℕ) (m : Dict Navigation) → length (set_floor id r m) ≡ length m
unfolding set_floor
length-set_floor id r [] = refl
length-set_floor id r ((k, n) ∷ m) = omega (arith, length-set_floor id r m)

-- What a handler leaves is bounded, when what it reconciles is.
unfoldable pub Bounded : Handled → Type 0
Bounded h = IsBounded h.view

pub after_reconcile-Bounded :
    (f : Handled → Handled)
    → ((h : Handled) → Bounded h → Bounded (f h))
    → (n : Native) (s : Sizing) (v : View) → IsBounded v
    → Bounded (after_reconcile f (reconcile n s v))
unfolding after_reconcile Bounded Waits
after_reconcile-Bounded f keeps n s v b = after (reconcile n s v) (reconcile-Waits n s v)
  where
    bounded : (w : View) → (w.pending ≡ v.pending) × (w.hide ≡ v.hide) → IsBounded w
    bounded w (p, h) = record {
      pending = subst (λ m. length m ≤ max_pending) (sym p) b.pending;
      hide = subst (λ m. length m ≤ max_pending) (sym h) b.hide;
    }

    after : (r : Sizing × View × Option SizeError) → Waits v r → Bounded (after_reconcile f r)
    after (t, w, some e) q = bounded w q
    after (t, w, none) q = keeps _ (bounded w q)
