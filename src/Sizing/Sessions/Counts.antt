-- ===== src/Sizing/Sessions/Counts.antt =====
-- In every session that can be reached, the reference counts are the numbers of the viewers.
use herdr_hive.Base.{
  some-injective, none-ne-some, ℕ, zero, suc, ◌≡◌, ◌<◌, refl, sym, subst, inl, inr, Option, none,
  some, List, [], ◌∷◌, Bytes, get_elem?, arith, Bool-cases, if_elim,
}
use herdr_hive.Base.Dict.{lookup}
use herdr_hive.Sizing.Locks.{Sizing, has}
use herdr_hive.Sizing.Locks.ℤ.{pos}
use herdr_hive.Sizing.Reclaim.{reserve_size_slot}
use herdr_hive.Sizing.Panes.{SizeError, Answer, contains}
use herdr_hive.Sizing.Panes.Answer.{ok, err}
use herdr_hive.Sizing.View.{View}
use herdr_hive.Sizing.Acquire.{
  Native, start_pass, release_each, finish, with_order, with_catalog, reconcile, close_view,
}
use herdr_hive.Sizing.Owned.{Entry, Owned, holds_here, holds, total}
use herdr_hive.Sizing.Owned.Stops.{Shrinks-Owned, end_helper-Shrinks}
use herdr_hive.Sizing.Owned.Shrinking.{
  LeavesLess-Shrinks, catalog-LeavesLess, expire-Shrinks, watch-Shrinks, close_sizing-Shrinks,
  reserve_size_slot-LeavesLess, reserve-heap,
}
use herdr_hive.Sizing.Owned.Counts.{recount}
use herdr_hive.Sizing.Owned.Holdings.{Synced, IsCounted}
use herdr_hive.Sizing.Owned.Passes.{run_pass-IsCounted, release_each-IsCounted}
use herdr_hive.Sizing.Sessions.{
  Session, new_view, reconciled, Step, joins, reconciles, moves, leaves, expires, watches, ends,
  reserves, closes, IsNew, Reachable, start, step,
}
use herdr_hive.Sizing.Sessions.Holders.{
  holders, AllSynced, IsSound, Keeps, with_view-IsSound, shrink-IsSound,
}

module _ (others : Bytes → ℕ → ℕ) where
  Kept : Sizing × View × Option SizeError → Type 0
  Kept r = Keeps others (r.0, r.1)

  refused-Kept :
      (s : Sizing) (v : View) (e : Option SizeError)
      → Owned (total others v.held_locks) s
      → Synced v.held v.held_locks
      → Kept (s, v, e)
  unfolding Kept Keeps
  refused-Kept s v e o y = (o, y)

  Kept-Keeps : (r : Sizing × View × Option SizeError) → Kept r → Keeps others (r.0, r.1)
  unfolding Kept
  Kept-Keeps r k = k

  with_order-Kept :
      (n : Native) (v : View) (s : Sizing) (a : Answer (List Bytes))
      → Owned (total others v.held_locks) s
      → Synced v.held v.held_locks
      → Kept (with_order n v s a)
  unfolding with_order Kept Keeps finish
  with_order-Kept n v s (err e) o y = (o, y)
  with_order-Kept n v s (ok order) o y = (
    (run_pass-IsCounted others n order v s o y).owned,
    (run_pass-IsCounted others n order v s o y).synced,
  )

  with_catalog-Kept :
      (n : Native) (v : View) (r : Sizing × Option SizeError)
      → Owned (total others v.held_locks) r.0
      → Synced v.held v.held_locks
      → Kept (with_catalog n v r)
  unfolding with_catalog
  with_catalog-Kept n v (s, some e) o y = refused-Kept s v (some e) o y
  with_catalog-Kept n v (s, none) o y = with_order-Kept n _ s _ o y

  reconcile-Kept :
      (n : Native) (s : Sizing) (v : View)
      → Owned (total others v.held_locks) s
      → Synced v.held v.held_locks
      → Kept (reconcile n s v)
  unfolding reconcile
  reconcile-Kept n s v o y = if_elim Kept s.closed _ _ (refused-Kept s v _ o y) (
      with_catalog-Kept n v _
        (Shrinks-Owned _ s _ (LeavesLess-Shrinks s _ (catalog-LeavesLess _ s o n v)) o) y)

  moved-Keeps :
      (s : Sizing) (v w : View)
      → w.held ≡ v.held
      → w.held_locks ≡ v.held_locks
      → Owned (total others v.held_locks) s
      → Synced v.held v.held_locks
      → Keeps others (s, w)
  unfolding Keeps
  moved-Keeps s v w a b o y = (subst (λ m. Owned (total others m) s) (sym b) o, rw (a, b) y)

  close_view-Keeps :
      (s : Sizing) (v : View)
      → Owned (total others v.held_locks) s
      → Synced v.held v.held_locks
      → Keeps others (close_view s v)
  unfolding close_view Keeps start_pass
  close_view-Keeps s v o y = (closed.owned, closed.synced)
    where
      closed : IsCounted others (release_each [] v.held (start_pass [] v s))
      closed = release_each-IsCounted others [] v.held _ (record { owned = o; synced = y })

joins-IsSound : (t : Session) → IsSound t → IsSound (record t { views = new_view ∷ t.views })
unfolding holders holds holds_here lookup contains
joins-IsSound t o = record {
  owned =
      recount (holders t.views) _ t.sizing o.owned (λ p h f. omega arith)
        (λ p h l. omega (arith, o.owned.unheld p h l));
  synced = λ i v e. joined i v e;
}
  where
    joined : AllSynced (new_view ∷ t.views)
    joined zero v e =
        subst (λ x. Synced x.held x.held_locks) (some-injective new_view v e)
          (λ p. inr (refl, refl))
    joined (suc i) v e = o.synced i v e

Step-IsSound : (t u : Session) → IsSound t → Step t u → IsSound u
unfolding reconciled
Step-IsSound t u o joins = joins-IsSound t o
Step-IsSound t u o (reconciles n i v e) =
    with_view-IsSound t i v _ o e
      (λ others w y. Kept-Keeps others _ (reconcile-Kept others n t.sizing v w y))
Step-IsSound t u o (moves i v w e a b) =
    with_view-IsSound t i v (t.sizing, w) o e
      (λ others x y. moved-Keeps others t.sizing v w a b x y)
Step-IsSound t u o (leaves i v e) =
    with_view-IsSound t i v _ o e (λ others w y. close_view-Keeps others t.sizing v w y)
Step-IsSound t u o (expires pane h epoch) =
    shrink-IsSound t _ o (expire-Shrinks (holders t.views) t.sizing o.owned pane h epoch)
Step-IsSound t u o (watches pane h) =
    shrink-IsSound t _ o (watch-Shrinks (holders t.views) t.sizing o.owned pane h)
Step-IsSound t u o (ends h) = shrink-IsSound t _ o (end_helper-Shrinks h t.sizing)
Step-IsSound t u o reserves =
    shrink-IsSound t _ o (LeavesLess-Shrinks t.sizing _ (reserve_size_slot-LeavesLess t.sizing))
Step-IsSound t u o closes =
    shrink-IsSound t _ o (close_sizing-Shrinks (holders t.views) t.sizing o.owned)

new-IsSound : (t : Session) → IsNew t → IsSound t
unfolding holders Entry lookup
new-IsSound t n = record {
  owned = record {
    counted = λ p h e. absurd (no_lock p h e);
    distinct = λ p q h a b. absurd (no_entry p h a);
    old = λ p h a. absurd (no_entry p h a);
    unheld = λ p h l. subst (λ vs. holders vs p h ≡ 0) (sym n.no_views) refl;
    idle_free = λ p h e i. absurd (no_lock p h e);
    idle_old = n.idle_old;
    retired_free = λ p h e r. absurd (no_lock p h e);
  };
  synced = λ i v e. absurd (no_view i v (subst (λ vs. get_elem? vs i ≡ some v) n.no_views e));
}
  where
    no_entry : (p : Bytes) (h : ℕ) → Entry p h t.sizing.locks → ⊥
    no_entry p h a = subst (Entry p h) n.no_locks a

    no_lock : (p : Bytes) (h : ℕ) → lookup p t.sizing.locks ≡ some h → ⊥
    no_lock p h e = none-ne-some h (subst (λ m. lookup p m ≡ some h) n.no_locks e)

    no_view : (i : ℕ) (v : View) → get_elem? {A = View} [] i ≡ some v → ⊥
    no_view i v e = cc

Reachable-IsSound : (t : Session) → Reachable t → IsSound t
Reachable-IsSound t (start _ n) = new-IsSound t n
Reachable-IsSound u (step t _ r k) = Step-IsSound t u (Reachable-IsSound t r) k

-- In every session that the steps can reach, the reference count of each lock in the session's map
-- is the number of the viewers that hold it for its pane.
pub refs-holders :
    (t : Session) (pane : Bytes) (h : ℕ)
    → Reachable t
    → lookup pane t.sizing.locks ≡ some h
    → (t.sizing.heap h).refs ≡ pos (holders t.views pane h)
refs-holders t pane h r e = (Reachable-IsSound t r).owned.counted pane h e

-- In every session that the steps can reach, reserving a slot changes no lock in the session's map
-- that a viewer holds, whatever idle locks it reclaims for the slot.
pub reserve-held :
    (t : Session) (pane : Bytes) (h : ℕ)
    → Reachable t
    → lookup pane t.sizing.locks ≡ some h
    → 0 < holders t.views pane h
    → (reserve_size_slot t.sizing).0.heap h ≡ t.sizing.heap h
unfolding reserve_size_slot
reserve-held t pane h r e held =
    reserve-heap t.sizing.idle t.sizing h (elim (Bool-cases (has h t.sizing.idle)) [
      | inl i ↦ absurd (omega (arith, held, (Reachable-IsSound t r).owned.idle_free pane h e i))
      | inr i ↦ i
    ])
