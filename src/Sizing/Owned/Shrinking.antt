-- ===== src/Sizing/Owned/Shrinking.antt =====
-- The operations that take no lock and drop no reference: `refreshPanesLocked`, `snapshotLocked`,
-- `expire`, `watch`, `close`, `reserveSizeSlot`, and a stop in the loops of `reconcile`.
use herdr_hive.Base.{
  ℕ, ◌==◌, ◌≡◌, refl, Bool, true, false, Option, none, some, List, [], ◌∷◌, if◌then◌else◌, Bytes,
  bytes_eq, if_elim, if_case, inl, inr, arith, Bool-cases,
}
use herdr_hive.Base.Dict.{lookup}
use herdr_hive.Sizing.Locks.{
  Sizing, has, remove, write, end_helper, cancel, is_lock, stop_locked, stop_each, expire, watch,
  close_sizing,
}
use herdr_hive.Sizing.Reclaim.{reserve, reserve_size_slot}
use herdr_hive.Sizing.Panes.{
  Snapshot, Answer, set_of, pane_ids, refresh_panes, is_same, is_initial, snapshot_locked,
}
use herdr_hive.Sizing.Panes.Answer.{ok, err}
use herdr_hive.Sizing.Acquire.{Native, catalog, drop_retired}
use herdr_hive.Sizing.View.{View}
use herdr_hive.Sizing.Owned.{Entry, Owned}
use herdr_hive.Sizing.Owned.Stops.{
  Shrinks, Shrinks-refl, Shrinks-trans, Only, stop_locked-Shrinks, stop_each-Shrinks, lookup-Entry,
  cancel-Shrinks, IsReclaimable, has-remove_ne,
}

Owned-Only :
    (n : Bytes → ℕ → ℕ) (s : Sizing) (pane : Bytes) (h : ℕ)
    → Owned n s
    → Entry pane h s.locks
    → Only pane h s
Owned-Only n s pane h o a p e = o.distinct p pane h (lookup-Entry p h s.locks e) a

is_lock-Entry :
    (pane : Bytes) (h : ℕ) (s : Sizing) → is_lock pane h s ≡ true → lookup pane s.locks ≡ some h
unfolding is_lock
is_lock-Entry pane h s e = ground (arith)

-- Fields that say nothing of the locks.
pub others-Shrinks :
    (s : Sizing) (slots : ℕ) (closed : Bool) (panes : Option (List Bytes))
    → Shrinks s (record s { slots = slots; closed = closed; panes = panes })
others-Shrinks s slots closed panes = record {
  refs = λ h. refl;
  locks = λ p h e. e;
  entries = λ p h a. a;
  idle = λ h i. i;
  next = refl;
  retired = λ p h e r. inl r;
}

-- The session that an operation leaves besides another result.
unfoldable pub LeavesLess {ℓ} : {B : Type ℓ} → Sizing → Sizing × B → Type 0
LeavesLess s r = Shrinks s r.0

module _ {ℓ} {B : Type ℓ} where
  pub leaves : (s t : Sizing) (b : B) → Shrinks s t → LeavesLess s (t, b)
  unfolding LeavesLess
  leaves s t b k = k

  pub LeavesLess-Shrinks : (s : Sizing) (r : Sizing × B) → LeavesLess s r → Shrinks s r.0
  unfolding LeavesLess
  LeavesLess-Shrinks s r k = k

module _ (n : Bytes → ℕ → ℕ) (s : Sizing) (o : Owned n s) where
  pub stop-Owned :
      (pane : Bytes) (h : ℕ) → lookup pane s.locks ≡ some h → Shrinks s (stop_locked pane h s)
  stop-Owned pane h e =
      stop_locked-Shrinks pane h s (Owned-Only n s pane h o (lookup-Entry pane h s.locks e))

  -- The locks of the session are stopped after fields that say nothing of them were set.
  stop_all-Shrinks :
      (stops : Bytes → Bool) (closed : Bool) (panes : Option (List Bytes))
      → Shrinks s (stop_each stops s.locks (record s { closed = closed; panes = panes }))
  stop_all-Shrinks stops closed panes =
      Shrinks-trans s _ _ (others-Shrinks s s.slots closed panes)
        (stop_each-Shrinks stops s.locks _ (λ pane h a. Owned-Only n s pane h o a))

  refresh_panes-LeavesLess : (answer : Answer (List Bytes)) → LeavesLess s (refresh_panes answer s)
  unfolding refresh_panes
  refresh_panes-LeavesLess (err e) = leaves s s _ (Shrinks-refl s)
  refresh_panes-LeavesLess (ok listed) = leaves s _ _ (stop_all-Shrinks _ s.closed _)

  snapshot_locked-LeavesLess :
      (answer : Answer (List Bytes)) (snapshot : Snapshot)
      → LeavesLess s (snapshot_locked answer snapshot s)
  unfolding snapshot_locked
  snapshot_locked-LeavesLess answer snapshot =
      if_elim (LeavesLess s) (bytes_eq snapshot.boot []) _ _ (leaves s s none (Shrinks-refl s)) (
        if_elim (LeavesLess s) (is_same s.panes snapshot.panes) _ _
          (leaves s s none (Shrinks-refl s))
          (if_elim (LeavesLess s) (is_initial s.panes initial s.locks) _ _
            (leaves s _ none (others-Shrinks s s.slots s.closed (some initial)))
            (refresh_panes-LeavesLess answer)))
    where
      initial : List Bytes
      initial = set_of (pane_ids snapshot.panes)

  pub catalog-LeavesLess : (a : Native) (v : View) → LeavesLess s (catalog a v s)
  unfolding catalog
  catalog-LeavesLess a v =
      if_elim (LeavesLess s) v.catalog_seen _ _ (leaves s s none (Shrinks-refl s))
        (snapshot_locked-LeavesLess a.listed v.snapshot)

  pub close_sizing-Shrinks : Shrinks s (close_sizing s)
  unfolding close_sizing
  close_sizing-Shrinks = stop_all-Shrinks _ true s.panes

  pub expire-Shrinks : (pane : Bytes) (h epoch : ℕ) → Shrinks s (expire pane h epoch s)
  unfolding expire
  expire-Shrinks pane h epoch =
      if_case (Shrinks s) _ _ s (λ e. stop-Owned pane h (is_lock-Entry pane h s (ground arith)))
        (λ e. Shrinks-refl s)

  pub watch-Shrinks : (pane : Bytes) (h : ℕ) → Shrinks s (watch pane h s)
  unfolding watch
  watch-Shrinks pane h =
      if_case (Shrinks s) _ _ s (λ e. stop-Owned pane h (is_lock-Entry pane h s (ground arith)))
        (λ e. Shrinks-refl s)

  pub drop_retired-LeavesLess :
      (pane : Bytes) (found : Option ℕ)
      → lookup pane s.locks ≡ found
      → LeavesLess s (drop_retired pane found s)
  unfolding drop_retired
  drop_retired-LeavesLess pane none e = leaves s s _ (Shrinks-refl s)
  drop_retired-LeavesLess pane (some h) e =
      if_elim (LeavesLess s) _ _ _ (leaves s _ _ (stop-Owned pane h e))
        (leaves s s _ (Shrinks-refl s))

cancel_retired :
    (h i : ℕ) (s : Sizing)
    → ((cancel h s).heap i).retired ≡ (if i == h then true else (s.heap i).retired)
unfolding cancel end_helper write
cancel_retired h i s = ground arith

cancel_idle : (h : ℕ) (s : Sizing) → (cancel h s).idle ≡ remove h s.idle
unfolding cancel end_helper
cancel_idle h s = ground arith

-- Every lock that the loop of `reserveSizeSlot` meets is idle, or was met before.
cancel-IsReclaimable : (h i : ℕ) (s : Sizing) → IsReclaimable i s → IsReclaimable i (cancel h s)
cancel-IsReclaimable h i s r = elim (Bool-cases (i == h)) [
  | inl here ↦ inl (rw (cancel_retired h i s, here) refl)
  | inr there ↦ rw (cancel_retired h i s, there, cancel_idle h s, has-remove_ne h i s.idle there) r
]

reserve-LeavesLess :
    (is : List ℕ) (s : Sizing)
    → ((h : ℕ) → has h is ≡ true → IsReclaimable h s)
    → LeavesLess s (reserve is s)
unfolding reserve has
reserve-LeavesLess [] s met =
    if_elim (LeavesLess s) _ _ _ (leaves s _ _ (others-Shrinks s _ s.closed s.panes))
      (leaves s s _ (Shrinks-refl s))
reserve-LeavesLess (h ∷ is) s met =
    if_elim (LeavesLess s) _ _ _ (leaves s _ _ (others-Shrinks s _ s.closed s.panes)) (
      leaves s _ _ (
        Shrinks-trans s _ _ (cancel-Shrinks h s (λ p e. met h (ground arith))) (
          LeavesLess-Shrinks _ _ (
            reserve-LeavesLess is (cancel h s)
              (λ i e. cancel-IsReclaimable h i s (met i (ground arith)))))))

pub reserve_size_slot-LeavesLess : (s : Sizing) → LeavesLess s (reserve_size_slot s)
unfolding reserve_size_slot
reserve_size_slot-LeavesLess s = reserve-LeavesLess s.idle s (λ h e. inr e)

-- Only the locks in the list are touched.
pub reserve-heap :
    (is : List ℕ) (s : Sizing) (h : ℕ) → has h is ≡ false → (reserve is s).0.heap h ≡ s.heap h
unfolding reserve has cancel end_helper write
reserve-heap [] s h e = ground arith
reserve-heap (i ∷ is) s h e = ground (arith, reserve-heap is (cancel i s) h)
