-- ===== src/Sizing/Owned/Taking.antt =====
-- The second loop of `reconcile`, which takes locks, keeps the counts.
use herdr_hive.Base.{
  ℕ, ◌<◌, ◌≡◌, refl, inl, inr, Bool, true, false, Option, none, some, Bytes, bytes_eq_refl, if_elim,
  if_case, arith, Bool-cases,
}
use herdr_hive.Base.Dict.{lookup, lookup-insert}
use herdr_hive.Sizing.Locks.{Sizing, has, remove, stop_timer, write, is_zero, reuse_locked}
use herdr_hive.Sizing.Panes.{SizeError, Answer}
use herdr_hive.Sizing.Panes.Answer.{ok, err}
use herdr_hive.Sizing.Acquire.{
  Native, Pass, Geometry, take_ref, add_lock, return_slot, started, reserved, hold_size, remeasured,
  reused, holds_already, acquire_lock, acquire,
}
use herdr_hive.Sizing.Owned.{Owned, holds, total}
use herdr_hive.Sizing.Owned.Stops.{
  Shrinks, lookup-Entry, has-remove, has-remove_self, stop_timer-Shrinks,
}
use herdr_hive.Sizing.Owned.Shrinking.{
  others-Shrinks, stop-Owned, LeavesLess-Shrinks, reserve_size_slot-LeavesLess,
}
use herdr_hive.Sizing.Owned.Counts.{rewrite_refs, add_lock-Owned}
use herdr_hive.Sizing.Owned.Holdings.{
  holds-zero, holds_new, IsCounted, increment-pos, total-insert_self, total-insert_ne,
  total-insert-lt, Synced-insert,
}
use herdr_hive.Sizing.Owned.Checks.{give_up-IsCounted, shrink-IsCounted}

unidle-Shrinks : (h : ℕ) (s : Sizing) → Shrinks s (record s { idle = remove h s.idle })
unidle-Shrinks h s = record {
  refs = λ i. refl;
  locks = λ p i e. e;
  entries = λ p i a. a;
  idle = λ i e. has-remove h i s.idle e;
  next = refl;
  retired = λ p i e r. inl r;
}

timer_locks :
    (pane : Bytes) (h : ℕ) (s : Sizing)
    → lookup pane s.locks ≡ some h
    → lookup pane (stop_timer h s).locks ≡ some h
unfolding stop_timer
timer_locks pane h s e = e

timer_idle :
    (h : ℕ) (s : Sizing) → has h (stop_timer h (record s { idle = remove h s.idle })).idle ≡ false
unfolding stop_timer
timer_idle h s = has-remove_self h s.idle

timer_retired :
    (h : ℕ) (s : Sizing) → (s.heap h).retired ≡ false → ((stop_timer h s).heap h).retired ≡ false
unfolding stop_timer write
timer_retired h s e = ground arith

-- A lock with a holder is neither idle nor retired.
module _ (n : Bytes → ℕ → ℕ) (s : Sizing) (pane : Bytes) (h : ℕ) (o : Owned n s)
    (e : lookup pane s.locks ≡ some h) (z : is_zero (s.heap h).refs ≡ false) where
  held_some : n pane h ≡ 0 → ⊥
  unfolding is_zero
  held_some k = ground (arith, o.counted pane h e)

  held_idle : has h s.idle ≡ false
  held_idle = elim (Bool-cases (has h s.idle)) [
    | inl i ↦ absurd (held_some (o.idle_free pane h e i))
    | inr i ↦ i
  ]

  held_retired : (s.heap h).retired ≡ false
  held_retired = elim (Bool-cases (s.heap h).retired) [
    | inl r ↦ absurd (held_some (o.retired_free pane h e r))
    | inr r ↦ r
  ]

module _ (others : Bytes → ℕ → ℕ) where
  -- The viewer takes the lock that the session has for the pane.
  take_ref-IsCounted :
      (pane : Bytes) (h : ℕ) (p : Pass)
      → IsCounted others p
      → lookup pane p.sizing.locks ≡ some h
      → holds p.held_locks pane h ≡ 0
      → has h p.sizing.idle ≡ false
      → (p.sizing.heap h).retired ≡ false
      → IsCounted others (take_ref pane h p)
  unfolding take_ref
  take_ref-IsCounted pane h p c e new idle retired = record {
    owned =
        rewrite_refs (total others p.held_locks) _ p.sizing pane h _ c.owned e
          (increment-pos _ _ _ (c.owned.counted pane h e)
            (total-insert_self others pane h p.held_locks new))
          (λ q i d f. total-insert_ne others pane q h i p.held_locks d)
          (λ q i l. omega (
            arith,
            total-insert-lt others pane q h i p.held_locks (omega (arith, below)),
            c.owned.unheld q i l,
          ))
          (λ i. cc) (λ r. cc);
    synced = Synced-insert pane h p.held p.held_locks c.synced;
  }
    where
      below : h < p.sizing.next
      below = c.owned.old pane h (lookup-Entry pane h p.sizing.locks e)

  started-IsCounted :
      (n : Native) (pane : Bytes) (e : Option SizeError) (s : Sizing) (p : Pass)
      → IsCounted others (record p { sizing = s })
      → IsCounted others (started n pane e s p)
  unfolding started return_slot add_lock write
  started-IsCounted n pane (some e) s p c =
      give_up-IsCounted others pane _ _ (
        shrink-IsCounted others (record p { sizing = s }) _ c (others-Shrinks s _ s.closed s.panes))
  started-IsCounted n pane none s p c =
      take_ref-IsCounted pane s.next (record p { sizing = add_lock pane s })
        (record { owned = add_lock-Owned _ s pane c.owned; synced = c.synced })
        (rw (lookup-insert pane pane s.next s.locks, bytes_eq_refl pane) refl)
        (holds-zero others p.held_locks pane s.next (c.owned.unheld pane s.next (omega arith)))
        (elim (Bool-cases (has s.next s.idle)) [
          | inl i ↦ absurd (omega (arith, c.owned.idle_old s.next i))
          | inr i ↦ i
        ])
        (ground arith)

  reserved-IsCounted :
      (n : Native) (pane : Bytes) (p : Pass) (r : Sizing × Bool)
      → IsCounted others (record p { sizing = r.0 })
      → IsCounted others (reserved n pane p r)
  unfolding reserved
  reserved-IsCounted n pane p (s, false) c = give_up-IsCounted others pane _ _ c
  reserved-IsCounted n pane p (s, true) c = started-IsCounted n pane _ s p c

  hold_size-IsCounted :
      (n : Native) (pane : Bytes) (p : Pass)
      → IsCounted others p
      → IsCounted others (hold_size n pane p)
  unfolding hold_size
  hold_size-IsCounted n pane p c =
      if_elim (IsCounted others) (n.is_over pane) _ _ (give_up-IsCounted others pane _ p c) (
        reserved-IsCounted n pane p _ (
          shrink-IsCounted others p _ c
            (LeavesLess-Shrinks p.sizing _ (reserve_size_slot-LeavesLess p.sizing))))

  remeasured-IsCounted :
      (n : Native) (pane : Bytes) (a : Answer Geometry) (p : Pass)
      → IsCounted others p
      → IsCounted others (remeasured n pane a p)
  unfolding remeasured
  remeasured-IsCounted n pane (err e) p c = give_up-IsCounted others pane _ p c
  remeasured-IsCounted n pane (ok g) p c =
      hold_size-IsCounted n pane _ (record { owned = c.owned; synced = c.synced })

  reuse-IsCounted :
      (n : Native) (pane : Bytes) (h : ℕ) (p : Pass)
      → IsCounted others p
      → lookup pane p.sizing.locks ≡ some h
      → holds p.held_locks pane h ≡ 0
      → IsCounted others (reused n pane h p (reuse_locked pane h p.sizing))
  unfolding reuse_locked reused
  reuse-IsCounted n pane h p c e new =
      if_case Counted (s.heap h).retired _ _
        (λ r. remeasured-IsCounted n pane _ _ (
          shrink-IsCounted others (record p { sizing = t }) _ busy
            (stop-Owned _ t busy.owned pane h e)))
        (λ r.
          take_ref-IsCounted pane h (record p { sizing = stop_timer h t })
            (shrink-IsCounted others (record p { sizing = t }) _ busy (stop_timer-Shrinks h t))
            (timer_locks pane h t e) new (timer_idle h s) (timer_retired h t r))
    where
      open p use {sizing as s}

      Counted : Sizing × Bool → Type 0
      Counted r = IsCounted others (reused n pane h p r)

      t : Sizing
      t = record s { idle = remove h s.idle }

      busy : IsCounted others (record p { sizing = t })
      busy = shrink-IsCounted others p t c (unidle-Shrinks h s)

  acquire_lock-IsCounted :
      (n : Native) (pane : Bytes) (found : Option ℕ) (p : Pass)
      → IsCounted others p
      → lookup pane p.sizing.locks ≡ found
      → IsCounted others (acquire_lock n pane found p)
  unfolding acquire_lock
  acquire_lock-IsCounted n pane none p c e = hold_size-IsCounted n pane p c
  acquire_lock-IsCounted n pane (some h) p c e =
      if_case (IsCounted others) (holds_already pane h p) _ _ (λ x. c)
        (λ x.
          if_case (IsCounted others) (is_zero (p.sizing.heap h).refs) _ _
            (λ z. reuse-IsCounted n pane h p c e (holds_new pane h p c.synced x))
            (λ z.
              take_ref-IsCounted pane h p c e (holds_new pane h p c.synced x)
                (held_idle _ p.sizing pane h c.owned e z)
                (held_retired _ p.sizing pane h c.owned e z)))

  pub acquire-IsCounted :
      (n : Native) (pane : Bytes) (p : Pass)
      → IsCounted others p
      → IsCounted others (acquire n pane p)
  unfolding acquire
  acquire-IsCounted n pane p c = acquire_lock-IsCounted n pane _ p c refl
