-- ===== src/Sizing/Ends.antt =====
-- How locks end: a timer that a reuse has overtaken, and the end of the publication.
-- bee/internal/herdr/sizing.go, 356-443.
use herdr_hive.Base.{
  some-injective, none-ne-some, ℕ, ◌^◌, ◌==◌, ◌≡◌, ◌<◌, refl, ◌∙◌, Bool, true, false, ◌&&◌, none,
  some, [], ◌∷◌, if◌then◌else◌, Bytes, bytes_eq, bytes_eq_iff, arith, Bool-cases, Option-cases, inl,
  inr, subst,
}
use herdr_hive.Base.Dict.{Dict, lookup, lookup-delete}
use herdr_hive.Sizing.Locks.{
  Sizing, write, next_epoch, end_helper, cancel, stop_timer, forget, is_lock, stop_locked,
  reuse_locked, expire, stop_each, close_sizing,
}
use herdr_hive.Sizing.Panes.SizeError.{binding_closed}
use herdr_hive.Sizing.View.{View}
use herdr_hive.Sizing.Acquire.{Native, reconcile}

next_epoch-ne : (e : ℕ) → e < 2 ^ 64 → (next_epoch e == e) ≡ false
unfolding next_epoch
next_epoch-ne e h = ground arith

-- A timer that was set before the lock was taken again does nothing: the reuse has moved the epoch on.
pub expire-reuse_locked :
    (pane : Bytes) (h : ℕ) (s : Sizing)
    → (s.heap h).epoch < 2 ^ 64
    → (s.heap h).retired ≡ false
    → expire pane h (s.heap h).epoch (reuse_locked pane h s).0 ≡ (reuse_locked pane h s).0
unfolding expire reuse_locked stop_timer write
expire-reuse_locked pane h s l r = ground (arith, next_epoch-ne (s.heap h).epoch)

stop_locked-done : (pane : Bytes) (h : ℕ) (s : Sizing) → ((stop_locked pane h s).heap h).done ≡ true
unfolding stop_locked forget cancel end_helper stop_timer write
stop_locked-done pane h s = ground arith

stop_locked-done_other :
    (pane : Bytes) (h i : ℕ) (s : Sizing)
    → (s.heap i).done ≡ true
    → ((stop_locked pane h s).heap i).done ≡ true
unfolding stop_locked forget cancel end_helper stop_timer write
stop_locked-done_other pane h i s e = ground arith

stop_locked-lookup :
    (pane p : Bytes) (h : ℕ) (s : Sizing)
    → lookup p (stop_locked pane h s).locks
      ≡ (if bytes_eq pane p && is_lock pane h s then none else lookup p s.locks)
unfolding stop_locked forget cancel end_helper stop_timer write is_lock
stop_locked-lookup pane p h s = ground (arith, lookup-delete pane p s.locks)

stop_locked-closed : (pane : Bytes) (h : ℕ) (s : Sizing) → (stop_locked pane h s).closed ≡ s.closed
unfolding stop_locked forget cancel end_helper stop_timer
stop_locked-closed pane h s = ground arith

abbrev every : Bytes → Bool
every pane = true

stop_each-done_other :
    (m : Dict ℕ) (s : Sizing) (i : ℕ)
    → (s.heap i).done ≡ true
    → ((stop_each every m s).heap i).done ≡ true
unfolding stop_each
stop_each-done_other [] s i e = e
stop_each-done_other ((pane, h) ∷ m) s i e =
    stop_each-done_other m _ i (stop_locked-done_other pane h i s e)

stop_each-done :
    (m : Dict ℕ) (s : Sizing) (p : Bytes) (h : ℕ)
    → lookup p m ≡ some h
    → ((stop_each every m s).heap h).done ≡ true
unfolding stop_each lookup
stop_each-done [] s p h e = cc
stop_each-done ((pane, i) ∷ m) s p h e = elim (Bool-cases (bytes_eq pane p)) [
  | inl x ↦
      subst (λ j. ((stop_each every m (stop_locked pane i s)).heap j).done ≡ true)
        (some-injective _ _ (rw x at e)) (stop_each-done_other m _ i (stop_locked-done pane i s))
  | inr x ↦ stop_each-done m _ p h (rw x at e)
]

stop_each-lookup :
    (m : Dict ℕ) (s : Sizing)
    → ((p : Bytes) (h : ℕ) → lookup p s.locks ≡ some h → lookup p m ≡ some h)
    → (p : Bytes) → lookup p (stop_each every m s).locks ≡ none
unfolding stop_each lookup is_lock
stop_each-lookup [] s listed p = elim (Option-cases (lookup p s.locks)) [
  | inl e ↦ e
  | inr (h, e) ↦ absurd (none-ne-some _ (listed p h e))
]
stop_each-lookup ((pane, i) ∷ m) s listed p = stop_each-lookup m _ left p
  where
    left :
        (q : Bytes) (h : ℕ) → lookup q (stop_locked pane i s).locks ≡ some h → lookup q m ≡ some h
    left q h e = ground (arith, listed q h, stop_locked-lookup pane q i s, bytes_eq_iff pane q)

stop_each-closed : (m : Dict ℕ) (s : Sizing) → (stop_each every m s).closed ≡ s.closed
unfolding stop_each
stop_each-closed [] s = refl
stop_each-closed ((pane, h) ∷ m) s = stop_each-closed m _ ∙ stop_locked-closed pane h s

-- When the publication closes, the helper of every lock in the session's map has ended, the map is
-- empty, and no viewer acquires a lock afterwards.
pub close_sizing-final :
    (s : Sizing)
    → ((p : Bytes) (h : ℕ) → lookup p s.locks ≡ some h → ((close_sizing s).heap h).done ≡ true)
      × ((p : Bytes) → lookup p (close_sizing s).locks ≡ none)
      × ((n : Native) (v : View)
          → reconcile n (close_sizing s) v ≡ (close_sizing s, v, some binding_closed))
unfolding close_sizing reconcile
close_sizing-final s = (
  λ p h e. stop_each-done s.locks _ p h e,
  λ p. stop_each-lookup s.locks _ (λ q h e. e) p,
  λ n v. rw (stop_each-closed s.locks (record s { closed = true })) refl,
)
