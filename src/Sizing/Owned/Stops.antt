-- ===== src/Sizing/Owned/Stops.antt =====
-- What stopping a lock, or reclaiming an idle one, leaves of the others.
use herdr_hive.Base.{
  ℕ, ◌==◌, ◌≡◌, refl, sym, subst, ◌∙◌, ◌⊎◌, inl, inr, Bool, true, false, some, List, [], ◌∷◌,
  if◌then◌else◌, Bytes, bytes_eq, bytes_eq_iff, bytes_eq→eq, if_elim, arith, Bool-cases,
}
use herdr_hive.Base.Dict.{Dict, lookup, delete, lookup-delete}
use herdr_hive.Sizing.Locks.{
  Sizing, has, remove, write, end_helper, cancel, stop_timer, forget, is_lock, stop_locked,
  stop_each,
}
use herdr_hive.Sizing.Owned.{Entry, Owned}

-- `t` is `s` with some locks gone, and no lock in it that was not reclaimed or idle is retired.
pub record Shrinks (s t : Sizing) : Type 0 where
  pub refs : (h : ℕ) → (t.heap h).refs ≡ (s.heap h).refs
  pub locks : (p : Bytes) (h : ℕ) → lookup p t.locks ≡ some h → lookup p s.locks ≡ some h
  pub entries : (p : Bytes) (h : ℕ) → Entry p h t.locks → Entry p h s.locks
  pub idle : (h : ℕ) → has h t.idle ≡ true → has h s.idle ≡ true
  pub next : t.next ≡ s.next
  pub retired :
      (p : Bytes) (h : ℕ)
      → lookup p t.locks ≡ some h
      → (t.heap h).retired ≡ true
      → ((s.heap h).retired ≡ true) ⊎ (has h s.idle ≡ true)

pub Shrinks-Owned : (n : Bytes → ℕ → ℕ) (s t : Sizing) → Shrinks s t → Owned n s → Owned n t
Shrinks-Owned n s t k o = record {
  counted = λ p h e. k.refs h ∙ o.counted p h (k.locks p h e);
  distinct = λ p q h a b. o.distinct p q h (k.entries p h a) (k.entries q h b);
  old = λ p h a. omega (arith, k.next, o.old p h (k.entries p h a));
  unheld = λ p h l. o.unheld p h (omega (arith, k.next));
  idle_free = λ p h e i. o.idle_free p h (k.locks p h e) (k.idle h i);
  idle_old = λ h i. omega (arith, k.next, o.idle_old h (k.idle h i));
  retired_free = λ p h e r. elim (k.retired p h e r) [
    | inl was ↦ o.retired_free p h (k.locks p h e) was
    | inr i ↦ o.idle_free p h (k.locks p h e) i
  ];
}

pub Shrinks-refl : (s : Sizing) → Shrinks s s
Shrinks-refl s = record {
  refs = λ h. refl;
  locks = λ p h e. e;
  entries = λ p h a. a;
  idle = λ h i. i;
  next = refl;
  retired = λ p h e r. inl r;
}

pub Shrinks-trans : (s t u : Sizing) → Shrinks s t → Shrinks t u → Shrinks s u
Shrinks-trans s t u j k = record {
  refs = λ h. k.refs h ∙ j.refs h;
  locks = λ p h e. j.locks p h (k.locks p h e);
  entries = λ p h a. j.entries p h (k.entries p h a);
  idle = λ h i. j.idle h (k.idle h i);
  next = k.next ∙ j.next;
  retired = λ p h e r. elim (k.retired p h e r) [
    | inl was ↦ j.retired p h (k.locks p h e) was
    | inr i ↦ inr (j.idle h i)
  ];
}

pub has-remove : (h i : ℕ) (is : List ℕ) → has i (remove h is) ≡ true → has i is ≡ true
unfolding has remove
has-remove h i [] e = e
has-remove h i (j ∷ is) e = ground (arith, has-remove h i is)

pub has-remove_self : (h : ℕ) (is : List ℕ) → has h (remove h is) ≡ false
unfolding has remove
has-remove_self h [] = refl
has-remove_self h (j ∷ is) = ground (arith, has-remove_self h is)

if_Entry :
    (b : Bool) (q p : Bytes) (i h : ℕ) (m k : Dict ℕ)
    → Entry p h (if b then m else (q, i) ∷ m)
    → (Entry p h m → Entry p h k)
    → Entry p h ((q, i) ∷ k)
unfolding Entry
if_Entry true q p i h m k a f = inr (f a)
if_Entry false q p i h m k (inl e) f = inl e
if_Entry false q p i h m k (inr a) f = inr (f a)

pub has-remove_ne : (h i : ℕ) (is : List ℕ) → (i == h) ≡ false → has i (remove h is) ≡ has i is
unfolding has remove
has-remove_ne h i [] e = refl
has-remove_ne h i (j ∷ is) e = ground (arith, has-remove_ne h i is)

delete-Entry : (k p : Bytes) (h : ℕ) (m : Dict ℕ) → Entry p h (delete k m) → Entry p h m
unfolding Entry delete
delete-Entry k p h [] a = a
delete-Entry k p h ((q, i) ∷ m) a =
    if_Entry (bytes_eq q k) q p i h (delete k m) m a (delete-Entry k p h m)

pub lookup-Entry : (p : Bytes) (h : ℕ) (m : Dict ℕ) → lookup p m ≡ some h → Entry p h m
unfolding Entry lookup
lookup-Entry p h [] e = cc
lookup-Entry p h ((q, i) ∷ m) e = elim (Bool-cases (bytes_eq q p)) [
  | inl here ↦ inl (bytes_eq→eq q p here, ground arith)
  | inr there ↦ inr (lookup-Entry p h m (rw there at e))
]

-- Only a lock's own fields change, and the locks and the idle set lose entries.
pub stop_timer-Shrinks : (h : ℕ) (s : Sizing) → Shrinks s (stop_timer h s)
unfolding stop_timer write
stop_timer-Shrinks h s = record {
  refs = λ i. ground arith;
  locks = λ p i e. e;
  entries = λ p i a. a;
  idle = λ i e. e;
  next = refl;
  retired = λ p i e r. inl (ground arith);
}

pub end_helper-Shrinks : (h : ℕ) (s : Sizing) → Shrinks s (end_helper h s)
unfolding end_helper write
end_helper-Shrinks h s = if_elim (Shrinks s) (s.heap h).done s _ (Shrinks-refl s) (record {
  refs = λ i. ground arith;
  locks = λ p i e. e;
  entries = λ p i a. a;
  idle = λ i e. e;
  next = refl;
  retired = λ p i e r. inl (ground arith);
})

same : (i h : ℕ) → (i == h) ≡ true → i ≡ h
same i h e = ground arith

-- The lock is idle or was reclaimed before.
abbrev pub IsReclaimable : ℕ → Sizing → Type 0
IsReclaimable h s = ((s.heap h).retired ≡ true) ⊎ (has h s.idle ≡ true)

-- As far as it is in the map.
abbrev pub MayCancel : ℕ → Sizing → Type 0
MayCancel h s = (p : Bytes) → lookup p s.locks ≡ some h → IsReclaimable h s

retire-Shrinks :
    (h : ℕ) (s : Sizing)
    → MayCancel h s
    → Shrinks s (record s {
      heap = write s.heap h (record (s.heap h) { retired = true });
      idle = remove h s.idle;
    })
unfolding write
retire-Shrinks h s may = record {
  refs = λ i. ground arith;
  locks = λ p i e. e;
  entries = λ p i a. a;
  idle = λ i e. has-remove h i s.idle e;
  next = refl;
  retired = λ p i e r. elim (Bool-cases (i == h)) [
    | inl here ↦
        subst (λ j. IsReclaimable j s) (sym (same i h here))
          (may p (subst (λ j. lookup p s.locks ≡ some j) (same i h here) e))
    | inr there ↦ inl (ground arith)
  ];
}

pub cancel-Shrinks : (h : ℕ) (s : Sizing) → MayCancel h s → Shrinks s (cancel h s)
unfolding cancel
cancel-Shrinks h s may = Shrinks-trans s _ _ (retire-Shrinks h s may) (end_helper-Shrinks h _)

-- The lock is at most under this pane.
abbrev pub Only : Bytes → ℕ → Sizing → Type 0
Only pane h s = (p : Bytes) → lookup p s.locks ≡ some h → p ≡ pane

forget-Shrinks : (pane : Bytes) (h : ℕ) (s : Sizing) → Shrinks s (forget pane h s)
unfolding forget
forget-Shrinks pane h s =
    if_elim (Shrinks s) (is_lock pane h s) _ s
      (record {
        refs = λ i. refl;
        locks = λ p i e. ground (arith, lookup-delete pane p s.locks);
        entries = λ p i a. delete-Entry pane p i s.locks a;
        idle = λ i e. e;
        next = refl;
        retired = λ p i e r. inl r;
      })
      (Shrinks-refl s)

forget-MayCancel :
    (pane : Bytes) (h : ℕ) (s : Sizing) → Only pane h s → MayCancel h (forget pane h s)
unfolding forget is_lock
forget-MayCancel pane h s only p e =
    ground (arith, lookup-delete pane p s.locks, only p, bytes_eq_iff pane p)

forget-cancel :
    (pane : Bytes) (h : ℕ) (s : Sizing) → forget pane h (cancel h s) ≡ cancel h (forget pane h s)
unfolding forget cancel end_helper is_lock write
forget-cancel pane h s = ground arith

pub stop_locked-Shrinks :
    (pane : Bytes) (h : ℕ) (s : Sizing) → Only pane h s → Shrinks s (stop_locked pane h s)
unfolding stop_locked stop_timer
stop_locked-Shrinks pane h s only = rw (forget-cancel pane h (stop_timer h s)) (
    Shrinks-trans s _ _ (stop_timer-Shrinks h s) (
      Shrinks-trans _ _ _ (forget-Shrinks pane h _)
        (cancel-Shrinks h _ (forget-MayCancel pane h _ only))))

pub stop_each-Shrinks :
    (stops : Bytes → Bool) (m : Dict ℕ) (s : Sizing)
    → ((pane : Bytes) (h : ℕ) → Entry pane h m → Only pane h s)
    → Shrinks s (stop_each stops m s)
unfolding stop_each Entry
stop_each-Shrinks stops [] s only = Shrinks-refl s
stop_each-Shrinks stops ((pane, h) ∷ m) s only =
    Shrinks-trans s _ _ first
      (stop_each-Shrinks stops m _ (λ q i a p e. only q i (inr a) p (first.locks p i e)))
  where
    first : Shrinks s (if stops pane then stop_locked pane h s else s)
    first =
        if_elim (Shrinks s) (stops pane) _ s
          (stop_locked-Shrinks pane h s (only pane h (inl (refl, refl)))) (Shrinks-refl s)
