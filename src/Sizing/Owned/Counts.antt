-- ===== src/Sizing/Owned/Counts.antt =====
-- One reference more or less, a lock that becomes idle, and a new lock.
use herdr_hive.Base.{
  ℕ, suc, ◌==◌, ==_iff, ◌≤◌, ◌<◌, ◌≡◌, refl, sym, ap, subst, ◌∙◌, ◌⊎◌, inl, inr, Bool, true, false,
  some, [], ◌∷◌, if◌then◌else◌, Bytes, bytes_eq, bytes_eq→eq, if_elim, if_case, arith, Bool-cases,
}
use herdr_hive.Base.Dict.{Dict, lookup, insert, lookup-insert}
use herdr_hive.Sizing.Locks.{
  ℤ, decrement, Lock, Sizing, has, remove, write, is_zero, drop_ref, make_idle, release_lock,
}
use herdr_hive.Sizing.Locks.ℤ.{pos}
use herdr_hive.Sizing.Acquire.{add_lock}
use herdr_hive.Sizing.Owned.{Entry, Owned}
use herdr_hive.Sizing.Owned.Stops.{lookup-Entry, Shrinks-Owned, has-remove}
use herdr_hive.Sizing.Owned.Shrinking.{stop-Owned}

-- The counts change at locks that the session has not.
pub recount :
    (n m : Bytes → ℕ → ℕ) (s : Sizing)
    → Owned n s
    → ((p : Bytes) (h : ℕ) → lookup p s.locks ≡ some h → m p h ≡ n p h)
    → ((p : Bytes) (h : ℕ) → s.next ≤ h → m p h ≡ 0)
    → Owned m s
recount n m s o same unheld = record {
  counted = λ p h e. o.counted p h e ∙ ap pos (sym (same p h e));
  distinct = o.distinct;
  old = o.old;
  unheld = unheld;
  idle_free = λ p h e i. same p h e ∙ o.idle_free p h e i;
  idle_old = o.idle_old;
  retired_free = λ p h e r. same p h e ∙ o.retired_free p h e r;
}

-- A lock that is found is the one of `pane`, or another under another pane.
abbrev pub IsOne : Bytes → ℕ → Bytes → ℕ → Type 0
IsOne pane h p i = ((p ≡ pane) × (i ≡ h)) ⊎ (((i == h) ≡ false) × (bytes_eq pane p ≡ false))

pub which :
    (n : Bytes → ℕ → ℕ) (s : Sizing) (pane : Bytes) (h : ℕ) (p : Bytes) (i : ℕ)
    → Owned n s
    → lookup pane s.locks ≡ some h
    → lookup p s.locks ≡ some i
    → IsOne pane h p i
which n s pane h p i o e f = elim (Bool-cases (bytes_eq pane p)) [
  | inl here ↦ inl (sym (bytes_eq→eq pane p here), ground (arith, bytes_eq→eq pane p here))
  | inr there ↦ elim (Bool-cases (i == h)) [
    | inl one ↦ inl (
      o.distinct p pane i (lookup-Entry p i s.locks f)
          (lookup-Entry pane i s.locks (e ∙ ap some (ground arith))),
      ground arith,
    )
    | inr other ↦ inr (other, there)
  ]
]

at_self :
    (heap : ℕ → Lock) (h i : ℕ) (l : Lock)
    → i ≡ h
    → (write heap h l i).retired ≡ true
    → l.retired ≡ true
unfolding write
at_self heap h i l e d = ground arith

-- The lock's count changes together with its holders, and nothing else.
pub rewrite_refs :
    (n m : Bytes → ℕ → ℕ) (s : Sizing) (pane : Bytes) (h : ℕ) (refs : ℤ)
    → Owned n s
    → lookup pane s.locks ≡ some h
    → refs ≡ pos (m pane h)
    → ((p : Bytes) (i : ℕ) → bytes_eq pane p ≡ false → lookup p s.locks ≡ some i → m p i ≡ n p i)
    → ((p : Bytes) (i : ℕ) → s.next ≤ i → m p i ≡ 0)
    → (has h s.idle ≡ true → m pane h ≡ 0)
    → ((s.heap h).retired ≡ true → m pane h ≡ 0)
    → Owned m (record s { heap = write s.heap h (record (s.heap h) { refs = refs }) })
unfolding write
rewrite_refs n m s pane h refs o e r same unheld idle retired = record {
  counted = λ p i f. elim (which n s pane h p i o e f) [
    | inl (x, y) ↦ rw (x, y) (rw r (ground arith))
    | inr (x, y) ↦ rw x (o.counted p i f ∙ ap pos (sym (same p i y f)))
  ];
  distinct = o.distinct;
  old = o.old;
  unheld = unheld;
  idle_free = λ p i f d. elim (which n s pane h p i o e f) [
    | inl (x, y) ↦ rw (x, y) (idle (rw y at d))
    | inr (x, y) ↦ same p i y f ∙ o.idle_free p i f d
  ];
  idle_old = o.idle_old;
  retired_free = λ p i f d. elim (which n s pane h p i o e f) [
    | inl (x, y) ↦ rw (x, y) (retired (at_self s.heap h i _ y d))
    | inr (x, y) ↦ same p i y f ∙ o.retired_free p i f (rw x at d)
  ];
}

-- A lock without holders becomes idle.
idle-Owned :
    (n : Bytes → ℕ → ℕ) (s : Sizing) (pane : Bytes) (h epoch : ℕ)
    → Owned n s
    → lookup pane s.locks ≡ some h
    → n pane h ≡ 0
    → Owned n (record s {
      heap = write s.heap h (record (s.heap h) { epoch = epoch; retire = true });
      idle = h ∷ remove h s.idle;
    })
unfolding write has
idle-Owned n s pane h epoch o e z = record {
  counted = λ p i f. ground (arith, o.counted p i f);
  distinct = o.distinct;
  old = o.old;
  unheld = o.unheld;
  idle_free = λ p i f d. elim (which n s pane h p i o e f) [
    | inl (x, y) ↦ rw (x, y) z
    | inr (x, y) ↦ o.idle_free p i f (has-remove h i s.idle (ground arith))
  ];
  idle_old = λ i d. elim (Bool-cases (i == h)) [
    | inl x ↦
        subst (λ j. j < s.next) (sym ((==_iff i h).0 x))
          (o.old pane h (lookup-Entry pane h s.locks e))
    | inr x ↦ o.idle_old i (has-remove h i s.idle (ground arith))
  ];
  retired_free = λ p i f d. o.retired_free p i f (ground arith);
}

make_idle-Owned :
    (n : Bytes → ℕ → ℕ) (s : Sizing) (pane : Bytes) (h : ℕ)
    → Owned n s
    → lookup pane s.locks ≡ some h
    → n pane h ≡ 0
    → Owned n (make_idle pane h s)
unfolding make_idle
make_idle-Owned n s pane h o e z =
    if_elim (Owned n) (s.heap h).done _ _ (Shrinks-Owned n s _ (stop-Owned n s o pane h e) o)
      (idle-Owned n s pane h _ o e z)

-- One holder less.
pub release_lock-Owned :
    (n m : Bytes → ℕ → ℕ) (s : Sizing) (pane : Bytes) (h : ℕ)
    → Owned n s
    → lookup pane s.locks ≡ some h
    → n pane h ≡ suc (m pane h)
    → ((p : Bytes) (i : ℕ) → bytes_eq pane p ≡ false → m p i ≡ n p i)
    → ((p : Bytes) (i : ℕ) → m p i ≤ n p i)
    → Owned m (release_lock pane h s)
unfolding release_lock drop_ref decrement write is_zero
release_lock-Owned n m s pane h o e held same less =
    if_case (Owned m) _ _ _ (λ z. make_idle-Owned m _ pane h dropped e (zero_refs z)) (λ z. dropped)
  where
    refs : decrement (s.heap h).refs ≡ pos (m pane h)
    refs = rw (o.counted pane h e, held) refl

    dropped : Owned m (record s {
      heap = write s.heap h (record (s.heap h) { refs = decrement (s.heap h).refs });
    })
    dropped =
        rewrite_refs n m s pane h _ o e refs (λ p i x f. same p i x)
          (λ p i l. omega (arith, less p i, o.unheld p i l))
          (λ i. omega (arith, held, o.idle_free pane h e i))
          (λ r. omega (arith, held, o.retired_free pane h e r))

    zero_refs :
        is_zero (write s.heap h (record (s.heap h) { refs = decrement (s.heap h).refs }) h).refs
          ≡ true
        → m pane h ≡ 0
    zero_refs z = ground (arith, refs)

-- A new lock has a handle that nothing names yet.
insert_if :
    (b : Bool) (k p : Bytes) (v h : ℕ) (q : Bytes) (i : ℕ) (m l : Dict ℕ)
    → Entry p h (if b then (k, v) ∷ m else (q, i) ∷ l)
    → (Entry p h l → ((p ≡ k) × (h ≡ v)) ⊎ Entry p h m)
    → ((p ≡ k) × (h ≡ v)) ⊎ Entry p h ((q, i) ∷ m)
unfolding Entry
insert_if true k p v h q i m l (inl (x, y)) f = inl (sym x, sym y)
insert_if true k p v h q i m l (inr a) f = inr (inr a)
insert_if false k p v h q i m l (inl e) f = inr (inl e)
insert_if false k p v h q i m l (inr a) f = elim (f a) [ inl e ↦ inl e | inr e ↦ inr (inr e) ]

insert-Entry :
    (k p : Bytes) (v h : ℕ) (m : Dict ℕ)
    → Entry p h (insert k v m)
    → ((p ≡ k) × (h ≡ v)) ⊎ Entry p h m
unfolding Entry insert
insert-Entry k p v h [] (inl (x, y)) = inl (sym x, sym y)
insert-Entry k p v h [] (inr a) = inr a
insert-Entry k p v h ((q, i) ∷ m) a =
    insert_if (bytes_eq q k) k p v h q i m (insert k v m) a (insert-Entry k p v h m)

pub add_lock-Owned :
    (n : Bytes → ℕ → ℕ) (s : Sizing) (pane : Bytes) → Owned n s → Owned n (add_lock pane s)
unfolding add_lock write
add_lock-Owned n s pane o = record {
  counted = λ p i f. elim (Bool-cases (i == s.next)) [
    | inl x ↦ ground (arith, o.unheld p i)
    | inr x ↦ rw x (o.counted p i (before p i x f))
  ];
  distinct = λ p q i a b.
      both p q i (insert-Entry pane p s.next i s.locks a) (insert-Entry pane q s.next i s.locks b);
  old = λ p i a. elim (insert-Entry pane p s.next i s.locks a) [
    | inl x ↦ omega (arith, x.1)
    | inr x ↦ omega (arith, o.old p i x)
  ];
  unheld = λ p i l. o.unheld p i (omega arith);
  idle_free = λ p i f d. o.idle_free p i (before p i (ground (arith, o.idle_old i d)) f) d;
  idle_old = λ i d. omega (arith, o.idle_old i d);
  retired_free = λ p i f d. elim (Bool-cases (i == s.next)) [
    | inl x ↦ ground (arith)
    | inr x ↦ o.retired_free p i (before p i x f) (rw x at d)
  ];
}
  where
    before :
        (p : Bytes) (i : ℕ)
        → (i == s.next) ≡ false
        → lookup p (insert pane s.next s.locks) ≡ some i
        → lookup p s.locks ≡ some i
    before p i x f = ground (arith, lookup-insert pane p s.next s.locks)

    both :
        (p q : Bytes) (i : ℕ)
        → ((p ≡ pane) × (i ≡ s.next)) ⊎ Entry p i s.locks
        → ((q ≡ pane) × (i ≡ s.next)) ⊎ Entry q i s.locks
        → p ≡ q
    both p q i (inl x) (inl y) = x.0 ∙ sym y.0
    both p q i (inl x) (inr y) = grind (arith, x.1, o.old q i y)
    both p q i (inr x) (inl y) = grind (arith, y.1, o.old p i x)
    both p q i (inr x) (inr y) = o.distinct p q i x y
