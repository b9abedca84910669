-- ===== src/Sizing/Wanted/Steps.antt =====
-- What the step of a loop of `reconcile` does for one pane.
use herdr_hive.Base.{
  ℕ, ◌≡◌, refl, subst, ◌⊎◌, inl, inr, Bool, true, false, Option, none, some, Bytes, bytes_eq,
  bytes_eq→eq, bytes_eq_refl, arith, Bool-cases, Option-cases, if_elim, if_case,
}
use herdr_hive.Base.Dict.{lookup}
use herdr_hive.Sizing.Locks.{Sizing, reuse_locked, is_zero}
use herdr_hive.Sizing.Reclaim.{reserve_size_slot}
use herdr_hive.Sizing.Panes.{SizeError, Answer, contains}
use herdr_hive.Sizing.Panes.Answer.{ok, err}
use herdr_hive.Sizing.Acquire.{
  Native, Pass, Geometry, gone_or, acquisition_error, give_up, measured, drop_retired, check_lock,
  preflight, take_ref, started, reserved, hold_size, remeasured, reused, holds_already,
  acquire_lock, acquire,
}
use herdr_hive.Sizing.Owned.Holdings.{contains-without, contains-add}

-- What the step of a loop for one pane does: only this pane is dropped, and only when it is gone.
-- With `takes` the step is of the second loop, where the pane is held afterwards unless it was
-- dropped or the pass has failed.
pub record Settles (n : Native) (pane : Bytes) (takes : Bool) (p q : Pass) : Type 0 where
  pub wanted :
      (k : Bytes)
      → (contains k q.wanted ≡ contains k p.wanted)
        ⊎ ((contains k q.wanted ≡ false) × (n.exists k ≡ ok false))
  pub held : (k : Bytes) → contains k p.held ≡ true → contains k q.held ≡ true
  pub taken :
      takes ≡ true
      → (contains pane q.held ≡ true)
        ⊎ ((contains pane q.wanted ≡ false) ⊎ ((e : SizeError) × (q.error ≡ some e)))

pub acquisition_none :
    (n : Native) (pane : Bytes) (e : SizeError)
    → acquisition_error n pane e ≡ none
    → n.exists pane ≡ ok false
unfolding acquisition_error gone_or
acquisition_none n pane e f = elim (Bool-cases (n.is_over pane)) [
  | inl x ↦ absurd (some_none (rw x at f))
  | inr x ↦ gone_none (n.exists pane) e (rw x at f)
]
  where
    some_none : {A : Type 0} {a : A} → some a ≡ none → ⊥
    some_none g = cc

    gone_none : (a : Answer Bool) (e : SizeError) → gone_or a e ≡ none → a ≡ ok false
    gone_none (ok true) e g = absurd (some_none g)
    gone_none (ok false) e g = refl
    gone_none (err q) e g = absurd (some_none g)

pub give_up-Settles :
    (n : Native) (pane : Bytes) (takes : Bool) (e : SizeError) (p q : Pass)
    → q.wanted ≡ p.wanted
    → q.held ≡ p.held
    → Settles n pane takes p (give_up pane (acquisition_error n pane e) q)
unfolding give_up
give_up-Settles n pane takes e p q w h = elim (Option-cases (acquisition_error n pane e)) [
  | inl x ↦ rw x (record {
    wanted = λ k. elim (Bool-cases (bytes_eq pane k)) [
      | inl y ↦ inr (
        rw (contains-without pane k q.wanted, y) refl,
        subst (λ j. n.exists j ≡ ok false) (bytes_eq→eq pane k y) (acquisition_none n pane e x),
      )
      | inr y ↦ inl (rw (contains-without pane k q.wanted, y, w) refl)
    ];
    held = λ k c. rw h c;
    taken = λ t. inr (inl (rw (contains-without pane pane q.wanted, bytes_eq_refl pane) refl));
  })
  | inr (f, x) ↦ rw x (record {
    wanted = λ k. inl (rw w refl);
    held = λ k c. rw h c;
    taken = λ t. inr (inr (f, refl));
  })
]

-- The step leaves the viewer as it was.
pub same-Settles :
    (n : Native) (pane : Bytes) (p q : Pass)
    → q.wanted ≡ p.wanted
    → q.held ≡ p.held
    → Settles n pane false p q
same-Settles n pane p q w h = record {
  wanted = λ k. inl (rw w refl);
  held = λ k c. rw h c;
  taken = λ t. cc;
}

pub take_ref-Settles :
    (n : Native) (pane : Bytes) (h : ℕ) (p q : Pass)
    → q.wanted ≡ p.wanted
    → q.held ≡ p.held
    → Settles n pane true p (take_ref pane h q)
unfolding take_ref
take_ref-Settles n pane h p q w e = record {
  wanted = λ k. inl (rw w refl);
  held = λ k c. rw (contains-add pane k q.held, e) (ground arith);
  taken = λ t. inl (rw (contains-add pane pane q.held, bytes_eq_refl pane) refl);
}

pub preflight-Settles :
    (n : Native) (pane : Bytes) (p : Pass) → Settles n pane false p (preflight n pane p)
unfolding preflight check_lock measured
preflight-Settles n pane p =
    check_lock-Settles (drop_retired pane (lookup pane p.sizing.locks) p.sizing)
  where
    measured-Settles :
        (a : Answer Geometry) (q : Pass)
        → q.wanted ≡ p.wanted
        → q.held ≡ p.held
        → Settles n pane false p (measured n pane a q)
    measured-Settles (ok g) q w h = same-Settles n pane p _ w h
    measured-Settles (err e) q w h = give_up-Settles n pane false e p q w h

    check_lock-Settles : (r : Sizing × Option ℕ) → Settles n pane false p (check_lock n pane r p)
    check_lock-Settles (s, none) = measured-Settles (n.geometry pane) _ refl refl
    check_lock-Settles (s, some h) =
        if_elim (Settles n pane false p) (s.heap h).done _ _
          (give_up-Settles n pane false _ p _ refl refl) (same-Settles n pane p _ refl refl)

module _ (n : Native) (pane : Bytes) (p : Pass) where
  pub hold_size-Settles :
      (q : Pass)
      → q.wanted ≡ p.wanted
      → q.held ≡ p.held
      → Settles n pane true p (hold_size n pane q)
  unfolding hold_size reserved started
  hold_size-Settles q w h =
      if_elim (Settles n pane true p) (n.is_over pane) _ _ (give_up-Settles n pane true _ p q w h)
        (reserved-Settles (reserve_size_slot q.sizing))
    where
      started-Settles :
          (e : Option SizeError) (s : Sizing) → Settles n pane true p (started n pane e s q)
      started-Settles (some e) s = give_up-Settles n pane true _ p _ w h
      started-Settles none s = take_ref-Settles n pane _ p _ w h

      reserved-Settles : (r : Sizing × Bool) → Settles n pane true p (reserved n pane q r)
      reserved-Settles (s, false) = give_up-Settles n pane true _ p _ w h
      reserved-Settles (s, true) = started-Settles (n.starts pane (lookup pane q.geometry)) s

  pub remeasured-Settles :
      (a : Answer Geometry) (q : Pass)
      → q.wanted ≡ p.wanted
      → q.held ≡ p.held
      → Settles n pane true p (remeasured n pane a q)
  unfolding remeasured
  remeasured-Settles (err e) q w h = give_up-Settles n pane true _ p q w h
  remeasured-Settles (ok g) q w h = hold_size-Settles _ w h

  pub reused-Settles : (h : ℕ) (r : Sizing × Bool) → Settles n pane true p (reused n pane h p r)
  unfolding reused
  reused-Settles h (s, true) = take_ref-Settles n pane h p _ refl refl
  reused-Settles h (s, false) = remeasured-Settles _ _ refl refl

  pub already-Settles : (h : ℕ) → holds_already pane h p ≡ true → Settles n pane true p p
  unfolding holds_already
  already-Settles h e = record {
    wanted = λ k. inl refl;
    held = λ k c. c;
    taken = λ t. inl (ground arith);
  }

  pub acquire_lock-Settles :
      (found : Option ℕ) → Settles n pane true p (acquire_lock n pane found p)
  unfolding acquire_lock
  acquire_lock-Settles none = hold_size-Settles p refl refl
  acquire_lock-Settles (some h) =
      if_case (Settles n pane true p) (holds_already pane h p) _ _ (already-Settles h) (λ e.
        if_elim (Settles n pane true p) (is_zero (p.sizing.heap h).refs) _ _
          (reused-Settles h (reuse_locked pane h p.sizing))
          (take_ref-Settles n pane h p p refl refl))

  pub acquire-Settles : Settles n pane true p (acquire n pane p)
  unfolding acquire
  acquire-Settles = acquire_lock-Settles (lookup pane p.sizing.locks)
