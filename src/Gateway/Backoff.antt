-- ===== src/Gateway/Backoff.antt =====
-- The record that `fail` leaves behind: hive/internal/gateway/recovery.go.
use herdr_hive.Base.{
  ℕ, ◌+◌, ◌-◌, ◌*◌, ◌^◌, ◌≤◌, ◌<◌, ◌≡◌, refl, sym, subst, ◌∙◌, inl, inr, Bool, true, false, ◌||◌,
  not, if◌then◌else◌, Option, none, some, [], ◌∷◌, ◌==◌, Bytes, codes, bytes_eq, bytes_eq_refl,
  bytes_eq→eq, arith, Bool-cases, if_elim,
}
use herdr_hive.Base.Dict.{Dict, lookup, insert, lookup-insert, lookup-delete}
use herdr_hive.Json.{StdLib}
use herdr_hive.Gateway.{RecoveryRecord, Error, Session, Outcome, second, is_current, write_down}
use herdr_hive.Gateway.Recovery.{
  response, fail_request, cancel_on_error, tell_failure, forget, drop_pending, remove, is_blocking,
  is_stable, reset_recovery, continued, penalized, fail,
}

-- The records of a session count at most five attempts.
abbrev pub IsCounted : Dict RecoveryRecord → Type 0
IsCounted recovery =
    (id : Bytes) (r : RecoveryRecord) → lookup id recovery ≡ some r → r.attempts ≤ 5

-- How often the publication has failed before: its record counts, unless it is of another generation
-- or the publication has been shown long enough since.
unfoldable pub failures : Bool → Bytes → Option RecoveryRecord → ℕ
failures stable generation none = 0
failures stable generation (some r) =
    if stable || not (bytes_eq r.generation generation) then 0 else r.attempts

-- What is written down after the failure `e` of the generation `generation` at `now`, which has failed
-- `before` times.
pub record Penalty (e : Error) (now : ℕ) (generation : Bytes) (before : ℕ) (r : RecoveryRecord)
    : Type 0 where
  pub same_generation : r.generation ≡ generation
  pub is_blocked : r.blocked ≡ is_blocking e
  pub blocked_attempts : is_blocking e ≡ true → r.attempts ≡ before
  pub first_attempts : is_blocking e ≡ false → before < 5 → r.attempts ≡ before + 1
  pub last_attempts : is_blocking e ≡ false → 5 ≤ before → r.attempts ≡ before
  pub later :
      is_blocking e ≡ false → (1 ≤ r.attempts) × (r.retry_at ≡ now + second * 2 ^ (r.attempts - 1))

penalized-Penalty :
    (e : Error) (now : ℕ) (r : RecoveryRecord)
    → r.attempts ≤ 5
    → Penalty e now r.generation r.attempts (penalized e now r) × ((penalized e now r).attempts ≤ 5)
unfolding penalized
penalized-Penalty e now r h = elim (Bool-cases (is_blocking e)) [
  | inl b ↦ rw b (
    record {
      same_generation = refl;
      is_blocked = sym b;
      blocked_attempts = λ f. refl;
      first_attempts = λ f. absurd (cc (b, f));
      last_attempts = λ f. absurd (cc (b, f));
      later = λ f. absurd (cc (b, f));
    },
    h,
  )
  | inr b ↦ rw b (
    record {
      same_generation = refl;
      is_blocked = sym b;
      blocked_attempts = λ f. absurd (cc (b, f));
      first_attempts = λ f k. ground (arith, k);
      last_attempts = λ f k. ground (arith, k);
      later = λ f. (ground arith, refl);
    },
    ground arith,
  )
]

continued-generation :
    (generation : Bytes) (o : Option RecoveryRecord)
    → (continued generation o).generation ≡ generation
unfolding continued
continued-generation generation none = refl
continued-generation generation (some r) = elim (Bool-cases (bytes_eq r.generation generation)) [
  | inl e ↦ rw e (bytes_eq→eq _ _ e)
  | inr e ↦ rw e refl
]

continued-attempts :
    (generation : Bytes) (o : Option RecoveryRecord)
    → ((r : RecoveryRecord) → o ≡ some r → r.attempts ≤ 5)
    → (continued generation o).attempts ≤ 5
unfolding continued
continued-attempts generation none h = omega arith
continued-attempts generation (some r) h = elim (Bool-cases (bytes_eq r.generation generation)) [
  | inl e ↦ rw e (h r refl)
  | inr e ↦ rw e (omega arith)
]

write_down-recovery : (p : Bytes) (g : Session) → (write_down p g).1.recovery ≡ g.recovery
unfolding write_down
write_down-recovery p g = ground arith

cancel-recovery : (r : Outcome) → (cancel_on_error r).recovery ≡ r.1.recovery
unfolding cancel_on_error
cancel-recovery (none, g) = refl
cancel-recovery (some e, g) = refl

tell_failure-recovery :
    (l : StdLib) (o : Option Bytes) (m : Bytes) (g : Session)
    → (tell_failure l o m g).recovery ≡ g.recovery
unfolding tell_failure fail_request response
tell_failure-recovery l none m g = refl
tell_failure-recovery l (some id) m g =
    if_elim (λ (k : Session). k.recovery ≡ g.recovery) (bytes_eq id []) g
      (cancel_on_error (fail_request l id m g)) refl
      (cancel-recovery (fail_request l id m g) ∙ write_down-recovery _ g)

drop_pending-recovery :
    (l : StdLib) (b : ℕ) (p : Dict ℕ) (g : Session) → (drop_pending l b p g).recovery ≡ g.recovery
unfolding drop_pending forget
drop_pending-recovery l b [] g = refl
drop_pending-recovery l b ((id, t) ∷ p) g =
    drop_pending-recovery l b p _
    ∙ if_elim (λ (k : Session). k.recovery ≡ g.recovery) (t == b)
        (tell_failure l (lookup id g.request_ids) (codes "sharing disconnected") (forget id g)) g
        (tell_failure-recovery l (lookup id g.request_ids) _ (forget id g)) refl

remove-recovery : (l : StdLib) (b : ℕ) (g : Session) → (remove l b g).recovery ≡ g.recovery
unfolding remove
remove-recovery l b g = drop_pending-recovery l b _ _

reset-IsCounted :
    (b : ℕ) (g : Session) → IsCounted g.recovery → IsCounted (reset_recovery b g).recovery
unfolding reset_recovery
reset-IsCounted b g h id r e =
    ground (arith, lookup-delete (g.heap b).source.id id g.recovery, h id r)

insert-IsCounted :
    (k : Bytes) (r : RecoveryRecord) (m : Dict RecoveryRecord)
    → r.attempts ≤ 5
    → IsCounted m
    → IsCounted (insert k r m)
insert-IsCounted k r m hr h id q e = ground (arith, lookup-insert k id r m, h id q)

-- The record that `fail` continues counts the failures before.
continued-failures :
    (b : ℕ) (g : Session)
    → (continued
        (g.heap b).source.generation
        (lookup (g.heap b).source.id (reset_recovery b g).recovery)).attempts
      ≡ failures
          (is_stable (g.heap b).stable_since g.clock)
          (g.heap b).source.generation
          (lookup (g.heap b).source.id g.recovery)
unfolding reset_recovery
continued-failures b g = elim (Bool-cases (is_stable (g.heap b).stable_since g.clock)) [
  | inl e ↦
      rw
        (
          e,
          lookup-delete (g.heap b).source.id (g.heap b).source.id g.recovery,
          bytes_eq_refl (g.heap b).source.id,
        )
        (cleared (lookup (g.heap b).source.id g.recovery))
  | inr e ↦ rw e (kept (lookup (g.heap b).source.id g.recovery))
]
  where
    cleared :
        (o : Option RecoveryRecord)
        → (continued (g.heap b).source.generation none).attempts
          ≡ failures true (g.heap b).source.generation o
    cleared none = unfold continued failures in refl
    cleared (some x) = unfold continued failures in refl

    kept :
        (o : Option RecoveryRecord)
        → (continued (g.heap b).source.generation o).attempts
          ≡ failures false (g.heap b).source.generation o
    kept none = unfold continued failures in refl
    kept (some x) = unfold continued failures in ground arith

-- The record that `fail` writes down for `b`.
abbrev written : Error → ℕ → Session → RecoveryRecord
written e b g = penalized e g.clock (
    continued (g.heap b).source.generation
      (lookup (g.heap b).source.id (reset_recovery b g).recovery))

fail-recovery :
    (l : StdLib) (b : ℕ) (e : Error) (g : Session)
    → is_current b g ≡ true
    → (fail l b e g).recovery
      ≡ insert (g.heap b).source.id (written e b g) (reset_recovery b g).recovery
unfolding fail
fail-recovery l b e g c = rw c (remove-recovery l b _)

-- A failure of a current backend leaves a record of its generation under its identity: blocked exactly
-- if the error says that trying again is of no use, and else due after one second doubled for each
-- attempt before the last. The attempts are one more than those of the record before, up to five, if it
-- was of the same generation and the publication had not been shown for the stable interval, and else
-- one; a blocking error does not count as an attempt. It is assumed that no record counted more than
-- five attempts, and none does afterwards.
pub fail-Penalty :
    (l : StdLib) (b : ℕ) (e : Error) (g : Session)
    → is_current b g ≡ true
    → IsCounted g.recovery
    → (r : RecoveryRecord) × (lookup (g.heap b).source.id (fail l b e g).recovery ≡ some r)
      × Penalty e g.clock
          (g.heap b).source.generation
          (failures
            (is_stable (g.heap b).stable_since g.clock)
            (g.heap b).source.generation
            (lookup (g.heap b).source.id g.recovery))
          r
      × IsCounted (fail l b e g).recovery
fail-Penalty l b e g c h =
    let id = (g.heap b).source.id in
    let generation = (g.heap b).source.generation in
    let g1 = reset_recovery b g in
    let counted = reset-IsCounted b g h in
    let old = continued generation (lookup id g1.recovery) in
    let p = penalized-Penalty e g.clock old (continued-attempts generation _ (counted id)) in
    (
      written e b g,
      rw (
        fail-recovery l b e g c,
        lookup-insert id id (written e b g) g1.recovery,
        bytes_eq_refl id,
      ),
      subst (λ n. Penalty e g.clock generation n (written e b g)) (continued-failures b g)
          (subst (λ k. Penalty e g.clock k old.attempts (written e b g))
            (continued-generation generation _) p.0),
      rw (fail-recovery l b e g c) (insert-IsCounted id (written e b g) g1.recovery p.1 counted),
    )
