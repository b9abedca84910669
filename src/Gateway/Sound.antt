-- ===== src/Gateway/Sound.antt =====
-- The well-formed session, and the parts of the gateway that keep it so.
use herdr_hive.Base.{
  ℕ, ◌≤◌, ◌<◌, ◌≡◌, ◌≢◌, refl, sym, ap, ◌∙◌, true, Option, none, some, [], ◌∷◌, ◌==◌, if◌then◌else◌,
  Bytes, bytes_eq, bytes_eq_iff, codes, length, arith, if_elim,
}
use herdr_hive.Base.Dict.{Dict, lookup, delete, lookup-delete, length-delete-lt}
use herdr_hive.Json.{StdLib}
use herdr_hive.Gateway.{
  Error, unfinished, Session, Outcome, is_handle, is_current, write_down, write_up, ◌then_do◌,
}
use herdr_hive.Gateway.Recovery.{
  response, fail_request, cancel_on_error, tell_failure, forget, drop_pending, remove,
  reset_recovery, fail,
}

-- The sources are listed under their own identities, the active backend is one of them, and the next
-- handle is none of theirs.
pub record IsSound (g : Session) : Type 0 where
  pub keyed : (id : Bytes) (b : ℕ) → lookup id g.sources ≡ some b → (g.heap b).source.id ≡ id
  pub active_in : (b : ℕ) → g.active ≡ some b → lookup (g.heap b).source.id g.sources ≡ some b
  pub fresh : (id : Bytes) (b : ℕ) → lookup id g.sources ≡ some b → b < g.next

-- A sound session with at most `n` sources, by a call that came to its end.
pub record Fine (n : ℕ) (r : Outcome) : Type 0 where
  pub sound : IsSound r.1
  pub fewer : length r.1.sources ≤ n
  pub ended : r.0 ≢ some unfinished

-- Only what soundness speaks of is the same.
pub record SameSources (g h : Session) : Type 0 where
  pub heap : h.heap ≡ g.heap
  pub sources : h.sources ≡ g.sources
  pub active : h.active ≡ g.active
  pub next : h.next ≡ g.next

pub SameSources-refl : (g : Session) → SameSources g g
SameSources-refl g = record { heap = refl; sources = refl; active = refl; next = refl }

pub SameSources-trans : {f g h : Session} → SameSources f g → SameSources g h → SameSources f h
SameSources-trans s t = record {
  heap = t.heap ∙ s.heap;
  sources = t.sources ∙ s.sources;
  active = t.active ∙ s.active;
  next = t.next ∙ s.next;
}

pub SameSources-IsSound : {g h : Session} → SameSources g h → IsSound g → IsSound h
SameSources-IsSound s i = record {
  keyed = λ id b e.
      ap (λ f. (f b).source.id) s.heap ∙ i.keyed id b (ap (lookup id) (sym s.sources) ∙ e);
  active_in = λ b e. rw (s.heap, s.sources) (i.active_in b (sym s.active ∙ e));
  fresh = λ id b e. rw s.next (i.fresh id b (ap (lookup id) (sym s.sources) ∙ e));
}

pub write_down-same :
    (p : Bytes) (g : Session)
    → SameSources g (write_down p g).1 × ((write_down p g).0 ≢ some unfinished)
unfolding write_down
write_down-same p g = ground arith

pub write_up-same :
    (b : ℕ) (p : Bytes) (g : Session)
    → SameSources g (write_up b p g).1 × ((write_up b p g).0 ≢ some unfinished)
unfolding write_up
write_up-same b p g = ground arith

pub then_do-Fine :
    (n : ℕ) (r : Outcome) (k : Session → Outcome)
    → Fine n r
    → ((g : Session) → IsSound g → length g.sources ≤ n → Fine n (k g))
    → Fine n (r then_do k)
unfolding ◌then_do◌
then_do-Fine n (some e, g) k f h = f
then_do-Fine n (none, g) k f h = h g f.sound f.fewer

pub current→lookup :
    (b : ℕ) (g : Session) → is_current b g ≡ true → lookup (g.heap b).source.id g.sources ≡ some b
unfolding is_current
current→lookup b g h = ground arith

pub fail_request-same :
    (l : StdLib) (id m : Bytes) (g : Session) → SameSources g (fail_request l id m g).1
unfolding fail_request response
fail_request-same l id m g = (write_down-same _ g).0

pub cancel-same : (r : Outcome) → SameSources r.1 (cancel_on_error r)
unfolding cancel_on_error
cancel-same (none, g) = SameSources-refl g
cancel-same (some e, g) = record { heap = refl; sources = refl; active = refl; next = refl }

tell_failure-same :
    (l : StdLib) (o : Option Bytes) (m : Bytes) (g : Session) → SameSources g (tell_failure l o m g)
unfolding tell_failure
tell_failure-same l none m g = SameSources-refl g
tell_failure-same l (some id) m g =
    if_elim (SameSources g) (bytes_eq id []) g (cancel_on_error (fail_request l id m g))
      (SameSources-refl g)
      (SameSources-trans (fail_request-same l id m g) (cancel-same (fail_request l id m g)))

drop_pending-same :
    (l : StdLib) (b : ℕ) (p : Dict ℕ) (g : Session) → SameSources g (drop_pending l b p g)
unfolding drop_pending forget
drop_pending-same l b [] g = SameSources-refl g
drop_pending-same l b ((id, t) ∷ p) g =
    SameSources-trans
      (if_elim (SameSources g) (t == b)
        (tell_failure l (lookup id g.request_ids) (codes "sharing disconnected") (forget id g)) g
        (SameSources-trans {g = forget id g}
          (record { heap = refl; sources = refl; active = refl; next = refl })
          (tell_failure-same l (lookup id g.request_ids) _ (forget id g)))
        (SameSources-refl g))
      (drop_pending-same l b p _)

-- A current backend, taken out of the sources and no longer active.
module _ (b : ℕ) (h : Session) (i : IsSound h)
    (c : lookup (h.heap b).source.id h.sources ≡ some b) where
  abbrev Without : Session → Type 0
  Without k =
      (k.heap ≡ h.heap)
      × (k.sources ≡ delete (h.heap b).source.id h.sources)
      × (k.active ≡ (if is_handle h.active b then none else h.active))
      × (k.next ≡ h.next)

  keyed_left :
      (k : Session)
      → Without k
      → (id : Bytes) (a : ℕ) → lookup id k.sources ≡ some a
      → (k.heap a).source.id ≡ id
  keyed_left k (hk, sk, _, _) id a e =
      rw hk
        (i.keyed id a (ground (arith, lookup-delete (h.heap b).source.id id h.sources, rw sk at e)))

  active_left :
      (k : Session)
      → Without k
      → (a : ℕ) → k.active ≡ some a
      → lookup (k.heap a).source.id k.sources ≡ some a
  active_left k (hk, sk, ak, _) a e =
      rw (hk, sk)
        (ground (
          arith,
          sym ak ∙ e,
          i.active_in a,
          c,
          bytes_eq_iff (h.heap b).source.id (h.heap a).source.id,
          lookup-delete (h.heap b).source.id (h.heap a).source.id h.sources,
        ))

  fresh_left :
      (k : Session) → Without k → (id : Bytes) (a : ℕ) → lookup id k.sources ≡ some a → a < k.next
  fresh_left k (hk, sk, _, nk) id a e =
      rw nk
        (i.fresh id a (ground (arith, lookup-delete (h.heap b).source.id id h.sources, rw sk at e)))

  Without-IsSound : (k : Session) → Without k → IsSound k
  Without-IsSound k w = record {
    keyed = keyed_left k w;
    active_in = active_left k w;
    fresh = fresh_left k w;
  }

-- What `fail` makes of the sources: `b` is gone, if it was there.
pub record Failed (b : ℕ) (g k : Session) : Type 0 where
  pub sound : IsSound k
  pub fewer : length k.sources < length g.sources

remove-Without :
    (l : StdLib) (b : ℕ) (g : Session) (i : IsSound g)
    (c : lookup (g.heap b).source.id g.sources ≡ some b)
    → Without b g i c (remove l b g)
unfolding remove
remove-Without l b g i c =
    let g1 : Session = record g {
      fence_source = if is_handle g.fence_source b then none else g.fence_source;
    } in
    let s = drop_pending-same l b g1.pending g1 in
    (s.heap, rw (s.heap, s.sources), rw s.active, s.next)

pub remove-Failed :
    (l : StdLib) (b : ℕ) (g : Session)
    → IsSound g
    → lookup (g.heap b).source.id g.sources ≡ some b
    → Failed b g (remove l b g)
remove-Failed l b g i c =
    let w = remove-Without l b g i c in
    record {
      sound = Without-IsSound b g i c (remove l b g) w;
      fewer = rw (w.1) (length-delete-lt (g.heap b).source.id b g.sources c);
    }

pub reset_recovery-same : (b : ℕ) (g : Session) → SameSources g (reset_recovery b g)
unfolding reset_recovery
reset_recovery-same b g = ground arith

same-Failed :
    (l : StdLib) (b : ℕ) (g k : Session)
    → SameSources g k
    → IsSound g
    → is_current b g ≡ true
    → Failed b g (remove l b k)
same-Failed l b g k s i h =
    let c : lookup (k.heap b).source.id k.sources ≡ some b =
      rw (s.heap, s.sources) (current→lookup b g h) in
    let f = remove-Failed l b k (SameSources-IsSound s i) c in
    record { sound = f.sound; fewer = omega (arith, f.fewer, ap length s.sources) }

-- A failure of a current backend of a sound session leaves a sound session with fewer sources.
pub fail-Failed :
    (l : StdLib) (b : ℕ) (e : Error) (g : Session)
    → IsSound g
    → is_current b g ≡ true
    → Failed b g (fail l b e g)
unfolding fail
fail-Failed l b e g i h =
    let s = reset_recovery-same b g in
    rw h (
      same-Failed l b g _
        (record { heap = s.heap; sources = s.sources; active = s.active; next = s.next }) i h)
