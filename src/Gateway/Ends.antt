-- ===== src/Gateway/Ends.antt =====
-- `publish` and what it calls, on a sound session.
use herdr_hive.Base.{
  ℕ, zero, suc, ◌+◌, ◌≤◌, ◌<◌, ◌≡◌, refl, inl, inr, Bool, true, false, ◌&&◌, not, Option, none,
  some, List, [], ◌∷◌, ltb, Bytes, length, arith, Bool-cases, if_elim,
}
use herdr_hive.Base.Dict.{Dict, lookup}
use herdr_hive.Json.{StdLib}
use herdr_hive.Gateway.{Error, native, failure, Session, Outcome, is_current, write_up}
use herdr_hive.Gateway.Recovery.{fail}
use herdr_hive.Gateway.Sound.{
  IsSound, Fine, SameSources, SameSources-IsSound, write_up-same, then_do-Fine, fail-Failed,
}
use herdr_hive.Gateway.Alike.{
  Alike, Alike-IsSound, Alike-is_current, put_source, still, Quiet, Quiet-Fine, Keeps,
  write_down-Fine, replay_effects-Fine, send_surface-Fine,
}
use herdr_hive.Gateway.Publish.{
  send, begin_interest, start_interest, sized, set_interest, must_yield, after_yield, relinquish,
  acquire_for, acquire, sync_interest, fence_for, resume_fence, activate_first, snapshot_ids,
  present, publish_with, publish,
}

-- An inner `publish` ends if there are fewer than `k` sources.
abbrev pub Publishes : ℕ → (Session → Outcome) → Type 0
Publishes k publish =
    (g : Session) → IsSound g → length g.sources < k → Fine (length g.sources) (publish g)

pub lookup→current :
    (b : ℕ) (g : Session) → lookup (g.heap b).source.id g.sources ≡ some b → is_current b g ≡ true
unfolding is_current
lookup→current b g e = rw e (ground arith)

module _ (l : StdLib) (k : ℕ) (publish : Session → Outcome) (p : Publishes k publish) (n : ℕ)
    (nk : n ≤ k) where
  -- A step for a current backend that keeps sound sessions fine.
  abbrev KeepsFor : ℕ → (Session → Outcome) → Type 0
  KeepsFor b f =
      (g : Session) → IsSound g → is_current b g ≡ true → length g.sources ≤ n → Fine n (f g)

  -- After a failure of a current backend the inner call has fuel enough.
  publish_failed : (b : ℕ) (e : Error) → KeepsFor b (λ g. publish (fail l b e g))
  publish_failed b e g i c h =
      let f = fail-Failed l b e g i c in
      let r = p (fail l b e g) f.sound (omega (arith, f.fewer)) in
      record { sound = r.sound; fewer = omega (arith, f.fewer, r.fewer); ended = r.ended }

  same_current :
      {g h : Session} (b : ℕ) → SameSources g h → is_current b g ≡ true → is_current b h ≡ true
  same_current b s c = unfold is_current in rw (s.heap, s.sources) c

  written-Fine :
      (b : ℕ) (g : Session) (r : Outcome)
      → Quiet g r
      → IsSound g
      → is_current b g ≡ true
      → length g.sources ≤ n
      → Fine n (elim r.0 [ none ↦ r | some e ↦ publish (fail l b e r.1) ])
  written-Fine b g (none, g1) q i c h = Quiet-Fine g (none, g1) n q i h
  written-Fine b g (some e, g1) q i c h =
      publish_failed b e g1 (SameSources-IsSound q.0 i) (same_current b q.0 c) (rw q.0.sources h)

  pub send-Fine : (b : ℕ) (x : Bytes) → KeepsFor b (send l publish b x)
  unfolding send
  send-Fine b x g i c h =
      if_elim (Fine n) (not (g.heap b).has_stream) _ _ (publish_failed b native g i c h)
        (written-Fine b g (write_up b x g) (write_up-same b x g) i c h)

  begin-Alike :
      (b : ℕ) (active : Bool) (g : Session) → Alike g (begin_interest l publish b active g)
  unfolding begin_interest
  begin-Alike b active g = record {
    source = put_source g.heap b _ refl;
    sources = refl;
    active = refl;
    next = refl;
  }

  start-Fine : (b : ℕ) (active : Bool) → KeepsFor b (start_interest l publish b active)
  unfolding start_interest
  start-Fine b active g i c h =
      let a = begin-Alike b active g in
      send-Fine b _ (begin_interest l publish b active g) (Alike-IsSound a i)
        (Alike-is_current b a c) (rw a.sources h)

  sized-Fine : (b : ℕ) (active : Bool) → KeepsFor b (sized l publish b active)
  unfolding sized
  sized-Fine b active g i c h =
      if_elim (Fine n) (active && ltb 0 (length g.resize)) _ _
        (then_do-Fine n _ _ (send-Fine b g.resize g i c h) (λ g1 i1 h1.
          elim (Bool-cases (is_current b g1)) [
            | inl e ↦ rw e (start-Fine b active g1 i1 e h1)
            | inr e ↦ rw e (still g1 n i1 h1)
          ]))
        (start-Fine b active g i c h)

  set_interest-Fine : (b : ℕ) (active : Bool) → KeepsFor b (set_interest l publish b active)
  unfolding set_interest
  set_interest-Fine b active g i c h =
      if_elim (Fine n) _ _ _ (publish_failed b (failure false) g i c h)
        (if_elim (Fine n) _ _ _ (still g n i h) (sized-Fine b active g i c h))

  after_yield-Fine :
      (b : ℕ) (next : Session → Outcome) (r : Outcome)
      → Keeps n next
      → Fine n r
      → Fine n (after_yield l publish b next r)
  unfolding after_yield
  after_yield-Fine b next (some e, g) q f = f
  after_yield-Fine b next (none, g) q f =
      if_elim (Fine n) (g.heap b).surface_active _ _ f (q g f.sound f.fewer)

  yield_current : (b : ℕ) (g : Session) → must_yield l publish b g ≡ true → is_current b g ≡ true
  unfolding must_yield
  yield_current b g h = ground arith

  either-Fine :
      (t : Bool) (x y : Outcome)
      → (t ≡ true → Fine n x)
      → (t ≡ false → Fine n y)
      → Fine n (elim t [ true ↦ x | false ↦ y ])
  either-Fine true x y f q = f refl
  either-Fine false x y f q = q refl

  relinquish-Fine :
      (sources : Dict ℕ) (last : Session → Outcome)
      → Keeps n last
      → Keeps n (relinquish l publish sources last)
  unfolding relinquish
  relinquish-Fine [] last q g i h = q g i h
  relinquish-Fine ((id, b) ∷ rest) last q g i h =
      either-Fine (must_yield l publish b g) _ _
        (λ e.
          after_yield-Fine b (relinquish l publish rest last) _ (relinquish-Fine rest last q)
            (set_interest-Fine b false g i (yield_current b g e) h))
        (λ e. relinquish-Fine rest last q g i h)

  acquire_for-Fine :
      (o : Option ℕ) (g : Session)
      → g.active ≡ o
      → IsSound g
      → length g.sources ≤ n
      → Fine n (acquire_for l publish o g)
  unfolding acquire_for
  acquire_for-Fine none g e i h = still g n i h
  acquire_for-Fine (some b) g e i h =
      if_elim (Fine n) _ _ _ (set_interest-Fine b true g i (lookup→current b g (i.active_in b e)) h)
        (still g n i h)

  pub sync_interest-Fine : Keeps n (sync_interest l publish)
  unfolding sync_interest acquire
  sync_interest-Fine g i h =
      relinquish-Fine g.sources (acquire l publish)
        (λ g1 i1 h1. acquire_for-Fine g1.active g1 refl i1 h1) g i h

  fence_for-Fine :
      (o : Option ℕ) (g : Session)
      → g.active ≡ o
      → IsSound g
      → length g.sources ≤ n
      → Fine n (fence_for l publish o g)
  unfolding fence_for
  fence_for-Fine none g e i h =
      write_down-Fine n _ _
        (Alike-IsSound {g = g}
          (record { source = λ a. refl; sources = refl; active = refl; next = refl }) i)
        h
  fence_for-Fine (some b) g e i h =
      let g1 : Session = record g {
        fence_source = some b;
        fence_until = g.clock + 10_000_000_000;
      } in
      let a : Alike g g1 = record {
        source = λ a. refl;
        sources = refl;
        active = refl;
        next = refl;
      } in
      if_elim (Fine n) _ _ _ (still g n i h) (
        send-Fine b _ g1 (Alike-IsSound a i)
          (Alike-is_current b a (lookup→current b g (i.active_in b e))) h)

  pub resume_fence-Fine : Keeps n (resume_fence l publish)
  unfolding resume_fence
  resume_fence-Fine g i h =
      if_elim (Fine n) _ _ _ (still g n i h) (fence_for-Fine g.active g refl i h)

  activate_first-Fine : (o : Option ℕ) (ids : List Bytes) → Keeps n (activate_first o ids)
  unfolding activate_first
  activate_first-Fine (some b) ids g i h = still g n i h
  activate_first-Fine none [] g i h = still g n i h
  activate_first-Fine none (id ∷ ids) g i h =
      replay_effects-Fine n (record g { active = lookup id g.sources })
        (record { keyed = i.keyed; active_in = λ b e. rw (i.keyed id b e) e; fresh = i.fresh }) h

  present-Fine : Keeps n (present l publish)
  unfolding present
  present-Fine g i h =
      then_do-Fine n _ _
        (write_down-Fine n _ _
          (Alike-IsSound {g = g}
            (record { source = λ a. refl; sources = refl; active = refl; next = refl }) i)
          h)
        (λ g2 i2 h2. then_do-Fine n _ _ (send_surface-Fine n l g2 i2 h2) resume_fence-Fine)

  publish_with-Fine : Keeps n (publish_with l publish)
  unfolding publish_with
  publish_with-Fine g i h =
      then_do-Fine n _ _ (activate_first-Fine g.active (snapshot_ids g) g i h)
        (λ g1 i1 h1. then_do-Fine n _ _ (sync_interest-Fine g1 i1 h1) present-Fine)

-- `publish` on more fuel than there are sources ends, whatever writes fail on the way, with a sound
-- session of no more sources, if the session was sound.
pub publish-Fine :
    (l : StdLib) (fuel : ℕ) (g : Session)
    → IsSound g
    → length g.sources < fuel
    → Fine (length g.sources) (publish l fuel g)
unfolding publish
publish-Fine l zero g i h = absurd (omega (arith, h))
publish-Fine l (suc fuel) g i h =
    publish_with-Fine l fuel (publish l fuel) (publish-Fine l fuel) (length g.sources)
      (omega (arith, h)) g i (omega arith)
