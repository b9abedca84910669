-- ===== src/Gateway/Refresh/Opens.antt =====
-- New and renamed publications in `refresh`, on a sound session.
use herdr_hive.Base.{
  ℕ, ◌+◌, ◌<◌, ◌≡◌, refl, sym, ap, ◌∙◌, inl, inr, Option, none, some, List, [], ◌∷◌, ◌⊎◌, ◌==◌,
  Bytes, bytes_eq, bytes_eq_iff, arith, Bool-cases, if_elim, ==_iff,
}
use herdr_hive.Base.Dict.{lookup, insert, lookup-insert}
use herdr_hive.Json.{StdLib}
use herdr_hive.Gateway.{Source, Backend, Session, put}
use herdr_hive.Gateway.Sound.{IsSound}
use herdr_hive.Gateway.Values.{change}
use herdr_hive.Gateway.Refresh.{Marked, rename_source, open_source, open_sources, new_backend}
use herdr_hive.Gateway.Refresh.Ticks.{Holds}

module _ (l : StdLib) where
  put_id :
      (heap : ℕ → Backend) (b : ℕ) (new : Backend)
      → new.source.id ≡ (heap b).source.id
      → (a : ℕ) → (put heap b new a).source.id ≡ (heap a).source.id
  put_id heap b new e a = elim (Bool-cases (a == b)) [
    | inl h ↦ rw h (e ∙ ap (λ k. (heap k).source.id) (sym ((==_iff a b).0 h)))
    | inr h ↦ rw h refl
  ]

  put-IsSound :
      (b : ℕ) (new : Backend) (g : Session)
      → new.source.id ≡ (g.heap b).source.id
      → IsSound g
      → IsSound (record g { heap = put g.heap b new })
  put-IsSound b new g e i = record {
    keyed = λ id a h. put_id g.heap b new e a ∙ i.keyed id a h;
    active_in = λ a h. rw (put_id g.heap b new e a) (i.active_in a h);
    fresh = i.fresh;
  }

  rename_source-IsSound :
      (s : Source) (b : ℕ) (m : Marked) → IsSound m.0 → IsSound (rename_source l s b m).0
  unfolding rename_source change
  rename_source-IsSound s b (g, changed) i = if_elim Holds _ _ _ (put-IsSound b _ g refl i) i

  put_other :
      (heap : ℕ → Backend) (b : ℕ) (new : Backend) (a : ℕ) → a < b → put heap b new a ≡ heap a
  put_other heap b new a h = ground arith

  put_self : (heap : ℕ → Backend) (b : ℕ) (new : Backend) → put heap b new b ≡ new
  put_self heap b new = ground arith

  -- A new backend takes a handle that no source has.
  opened : Source → Session → Session
  opened s g = record g {
    heap = put g.heap g.next (new_backend s g.clock);
    next = g.next + 1;
    sources = insert s.id g.next g.sources;
  }

  opened-lookup :
      (s : Source) (g : Session) (id : Bytes) (b : ℕ)
      → IsSound g
      → lookup id (insert s.id g.next g.sources) ≡ some b
      → ((id ≡ s.id) × (b ≡ g.next)) ⊎ ((lookup id g.sources ≡ some b) × (b < g.next))
  opened-lookup s g id b i e = elim (Bool-cases (bytes_eq s.id id)) [
    | inl h ↦
        inl
          (sym ((bytes_eq_iff s.id id).0 h), ground (arith, lookup-insert s.id id g.next g.sources))
    | inr h ↦
        let old : lookup id g.sources ≡ some b =
          ground (arith, lookup-insert s.id id g.next g.sources) in
        inr (old, i.fresh id b old)
  ]

  opened-IsSound :
      (s : Source) (g : Session) → lookup s.id g.sources ≡ none → IsSound g → IsSound (opened s g)
  unfolding opened new_backend
  opened-IsSound s g none_yet i = record {
    keyed = λ id b e. elim (opened-lookup s g id b i e) [
      | inl (p, q) ↦ rw q (rw (put_self g.heap g.next (new_backend s g.clock)) (sym p))
      | inr (p, q) ↦ rw (put_other g.heap g.next (new_backend s g.clock) b q) (i.keyed id b p)
    ];
    active_in = λ b e.
        let c = i.active_in b e in
        rw (put_other g.heap g.next (new_backend s g.clock) b (i.fresh _ b c)) (
          ground (
            arith,
            lookup-insert s.id (g.heap b).source.id g.next g.sources,
            bytes_eq_iff s.id (g.heap b).source.id,
          ));
    fresh = λ id b e. elim (opened-lookup s g id b i e) [
      | inl (p, q) ↦ omega (arith, q)
      | inr (p, q) ↦ omega (arith, q)
    ];
  }

  open_source-IsSound :
      (s : Source) (o : Option ℕ) (m : Marked)
      → lookup s.id m.0.sources ≡ o
      → IsSound m.0
      → IsSound (open_source l s o m).0
  unfolding open_source opened
  open_source-IsSound s (some b) m e i = rename_source-IsSound s b m i
  open_source-IsSound s none (g, changed) e i = if_elim Holds _ _ _ i (opened-IsSound s g e i)

  pub open_sources-IsSound :
      (ss : List Source) (m : Marked) → IsSound m.0 → IsSound (open_sources l ss m).0
  unfolding open_sources
  open_sources-IsSound [] m i = i
  open_sources-IsSound (s ∷ ss) m i =
      open_sources-IsSound ss _ (open_source-IsSound s (lookup s.id m.0.sources) m refl i)
