-- ===== src/Gateway/Refresh/Ticks.antt =====
-- Retirement and deadlines in `refresh`, on a sound session.
use herdr_hive.Base.{
  ℕ, ◌≡◌, refl, inl, inr, Bool, true, false, Option, none, some, [], ◌∷◌, Bytes, Bool-cases,
  if_elim,
}
use herdr_hive.Base.Dict.{Dict, lookup}
use herdr_hive.Json.{StdLib}
use herdr_hive.Gateway.{Source, Error, native, Session, Outcome, is_current}
use herdr_hive.Gateway.Recovery.{cancel_on_error, remove, reset_recovery, fail}
use herdr_hive.Gateway.Sound.{
  IsSound, SameSources-IsSound, cancel-same, fail_request-same, reset_recovery-same, remove-Failed,
  fail-Failed,
}
use herdr_hive.Gateway.Alike.{Alike-IsSound}
use herdr_hive.Gateway.Server.Handles.{forget-Alike}
use herdr_hive.Gateway.Changes.{Alike-trans, change-Alike}
use herdr_hive.Gateway.Refresh.{
  Marked, retire, expire_starts, expire_fence_of, expire_request, expire_for, expire_requests,
  is_same, is_due,
}

listed-lookup :
    (g : Session) (id : Bytes) (b : ℕ)
    → IsSound g
    → lookup id g.sources ≡ some b
    → lookup (g.heap b).source.id g.sources ≡ some b
listed-lookup g id b i e = rw (i.keyed id b e) e

pub fail-IsSound :
    (l : StdLib) (b : ℕ) (e : Error) (g : Session) → IsSound g → IsSound (fail l b e g)
fail-IsSound l b e g i = elim (Bool-cases (is_current b g)) [
  | inl c ↦ (fail-Failed l b e g i c).sound
  | inr c ↦ unfold fail in rw c i
]

pub cancel-IsSound : (r : Outcome) → IsSound r.1 → IsSound (cancel_on_error r)
cancel-IsSound r i = SameSources-IsSound (cancel-same r) i

-- The session with its mark is sound.
abbrev pub Holds : Marked → Type 0
Holds m = IsSound m.0

module _ (l : StdLib) where
  either-IsSound :
      (t : Bool) (x y : Marked)
      → IsSound x.0
      → IsSound y.0
      → Holds (elim t [ true ↦ x | false ↦ y ])
  either-IsSound true x y p q = p
  either-IsSound false x y p q = q

  retired-IsSound :
      (visible : Dict Source) (rest : Dict ℕ) (id : Bytes) (g : Session) (changed : Bool)
      → ((m : Marked) → IsSound m.0 → IsSound (retire l visible rest m).0)
      → IsSound g
      → (o : Option ℕ) → lookup id g.sources ≡ o
      → Holds (elim o [
        | none ↦ retire l visible rest (g, changed)
        | some b ↦ elim (is_same (g.heap b).source.generation (lookup id visible)) [
          | true ↦ retire l visible rest (g, changed)
          | false ↦ retire l visible rest (remove l b g, true)
        ]
      ])
  retired-IsSound visible rest id g changed q i none e = q (g, changed) i
  retired-IsSound visible rest id g changed q i (some b) e =
      either-IsSound (is_same (g.heap b).source.generation (lookup id visible)) _ _
        (q (g, changed) i)
        (q (remove l b g, true) (remove-Failed l b g i (listed-lookup g id b i e)).sound)

  pub retire-IsSound :
      (visible : Dict Source) (sources : Dict ℕ) (m : Marked)
      → IsSound m.0
      → IsSound (retire l visible sources m).0
  unfolding retire
  retire-IsSound visible [] m i = i
  retire-IsSound visible ((id, _) ∷ rest) (g, changed) i =
      retired-IsSound visible rest id g changed (retire-IsSound visible rest) i
        (lookup id g.sources) refl

  started-IsSound :
      (rest : Dict ℕ) (g : Session) (changed : Bool)
      → ((m : Marked) → IsSound m.0 → IsSound (expire_starts l rest m).0)
      → IsSound g
      → (o : Option ℕ)
      → Holds (elim o [
        | none ↦ expire_starts l rest (g, changed)
        | some b ↦
            elim (is_due ((reset_recovery b g).heap b).initialize_by (reset_recovery b g).clock) [
              | true ↦ expire_starts l rest (fail l b native (reset_recovery b g), true)
              | false ↦ expire_starts l rest (reset_recovery b g, changed)
            ]
      ])
  started-IsSound rest g changed q i none = q (g, changed) i
  started-IsSound rest g changed q i (some b) =
      let j = SameSources-IsSound (reset_recovery-same b g) i in
      either-IsSound (is_due ((reset_recovery b g).heap b).initialize_by (reset_recovery b g).clock)
        _ _ (q _ (fail-IsSound l b native _ j)) (q _ j)

  pub expire_starts-IsSound :
      (sources : Dict ℕ) (m : Marked) → IsSound m.0 → IsSound (expire_starts l sources m).0
  unfolding expire_starts
  expire_starts-IsSound [] m i = i
  expire_starts-IsSound ((id, _) ∷ rest) (g, changed) i =
      started-IsSound rest g changed (expire_starts-IsSound rest) i (lookup id g.sources)

  pub expire_fence_of-IsSound :
      (o : Option ℕ) (m : Marked) → IsSound m.0 → IsSound (expire_fence_of l o m).0
  unfolding expire_fence_of
  expire_fence_of-IsSound none m i = i
  expire_fence_of-IsSound (some b) (g, changed) i =
      if_elim (λ (m : Marked). IsSound m.0) _ _ _ (fail-IsSound l b native g i) i

  expire_request-IsSound :
      (id : Bytes) (b : ℕ) (o : Option Bytes) (m : Marked)
      → IsSound m.0
      → IsSound (expire_request l id b o m).0
  unfolding expire_request
  expire_request-IsSound id b none (g, changed) i = fail-IsSound l b native g i
  expire_request-IsSound id b (some consumer) (g, changed) i = cancel-IsSound _ (
      SameSources-IsSound (fail_request-same l consumer _ _) (
        Alike-IsSound {g = g}
          (record { source = λ a. refl; sources = refl; active = refl; next = refl }) i))

  expire_for-IsSound :
      (id : Bytes) (o : Option ℕ) (m : Marked) → IsSound m.0 → IsSound (expire_for l id o m).0
  unfolding expire_for
  expire_for-IsSound id none m i = i
  expire_for-IsSound id (some b) (g, changed) i =
      expire_request-IsSound id b (lookup id g.request_ids) _
        (Alike-IsSound (Alike-trans (change-Alike b _ g refl) (forget-Alike l 0 0 id _)) i)

  pub expire_requests-IsSound :
      (deadlines : Dict ℕ) (m : Marked) → IsSound m.0 → IsSound (expire_requests l deadlines m).0
  unfolding expire_requests
  expire_requests-IsSound [] m i = i
  expire_requests-IsSound ((id, t) ∷ rest) (g, changed) i =
      either-IsSound _ _ _
        (expire_requests-IsSound rest _
          (expire_for-IsSound id (lookup id g.pending) (g, changed) i))
        (expire_requests-IsSound rest (g, changed) i)
