-- ===== src/Gateway/Refresh/Reachable.antt =====
-- Sessions that the event loop can reach.
use herdr_hive.Base.{
  ℕ, ◌≢◌, refl, ap, false, Option, none, some, List, [], ◌∷◌, length, arith, if_elim,
}
use herdr_hive.Base.Dict.{Dict}
use herdr_hive.Json.{StdLib}
use herdr_hive.Gateway.{Source, Error, unfinished, Session, Outcome, is_current}
use herdr_hive.Gateway.Publish.{publish_all}
use herdr_hive.Gateway.Sound.{IsSound, Fine}
use herdr_hive.Gateway.Alike.{Alike-IsSound}
use herdr_hive.Gateway.Server.Handles.{server-Fine}
use herdr_hive.Gateway.Changes.{change-Alike, publish_all-Fine}
use herdr_hive.Gateway.Client.Handles.{client-Fine}
use herdr_hive.Gateway.Refresh.{
  listed, visible_in, Marked, retire, keep_visible, expire_starts, expire_fence_of, expire_fence,
  settled, is_unfinished, publish_changed, expire_all, expire_all_starts, refresh, Event, tick,
  viewer_frame, viewer_failed, stream_opened, publisher_frame, publisher_failed, is_upstream,
  give_up, take_publisher, for_current, step, unless_ended, run,
}
use herdr_hive.Gateway.Refresh.Ticks.{
  fail-IsSound, cancel-IsSound, retire-IsSound, expire_starts-IsSound, expire_fence_of-IsSound,
  expire_requests-IsSound,
}
use herdr_hive.Gateway.Refresh.Opens.{open_sources-IsSound}

module _ (l : StdLib) where
  keep_visible-IsSound :
      (visible : Dict Source) (m : Marked) → IsSound m.0 → IsSound (keep_visible l visible m).0
  unfolding keep_visible
  keep_visible-IsSound visible (g, changed) i =
      Alike-IsSound {g = g}
        (record { source = λ a. refl; sources = refl; active = refl; next = refl }) i

  -- A session that is sound, by a call that came to its end.
  record Settled (r : Outcome) : Type 0 where
    sound : IsSound r.1
    ended : r.0 ≢ some unfinished

  fine : {n : ℕ} {r : Outcome} → Fine n r → Settled r
  fine f = record { sound = f.sound; ended = f.ended }

  quiet : {g : Session} → IsSound g → Settled (none, g)
  quiet i = record { sound = i; ended = λ e. cc }

  published : (g : Session) → IsSound g → Settled (publish_all l g)
  published g i = fine (publish_all-Fine l (length g.sources) g i (omega arith))

  settled-Settled : (r : Outcome) → Settled r → Settled (settled r)
  unfolding settled
  settled-Settled (none, g) s = s
  settled-Settled (some e, g) s =
      if_elim Settled (is_unfinished e) _ _ s (quiet (cancel-IsSound (some e, g) s.sound))

  publish_changed-Settled :
      (m : Marked) → IsSound m.0 → Settled (publish_changed l (publish_all l) m)
  unfolding publish_changed
  publish_changed-Settled (g, changed) i =
      if_elim Settled changed _ _ (settled-Settled (publish_all l g) (published g i)) (quiet i)

  refresh-Settled : (g : Session) → IsSound g → Settled (refresh l (publish_all l) g)
  unfolding refresh expire_fence expire_all expire_all_starts
  refresh-Settled g i =
      let visible = visible_in (listed g.catalog) [] in
      let m : Marked = keep_visible l visible (retire l visible g.sources (g, false)) in
      let m1 = expire_starts l m.0.sources m in
      let m2 = expire_fence_of l m1.0.fence_source m1 in
      publish_changed-Settled _ (
        open_sources-IsSound l (listed g.catalog) _ (
          expire_requests-IsSound l m2.0.deadlines m2 (
            expire_fence_of-IsSound l m1.0.fence_source m1 (
              expire_starts-IsSound l m.0.sources m (
                keep_visible-IsSound visible (retire l visible g.sources (g, false))
                  (retire-IsSound l visible g.sources (g, false) i))))))

  give_up-Settled : (b : ℕ) (r : Outcome) → Settled r → Settled (give_up l b r)
  unfolding give_up
  give_up-Settled b (none, g) s = s
  give_up-Settled b (some e, g) s =
      if_elim Settled (is_upstream e) _ _ (published _ (fail-IsSound l b e g s.sound)) s

  take_publisher-Settled :
      (b : ℕ) (e : Event) (g : Session) → IsSound g → Settled (take_publisher l b e g)
  unfolding take_publisher
  take_publisher-Settled b (stream_opened _) g i = quiet (Alike-IsSound (change-Alike b _ g refl) i)
  take_publisher-Settled b (publisher_frame _ p) g i =
      give_up-Settled b _ (fine (server-Fine l (length g.sources) b p g i (omega arith)))
  take_publisher-Settled b (publisher_failed _ e) g i = published _ (fail-IsSound l b e g i)
  take_publisher-Settled b (tick _ _) g i = quiet i
  take_publisher-Settled b (viewer_frame _) g i = quiet i
  take_publisher-Settled b (viewer_failed _) g i = quiet i

  for_current-Settled :
      (b : ℕ) (e : Event) (g : Session) → IsSound g → Settled (for_current l b e g)
  unfolding for_current
  for_current-Settled b e g i =
      if_elim Settled (is_current b g) _ _ (take_publisher-Settled b e g i) (quiet i)

  step-Settled :
      (e : Event) (g : Session) → e ≢ viewer_failed unfinished → IsSound g → Settled (step l e g)
  unfolding step
  step-Settled (tick now catalog) g d i = refresh-Settled _ (
      Alike-IsSound {g = g}
        (record { source = λ a. refl; sources = refl; active = refl; next = refl }) i)
  step-Settled (viewer_failed e) g d i = record {
    sound = i;
    ended = λ q. d (ap (λ o. viewer_failed (error_of o)) q);
  }
    where
      error_of : Option Error → Error
      error_of none = unfinished
      error_of (some x) = x
  step-Settled (viewer_frame p) g d i = fine (client-Fine l (length g.sources) p g i (omega arith))
  step-Settled (stream_opened b) g d i = for_current-Settled b _ g i
  step-Settled (publisher_frame b p) g d i = for_current-Settled b _ g i
  step-Settled (publisher_failed b e) g d i = for_current-Settled b _ g i

  -- Whatever happens in one round of the event loop, a sound session is sound after it, and the round
  -- comes to its end: the fuel of `publish` never runs out. It is assumed that the viewer's stream
  -- does not fail with the error that stands for that.
  pub step-IsSound :
      (e : Event) (g : Session)
      → e ≢ viewer_failed unfinished
      → IsSound g
      → IsSound (step l e g).1 × ((step l e g).0 ≢ some unfinished)
  step-IsSound e g d i = let s = step-Settled e g d i in (s.sound, s.ended)

  round-IsSound : (e : Event) (g : Session) → IsSound g → IsSound (step l e g).1
  round-IsSound e g i = elim e as (λ e. IsSound (step l e g).1) [
    | tick now catalog ↦ (step-Settled (tick now catalog) g (λ q. cc) i).sound
    | viewer_frame p ↦ (step-Settled (viewer_frame p) g (λ q. cc) i).sound
    | viewer_failed x ↦ unfold step in i
    | stream_opened b ↦ (step-Settled (stream_opened b) g (λ q. cc) i).sound
    | publisher_frame b p ↦ (step-Settled (publisher_frame b p) g (λ q. cc) i).sound
    | publisher_failed b x ↦ (step-Settled (publisher_failed b x) g (λ q. cc) i).sound
  ]

  unless_ended-IsSound :
      (next : Session → Session) (r : Outcome)
      → ((g : Session) → IsSound g → IsSound (next g))
      → IsSound r.1
      → IsSound (unless_ended l next r)
  unfolding unless_ended
  unless_ended-IsSound next (some x, g) q i = i
  unless_ended-IsSound next (none, g) q i = q g i

  -- Every sequence of events takes a sound session to a sound session: each source stands under its
  -- own identity, the active backend is one of the sources, and the handle of the next backend is none
  -- of theirs.
  pub run-IsSound : (es : List Event) (g : Session) → IsSound g → IsSound (run l es g)
  unfolding run
  run-IsSound [] g i = i
  run-IsSound (e ∷ es) g i =
      unless_ended-IsSound (run l es) (step l e g) (run-IsSound es) (round-IsSound e g i)
