-- ===== src/Gateway/Changes.antt =====
-- Changes of one backend, and `publish` with its fuel, on a sound session.
use herdr_hive.Base.{ℕ, ◌+◌, ◌≤◌, ◌≡◌, refl, ◌∙◌, ◌||◌, not, length, arith, if_elim}
use herdr_hive.Json.{StdLib}
use herdr_hive.Gateway.{Backend, Session, Outcome, is_some}
use herdr_hive.Gateway.Recovery.{in_transition, render_progress}
use herdr_hive.Gateway.Publish.{publish_all}
use herdr_hive.Gateway.Sound.{IsSound, Fine}
use herdr_hive.Gateway.Alike.{Alike, Alike-IsSound, put_source, Keeps}
use herdr_hive.Gateway.Ends.{Publishes, publish-Fine}
use herdr_hive.Gateway.Values.{change}

pub Alike-refl : (g : Session) → Alike g g
Alike-refl g = record { source = λ a. refl; sources = refl; active = refl; next = refl }

pub Alike-trans : {f g h : Session} → Alike f g → Alike g h → Alike f h
Alike-trans s t = record {
  source = λ a. t.source a ∙ s.source a;
  sources = t.sources ∙ s.sources;
  active = t.active ∙ s.active;
  next = t.next ∙ s.next;
}

pub change-Alike :
    (b : ℕ) (f : Backend → Backend) (g : Session)
    → (f (g.heap b)).source ≡ (g.heap b).source
    → Alike g (change b f g)
unfolding change
change-Alike b f g e = record {
  source = put_source g.heap b (f (g.heap b)) e;
  sources = refl;
  active = refl;
  next = refl;
}

pub render_progress-Alike : (b : ℕ) (g : Session) → Alike g (render_progress b g)
unfolding render_progress
render_progress-Alike b g =
    if_elim (Alike g)
      (not (g.heap b).surface_active
        || not (g.heap b).render_ready
        || not (is_some (g.heap b).snapshot))
      _ _ (Alike-refl g)
      (if_elim (Alike g) (in_transition b g.pending g.request_ids) _ _ (Alike-refl g) (
        if_elim (Alike g) (is_some (g.heap b).stable_since) _ _ (Alike-refl g) (record {
          source = put_source g.heap b _ refl;
          sources = refl;
          active = refl;
          next = refl;
        })))

-- Whatever keeps sound sessions fine does so behind a change that soundness does not see.
pub behind :
    (n : ℕ) {f : Session → Outcome} {g h : Session}
    → Keeps n f
    → Alike g h
    → IsSound g
    → length g.sources ≤ n
    → Fine n (f h)
behind n q a i h = q _ (Alike-IsSound a i) (rw a.sources h)

pub publish_all-Publishes : (l : StdLib) (n : ℕ) → Publishes n (publish_all l)
unfolding publish_all
publish_all-Publishes l n g i h = publish-Fine l (length g.sources + 1) g i (omega arith)

pub publish_all-Fine : (l : StdLib) (n : ℕ) → Keeps n (publish_all l)
unfolding publish_all
publish_all-Fine l n g i h =
    let r = publish-Fine l (length g.sources + 1) g i (omega arith) in
    record { sound = r.sound; fewer = omega (arith, r.fewer); ended = r.ended }
