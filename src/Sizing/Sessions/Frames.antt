-- ===== src/Sizing/Sessions/Frames.antt =====
-- The frames of bee/internal/herdr/sizing.go, 724-949, as steps of a session: what a handler does to
-- the locks and to its viewer is done by steps.
pub mod Requests
pub mod Replies
use herdr_hive.Base.{
  ℕ, zero, suc, ◌≡◌, refl, some, List, [], ◌∷◌, Option, none, Bytes, set, get_elem?, ap, subst, sym,
  error_case,
}
use herdr_hive.Sizing.Locks.{Sizing}
use herdr_hive.Sizing.Panes.{SizeError}
use herdr_hive.Sizing.View.{View}
use herdr_hive.Sizing.Acquire.{Native, reconcile}
use herdr_hive.Sizing.Client.{Outcome, failed, swallow, Handled, sent_on, after_reconcile}
use herdr_hive.Sizing.Server.{hand_on}
use herdr_hive.Sizing.Sessions.{Session, with_view, reconciled, Step, Reachable}
use herdr_hive.Sizing.Sessions.Step.{moves, reconciles}
use herdr_hive.Sizing.Sessions.Reachable.{step}

-- The same panes are held.
pub record IsAlike (v w : View) : Type 0 where
  pub held : w.held ≡ v.held
  pub held_locks : w.held_locks ≡ v.held_locks

pub same : (v : View) → IsAlike v v
same v = record { held = refl; held_locks = refl }

get-set :
    (vs : List View) (i : ℕ) (v w : View)
    → get_elem? vs i ≡ some v
    → get_elem? (set vs i w) i ≡ some w
get-set [] i v w e = cc
get-set (x ∷ vs) zero v w e = refl
get-set (x ∷ vs) (suc i) v w e = get-set vs i v w e

set-set : (vs : List View) (i : ℕ) (v w : View) → set (set vs i v) i w ≡ set vs i w
set-set [] i v w = refl
set-set (x ∷ vs) zero v w = refl
set-set (x ∷ vs) (suc i) v w = ap (λ ws. x ∷ ws) (set-set vs i v w)

-- The session with other locks and another viewer is one that steps can reach.
unfoldable pub IsAt : Session → ℕ → Sizing → View → Type 0
IsAt t i s v = Reachable (with_view t i (s, v))

-- What a handler leaves is.
unfoldable pub Follows : Session → ℕ → Handled → Type 0
unfolding IsAt
Follows t i h = IsAt t i h.sizing h.view

module _ (t : Session) (i : ℕ) (u : View) (e : get_elem? t.views i ≡ some u) where
  again :
      (s : Sizing) (v w : View)
      → Reachable (with_view (with_view t i (s, v)) i (s, w))
      → IsAt t i s w
  unfolding IsAt with_view
  again s v w r =
      subst (λ vs. Reachable (record { sizing = s; views = vs })) (set-set t.views i v w) r

  pub start-IsAt : Reachable t → IsAt t i t.sizing u
  unfolding IsAt
  start-IsAt r = step t _ r (moves i u u e refl refl)

  pub moved-IsAt : (s : Sizing) (v w : View) → IsAlike v w → IsAt t i s v → IsAt t i s w
  unfolding IsAt with_view
  moved-IsAt s v w a r =
      again s v w (
        step (with_view t i (s, v)) _ r (moves i v w (get-set t.views i u v e) a.held a.held_locks))

  pub reconcile-IsAt :
      (n : Native) (s : Sizing) (v : View)
      → IsAt t i s v
      → IsAt t i (reconcile n s v).0 (reconcile n s v).1
  unfolding IsAt with_view reconciled
  reconcile-IsAt n s v r =
      subst (λ vs. Reachable (record { sizing = (reconcile n s v).0; views = vs }))
        (set-set t.views i v (reconcile n s v).1)
        (step (with_view t i (s, v)) _ r (reconciles n i v (get-set t.views i u v e)))

  pub after_reconcile-Follows :
      (f : Handled → Handled)
      → ((h : Handled) → Follows t i h → Follows t i (f h))
      → (n : Native) (s : Sizing) (v : View) → IsAt t i s v
      → Follows t i (after_reconcile f (reconcile n s v))
  unfolding after_reconcile Follows
  after_reconcile-Follows f keeps n s v r = ends (reconcile n s v) (reconcile-IsAt n s v r)
    where
      ends :
          (a : Sizing × View × Option SizeError)
          → IsAt t i a.0 a.1
          → Follows t i (after_reconcile f a)
      ends (z, w, some x) k = k
      ends (z, w, none) k = keeps (record { sizing = z; view = w; sent = []; outcome = swallow }) k

pub sent_on-Follows :
    (t : Session) (i : ℕ) (up : Bytes → Option SizeError) (p : Bytes) (h : Handled)
    → Follows t i h
    → Follows t i (sent_on up p h)
unfolding sent_on Follows
sent_on-Follows t i up p h k =
    error_case (Follows t i) (up p) (λ x. record h { outcome = failed x }) _ (λ x y. k) (λ y. k)

pub hand_on-Follows :
    (t : Session) (i : ℕ) (o : Outcome) (h : Handled) → Follows t i h → Follows t i (hand_on o h)
unfolding hand_on Follows
hand_on-Follows t i o h k = k
