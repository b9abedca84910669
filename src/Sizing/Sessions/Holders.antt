-- ===== src/Sizing/Sessions/Holders.antt =====
-- The viewers that hold a lock, counted, and how a change of one viewer changes the counts.
use herdr_hive.Base.{
  some-injective, ℕ, zero, suc, ◌+◌, ◌≡◌, subst, ◌∙◌, some, List, [], ◌∷◌, Bytes, set, get_elem?,
  arith,
}
use herdr_hive.Sizing.Locks.{Sizing}
use herdr_hive.Sizing.View.{View}
use herdr_hive.Sizing.Owned.{Owned, holds, total}
use herdr_hive.Sizing.Owned.Stops.{Shrinks, Shrinks-Owned}
use herdr_hive.Sizing.Owned.Counts.{recount}
use herdr_hive.Sizing.Owned.Holdings.{Synced}
use herdr_hive.Sizing.Sessions.{Session, with_view}

-- How many viewers hold the lock for the pane.
unfoldable pub holders : List View → Bytes → ℕ → ℕ
holders [] pane h = 0
holders (v ∷ vs) pane h = holds v.held_locks pane h + holders vs pane h

-- The holders without the viewer at `i`.
holders_but : ℕ → List View → Bytes → ℕ → ℕ
unfolding holders
holders_but i [] pane h = 0
holders_but zero (v ∷ vs) pane h = holders vs pane h
holders_but (suc i) (v ∷ vs) pane h = holds v.held_locks pane h + holders_but i vs pane h

holders-get_elem? :
    (vs : List View) (i : ℕ) (v : View) (pane : Bytes) (h : ℕ)
    → get_elem? vs i ≡ some v
    → total (holders_but i vs) v.held_locks pane h ≡ holders vs pane h
unfolding holders holders_but total
holders-get_elem? [] i v pane h e = cc
holders-get_elem? (w ∷ vs) zero v pane h e =
    subst
      (λ x.
        holders vs pane h + holds x.held_locks pane h
        ≡ holds w.held_locks pane h + holders vs pane h)
      (some-injective w v e) (omega arith)
holders-get_elem? (w ∷ vs) (suc i) v pane h e = omega (arith, holders-get_elem? vs i v pane h e)

holders-set :
    (vs : List View) (i : ℕ) (v w : View) (pane : Bytes) (h : ℕ)
    → get_elem? vs i ≡ some v
    → holders (set vs i w) pane h ≡ total (holders_but i vs) w.held_locks pane h
unfolding holders holders_but total
holders-set [] i v w pane h e = cc
holders-set (u ∷ vs) zero v w pane h e = omega arith
holders-set (u ∷ vs) (suc i) v w pane h e = omega (arith, holders-set vs i v w pane h e)

abbrev pub AllSynced : List View → Type 0
AllSynced vs = (i : ℕ) (v : View) → get_elem? vs i ≡ some v → Synced v.held v.held_locks

set-AllSynced :
    (vs : List View) (i : ℕ) (w : View)
    → AllSynced vs
    → Synced w.held w.held_locks
    → AllSynced (set vs i w)
set-AllSynced [] i w y z j v e = cc
set-AllSynced (u ∷ vs) zero w y z zero v e =
    subst (λ x. Synced x.held x.held_locks) (some-injective w v e) z
set-AllSynced (u ∷ vs) zero w y z (suc j) v e = y (suc j) v e
set-AllSynced (u ∷ vs) (suc i) w y z zero v e = y zero v e
set-AllSynced (u ∷ vs) (suc i) w y z (suc j) v e =
    set-AllSynced vs i w (λ k x f. y (suc k) x f) z j v e

-- The state in which every viewer's locks are counted.
pub record IsSound (t : Session) : Type 0 where
  pub owned : Owned (holders t.views) t.sizing
  pub synced : AllSynced t.views

-- A method of one viewer leaves the session counted, with the others as they were.
unfoldable pub Keeps : (Bytes → ℕ → ℕ) → Sizing × View → Type 0
Keeps others r = Owned (total others r.1.held_locks) r.0 × Synced r.1.held r.1.held_locks

pub with_view-IsSound :
    (t : Session) (i : ℕ) (v : View) (r : Sizing × View)
    → IsSound t
    → get_elem? t.views i ≡ some v
    → ((others : Bytes → ℕ → ℕ)
        → Owned (total others v.held_locks) t.sizing
        → Synced v.held v.held_locks
        → Keeps others r)
    → IsSound (with_view t i r)
unfolding with_view Keeps
with_view-IsSound t i v r o e keeps = record {
  owned =
      recount (total others r.1.held_locks) _ r.0 kept.0
        (λ p h f. holders-set t.views i v r.1 p h e)
        (λ p h l. holders-set t.views i v r.1 p h e ∙ kept.0.unheld p h l);
  synced = set-AllSynced t.views i r.1 o.synced kept.1;
}
  where
    others : Bytes → ℕ → ℕ
    others = holders_but i t.views

    kept : Owned (total others r.1.held_locks) r.0 × Synced r.1.held r.1.held_locks
    kept =
        keeps others
          (recount (holders t.views) _ t.sizing o.owned
            (λ p h f. holders-get_elem? t.views i v p h e)
            (λ p h l. holders-get_elem? t.views i v p h e ∙ o.owned.unheld p h l))
          (o.synced i v e)

pub shrink-IsSound :
    (t : Session) (s : Sizing) → IsSound t → Shrinks t.sizing s → IsSound (record t { sizing = s })
shrink-IsSound t s o k = record {
  owned = Shrinks-Owned (holders t.views) t.sizing s k o.owned;
  synced = o.synced;
}
