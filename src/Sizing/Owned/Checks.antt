-- ===== src/Sizing/Owned/Checks.antt =====
-- The first loop of `reconcile` keeps the counts.
use herdr_hive.Base.{ℕ, ◌≡◌, refl, Option, none, some, Bytes, if_elim, arith}
use herdr_hive.Base.Dict.{lookup}
use herdr_hive.Sizing.Locks.{Sizing}
use herdr_hive.Sizing.Panes.{SizeError, Answer}
use herdr_hive.Sizing.Panes.Answer.{ok, err}
use herdr_hive.Sizing.Acquire.{
  Native, Pass, Geometry, give_up, measured, drop_retired, check_lock, preflight,
}
use herdr_hive.Sizing.Owned.Stops.{Shrinks, Shrinks-Owned}
use herdr_hive.Sizing.Owned.Shrinking.{stop-Owned, LeavesLess-Shrinks, drop_retired-LeavesLess}
use herdr_hive.Sizing.Owned.Holdings.{IsCounted}

drop_retired-found :
    (pane : Bytes) (found : Option ℕ) (s : Sizing)
    → lookup pane s.locks ≡ found
    → (h : ℕ) → (drop_retired pane found s).1 ≡ some h
    → lookup pane (drop_retired pane found s).0.locks ≡ some h
unfolding drop_retired
drop_retired-found pane none s e h f = cc
drop_retired-found pane (some i) s e h f = ground arith

module _ (others : Bytes → ℕ → ℕ) where
  pub give_up-IsCounted :
      (pane : Bytes) (e : Option SizeError) (p : Pass)
      → IsCounted others p
      → IsCounted others (give_up pane e p)
  unfolding give_up
  give_up-IsCounted pane none p c = record { owned = c.owned; synced = c.synced }
  give_up-IsCounted pane (some e) p c = record { owned = c.owned; synced = c.synced }

  measured-IsCounted :
      (n : Native) (pane : Bytes) (a : Answer Geometry) (p : Pass)
      → IsCounted others p
      → IsCounted others (measured n pane a p)
  unfolding measured
  measured-IsCounted n pane (ok g) p c = record { owned = c.owned; synced = c.synced }
  measured-IsCounted n pane (err e) p c = give_up-IsCounted pane _ p c

  -- The session loses locks, and the viewer's maps stay.
  pub shrink-IsCounted :
      (p : Pass) (s : Sizing)
      → IsCounted others p
      → Shrinks p.sizing s
      → IsCounted others (record p { sizing = s })
  shrink-IsCounted p s c k = record {
    owned = Shrinks-Owned _ p.sizing s k c.owned;
    synced = c.synced;
  }

  -- In the first loop.
  check_lock-IsCounted :
      (n : Native) (pane : Bytes) (p : Pass) (r : Sizing × Option ℕ)
      → IsCounted others (record p { sizing = r.0 })
      → ((h : ℕ) → r.1 ≡ some h → lookup pane r.0.locks ≡ some h)
      → IsCounted others (check_lock n pane r p)
  unfolding check_lock
  check_lock-IsCounted n pane p (s, none) c e = measured-IsCounted n pane _ _ c
  check_lock-IsCounted n pane p (s, some h) c e =
      if_elim (IsCounted others) _ _ _
        (give_up-IsCounted pane _ _ (
          shrink-IsCounted (record p { sizing = s }) _ c
            (stop-Owned _ s c.owned pane h (e h refl))))
        c

  pub preflight-IsCounted :
      (n : Native) (pane : Bytes) (p : Pass)
      → IsCounted others p
      → IsCounted others (preflight n pane p)
  unfolding preflight
  preflight-IsCounted n pane p c =
      check_lock-IsCounted n pane p _
        (shrink-IsCounted p _ c
          (LeavesLess-Shrinks p.sizing _ (drop_retired-LeavesLess _ p.sizing c.owned pane _ refl)))
        (drop_retired-found pane _ p.sizing refl)
