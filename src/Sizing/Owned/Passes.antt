-- ===== src/Sizing/Owned/Passes.antt =====
-- A whole pass of `reconcile`, its releases and the viewer's `close` keep the counts.
use herdr_hive.Base.{
  ℕ, suc, ◌==◌, ==_iff, ◌≡◌, subst, inl, inr, true, false, ◌&&◌, ◌||◌, Option, none, some, List, [],
  ◌∷◌, Bytes, bytes_eq, bytes_eq_iff, if_elim, if_case, arith, Bool-cases, Option-cases, not,
}
use herdr_hive.Base.Dict.{Dict, lookup, delete}
use herdr_hive.Sizing.Locks.{Sizing, release_locked}
use herdr_hive.Sizing.Panes.{SizeError, contains}
use herdr_hive.Sizing.Acquire.{
  Native, Pass, preflight, acquire, visit, each, release_one, release_each, release_unwanted,
  start_pass, run_pass,
}
use herdr_hive.Sizing.View.{View}
use herdr_hive.Sizing.Owned.{Owned, total}
use herdr_hive.Sizing.Owned.Counts.{recount, release_lock-Owned}
use herdr_hive.Sizing.Owned.Holdings.{
  Synced, IsCounted, total-delete_self, total-delete_ne, total-delete-le, Synced-delete,
  release_none, release_some,
}
use herdr_hive.Sizing.Owned.Checks.{preflight-IsCounted}
use herdr_hive.Sizing.Owned.Taking.{acquire-IsCounted}

module _ (others : Bytes → ℕ → ℕ) where
  release-Owned :
      (pane : Bytes) (h : ℕ) (m : Dict ℕ) (s : Sizing)
      → Owned (total others m) s
      → lookup pane m ≡ some h
      → Owned (total others (delete pane m)) (release_locked pane (some h) s)
  release-Owned pane h m s o e = elim (Option-cases (lookup pane s.locks)) [
    | inl gone ↦
        rw (release_none pane (some h) s gone)
          (unchanged (λ q i f. ground (arith, bytes_eq_iff pane q)))
    | inr (i, f) ↦ rw (release_some pane h i s f) (elim (Bool-cases (h == i)) [
      | inl same ↦ rw same (
          release_lock-Owned (total others m) _ s pane i o f
            (subst (λ j. total others m pane j ≡ suc (total others (delete pane m) pane j))
              ((==_iff h i).0 same) (total-delete_self others pane h m e))
            (λ q j d. total-delete_ne others pane q h j m e (ground arith))
            (λ q j. total-delete-le others pane q j m))
      | inr other ↦ rw other (unchanged (λ q j g. ground (arith, bytes_eq_iff pane q)))
    ])
  ]
    where
      unchanged :
          ((q : Bytes) (i : ℕ) → lookup q s.locks ≡ some i → (bytes_eq pane q && h == i) ≡ false)
          → Owned (total others (delete pane m)) s
      unchanged d =
          recount (total others m) _ s o (λ q i f. total-delete_ne others pane q h i m e (d q i f))
            (λ q i l. omega (arith, total-delete-le others pane q i m, o.unheld q i l))

  release_one-IsCounted :
      (pane : Bytes) (p : Pass)
      → IsCounted others p
      → contains pane p.held ≡ true
      → IsCounted others (release_one pane p)
  unfolding release_one
  release_one-IsCounted pane p c e = elim (c.synced pane) [
    | inl (x, (h, y)) ↦ record {
      owned = rw y (release-Owned pane h p.held_locks p.sizing c.owned y);
      synced = Synced-delete pane p.held p.held_locks c.synced;
    }
    | inr (x, y) ↦ cc
  ]

  unless-IsCounted :
      (e : Option SizeError) (p q : Pass)
      → IsCounted others p
      → IsCounted others q
      → IsCounted others (elim e [ some _ ↦ p | none ↦ q ])
  unless-IsCounted none p q c d = d
  unless-IsCounted (some e) p q c d = c

  each-IsCounted :
      (step : Bytes → Pass → Pass)
      → ((pane : Bytes) (p : Pass) → IsCounted others p → IsCounted others (step pane p))
      → (panes : List Bytes) (p : Pass) → IsCounted others p
      → IsCounted others (each step panes p)
  unfolding each visit
  each-IsCounted step keeps [] p c = c
  each-IsCounted step keeps (pane ∷ panes) p c =
      unless-IsCounted p.error p _ c
        (each-IsCounted step keeps panes _ (if_elim (IsCounted others) _ _ _ (keeps pane p c) c))

  pub release_each-IsCounted :
      (keeps held : List Bytes) (p : Pass)
      → IsCounted others p
      → IsCounted others (release_each keeps held p)
  unfolding release_each
  release_each-IsCounted keeps [] p c = c
  release_each-IsCounted keeps (pane ∷ held) p c = release_each-IsCounted keeps held _ (
      if_case (IsCounted others) (contains pane keeps || not (contains pane p.held)) _ _ (λ e. c)
        (λ e. release_one-IsCounted pane p c (ground arith)))

  pub run_pass-IsCounted :
      (n : Native) (order : List Bytes) (v : View) (s : Sizing)
      → Owned (total others v.held_locks) s
      → Synced v.held v.held_locks
      → IsCounted others (run_pass n order v s)
  unfolding run_pass release_unwanted start_pass
  run_pass-IsCounted n order v s o y =
      unless-IsCounted _ _ _ second (release_each-IsCounted _ _ _ second)
    where
      start : Pass
      start = start_pass order v s

      first : IsCounted others (each (preflight n) order start)
      first =
          each-IsCounted _ (preflight-IsCounted others n) order start
            (record { owned = o; synced = y })

      second : IsCounted others (each (acquire n) order (each (preflight n) order start))
      second = each-IsCounted _ (acquire-IsCounted others n) order _ first
