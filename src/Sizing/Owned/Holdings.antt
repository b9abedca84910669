-- ===== src/Sizing/Owned/Holdings.antt =====
-- What one viewer holds, and the totals when it takes or gives up a lock.
use herdr_hive.Base.{
  ℕ, suc, ◌==◌, ◌≤◌, ◌<◌, ◌≡◌, refl, ◌⊎◌, inl, inr, true, false, ◌&&◌, Option, none, some, List, [],
  ◌∷◌, if◌then◌else◌, Bytes, bytes_eq, bytes_eq_iff, arith, Bool-cases,
}
use herdr_hive.Base.Dict.{Dict, lookup, insert, delete, lookup-insert, lookup-delete}
use herdr_hive.Sizing.Locks.{ℤ, increment, Sizing, is_other, release_lock, release_locked}
use herdr_hive.Sizing.Locks.ℤ.{pos}
use herdr_hive.Sizing.Panes.{contains, add}
use herdr_hive.Sizing.Acquire.{Pass, without, holds_already}
use herdr_hive.Sizing.Owned.{Owned, holds_here, holds, total}

-- The viewer holds the panes that its map has a lock for.
abbrev pub Synced : List Bytes → Dict ℕ → Type 0
Synced held locks =
    (pane : Bytes)
    → ((contains pane held ≡ true) × ((h : ℕ) × (lookup pane locks ≡ some h)))
      ⊎ ((contains pane held ≡ false) × (lookup pane locks ≡ none))

-- The counts are right for the other viewers and the viewer of the pass.
pub record IsCounted (others : Bytes → ℕ → ℕ) (p : Pass) : Type 0 where
  pub owned : Owned (total others p.held_locks) p.sizing
  pub synced : Synced p.held p.held_locks

pub holds-delete :
    (pane q : Bytes) (i : ℕ) (m : Dict ℕ)
    → holds (delete pane m) q i ≡ (if bytes_eq pane q then 0 else holds m q i)
unfolding holds holds_here
holds-delete pane q i m = ground (arith, lookup-delete pane q m)

pub holds-insert :
    (pane q : Bytes) (h i : ℕ) (m : Dict ℕ)
    → holds (insert pane h m) q i
      ≡ (if bytes_eq pane q then (if h == i then 1 else 0) else holds m q i)
unfolding holds holds_here
holds-insert pane q h i m = ground (arith, lookup-insert pane q h m)

pub contains-without :
    (k j : Bytes) (ks : List Bytes)
    → contains j (without k ks) ≡ (if bytes_eq k j then false else contains j ks)
unfolding contains without
contains-without k j [] = ground arith
contains-without k j (i ∷ ks) =
    ground (arith, contains-without k j ks, bytes_eq_iff k j, bytes_eq_iff i k, bytes_eq_iff i j)

pub contains-add :
    (k j : Bytes) (ks : List Bytes)
    → contains j (add k ks) ≡ (if bytes_eq k j then true else contains j ks)
unfolding contains add
contains-add k j ks = ground (arith, bytes_eq_iff k j)

pub increment-pos : (r : ℤ) (k l : ℕ) → r ≡ pos k → l ≡ suc k → increment r ≡ pos l
unfolding increment
increment-pos r k l e f = rw (e, f) refl

-- A lock that the viewer takes is held by one more.
pub total-insert_self :
    (others : Bytes → ℕ → ℕ) (pane : Bytes) (h : ℕ) (m : Dict ℕ)
    → holds m pane h ≡ 0
    → total others (insert pane h m) pane h ≡ suc (total others m pane h)
unfolding total
total-insert_self others pane h m e =
    ground (arith, holds-insert pane pane h h m, bytes_eq_iff pane pane)

pub total-insert_ne :
    (others : Bytes → ℕ → ℕ) (pane q : Bytes) (h i : ℕ) (m : Dict ℕ)
    → bytes_eq pane q ≡ false
    → total others (insert pane h m) q i ≡ total others m q i
unfolding total
total-insert_ne others pane q h i m d = ground (arith, holds-insert pane q h i m)

pub total-insert-lt :
    (others : Bytes → ℕ → ℕ) (pane q : Bytes) (h i : ℕ) (m : Dict ℕ)
    → h < i
    → total others (insert pane h m) q i ≤ total others m q i
unfolding total
total-insert-lt others pane q h i m l = ground (arith, holds-insert pane q h i m)

-- A lock that the viewer gives up is held by one less; another lock of the pane by as many.
pub total-delete_self :
    (others : Bytes → ℕ → ℕ) (pane : Bytes) (h : ℕ) (m : Dict ℕ)
    → lookup pane m ≡ some h
    → total others m pane h ≡ suc (total others (delete pane m) pane h)
unfolding total holds holds_here
total-delete_self others pane h m e =
    ground (arith, lookup-delete pane pane m, bytes_eq_iff pane pane)

pub total-delete_ne :
    (others : Bytes → ℕ → ℕ) (pane q : Bytes) (h i : ℕ) (m : Dict ℕ)
    → lookup pane m ≡ some h
    → (bytes_eq pane q && h == i) ≡ false
    → total others (delete pane m) q i ≡ total others m q i
unfolding total holds holds_here
total-delete_ne others pane q h i m e d =
    ground (arith, lookup-delete pane q m, bytes_eq_iff pane q)

pub total-delete-le :
    (others : Bytes → ℕ → ℕ) (pane q : Bytes) (i : ℕ) (m : Dict ℕ)
    → total others (delete pane m) q i ≤ total others m q i
unfolding total holds holds_here
total-delete-le others pane q i m = ground (arith, lookup-delete pane q m)

pub Synced-delete :
    (pane : Bytes) (held : List Bytes) (m : Dict ℕ)
    → Synced held m
    → Synced (without pane held) (delete pane m)
Synced-delete pane held m y q = elim (Bool-cases (bytes_eq pane q)) [
  | inl here ↦
      inr (rw (contains-without pane q held, here) refl, rw (lookup-delete pane q m, here) refl)
  | inr there ↦ rw (contains-without pane q held, lookup-delete pane q m, there) (y q)
]

pub Synced-insert :
    (pane : Bytes) (h : ℕ) (held : List Bytes) (m : Dict ℕ)
    → Synced held m
    → Synced (add pane held) (insert pane h m)
Synced-insert pane h held m y q = elim (Bool-cases (bytes_eq pane q)) [
  | inl here ↦
      inl (rw (contains-add pane q held, here) refl, (h, rw (lookup-insert pane q h m, here) refl))
  | inr there ↦ rw (contains-add pane q held, lookup-insert pane q h m, there) (y q)
]

pub release_none :
    (pane : Bytes) (held : Option ℕ) (s : Sizing)
    → lookup pane s.locks ≡ none
    → release_locked pane held s ≡ s
unfolding release_locked
release_none pane held s e = ground arith

pub release_some :
    (pane : Bytes) (h i : ℕ) (s : Sizing)
    → lookup pane s.locks ≡ some i
    → release_locked pane (some h) s ≡ (if h == i then release_lock pane i s else s)
unfolding release_locked is_other
release_some pane h i s e = ground arith

pub holds-zero :
    (others : Bytes → ℕ → ℕ) (m : Dict ℕ) (p : Bytes) (h : ℕ)
    → total others m p h ≡ 0
    → holds m p h ≡ 0
unfolding total
holds-zero others m p h e = omega (arith, e)

-- A lock that the viewer does not hold already.
pub holds_new :
    (pane : Bytes) (h : ℕ) (p : Pass)
    → Synced p.held p.held_locks
    → holds_already pane h p ≡ false
    → holds p.held_locks pane h ≡ 0
unfolding holds holds_here holds_already is_other
holds_new pane h p y e = elim (y pane) [
  | inl (x, (i, f)) ↦ ground arith
  | inr (x, f) ↦ ground arith
]
