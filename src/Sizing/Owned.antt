-- ===== src/Sizing/Owned.antt =====
-- Who holds the locks of a session: the reference counts are the numbers of the holders.
pub mod Stops
pub mod Shrinking
pub mod Counts
pub mod Holdings
pub mod Checks
pub mod Taking
pub mod Passes
use herdr_hive.Base.{
  ℕ, zero, suc, ◌+◌, ◌==◌, ◌≤◌, ◌<◌, ◌≡◌, refl, sym, ◌∙◌, ◌⊎◌, inl, inr, Bool, true, false, Option,
  none, some, List, [], ◌∷◌, if◌then◌else◌, Bytes, arith,
}
use herdr_hive.Base.Dict.{Dict, lookup}
use herdr_hive.Sizing.Locks.{ℤ, Lock, Sizing, has}
use herdr_hive.Sizing.Locks.ℤ.{pos}

unfoldable pub Entry : Bytes → ℕ → Dict ℕ → Type 0
Entry p h [] = ⊥
Entry p h ((q, i) ∷ m) = ((q ≡ p) × (i ≡ h)) ⊎ Entry p h m

-- `n pane h` viewers hold the lock `h` for the pane. A lock that the process may reclaim, or has
-- reclaimed, has no holder.
pub record Owned (n : Bytes → ℕ → ℕ) (s : Sizing) : Type 0 where
  pub counted : (p : Bytes) (h : ℕ) → lookup p s.locks ≡ some h → (s.heap h).refs ≡ pos (n p h)
  pub distinct : (p q : Bytes) (h : ℕ) → Entry p h s.locks → Entry q h s.locks → p ≡ q
  pub old : (p : Bytes) (h : ℕ) → Entry p h s.locks → h < s.next
  pub unheld : (p : Bytes) (h : ℕ) → s.next ≤ h → n p h ≡ 0
  pub idle_free : (p : Bytes) (h : ℕ) → lookup p s.locks ≡ some h → has h s.idle ≡ true → n p h ≡ 0
  pub idle_old : (h : ℕ) → has h s.idle ≡ true → h < s.next
  pub retired_free :
      (p : Bytes) (h : ℕ) → lookup p s.locks ≡ some h → (s.heap h).retired ≡ true → n p h ≡ 0

-- The viewer's map has the lock.
unfoldable pub holds_here : Option ℕ → ℕ → ℕ
holds_here none h = 0
holds_here (some i) h = if i == h then 1 else 0

unfoldable pub holds : Dict ℕ → Bytes → ℕ → ℕ
holds m p h = holds_here (lookup p m) h

-- The holders of a lock: the other viewers and the one with the map `m`.
unfoldable pub total : (Bytes → ℕ → ℕ) → Dict ℕ → Bytes → ℕ → ℕ
total others m p h = others p h + holds m p h
