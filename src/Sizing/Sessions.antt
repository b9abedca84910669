-- ===== src/Sizing/Sessions.antt =====
-- A shared session with its viewers, and the steps of bee/internal/herdr/sizing.go on it: each method
-- that takes the session's mutex is one step, and so is what the process does to its helpers.
pub mod Holders
pub mod Counts
pub mod Frames
use herdr_hive.Base.{
  ℕ, zero, suc, ◌+◌, ◌≡◌, ◌<◌, Bool, true, false, Option, none, some, List, [], ◌∷◌, ◌++◌, Bytes,
  set, get_elem?,
}
use herdr_hive.Base.Dict.{Dict}
use herdr_hive.Sizing.Locks.{Lock, Sizing, has, end_helper, expire, watch, close_sizing}
use herdr_hive.Sizing.Reclaim.{reserve_size_slot}
use herdr_hive.Sizing.Panes.{Snapshot}
use herdr_hive.Sizing.View.{View}
use herdr_hive.Sizing.Acquire.{Native, reconcile, close_view}

pub record Session : Type 0 where
  pub sizing : Sizing
  pub views : List View

-- A viewer before its first frame.
abbrev pub new_view : View
new_view = record {
  active = false;
  snapshot = record { revision = 0; boot = []; tab = []; workspaces = []; panes = [] };
  catalog_seen = false;
  held = [];
  held_locks = [];
  pending = [];
  sequence = 0;
  initial = false;
  initialized = false;
  activity = 0;
  hide = [];
  requested_active = false;
}

unfoldable pub with_view : Session → ℕ → Sizing × View → Session
with_view t i r = record { sizing = r.0; views = set t.views i r.1 }

unfoldable pub reconciled : Native → Session → ℕ → View → Session
unfolding with_view
reconciled n t i v = let r = reconcile n t.sizing v in with_view t i (r.0, r.1)

pub data Step (t : Session) : Session → Type 0 where
  joins : Step t (record t { views = new_view ∷ t.views })
  reconciles :
      (n : Native) (i : ℕ) (v : View) → get_elem? t.views i ≡ some v → Step t (reconciled n t i v)
  -- A frame changes what the viewer shows and waits for, not what it holds.
  moves :
      (i : ℕ) (v w : View)
      → get_elem? t.views i ≡ some v
      → w.held ≡ v.held
      → w.held_locks ≡ v.held_locks
      → Step t (with_view t i (t.sizing, w))
  leaves :
      (i : ℕ) (v : View)
      → get_elem? t.views i ≡ some v
      → Step t (with_view t i (close_view t.sizing v))
  expires :
      (pane : Bytes) (h epoch : ℕ) → Step t (record t { sizing = expire pane h epoch t.sizing })
  watches : (pane : Bytes) (h : ℕ) → Step t (record t { sizing = watch pane h t.sizing })
  -- A helper disconnects.
  ends : (h : ℕ) → Step t (record t { sizing = end_helper h t.sizing })
  -- Another session of the process reserves a slot.
  reserves : Step t (record t { sizing = (reserve_size_slot t.sizing).0 })
  closes : Step t (record t { sizing = close_sizing t.sizing })

-- The session as it is published, with what the process has of others.
pub record IsNew (t : Session) : Type 0 where
  pub no_locks : t.sizing.locks ≡ []
  pub no_views : t.views ≡ []
  pub idle_old : (h : ℕ) → has h t.sizing.idle ≡ true → h < t.sizing.next

pub data Reachable : Session → Type 0 where
  start : (t : Session) → IsNew t → Reachable t
  step : (t u : Session) → Reachable t → Step t u → Reachable u
