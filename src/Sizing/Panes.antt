-- ===== src/Sizing/Panes.antt =====
-- Which panes the session has: `snapshotLocked` and `refreshPanesLocked`, sizing.go, 82-94 and
-- 445-515.
use herdr_hive.Base.{
  ℕ, Bool, true, false, ◌&&◌, ◌||◌, not, ◌==◌, Option, none, some, List, [], ◌∷◌, if◌then◌else◌,
  Bytes, bytes_eq, length,
}
use herdr_hive.Base.Dict.{Dict}
use herdr_hive.Sizing.Locks.{Sizing, stop_each}

pub record Pane : Type 0 where
  pub id : Bytes
  pub tab : Bytes

pub record Workspace : Type 0 where
  pub id : Bytes
  pub tab : Bytes

-- `shellSnapshot`
pub record Snapshot : Type 0 where
  pub revision : ℕ
  pub boot : Bytes
  pub tab : Bytes
  pub workspaces : List Workspace
  pub panes : List Pane

-- `StreamFailure` by its code, and the other errors; `native_error` is one of an external call.
pub data SizeError : Type 0 where
  binding_closed : SizeError
  navigation_timeout : SizeError
  sizing_limit : SizeError
  sizing_unavailable : SizeError
  cancelled : SizeError
  native_protocol : SizeError
  native_error : Bytes → SizeError

pub data Answer {ℓ} (A : Type ℓ) : Type ℓ where
  ok : A → Answer A
  err : SizeError → Answer A

unfoldable pub contains : Bytes → List Bytes → Bool
contains k [] = false
contains k (j ∷ js) = bytes_eq j k || contains k js

-- `m[k] = true`
unfoldable pub add : Bytes → List Bytes → List Bytes
add k js = if contains k js then js else k ∷ js

-- The set of a list of names.
unfoldable pub set_of : List Bytes → List Bytes
set_of [] = []
set_of (k ∷ ks) = add k (set_of ks)

unfoldable pub pane_ids : List Pane → List Bytes
pane_ids [] = []
pane_ids (p ∷ ps) = p.id ∷ pane_ids ps

unfoldable pub all_in : List Bytes → List Bytes → Bool
all_in [] set = true
all_in (k ∷ ks) set = contains k set && all_in ks set

unfoldable pub covers : List Bytes → Dict ℕ → Bool
covers set [] = true
covers set ((pane, h) ∷ locks) = contains pane set && covers set locks

-- `refreshPanesLocked`, with the answer to `pane.list`.
unfoldable pub refresh_panes : Answer (List Bytes) → Sizing → Sizing × Option SizeError
refresh_panes (err e) s = (s, some e)
refresh_panes (ok listed) s =
    let panes = set_of listed in
    (stop_each (λ pane. not (contains pane panes)) s.locks (record s { panes = some panes }), none)

-- The session has this membership already.
unfoldable pub is_same : Option (List Bytes) → List Pane → Bool
is_same none panes = false
is_same (some set) panes = length set == length panes && all_in (pane_ids panes) set

-- `s.panes` is nil, and the locks are all of panes in the snapshot.
unfoldable pub is_initial : Option (List Bytes) → List Bytes → Dict ℕ → Bool
is_initial (some set) initial locks = false
is_initial none initial locks = covers initial locks

-- `snapshotLocked`, with the answer to a `pane.list` that it may ask for.
unfoldable pub snapshot_locked : Answer (List Bytes) → Snapshot → Sizing → Sizing × Option SizeError
snapshot_locked answer snapshot s =
    if bytes_eq snapshot.boot []
    then (s, none)
    else if is_same s.panes snapshot.panes
    then (s, none)
    else if is_initial s.panes (set_of (pane_ids snapshot.panes)) s.locks
    then (record s { panes = some (set_of (pane_ids snapshot.panes)) }, none)
    else refresh_panes answer s
