-- ===== src/Sizing/Locks.antt =====
-- A size lock's life: acquired, released, idle, reused, stopped. sizing.go, 61-77 and 354-443.
use herdr_hive.Base.{
  ℕ, zero, suc, ◌+◌, ◌-◌, ◌%◌, ◌^◌, ◌==◌, Bool, true, false, ◌&&◌, ◌||◌, not, Option, none, some,
  List, [], ◌∷◌, if◌then◌else◌, Bytes,
}
use herdr_hive.Base.Dict.{Dict, lookup, delete}

-- A Go `int`.
pub data ℤ : Type 0 where
  pos : ℕ → ℤ
  negsuc : ℕ → ℤ

unfoldable pub increment : ℤ → ℤ
increment (pos n) = pos (suc n)
increment (negsuc zero) = pos 0
increment (negsuc (suc n)) = negsuc n

unfoldable pub decrement : ℤ → ℤ
decrement (pos zero) = negsuc 0
decrement (pos (suc n)) = pos n
decrement (negsuc n) = negsuc (suc n)

unfoldable pub is_zero : ℤ → Bool
is_zero (pos zero) = true
is_zero (pos (suc n)) = false
is_zero (negsuc n) = false

pub record Lock : Type 0 where
  pub refs : ℤ
  pub epoch : ℕ
  -- A timer is set.
  pub retire : Bool
  pub retired : Bool
  -- The channel `done` is closed: the helper has ended and has returned its slot.
  pub done : Bool

-- `heap`, `next`, `idle` and `slots` are the process's: its locks, `idleSizes` and the number of
-- helpers in `sizeSlots`. `panes` is none while the map is nil.
pub record Sizing : Type 0 where
  pub heap : ℕ → Lock
  pub next : ℕ
  pub idle : List ℕ
  pub slots : ℕ
  pub closed : Bool
  pub locks : Dict ℕ
  pub panes : Option (List Bytes)

unfoldable pub has : ℕ → List ℕ → Bool
has h [] = false
has h (i ∷ is) = h == i || has h is

unfoldable pub remove : ℕ → List ℕ → List ℕ
remove h [] = []
remove h (i ∷ is) = if h == i then remove h is else i ∷ remove h is

unfoldable pub write : (ℕ → Lock) → ℕ → Lock → ℕ → Lock
write heap h l i = if i == h then l else heap i

unfoldable pub next_epoch : ℕ → ℕ
next_epoch e = (e + 1) % 2 ^ 64

-- The helper ends and returns its slot before `done` is closed.
unfoldable pub end_helper : ℕ → Sizing → Sizing
end_helper h s =
    if (s.heap h).done
    then s
    else record s { heap = write s.heap h (record (s.heap h) { done = true }); slots = s.slots - 1 }

unfoldable pub is_lock : Bytes → ℕ → Sizing → Bool
is_lock pane h s = elim (lookup pane s.locks) [ none ↦ false | some i ↦ i == h ]

-- `l.retired = true; l.cancel()`, and the wait for `done`.
unfoldable pub cancel : ℕ → Sizing → Sizing
unfolding end_helper
cancel h s = end_helper h (record s {
  heap = write s.heap h (record (s.heap h) { retired = true });
  idle = remove h s.idle;
})

-- The epoch moves on and the timer stops.
unfoldable pub stop_timer : ℕ → Sizing → Sizing
stop_timer h s = record s {
  heap = write s.heap h (record (s.heap h) { epoch = next_epoch (s.heap h).epoch; retire = false });
}

-- The lock leaves the map, when the map still has it.
unfoldable pub forget : Bytes → ℕ → Sizing → Sizing
forget pane h s = if is_lock pane h s then record s { locks = delete pane s.locks } else s

-- `stopLocked`
unfoldable pub stop_locked : Bytes → ℕ → Sizing → Sizing
stop_locked pane h s = forget pane h (cancel h (stop_timer h s))

-- The lock has no holder left: it is stopped when its helper has ended, else idle with a timer.
unfoldable pub make_idle : Bytes → ℕ → Sizing → Sizing
make_idle pane h s = if (s.heap h).done then stop_locked pane h s else record s {
  heap = write s.heap h (record (s.heap h) { epoch = next_epoch (s.heap h).epoch; retire = true });
  idle = h ∷ remove h s.idle;
}

unfoldable pub drop_ref : ℕ → Sizing → Sizing
drop_ref h s = record s {
  heap = write s.heap h (record (s.heap h) { refs = decrement (s.heap h).refs });
}

unfoldable pub release_lock : Bytes → ℕ → Sizing → Sizing
release_lock pane h s =
    let t = drop_ref h s in if is_zero (t.heap h).refs then make_idle pane h t else t

-- `held != nil && held != l`
unfoldable pub is_other : Option ℕ → ℕ → Bool
is_other none h = false
is_other (some i) h = not (i == h)

-- `releaseLocked`
unfoldable pub release_locked : Bytes → Option ℕ → Sizing → Sizing
release_locked pane held s = elim (lookup pane s.locks) [
  | none ↦ s
  | some h ↦ if is_other held h then s else release_lock pane h s
]

-- `expire`, which a timer calls with the epoch that it was set in.
unfoldable pub expire : Bytes → ℕ → ℕ → Sizing → Sizing
expire pane h epoch s =
    if is_lock pane h s && is_zero (s.heap h).refs && (s.heap h).epoch == epoch
    then stop_locked pane h s
    else s

-- `reuseLocked`
unfoldable pub reuse_locked : Bytes → ℕ → Sizing → Sizing × Bool
reuse_locked pane h s =
    let t = record s { idle = remove h s.idle } in
    if (s.heap h).retired then (stop_locked pane h t, false) else (stop_timer h t, true)

-- `watch`, from the end of the helper on.
unfoldable pub watch : Bytes → ℕ → Sizing → Sizing
watch pane h s = if is_lock pane h s && is_zero (s.heap h).refs then stop_locked pane h s else s

-- The loops of `close` and `refreshPanesLocked` over the entries of `s.locks`.
unfoldable pub stop_each : (Bytes → Bool) → Dict ℕ → Sizing → Sizing
stop_each stops [] s = s
stop_each stops ((pane, h) ∷ locks) s =
    stop_each stops locks (if stops pane then stop_locked pane h s else s)

-- `close`
unfoldable pub close_sizing : Sizing → Sizing
close_sizing s = stop_each (λ pane. true) s.locks (record s { closed = true })
