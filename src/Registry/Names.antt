-- ===== src/Registry/Names.antt =====
-- What `Name` guarantees: names are unique, stable, bounded, and those of the file.
use herdr_hive.Base.{
  ◌≤◌, ◌≡◌, ◌≢◌, refl, sym, ap, ◌∙◌, inl, inr, Bool, true, false, some, leb, leb→lt, Bytes,
  bytes_eq, bytes_eq_refl, length, arith, Option-cases,
}
use herdr_hive.Base.Dict.{lookup, insert, length-insert, length-delete-le}
use herdr_hive.Registry.Search.{find_name_total, find_agree}
use herdr_hive.Registry.{
  Registry, max_names, is_used, Named, named, full, unsaved, stuck, roll_back, is_new, assign,
  name_device, value_of,
}
use herdr_hive.Registry.Assign.{
  IsUnique, SameMap, unused_owner, insert-IsUnique, roll_back-SameMap, SameMap-IsUnique,
  length-insert_known, lookup-insert_self, is_used-insert, HasRoom, assign_cases,
}

-- A call assigns the free name that its search returns.
found : (r : Registry) (owner wanted : Bytes) → Bytes
found r owner wanted = (find_name_total owner r.names wanted).0

name_device-found :
    (r : Registry) (owner wanted : Bytes) (saved : Bool)
    → name_device r owner wanted saved ≡ assign r owner saved (some (found r owner wanted))
unfolding name_device found
name_device-found r owner wanted saved = rw (find_name_total owner r.names wanted).1

found_free :
    (r : Registry) (owner wanted : Bytes) → is_used owner (found r owner wanted) r.names ≡ false
unfolding found
found_free r owner wanted = (find_name_total owner r.names wanted).2

module _ (r : Registry) (owner wanted : Bytes) (saved : Bool) where
  -- Names that are unique before a call are unique after it, whichever way the call ends.
  pub name_device-IsUnique : IsUnique r.names → IsUnique (name_device r owner wanted saved).0.names
  name_device-IsUnique u = rw (name_device-found r owner wanted saved) (
      assign_cases (λ x. IsUnique x.0.names) r owner (found r owner wanted) saved (λ _. u)
        (λ _ _. u) (λ _. insert-IsUnique owner _ r.names (found_free r owner wanted) u)
        (λ _. SameMap-IsUnique _ _ (roll_back-SameMap owner _ r.names) u))

  -- A file that holds the entries of the map before a call holds those of the map after it, be it that
  -- the name could not be saved.
  pub name_device-SameMap :
      SameMap r.file r.names
      → SameMap (name_device r owner wanted saved).0.file (name_device r owner wanted saved).0.names
  name_device-SameMap s = rw (name_device-found r owner wanted saved) (
      assign_cases (λ x. SameMap x.0.file x.0.names) r owner (found r owner wanted) saved (λ _. s)
        (λ _ _. s) (λ _ k. refl) (λ _ k. s k ∙ sym (roll_back-SameMap owner _ r.names k)))

  bounded_insert :
      (name : Bytes)
      → length r.names ≤ max_names
      → HasRoom r owner
      → length (insert owner name r.names) ≤ max_names
  bounded_insert name b room = elim (Option-cases (lookup owner r.names)) [
    | inl e ↦
        let below : leb max_names (length r.names) ≡ false = unfold is_new in rw e at room in
        omega (arith, leb→lt max_names (length r.names) below, length-insert owner name r.names)
    | inr (w, e) ↦ omega (arith, length-insert_known owner name w r.names e)
  ]

  -- A map of at most 1024 names has at most 1024 names after the call.
  pub name_device_bounded :
      length r.names ≤ max_names → length (name_device r owner wanted saved).0.names ≤ max_names
  name_device_bounded b = rw (name_device-found r owner wanted saved) (
      assign_cases (λ x. length x.0.names ≤ max_names) r owner (found r owner wanted) saved (λ _. b)
        (λ _ _. b) (bounded_insert _ b) (rolled _))
    where
      rolled :
          (name : Bytes)
          → HasRoom r owner
          → length (roll_back owner (lookup owner r.names) (insert owner name r.names)) ≤ max_names
      rolled name room = elim (Option-cases (lookup owner r.names)) [
        | inl e ↦ rw e (
            unfold roll_back in
            omega (
              arith,
              length-delete-le owner (insert owner name r.names),
              bounded_insert name b room,
            ))
        | inr (w, e) ↦ rw e (
            unfold roll_back in
            omega (
              arith,
              length-insert_known owner w name (insert owner name r.names)
                  (lookup-insert_self owner name r.names),
              bounded_insert name b room,
            ))
      ]

assign_known :
    (r : Registry) (owner name : Bytes) (saved : Bool)
    → bytes_eq (value_of (lookup owner r.names)) name ≡ true
    → assign r owner saved (some name) ≡ (r, named name)
unfolding assign
assign_known r owner name saved h = rw h

-- Where a call that gave a name leaves the registry.
abbrev Settled : Registry → Bytes → Bytes → Registry × Named → Type 0
Settled r owner name (r', named got) =
    (got ≡ name)
    × (bytes_eq (value_of (lookup owner r'.names)) name ≡ true)
    × ((x : Bytes) → is_used owner x r.names ≡ is_used owner x r'.names)
Settled r owner name (r', full) = Unit {0}
Settled r owner name (r', unsaved _) = Unit {0}
Settled r owner name (r', stuck) = ⊥

name_device-Settled :
    (r : Registry) (owner wanted : Bytes) (saved : Bool)
    → Settled r owner (found r owner wanted) (name_device r owner wanted saved)
name_device-Settled r owner wanted saved =
    let name = found r owner wanted in
    rw (name_device-found r owner wanted saved) (
      assign_cases (Settled r owner name) r owner name saved (λ e. (refl, e, λ x. refl)) (λ _ _. tt)
        (λ _. (refl, stored name, λ x. sym (is_used-insert owner name x r.names))) (λ _. tt))
  where
    stored :
        (name : Bytes) → bytes_eq (value_of (lookup owner (insert owner name r.names))) name ≡ true
    stored name = rw (lookup-insert_self owner name r.names) (unfold value_of in bytes_eq_refl name)

found_agree :
    (r r' : Registry) (owner wanted : Bytes)
    → ((x : Bytes) → is_used owner x r.names ≡ is_used owner x r'.names)
    → found r owner wanted ≡ found r' owner wanted
unfolding found
found_agree r r' owner wanted alike =
    find_agree owner r.names r'.names wanted alike _ _ 2 wanted _ _
      (find_name_total owner r.names wanted).1 (find_name_total owner r'.names wanted).1

-- A device that asks again for the name it wanted is given the same name, and nothing changes,
-- whether or not the file could be written this time.
pub name_device_stable :
    (r r' : Registry) (owner wanted name : Bytes) (saved again : Bool)
    → name_device r owner wanted saved ≡ (r', named name)
    → name_device r' owner wanted again ≡ (r', named name)
name_device_stable r r' owner wanted name saved again h =
    let s : Settled r owner (found r owner wanted) (r', named name) =
      rw h at (name_device-Settled r owner wanted saved) in
    let same = sym (found_agree r r' owner wanted s.2) ∙ sym s.0 in
    name_device-found r' owner wanted again
    ∙ rw same (assign_known r' owner name again (rw (← s.0) at s.1))

-- What `Settled` says of the answer itself.
abbrev Answers : Registry → Bytes → Named → Type 0
Answers r' owner out =
    (out ≢ stuck)
    × ((name k : Bytes) → out ≡ named name → lookup k r'.names ≡ some name → k ≡ owner)

Settled-Answers :
    (r r' : Registry) (owner wanted : Bytes) (out : Named)
    → Settled r owner (found r owner wanted) (r', out)
    → Answers r' owner out
Settled-Answers r r' owner wanted (named got) s = (
  λ e. cc,
  λ name k e h.
      let free : is_used owner got r'.names ≡ false =
        sym (s.2 got) ∙ ap (λ x. is_used owner x r.names) s.0 ∙ found_free r owner wanted in
      unused_owner owner got k r'.names free (cc),
)
Settled-Answers r r' owner wanted full s = (λ e. cc, λ name k e h. cc)
Settled-Answers r r' owner wanted (unsaved _) s = (λ e. cc, λ name k e h. cc)
Settled-Answers r r' owner wanted stuck s = absurd s

-- A call never runs out of the fuel of its search for a free name.
pub name_device_answers :
    (r : Registry) (owner wanted : Bytes) (saved : Bool)
    → (name_device r owner wanted saved).1 ≢ stuck
name_device_answers r owner wanted saved =
    (Settled-Answers r (name_device r owner wanted saved).0 owner wanted _
      (name_device-Settled r owner wanted saved)).0

-- A name that is given belongs to nobody but the owner in the map that the call leaves.
pub name_device_owner :
    (r r' : Registry) (owner wanted name k : Bytes) (saved : Bool)
    → name_device r owner wanted saved ≡ (r', named name)
    → lookup k r'.names ≡ some name
    → k ≡ owner
name_device_owner r r' owner wanted name k saved h e =
    (Settled-Answers r r' owner wanted (named name)
        (rw h at (name_device-Settled r owner wanted saved))).1
      name k refl e
