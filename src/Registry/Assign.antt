-- ===== src/Registry/Assign.antt =====
-- The four ends of `assign`, and what insertion and roll-back do to the names.
use herdr_hive.Base.{
  ◌≤◌, ◌≡◌, sym, ◌∙◌, inl, inr, Bool, true, false, ◌&&◌, none, some, [], ◌∷◌, leb, leb→le, Bytes,
  bytes_eq, bytes_eq_iff, bytes_eq_refl, length, arith, Bool-cases, Option-cases, if_elim,
}
use herdr_hive.Base.Dict.{Dict, lookup, insert, lookup-insert, lookup-delete}
use herdr_hive.Registry.{
  Registry, max_names, is_used, Named, named, full, unsaved, roll_back, is_new, assign, value_of,
}

-- No two owners have one name.
abbrev pub IsUnique : Dict Bytes → Type 0
IsUnique names = (j k v : Bytes) → lookup j names ≡ some v → lookup k names ≡ some v → j ≡ k

-- Two maps with the same entries.
abbrev pub SameMap : Dict Bytes → Dict Bytes → Type 0
SameMap m n = (k : Bytes) → lookup k m ≡ lookup k n

pub unused_owner :
    (owner name k : Bytes) (m : Dict Bytes)
    → is_used owner name m ≡ false
    → lookup k m ≡ some name
    → k ≡ owner
unfolding is_used lookup
unused_owner owner name k [] h e = cc
unused_owner owner name k ((j, v) ∷ m) h e = ground (
  arith,
  bytes_eq_iff j owner,
  bytes_eq_iff v name,
  bytes_eq_iff j k,
  unused_owner owner name k m,
)

pub insert-IsUnique :
    (owner name : Bytes) (m : Dict Bytes)
    → is_used owner name m ≡ false
    → IsUnique m
    → IsUnique (insert owner name m)
insert-IsUnique owner name m free u j k v hj hk = ground (
  arith,
  bytes_eq_iff owner j,
  bytes_eq_iff owner k,
  lookup-insert owner j name m,
  lookup-insert owner k name m,
  unused_owner owner name j m free,
  unused_owner owner name k m free,
  u j k v,
)

pub roll_back-SameMap :
    (owner name : Bytes) (m : Dict Bytes)
    → SameMap (roll_back owner (lookup owner m) (insert owner name m)) m
roll_back-SameMap owner name m k = elim (Option-cases (lookup owner m)) [
  | inl e ↦ rw e (
      unfold roll_back in
      ground (
        arith,
        bytes_eq_iff owner k,
        lookup-insert owner k name m,
        lookup-delete owner k (insert owner name m),
      ))
  | inr (old, e) ↦ rw e (
      unfold roll_back in
      ground (
        arith,
        bytes_eq_iff owner k,
        lookup-insert owner k name m,
        lookup-insert owner k old (insert owner name m),
      ))
]

pub SameMap-IsUnique : (m n : Dict Bytes) → SameMap m n → IsUnique n → IsUnique m
SameMap-IsUnique m n s u j k v hj hk = u j k v (sym (s j) ∙ hj) (sym (s k) ∙ hk)

pub length-insert_known :
    (k v w : Bytes) (m : Dict Bytes) → lookup k m ≡ some w → length (insert k v m) ≡ length m
unfolding lookup insert
length-insert_known k v w [] h = cc
length-insert_known k v w ((j, x) ∷ m) h = ground (arith, length-insert_known k v w m)

pub lookup-insert_self : (k v : Bytes) (m : Dict Bytes) → lookup k (insert k v m) ≡ some v
lookup-insert_self k v m = rw (lookup-insert k k v m, bytes_eq_refl k)

pub is_used-insert :
    (owner name x : Bytes) (m : Dict Bytes)
    → is_used owner x (insert owner name m) ≡ is_used owner x m
unfolding is_used insert
is_used-insert owner name x [] = ground (arith, bytes_eq_refl owner)
is_used-insert owner name x ((k, v) ∷ m) =
    ground (arith, bytes_eq_iff k owner, bytes_eq_refl owner, is_used-insert owner name x m)

-- There is room for the owner: it has an entry, or the map is below its limit.
abbrev pub HasRoom : Registry → Bytes → Type 0
HasRoom r owner = (is_new (lookup owner r.names) && leb max_names (length r.names)) ≡ false

-- The four ends of a call that found the free name `name`.
pub assign_cases {ℓ} :
    (P : Registry × Named → Type ℓ) (r : Registry) (owner name : Bytes) (saved : Bool)
    → (bytes_eq (value_of (lookup owner r.names)) name ≡ true → P (r, named name))
    → (lookup owner r.names ≡ none → max_names ≤ length r.names → P (r, full))
    → (HasRoom r owner
        → P (
          record { names = insert owner name r.names; file = insert owner name r.names },
          named name,
        ))
    → (HasRoom r owner
        → P (
          record r { names = roll_back owner (lookup owner r.names) (insert owner name r.names) },
          unsaved name,
        ))
    → P (assign r owner saved (some name))
unfolding assign
assign_cases P r owner name saved known none_left stored rolled =
    elim (Bool-cases (bytes_eq (value_of (lookup owner r.names)) name)) [
      | inl e ↦ rw e (known e)
      | inr e ↦
          elim (Bool-cases (is_new (lookup owner r.names) && leb max_names (length r.names))) [
            | inl f ↦
                rw e
                  (rw f (none_left (missing f) (leb→le max_names (length r.names) (ground arith))))
            | inr f ↦ rw e (rw f (if_elim P saved _ _ (stored f) (rolled f)))
          ]
    ]
  where
    missing :
        (is_new (lookup owner r.names) && leb max_names (length r.names)) ≡ true
        → lookup owner r.names ≡ none
    missing f = unfold is_new in ground arith
