-- ===== src/Enrollment/Uses.antt =====
-- Reservations and their release.
use herdr_hive.Base.{
  ◌+◌, ◌-◌, ◌≤◌, ◌<◌, ◌≡◌, refl, sym, ap, ◌∙◌, inl, inr, true, false, ◌&&◌, Option, none, some,
  List, [], ◌∷◌, ◌++◌, length-append, ltb, leb, ◌==◌, Bytes, bytes_eq, bytes_eq_iff, bytes_eq_refl,
  length, arith, Bool-cases, ap₂, ==_iff,
}
use herdr_hive.Base.Dict.{
  Dict, lookup, insert, lookup-insert, lookup-delete, length-insert, length-insert-some,
}
use herdr_hive.Enrollment.{
  max_tokens, max_keys, Token, Use, contains, count_keys, use_of, Reserved, granted, reserve_in,
  remove_key, without_key, release_in,
}

-- Every record counts its keys.
abbrev pub IsCounted : Dict Use → Type 0
IsCounted u = (id : Bytes) (v : Use) → lookup id u ≡ some v → v.uses ≡ length v.keys

contains-append : (key : Bytes) (ks : List Bytes) → contains key (ks ++ key ∷ []) ≡ true
unfolding contains
contains-append key [] = ground (arith, bytes_eq_refl key)
contains-append key (k ∷ ks) = ground (arith, contains-append key ks)

remove_key-append :
    (key : Bytes) (ks : List Bytes) → contains key ks ≡ false → remove_key key (ks ++ key ∷ []) ≡ ks
unfolding contains remove_key
remove_key-append key [] h = ground (arith, bytes_eq_refl key)
remove_key-append key (k ∷ ks) h = elim (Bool-cases (bytes_eq k key)) [
  | inl e ↦ absurd (cc (rw e at h))
  | inr e ↦ rw e (ap (λ l. k ∷ l) (remove_key-append key ks (rw e at h)))
]

without_key-append :
    (key : Bytes) (v : Use)
    → contains key v.keys ≡ false
    → without_key key (record { uses = v.uses + 1; keys = v.keys ++ key ∷ [] }) ≡ v
unfolding without_key
without_key-append key v h =
    rw (contains-append key v.keys, remove_key-append key v.keys h)
      (ap (λ n. record { uses = n; keys = v.keys }) less)
  where
    less : v.uses + 1 - 1 ≡ v.uses
    less = omega arith

granted_or : Dict Use → Reserved → Dict Use
granted_or u (granted x) = x
granted_or u _ = u

-- What a reservation that is granted has checked and written.
record Granted (t : Token) (key : Bytes) (u u' : Dict Use) : Type 0 where
  new_key : contains key (use_of (lookup t.id u)).keys ≡ false
  below : (ltb 0 t.max_uses && leb t.max_uses (use_of (lookup t.id u)).uses) ≡ false
  result :
      u'
      ≡ insert t.id
          (record {
            uses = (use_of (lookup t.id u)).uses + 1;
            keys = (use_of (lookup t.id u)).keys ++ key ∷ [];
          })
          u
  room : (leb max_tokens (length u) && (use_of (lookup t.id u)).uses == 0) ≡ false
  key_room : leb max_keys (count_keys u) ≡ false

reserve_in-Granted :
    (t : Token) (key : Bytes) (u u' : Dict Use)
    → reserve_in t key u ≡ granted u'
    → Granted t key u u'
unfolding reserve_in granted_or
reserve_in-Granted t key u u' h = elim (Bool-cases (contains key (use_of (lookup t.id u)).keys)) [
  | inl a ↦ absurd (cc (rw a at h))
  | inr a ↦ elim (Bool-cases (ltb 0 t.max_uses && leb t.max_uses (use_of (lookup t.id u)).uses)) [
    | inl b ↦ absurd (cc (rw b at (rw a at h)))
    | inr b ↦ elim (Bool-cases (leb 1024 (length u) && (use_of (lookup t.id u)).uses == 0)) [
      | inl c ↦ absurd (cc (rw c at (rw b at (rw a at h))))
      | inr c ↦ elim (Bool-cases (leb 1024 (count_keys u))) [
        | inl d ↦ absurd (cc (rw d at (rw c at (rw b at (rw a at h)))))
        | inr d ↦ record {
          new_key = a;
          below = b;
          result = sym (ap (granted_or u) (rw d at (rw c at (rw b at (rw a at h)))));
          room = c;
          key_room = d;
        }
      ]
    ]
  ]
]

no_keys : (ks : List Bytes) → 0 ≡ length ks → [] ≡ ks
no_keys [] h = refl
no_keys (k ∷ ks) h = absurd (omega (arith, h))

empty_use :
    (o : Option Use)
    → ((v : Use) → o ≡ some v → v.uses ≡ length v.keys)
    → (use_of o).uses ≡ 0
    → use_of none ≡ use_of o
unfolding use_of
empty_use none c h = refl
empty_use (some v) c h = use_eta (sym h) (no_keys v.keys (sym h ∙ c v refl))
  where
    use_eta : 0 ≡ v.uses → [] ≡ v.keys → record { uses = 0; keys = [] } ≡ v
    use_eta p q = ap₂ (λ n l. record { uses = n; keys = l }) p q

zero_uses :
    (id : Bytes) (u : Dict Use)
    → IsCounted u
    → ((use_of (lookup id u)).uses == 0) ≡ true
    → use_of none ≡ use_of (lookup id u)
zero_uses id u c e = empty_use (lookup id u) (c id) ((==_iff _ 0).0 e)

-- A record that is restored, with the others left alone.
lookup-release_in :
    (k key id : Bytes) (u u' : Dict Use)
    → IsCounted u
    → without_key key (use_of (lookup k u')) ≡ use_of (lookup k u)
    → (bytes_eq k id ≡ false → lookup id u' ≡ lookup id u)
    → use_of (lookup id (release_in k key u')) ≡ use_of (lookup id u)
unfolding release_in lookup use_of
lookup-release_in k key id u u' c w other =
    rw w (elim (Bool-cases ((use_of (lookup k u)).uses == 0)) [
      | inl z ↦ rw z (
          rw (lookup-delete k id u') (elim (Bool-cases (bytes_eq k id)) [
            | inl e ↦
                rw e (zero_uses k u c z ∙ ap (λ j. use_of (lookup j u)) ((bytes_eq_iff k id).0 e))
            | inr e ↦ rw e (ap use_of (other e))
          ]))
      | inr z ↦ rw z (
          rw (lookup-insert k id (use_of (lookup k u)) u') (elim (Bool-cases (bytes_eq k id)) [
            | inl e ↦ rw e (ap (λ j. use_of (lookup j u)) ((bytes_eq_iff k id).0 e))
            | inr e ↦ rw e (ap use_of (other e))
          ]))
    ])

-- A release right after a reservation that was granted gives every token the uses and the keys that
-- it had, if every record counted its keys.
pub release_in-reserve_in :
    (t : Token) (key id : Bytes) (u u' : Dict Use)
    → IsCounted u
    → reserve_in t key u ≡ granted u'
    → use_of (lookup id (release_in t.id key u')) ≡ use_of (lookup id u)
release_in-reserve_in t key id u u' c h =
    let g = reserve_in-Granted t key u u' h in
    let v = use_of (lookup t.id u) in
    let new : Use = record { uses = v.uses + 1; keys = v.keys ++ key ∷ [] } in
    let stands : lookup t.id u' ≡ some new =
      rw (g.result) (rw (lookup-insert t.id t.id new u, bytes_eq_refl t.id) refl) in
    let released : without_key key (use_of (lookup t.id u')) ≡ v =
      rw stands (unfold use_of in without_key-append key v g.new_key) in
    lookup-release_in t.id key id u u' c released
      (λ e. rw (g.result) (rw (lookup-insert t.id id new u, e) refl))

count_keys-insert :
    (id : Bytes) (v : Use) (u : Dict Use)
    → count_keys (insert id v u) + length (use_of (lookup id u)).keys ≡ count_keys u + length v.keys
unfolding count_keys insert lookup use_of
count_keys-insert id v [] = omega arith
count_keys-insert id v ((k, w) ∷ u) = elim (Bool-cases (bytes_eq k id)) [
  | inl e ↦ rw e (omega arith)
  | inr e ↦ rw e (omega (arith, count_keys-insert id v u))
]

length-insert-max :
    (id : Bytes) (v : Use) (u : Dict Use) (o : Option Use)
    → lookup id u ≡ o
    → length u ≤ max_tokens
    → (leb max_tokens (length u) && (use_of o).uses == 0) ≡ false
    → length (insert id v u) ≤ max_tokens
unfolding use_of
length-insert-max id v u none e h k = ground (arith, length-insert id v u)
length-insert-max id v u (some w) e h k = omega (arith, length-insert-some id v w u e)

-- The map after a granted use of the token by the key.
pub record IsReserved (t : Token) (key : Bytes) (u u' : Dict Use) : Type 0 where
  pub raised : (use_of (lookup t.id u')).uses ≡ (use_of (lookup t.id u)).uses + 1
  pub limited : 0 < t.max_uses → (use_of (lookup t.id u')).uses ≤ t.max_uses
  pub was_new : contains key (use_of (lookup t.id u)).keys ≡ false
  pub has_key : contains key (use_of (lookup t.id u')).keys ≡ true
  pub others : (id : Bytes) → bytes_eq t.id id ≡ false → lookup id u' ≡ lookup id u
  pub tokens_bounded : length u' ≤ max_tokens
  pub keys_bounded : count_keys u' ≤ max_keys

-- A use that is granted, of a token with a limit or without, is of a key that had none, writes the key
-- down, raises the count of its token by one, to at most the limit if there is one, and leaves the
-- other tokens alone. The map then has at most 1024 tokens and 1024 keys in all, as `LoadUses` wants
-- them, if it had at most 1024 tokens.
pub reserve_in_bounded :
    (t : Token) (key : Bytes) (u u' : Dict Use)
    → length u ≤ max_tokens
    → reserve_in t key u ≡ granted u'
    → IsReserved t key u u'
reserve_in_bounded t key u u' few h = rw g.result (record {
  raised = rw stands refl;
  limited = λ l. rw stands (ground (arith, g.below, l));
  was_new = g.new_key;
  has_key = rw stands (contains-append key v.keys);
  others = λ id e. rw (lookup-insert t.id id new u, e) refl;
  tokens_bounded = length-insert-max t.id new u (lookup t.id u) refl few g.room;
  keys_bounded =
      ground (arith, g.key_room, count_keys-insert t.id new u, length-append v.keys (key ∷ []));
})
  where
    g : Granted t key u u'
    g = reserve_in-Granted t key u u' h

    v : Use
    v = use_of (lookup t.id u)

    new : Use
    new = record { uses = v.uses + 1; keys = v.keys ++ key ∷ [] }

    stands : use_of (lookup t.id (insert t.id new u)) ≡ new
    stands = rw (lookup-insert t.id t.id new u, bytes_eq_refl t.id) (unfold use_of in refl)
