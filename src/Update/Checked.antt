-- ===== src/Update/Checked.antt =====
-- The archive that an update comes from: internal/update/update.go, 198-228 and 302-354.
use herdr_hive.Base.{
  ℕ, ◌≡◌, refl, sym, subst, ap, ap₂, ◌∙◌, ◌⊎◌, inl, inr, true, false, Option, none, some, List, [],
  ◌∷◌, ◌++◌, map, ltb, Bytes, bytes_eq, bytes_eq→eq, codes, length, arith, Bool-cases, ◌==◌, ==_iff,
}
use herdr_hive.Base.Dict.{Dict, lookup}
use herdr_hive.Update.Version.{split}
use herdr_hive.Update.Catalog.{ok, Http, broken, reply, received, get}
use herdr_hive.Update.Archive.{
  Next, max_archive, fields, sum_for, next_sum, find_sum, is_sha256, checked_sum, lower, equal_fold,
  verified, bytes_of, complete, unpack_from, unpack_entries, unpack,
}
use herdr_hive.Update.Install.{Host, Installer, archive_name, base_address, fetch_release}
use herdr_hive.Update.Newest.Best.{bind_ok, ok_eq}

-- A line of the list gives `sum` for `name`.
unfoldable pub IsLine : Bytes → Bytes → List Bytes → Type 0
IsLine name sum [] = ⊥
IsLine name sum (line ∷ lines) = (fields line ≡ sum ∷ name ∷ []) ⊎ IsLine name sum lines

-- The files of release `v`: they were unpacked from the archive that its address serves, whose
-- SHA-256 is the one that the release's SHA256SUMS lists for it, in digits of either case.
pub record IsChecked (h : Host) (i : Installer) (v : Bytes) (files : Dict Bytes) : Type 0 where
  pub sums : Bytes
  pub sum : Bytes
  pub archive : Bytes
  pub sums_served : h.net (base_address i v ++ codes "SHA256SUMS") ≡ reply 200 sums
  pub sum_listed : IsLine (archive_name h i v) sum (split 10 sums)
  pub sum_length : length sum ≡ 64
  pub archive_served : h.net (base_address i v ++ archive_name h i v) ≡ reply 200 archive
  pub matches : map lower (h.hash archive) ≡ map lower sum
  pub unpacked : unpack h.tar i.component h.platform archive ≡ ok files
  pub not_empty : bytes_eq (bytes_of (lookup i.component files)) [] ≡ false

received-ok : (limit : ℕ) (a : Http) (b : Bytes) → received limit a ≡ ok b → a ≡ reply 200 b
unfolding received
received-ok limit broken b e = cc
received-ok limit (reply status body) b e = elim (Bool-cases (status == 200)) [
  | inr bad ↦ absurd (cc (rw bad at e))
  | inl good ↦ elim (Bool-cases (ltb limit (length body))) [
    | inl long ↦ absurd (cc (rw long at (rw good at e)))
    | inr fits ↦
        ap₂ (λ s c. reply s c) ((==_iff status 200).0 good) (ok_eq (rw fits at (rw good at e)))
  ]
]

sum_for-some :
    (name sum : Bytes) (fs : List Bytes) → sum_for name fs ≡ some sum → fs ≡ sum ∷ name ∷ []
unfolding sum_for
sum_for-some name sum [] e = cc
sum_for-some name sum (x ∷ []) e = cc
sum_for-some name sum (x ∷ y ∷ z ∷ rest) e = cc
sum_for-some name sum (x ∷ y ∷ []) e = elim (Bool-cases (bytes_eq y name)) [
  | inl same ↦ ap₂ (λ a b. a ∷ b ∷ []) (some_sum (rw same at e)) (bytes_eq→eq y name same)
  | inr other ↦ absurd (cc (rw other at e))
]
  where
    some_sum : some x ≡ some sum → x ≡ sum
    some_sum f = cc

next_sum-ok :
    (o : Option Bytes) (want next : Bytes)
    → next_sum o want ≡ ok next
    → (next ≡ want) ⊎ (o ≡ some next)
unfolding next_sum
next_sum-ok none want next e = inl (sym (ok_eq e))
next_sum-ok (some s) want next e = elim (Bool-cases (bytes_eq want [])) [
  | inl first ↦ inr (ap some (ok_eq (rw first at e)))
  | inr again ↦ absurd (cc (rw again at e))
]

find_sum-IsLine :
    (name : Bytes) (lines : List Bytes) (want sum : Bytes)
    → find_sum name lines want ≡ ok sum
    → (sum ≡ want) ⊎ IsLine name sum lines
unfolding find_sum IsLine
find_sum-IsLine name [] want sum e = inl (sym (ok_eq e))
find_sum-IsLine name (line ∷ lines) want sum e =
    let (next, f, g) = bind_ok (next_sum (sum_for name (fields line)) want) _ sum e in
    elim (find_sum-IsLine name lines next sum g) [
      | inr x ↦ inr (inr x)
      | inl same ↦ elim (next_sum-ok (sum_for name (fields line)) want next f) [
        | inl x ↦ inl (same ∙ x)
        | inr x ↦ inr (inl (sum_for-some name sum (fields line) (x ∙ ap some (sym same))))
      ]
    ]

checked_sum-IsLine :
    (name sums sum : Bytes)
    → checked_sum name sums ≡ ok sum
    → IsLine name sum (split 10 sums) × (length sum ≡ 64)
unfolding checked_sum is_sha256
checked_sum-IsLine name sums sum e =
    let (want, f, g) = bind_ok (find_sum name (split 10 sums) []) _ sum e in
    elim (Bool-cases (is_sha256 want)) [
      | inr bad ↦ absurd (cc (rw bad at g))
      | inl good ↦
          let same = ok_eq (rw good at g) in
          let size : length sum ≡ 64 = subst (λ z. length z ≡ 64) same (ground arith) in
          elim (find_sum-IsLine name (split 10 sums) [] sum (f ∙ ap ok same)) [
            | inl empty ↦ absurd (omega (arith, size, ap length empty))
            | inr x ↦ (x, size)
          ]
    ]

equal_fold-map : (xs ys : Bytes) → equal_fold xs ys ≡ true → map lower xs ≡ map lower ys
unfolding equal_fold
equal_fold-map [] [] e = refl
equal_fold-map [] (y ∷ ys) e = cc
equal_fold-map (x ∷ xs) [] e = cc
equal_fold-map (x ∷ xs) (y ∷ ys) e =
    ap₂ (λ a b. a ∷ b) (ground arith) (equal_fold-map xs ys (ground arith))

verified-ok :
    (hash : Bytes → Bytes) (want archive a : Bytes)
    → verified hash want archive ≡ ok a
    → (archive ≡ a) × (map lower (hash archive) ≡ map lower want)
unfolding verified
verified-ok hash want archive a e = elim (Bool-cases (equal_fold (hash archive) want)) [
  | inl good ↦ (ok_eq (rw good at e), equal_fold-map _ _ good)
  | inr bad ↦ absurd (cc (rw bad at e))
]

complete-ok :
    (component : Bytes) (files got : Dict Bytes)
    → complete component files ≡ ok got
    → bytes_eq (bytes_of (lookup component got)) [] ≡ false
unfolding complete
complete-ok component files got e =
    elim (Bool-cases (bytes_eq (bytes_of (lookup component files)) [])) [
      | inl missing ↦ absurd (cc (rw missing at e))
      | inr there ↦ subst (λ m. bytes_eq (bytes_of (lookup component m)) [] ≡ false) (whole e) there
    ]
  where
    whole : complete component files ≡ ok got → files ≡ got
    whole f = ground (arith)

unpack-ok :
    (tar : Bytes → Option (List Next)) (component platform archive : Bytes) (files : Dict Bytes)
    → unpack tar component platform archive ≡ ok files
    → bytes_eq (bytes_of (lookup component files)) [] ≡ false
unfolding unpack
unpack-ok tar component platform archive files e = entries (tar archive) e
  where
    entries :
        (o : Option (List Next))
        → unpack_entries component (component ++ (b'-' ∷ platform) ++ (b'/' ∷ [])) o ≡ ok files
        → bytes_eq (bytes_of (lookup component files)) [] ≡ false
    entries none f = unfold unpack_entries in cc
    entries (some ns) f =
        unfold unpack_entries in
        let (got, g, k) = bind_ok (unpack_from component _ ns 0 []) _ files f in
        complete-ok component got files k

pub fetch_release-IsChecked :
    (h : Host) (i : Installer) (v : Bytes) (files : Dict Bytes)
    → fetch_release h i v ≡ ok files
    → IsChecked h i v files
unfolding fetch_release get
fetch_release-IsChecked h i v files e =
    let name = archive_name h i v in
    let (sums, a, e1) =
      bind_ok (get h.net (base_address i v ++ codes "SHA256SUMS") 65_536) _ files e in
    let (want, b, e2) = bind_ok (checked_sum name sums) _ files e1 in
    let (got, c, e3) = bind_ok (get h.net (base_address i v ++ name) max_archive) _ files e2 in
    let (archive, d, e4) = bind_ok (verified h.hash want got) _ files e3 in
    let line = checked_sum-IsLine name sums want b in
    let good = verified-ok h.hash want got archive d in
    record {
      sums = sums;
      sum = want;
      archive = got;
      sums_served = received-ok 65_536 _ sums a;
      sum_listed = line.0;
      sum_length = line.1;
      archive_served = received-ok max_archive _ got c;
      matches = good.1;
      unpacked = ap (unpack h.tar i.component h.platform) good.0 ∙ e4;
      not_empty = unpack-ok h.tar i.component h.platform archive files e4;
    }
