-- ===== src/Update/Safe.antt =====
-- What `Install` puts in place of the executable: internal/update/update.go, 183-273.
use herdr_hive.Base.{
  ◌≡◌, refl, sym, subst, ap, ◌∙◌, ◌⊎◌, inl, inr, Bool, true, false, Option, none, some, Bytes,
  bytes_eq, bytes_eq→eq, if_elim, if◌then◌else◌, [],
}
use herdr_hive.Base.Dict.{Dict, lookup}
use herdr_hive.Update.Version.{is_stable, newer}
use herdr_hive.Update.Order.{later, numbers}
use herdr_hive.Update.Newest.Published.{IsListed}
use herdr_hive.Update.Newest.Pages.{latest-newest}
use herdr_hive.Update.Checked.{IsChecked, fetch_release-IsChecked}
use herdr_hive.Update.Catalog.{UpdateError, Answer, ok, err, latest, page_of}
use herdr_hive.Update.Archive.{manifest_name, bytes_of}
use herdr_hive.Update.Install.{
  Installed, Host, Installer, fetch_release, staged, staged_binary, staged_manifest, prepare,
  Result, stop, replace_binary, replace, decide, install_latest, install_over, install,
}
use herdr_hive.Update.Newest.Best.{bind_ok, ok_eq}

-- The release that took the executable's place: one that the catalog publishes with none later, newer
-- than the old version, with the binary of the archive that was checked, which reports the release's
-- version.
pub record IsUpdate (h : Host) (i : Installer) (fs : Installed) (r : Result) : Type 0 where
  pub current : Bytes
  pub files : Dict Bytes
  pub was : h.version fs.executable ≡ ok current
  pub published : IsListed (page_of h.net h.json i.api) i.component r.version 10 1
  pub no_later :
      (w : Bytes)
      → IsListed (page_of h.net h.json i.api) i.component w 10 1
      → later (numbers w) (numbers r.version) false ≡ false
  pub newest : newer r.version current ≡ some true
  pub checked : IsChecked h i r.version files
  pub binary : r.files.executable ≡ bytes_of (lookup i.component files)
  pub reports : h.version r.files.executable ≡ ok r.version

-- The update succeeds with such a release, or the executable stays as it was.
abbrev pub IsSafe : Host → Installer → Installed → Result → Type 0
IsSafe h i fs r =
    ((r.updated ≡ false) × (r.files.executable ≡ fs.executable))
    ⊎ ((r.updated ≡ true) × (r.error ≡ none) × IsUpdate h i fs r)

if_ok :
    {A : Type 0} (b : Bool) (a c : A) (e : UpdateError)
    → (if b then ok a else err e) ≡ ok c
    → (b ≡ true) × (a ≡ c)
if_ok true a c e f = (refl, ok_eq f)
if_ok false a c e f = absurd (err_ok f)
  where
    err_ok : err e ≡ ok c → ⊥
    err_ok g = cc

staged_binary-reports :
    (h : Host) (v b c : Bytes) → staged_binary h v b ≡ ok c → (c ≡ b) × (h.version c ≡ ok v)
unfolding staged_binary staged
staged_binary-reports h v b c e =
    let (x, f, g) = bind_ok (staged h b) _ c e in
    let (got, k, l) = bind_ok (h.version x) _ c g in
    let (_, p) = if_ok (h.stages b) b x _ f in
    let (q, r) = if_ok (bytes_eq got v) x c _ l in
    (sym r ∙ sym p, subst (λ z. h.version z ≡ ok v) r (k ∙ ap ok (bytes_eq→eq got v q)))

-- What is known of a binary once everything is checked.
record IsPrepared (h : Host) (i : Installer) (v binary : Bytes) : Type 0 where
  files : Dict Bytes
  checked : IsChecked h i v files
  same : binary ≡ bytes_of (lookup i.component files)
  reports : h.version binary ≡ ok v

prepare-IsPrepared :
    (h : Host) (i : Installer) (v : Bytes) (old : Option Bytes) (binary : Bytes) (m : Option Bytes)
    → prepare h i v old ≡ ok (binary, m)
    → IsPrepared h i v binary
unfolding prepare
prepare-IsPrepared h i v old binary m e =
    let (files, f, g) = bind_ok (fetch_release h i v) _ (binary, m) e in
    let (b, k, l) =
      bind_ok (staged_binary h v (bytes_of (lookup i.component files))) _ (binary, m) g in
    let (n, p, q) =
      bind_ok (staged_manifest h i v (bytes_of (lookup manifest_name files)) old) _ (binary, m) l in
    let same = ap (λ (z : Bytes × Option Bytes). z.0) (ok_eq q) in
    let r = staged_binary-reports h v (bytes_of (lookup i.component files)) b k in
    record {
      files = files;
      checked = fetch_release-IsChecked h i v files f;
      same = sym same ∙ r.0;
      reports = subst (λ z. h.version z ≡ ok v) same r.1;
    }

module _ (h : Host) (i : Installer) (fs : Installed) where
  Safe : Result → Type 0
  Safe r = IsSafe h i fs r

  stop-Safe :
      (gs : Installed) (v : Bytes) (e : UpdateError)
      → gs.executable ≡ fs.executable
      → Safe (stop gs v e)
  unfolding stop Safe
  stop-Safe gs v e x = inl (refl, x)

  module _ (current v : Bytes) (was : h.version fs.executable ≡ ok current)
      (found : latest h.net h.json i.api i.component ≡ ok v)
      (newest : newer v current ≡ some true) where
    news :
        (is_stable v ≡ true)
        × IsListed (page_of h.net h.json i.api) i.component v 10 1
        × ((w : Bytes)
            → IsListed (page_of h.net h.json i.api) i.component w 10 1
            → later (numbers w) (numbers v) false ≡ false)
    news = latest-newest h.net h.json i.api i.component v found

    replace_binary-Safe :
        (gs : Installed) (binary : Bytes)
        → gs.executable ≡ fs.executable
        → IsPrepared h i v binary
        → Safe (replace_binary h current v binary gs)
    unfolding replace_binary Safe
    replace_binary-Safe gs binary x p =
        if_elim Safe h.renames_binary _ _
          (inr (
            refl,
            refl,
            record {
              current = current;
              files = p.files;
              was = was;
              published = news.1;
              no_later = news.2;
              newest = newest;
              checked = p.checked;
              binary = p.same;
              reports = p.reports;
            },
          ))
          (stop-Safe gs current _ x)

    replace-Safe :
        (a : Answer (Bytes × Option Bytes))
        → ((binary : Bytes) (m : Option Bytes) → a ≡ ok (binary, m) → IsPrepared h i v binary)
        → Safe (replace h current v fs a)
    unfolding replace
    replace-Safe (err e) p = stop-Safe fs current e refl
    replace-Safe (ok (binary, none)) p = replace_binary-Safe fs binary refl (p binary none refl)
    replace-Safe (ok (binary, some b)) p =
        if_elim Safe h.renames_manifest _ _
          (replace_binary-Safe (record fs { manifest = some b }) binary refl
            (p binary (some b) refl))
          (stop-Safe fs current _ refl)

  decide-Safe :
      (current v : Bytes) (o : Option Bool)
      → h.version fs.executable ≡ ok current
      → latest h.net h.json i.api i.component ≡ ok v
      → newer v current ≡ o
      → Safe (decide h i fs current v o)
  unfolding decide Safe
  decide-Safe current v none w f n = stop-Safe fs current _ refl
  decide-Safe current v (some false) w f n = inl (refl, refl)
  decide-Safe current v (some true) w f n =
      replace-Safe current v w f n (prepare h i v fs.manifest)
        (λ binary m e. prepare-IsPrepared h i v fs.manifest binary m e)

  install_latest-Safe :
      (current : Bytes) (a : Answer Bytes)
      → h.version fs.executable ≡ ok current
      → latest h.net h.json i.api i.component ≡ a
      → Safe (install_latest h i fs current a)
  unfolding install_latest
  install_latest-Safe current (err e) w f = stop-Safe fs [] e refl
  install_latest-Safe current (ok v) w f = decide-Safe current v _ w f refl

  install_over-Safe :
      (a : Answer Bytes) → h.version fs.executable ≡ a → Safe (install_over h i fs a)
  unfolding install_over
  install_over-Safe (err e) w = stop-Safe fs [] e refl
  install_over-Safe (ok current) w = install_latest-Safe current _ w refl

  -- `Install` reports an update only after the executable was replaced by the binary of a release that
  -- the catalog publishes, that no published version is later than, and that `newer` finds newer than
  -- the version the old executable reports; the binary is the one in the archive at the release's
  -- address, whose SHA-256 is the one that a line of the release's SHA256SUMS gives for it, is not
  -- empty, and reports the release's version. On every other path the executable is unchanged.
  pub install-IsSafe : IsSafe h i fs (install h i fs)
  unfolding install Safe
  install-IsSafe = install_over-Safe (h.version fs.executable) refl
