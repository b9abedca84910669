-- ===== src/Update/Install.antt =====
-- `Install`, internal/update/update.go, 183-273, on the two files that it may replace.
use herdr_hive.Base.{
  Bool, true, false, not, Option, none, some, List, [], ◌∷◌, ◌++◌, if◌then◌else◌, Bytes, bytes_eq,
  codes,
}
use herdr_hive.Base.Dict.{Dict, lookup}
use herdr_hive.Update.Version.{newer}
use herdr_hive.Update.Catalog.{Release, UpdateError, Answer, ok, err, ◌>>=◌, Http, get, latest}
use herdr_hive.Update.Catalog.UpdateError.{
  panicked, staging, wrong_version, different_plugin, wrong_plugin_version, unreadable_manifest,
  renaming,
}
use herdr_hive.Update.Archive.{
  Next, max_archive, manifest_name, checked_sum, verified, bytes_of, contains_text, plugin_id,
  unpack,
}

-- What the installation directory holds: the executable and the plugin manifest. Nothing that is
-- staged stays.
pub record Installed : Type 0 where
  pub executable : Bytes
  pub manifest : Option Bytes

-- The process's surroundings. `version` runs a file with the argument `version`; the others are
-- whether a file is staged, whether the old manifest cannot be read, and whether a rename succeeds.
pub record Host : Type 0 where
  pub net : Bytes → Http
  pub json : Bytes → Option (List Release)
  pub tar : Bytes → Option (List Next)
  pub hash : Bytes → Bytes
  pub platform : Bytes
  pub version : Bytes → Answer Bytes
  pub stages : Bytes → Bool
  pub unreadable : Bool
  pub renames_manifest : Bool
  pub renames_binary : Bool

pub record Installer : Type 0 where
  pub component : Bytes
  pub api : Bytes
  pub downloads : Bytes

unfoldable pub archive_name : Host → Installer → Bytes → Bytes
archive_name h i v = i.component ++ (b'-' ∷ v) ++ (b'-' ∷ h.platform) ++ codes ".tar.gz"

-- `url.PathEscape` of `component/vN`, where only the slash is escaped.
unfoldable pub base_address : Installer → Bytes → Bytes
base_address i v = i.downloads ++ i.component ++ codes "%2Fv" ++ v ++ codes "/"

-- The files of the release, whose archive has the sum that SHA256SUMS gives.
unfoldable pub fetch_release : Host → Installer → Bytes → Answer (Dict Bytes)
fetch_release h i v = do
  sums ← get h.net (base_address i v ++ codes "SHA256SUMS") 65_536
  want ← checked_sum (archive_name h i v) sums
  received ← get h.net (base_address i v ++ archive_name h i v) max_archive
  archive ← verified h.hash want received
  unpack h.tar i.component h.platform archive

unfoldable pub staged : Host → Bytes → Answer Bytes
staged h b = if h.stages b then ok b else err staging

-- The staged binary reports the version of the tag.
unfoldable pub staged_binary : Host → Bytes → Bytes → Answer Bytes
unfolding staged
staged_binary h v b = do
  binary ← staged h b
  got ← h.version binary
  if bytes_eq got v then ok binary else err wrong_version

-- The manifest to put in place: none where there is none yet.
unfoldable pub checked_manifest : Host → Bytes → Bytes → Bytes → Answer (Option Bytes)
unfolding staged
checked_manifest h v old new =
    if not (contains_text plugin_id old)
    then err different_plugin
    else if not (contains_text (codes "version = \"" ++ v ++ codes "\"") new)
    then err wrong_plugin_version
    else do b ← staged h new; ok (some b)

unfoldable pub manifest_over : Host → Bytes → Bytes → Option Bytes → Answer (Option Bytes)
unfolding checked_manifest
manifest_over h v new none = ok none
manifest_over h v new (some old) = checked_manifest h v old new

unfoldable pub staged_manifest :
    Host → Installer → Bytes → Bytes → Option Bytes → Answer (Option Bytes)
unfolding manifest_over
staged_manifest h i v new old =
    if not (bytes_eq i.component (codes "bee"))
    then ok none
    else if h.unreadable
    then err unreadable_manifest
    else manifest_over h v new old

-- Everything that is checked before a file is replaced: the binary and the manifest.
unfoldable pub prepare : Host → Installer → Bytes → Option Bytes → Answer (Bytes × Option Bytes)
unfolding staged_binary staged_manifest
prepare h i v old = do
  files ← fetch_release h i v
  binary ← staged_binary h v (bytes_of (lookup i.component files))
  manifest ← staged_manifest h i v (bytes_of (lookup manifest_name files)) old
  ok (binary, manifest)

-- What `Install` returns, with the files after it.
pub record Result : Type 0 where
  pub files : Installed
  pub version : Bytes
  pub updated : Bool
  pub error : Option UpdateError

unfoldable pub stop : Installed → Bytes → UpdateError → Result
stop fs version e = record { files = fs; version = version; updated = false; error = some e }

unfoldable pub replace_binary : Host → Bytes → Bytes → Bytes → Installed → Result
unfolding stop
replace_binary h current v binary fs =
    if h.renames_binary
    then record {
      files = record fs { executable = binary };
      version = v;
      updated = true;
      error = none;
    }
    else stop fs current renaming

unfoldable pub replace : Host → Bytes → Bytes → Installed → Answer (Bytes × Option Bytes) → Result
unfolding stop replace_binary
replace h current v fs (err e) = stop fs current e
replace h current v fs (ok (binary, none)) = replace_binary h current v binary fs
replace h current v fs (ok (binary, some b)) =
    if h.renames_manifest
    then replace_binary h current v binary (record fs { manifest = some b })
    else stop fs current renaming

unfoldable pub decide : Host → Installer → Installed → Bytes → Bytes → Option Bool → Result
unfolding stop replace
decide h i fs current v none = stop fs current panicked
decide h i fs current v (some false) = record {
  files = fs;
  version = current;
  updated = false;
  error = none;
}
decide h i fs current v (some true) = replace h current v fs (prepare h i v fs.manifest)

unfoldable pub install_latest : Host → Installer → Installed → Bytes → Answer Bytes → Result
unfolding stop decide
install_latest h i fs current (err e) = stop fs [] e
install_latest h i fs current (ok v) = decide h i fs current v (newer v current)

unfoldable pub install_over : Host → Installer → Installed → Answer Bytes → Result
unfolding stop install_latest
install_over h i fs (err e) = stop fs [] e
install_over h i fs (ok current) =
    install_latest h i fs current (latest h.net h.json i.api i.component)

-- `Install`, with no version reported before the current one is known.
unfoldable pub install : Host → Installer → Installed → Result
unfolding install_over
install h i fs = install_over h i fs (h.version fs.executable)
