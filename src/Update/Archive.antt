-- ===== src/Update/Archive.antt =====
-- Checksums and the release archive: the lines of SHA256SUMS and `unpack`, internal/update/update.go,
-- 204-224 and 302-354. White space between the fields of a line is that of ASCII.
use herdr_hive.Base.{
  ℕ, ◌+◌, ◌==◌, Bool, true, false, ◌&&◌, ◌||◌, not, Option, none, some, List, [], ◌∷◌, ◌++◌, leb,
  if◌then◌else◌, Bytes, bytes_eq, length, codes, starts_with, drop, take,
}
use herdr_hive.Base.Dict.{Dict, lookup, insert}
use herdr_hive.Update.Version.{split}
use herdr_hive.Update.Catalog.{Answer, ok, err, ◌>>=◌}
use herdr_hive.Update.Catalog.UpdateError.{
  duplicate_checksum, bad_checksum, checksum_mismatch, bad_archive, too_many_entries, invalid_entry,
  unexpected_manifest, unexpected_path, duplicate_entry, missing_binary, missing_manifest,
}

unfoldable pub is_space : ℕ → Bool
is_space b = b == 32 || (leb 9 b && leb b 13)

-- The fields after `field`, which is read backwards.
unfoldable pub close_field : Bytes → List Bytes → List Bytes
close_field field rest = if bytes_eq field [] then rest else field ∷ rest

-- `strings.Fields`: `field` is what has been read of the current field.
unfoldable pub fields_from : Bytes → Bytes → List Bytes
unfolding close_field
fields_from field [] = close_field field []
fields_from field (b ∷ bs) =
    if is_space b then close_field field (fields_from [] bs) else fields_from (field ++ (b ∷ [])) bs

unfoldable pub fields : Bytes → List Bytes
fields line = fields_from [] line

-- The checksum that a line gives for the name.
unfoldable pub sum_for : Bytes → List Bytes → Option Bytes
sum_for name (sum ∷ file ∷ []) = if bytes_eq file name then some sum else none
sum_for name [] = none
sum_for name (x ∷ []) = none
sum_for name (x ∷ y ∷ z ∷ rest) = none

unfoldable pub next_sum : Option Bytes → Bytes → Answer Bytes
next_sum none want = ok want
next_sum (some sum) want = if bytes_eq want [] then ok sum else err duplicate_checksum

-- The loop over the lines of SHA256SUMS.
unfoldable pub find_sum : Bytes → List Bytes → Bytes → Answer Bytes
unfolding next_sum
find_sum name [] want = ok want
find_sum name (line ∷ lines) want = do
  next ← next_sum (sum_for name (fields line)) want
  find_sum name lines next

unfoldable pub is_hex : ℕ → Bool
is_hex b = leb b'0' b && leb b b'9' || leb b'a' b && leb b b'f' || leb b'A' b && leb b b'F'

unfoldable pub all_hex : Bytes → Bool
all_hex [] = true
all_hex (b ∷ bs) = is_hex b && all_hex bs

-- `hex.DecodeString` gives the 32 bytes of a SHA-256.
unfoldable pub is_sha256 : Bytes → Bool
is_sha256 want = all_hex want && length want == 64

unfoldable pub lower : ℕ → ℕ
lower b = if leb b'A' b && leb b b'Z' then b + 32 else b

-- `strings.EqualFold`, of hexadecimal digits.
unfoldable pub equal_fold : Bytes → Bytes → Bool
equal_fold [] [] = true
equal_fold [] (y ∷ ys) = false
equal_fold (x ∷ xs) [] = false
equal_fold (x ∷ xs) (y ∷ ys) = lower x == lower y && equal_fold xs ys

-- The checks of the archive against SHA256SUMS; `hash` is the sum in hexadecimal.
unfoldable pub checked_sum : Bytes → Bytes → Answer Bytes
checked_sum name sums = do
  want ← find_sum name (split 10 sums) []
  if is_sha256 want then ok want else err bad_checksum

unfoldable pub verified : (Bytes → Bytes) → Bytes → Bytes → Answer Bytes
verified hash want archive =
    if equal_fold (hash archive) want then ok archive else err checksum_mismatch

-- The kinds of archive entries that are told apart.
pub data EntryType : Type 0 where
  directory : EntryType
  regular : EntryType
  other_type : EntryType

-- A header, and what can be read of the entry; a negative size is none.
pub record Entry : Type 0 where
  pub kind : EntryType
  pub name : Bytes
  pub size : Option ℕ
  pub contents : Answer Bytes

-- What the tar reader gives next; at the end of the list it gives `io.EOF`.
pub data Next : Type 0 where
  header : Entry → Next
  torn : Next

abbrev pub max_archive : ℕ
max_archive = 67_108_864

abbrev pub manifest_name : Bytes
manifest_name = codes "herdr-plugin.toml"

unfoldable pub is_directory : EntryType → Bool
is_directory directory = true
is_directory regular = false
is_directory other_type = false

unfoldable pub is_regular : EntryType → Bool
is_regular directory = false
is_regular regular = true
is_regular other_type = false

unfoldable pub fits : Option ℕ → Bool
fits none = false
fits (some n) = leb n max_archive

-- The names that an archive may hold.
unfoldable pub allowed : Bytes → Bytes → Answer Bytes
allowed component name =
    if bytes_eq name component
      || bytes_eq name (codes "README.md")
      || bytes_eq name (codes "LICENSE")
    then ok name
    else if bytes_eq name manifest_name
    then (if bytes_eq component (codes "bee") then ok name else err unexpected_manifest)
    else err unexpected_path

unfoldable pub has_file : Option Bytes → Bool
has_file none = false
has_file (some b) = true

unfoldable pub add_file : Entry → Dict Bytes → Bytes → Answer (Dict Bytes)
unfolding has_file
add_file e files name = do
  contents ← if has_file (lookup name files) then err duplicate_entry else e.contents
  ok (insert name (take (max_archive + 1) contents) files)

unfoldable pub add_entry : Bytes → Bytes → Entry → Dict Bytes → Answer (Dict Bytes)
unfolding add_file
add_entry component prefix e files =
    if is_directory e.kind && bytes_eq e.name prefix
    then ok files
    else if not (starts_with prefix e.name) || not (is_regular e.kind) || not (fits e.size)
    then err invalid_entry
    else do name ← allowed component (drop (length prefix) e.name); add_file e files name

-- The loop over the entries.
unfoldable pub unpack_from : Bytes → Bytes → List Next → ℕ → Dict Bytes → Answer (Dict Bytes)
unfolding add_entry
unpack_from component prefix [] count files = ok files
unpack_from component prefix (torn ∷ more) count files = err bad_archive
unpack_from component prefix (header e ∷ more) count files = do
  next ← if leb 16 count then err too_many_entries else add_entry component prefix e files
  unpack_from component prefix more (count + 1) next

unfoldable pub bytes_of : Option Bytes → Bytes
bytes_of none = []
bytes_of (some b) = b

-- `strings.Contains`
unfoldable pub contains_text : Bytes → Bytes → Bool
contains_text part [] = bytes_eq part []
contains_text part (b ∷ bs) = starts_with part (b ∷ bs) || contains_text part bs

abbrev pub plugin_id : Bytes
plugin_id = codes "id = \"herdr.bee\""

unfoldable pub complete : Bytes → Dict Bytes → Answer (Dict Bytes)
complete component files =
    if bytes_eq (bytes_of (lookup component files)) []
    then err missing_binary
    else if bytes_eq component (codes "bee")
        && not (contains_text plugin_id (bytes_of (lookup manifest_name files)))
    then err missing_manifest
    else ok files

unfoldable pub unpack_entries : Bytes → Bytes → Option (List Next) → Answer (Dict Bytes)
unpack_entries component prefix none = err bad_archive
unpack_entries component prefix (some entries) = do
  files ← unpack_from component prefix entries 0 []
  complete component files

-- `unpack`; `tar` reads the compressed archive and `platform` is the system and the architecture.
unfoldable pub unpack : (Bytes → Option (List Next)) → Bytes → Bytes → Bytes → Answer (Dict Bytes)
unfolding unpack_entries
unpack tar component platform archive =
    unpack_entries component (component ++ (b'-' ∷ platform) ++ (b'/' ∷ [])) (tar archive)
