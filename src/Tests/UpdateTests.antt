-- ===== src/Tests/UpdateTests.antt =====
-- The updates on concrete releases.
use herdr_hive.Base.{
  ◌≡◌, refl, true, false, not, Option, none, some, List, [], ◌∷◌, ◌++◌, Bytes, codes, bytes_eq,
  if◌then◌else◌, starts_with,
}
use herdr_hive.Base.Dict.{lookup, insert}
use herdr_hive.Base.Decimal.{decimal}
use herdr_hive.Update.Version.{
  is_digit, all_digits, is_numeral, prepend, split, all_numerals, is_stable, cut, greater,
  newer_parts, newer,
}
use herdr_hive.Update.Order.{later, numbers, newer-later}
use herdr_hive.Update.Catalog.{
  Release, ok, Http, reply, received, get, candidate, better, consider, best_of, page_address,
  decoded, page_of, chosen, go_on, latest_from, latest, ◌>>=◌,
}
use herdr_hive.Update.Newest.Published.{IsListed}
use herdr_hive.Update.Newest.Pages.{latest-newest}
use herdr_hive.Update.Archive.{
  Next, header, regular, manifest_name, plugin_id, checked_sum, verified, find_sum, next_sum,
  sum_for, fields, fields_from, close_field, is_space, is_sha256, all_hex, is_hex, equal_fold,
  lower, unpack, unpack_entries, unpack_from, add_entry, add_file, has_file, allowed, is_directory,
  is_regular, fits, complete, bytes_of, contains_text,
}
use herdr_hive.Update.Install.{
  Installed, Host, Installer, install, install_over, install_latest, decide, replace,
  replace_binary, prepare, staged_manifest, manifest_over, staged_binary, staged, fetch_release,
  base_address, archive_name,
}
use herdr_hive.Update.Safe.{IsSafe, install-IsSafe}

newer-later_example :
    newer (codes "1.10.0") (codes "1.9.3-rc1")
    ≡ some (
        later
          (numbers (codes "1.10.0"))
          (numbers (cut b'-' (codes "1.9.3-rc1")).0)
          (not (bytes_eq (cut b'-' (codes "1.9.3-rc1")).1 [])))
unfolding is_stable split prepend all_numerals is_numeral is_digit all_digits cut
newer-later_example = newer-later (codes "1.10.0") (codes "1.9.3-rc1") refl refl

abbrev catalog_page : List Release
catalog_page =
    record { tag = codes "bee/v1.9.3"; draft = false; prerelease = false }
    ∷ record { tag = codes "bee/v1.10.0"; draft = false; prerelease = false }
    ∷ record { tag = codes "bee/v1.11.0"; draft = true; prerelease = false }
    ∷ record { tag = codes "bee/v1.12.0"; draft = false; prerelease = true }
    ∷ record { tag = codes "hive/v2.0.0"; draft = false; prerelease = false }
    ∷ []

abbrev answers : Bytes → Http
answers address = reply 200 (codes "[]")

abbrev releases : Bytes → Option (List Release)
releases body = some catalog_page

latest-newest_example :
    (is_stable (codes "1.10.0") ≡ true)
    × IsListed (page_of answers releases (codes "https://api")) (codes "bee") (codes "1.10.0") 10 1
    × ((w : Bytes)
        → IsListed (page_of answers releases (codes "https://api")) (codes "bee") w 10 1
        → later (numbers w) (numbers (codes "1.10.0")) false ≡ false)
unfolding is_stable split prepend all_numerals is_numeral is_digit all_digits cut greater
    newer_parts newer received get candidate better consider best_of page_address decoded page_of
    chosen go_on latest_from latest ◌>>=◌ starts_with decimal
latest-newest_example =
    latest-newest answers releases (codes "https://api") (codes "bee") (codes "1.10.0") refl

-- A release whose archive passes the checks.
abbrev sum : Bytes
sum = codes "00112233445566778899aabbccddeeff00112233445566778899AABBCCDDEEFF"

abbrev served : Bytes → Http
served address = reply 200 (sum ++ codes "  bee-1.10.0-linux-amd64.tar.gz")

abbrev entry : Bytes → Bytes → Next
entry name contents = header (record {
  kind = regular;
  name = codes "bee-linux-amd64/" ++ name;
  size = some 3;
  contents = ok contents;
})

abbrev archive : Option (List Next)
archive = some (entry (codes "bee") (codes "new") ∷ entry manifest_name plugin_id ∷ [])

abbrev host : Host
host = record {
  net = served;
  json = releases;
  tar = λ b. archive;
  hash = λ b. codes "00112233445566778899aabbccddeeff00112233445566778899aabbccddeeff";
  platform = codes "linux-amd64";
  version = λ b. ok (if bytes_eq b (codes "new") then codes "1.10.0" else codes "1.9.0");
  stages = λ b. true;
  unreadable = false;
  renames_manifest = true;
  renames_binary = true;
}

abbrev installer : Installer
installer = record {
  component = codes "bee";
  api = codes "https://api";
  downloads = codes "https://downloads/";
}

abbrev installed : Installed
installed = record { executable = codes "old"; manifest = none }

-- The executable is replaced.
installs : (install host installer installed).files.executable ≡ codes "new"
unfolding is_stable split prepend all_numerals is_numeral is_digit all_digits cut greater
    newer_parts newer received get candidate better consider best_of page_address decoded page_of
    chosen go_on latest_from latest ◌>>=◌ starts_with decimal install install_over install_latest
    decide replace replace_binary prepare staged_manifest manifest_over staged_binary staged
    fetch_release base_address archive_name checked_sum verified find_sum next_sum sum_for fields
    fields_from close_field is_space is_sha256 all_hex is_hex equal_fold lower unpack unpack_entries
    unpack_from add_entry add_file has_file allowed is_directory is_regular fits complete bytes_of
    contains_text lookup insert
installs = refl

install-IsSafe_example : IsSafe host installer installed (install host installer installed)
install-IsSafe_example = install-IsSafe host installer installed
