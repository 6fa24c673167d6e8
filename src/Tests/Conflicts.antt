-- ===== src/Tests/Conflicts.antt =====
-- Conflicts.
use dropbox_lite.Prelude.{◌≡◌, ◌≢◌, refl, arith, codes, str_eq}
use dropbox_lite.Prelude.Int.{pos}
use dropbox_lite.Conflict.{
  ConflictInfo, generate_conflict_name, conflict_name, get_base_name, get_file_extension,
  without_dot,
}
use dropbox_lite.Conflict.FilePath.{
  join, parent_path, last_split, ends_with, stem, stem_extension, filename, extension,
}
use dropbox_lite.Conflict.Name.{generate_conflict_name_fresh}

abbrev pub clash : ConflictInfo
clash = record {
  path = codes "docs/a.txt";
  local_hash = codes "aa";
  remote_hash = codes "bb";
  local_modified_time = pos 10;
  remote_modified_time = pos 20;
  local_version = pos 2;
  remote_version = pos 3;
}

conflict_copy :
    generate_conflict_name (codes "docs/a.txt") (codes "me") (codes "now")
    ≡ codes "docs/a (conflicted copy me now).txt"
unfolding generate_conflict_name conflict_name join parent_path last_split str_eq ends_with
    get_base_name stem stem_extension filename get_file_extension without_dot extension
conflict_copy = refl

conflict_name_example :
    (filename (generate_conflict_name (codes "docs/a.txt") (codes "me") (codes "now"))
      ≡ conflict_name (codes "docs/a.txt") (codes "me") (codes "now"))
    × (generate_conflict_name (codes "docs/a.txt") (codes "me") (codes "now") ≢ codes "docs/a.txt")
conflict_name_example =
    generate_conflict_name_fresh (codes "docs/a.txt") (codes "me") (codes "now") (omega arith)
      (omega arith)
