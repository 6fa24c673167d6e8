-- ===== src/Conflict.antt =====
-- ConflictResolver (include/core/conflict_resolver.h, src/core/conflict_resolver.cpp). The local
-- time, in the format `%Y-%m-%d %H-%M-%S`, is an argument.
pub mod FilePath
pub mod Name
pub mod Strategy
use dropbox_lite.Prelude.{
  ℕ, ◌≡◌, List, [], ◌∷◌, ◌++◌, Bool, true, false, ◌&&◌, Str, codes, str_eq, if◌then◌else◌, ◌==◌,
  not,
}
use dropbox_lite.Prelude.Int.{ℤ, pos, ltb_ℤ}
use FilePath.{extension, stem, parent_path, join}

pub data ConflictStrategy : Type 0 where
  keep_local keep_remote keep_both manual : ConflictStrategy

pub record ConflictInfo : Type 0 where
  pub path : Str
  pub local_hash : Str
  pub remote_hash : Str
  pub local_modified_time : ℤ
  pub remote_modified_time : ℤ
  pub local_version : ℤ
  pub remote_version : ℤ

unfoldable pub has_conflict : ConflictInfo → Bool
has_conflict info =
    if str_eq info.local_hash info.remote_hash
    then false
    else ltb_ℤ (pos 0) info.local_version && ltb_ℤ (pos 0) info.remote_version

-- `ext.substr(1)` where the extension begins with a dot.
unfoldable pub without_dot : Str → Str
without_dot [] = []
without_dot (c ∷ cs) = if c == b'.' then cs else c ∷ cs

unfoldable pub get_file_extension : Str → Str
get_file_extension path = without_dot (extension path)

unfoldable pub get_base_name : Str → Str
get_base_name path = stem path

-- The name of the copy, without its directory.
unfoldable pub conflict_name : Str → Str → Str → Str
conflict_name original_path client_id now =
    let ext = get_file_extension original_path in
    get_base_name original_path
    ++ (codes " (conflicted copy "
        ++ (client_id
            ++ (codes " " ++ (now ++ (codes ")" ++ (if str_eq ext [] then [] else b'.' ∷ ext))))))

unfoldable pub generate_conflict_name : Str → Str → Str → Str
generate_conflict_name original_path client_id now =
    join (parent_path original_path) (conflict_name original_path client_id now)

unfoldable pub resolve : ConflictInfo → ConflictStrategy → Str → Str
resolve info keep_local now = info.path
resolve info keep_remote now = info.path
resolve info keep_both now = generate_conflict_name info.path (codes "local") now
resolve info manual now = []

unfoldable pub auto_resolve : ConflictInfo → ConflictStrategy
auto_resolve info =
    if ltb_ℤ info.remote_modified_time info.local_modified_time
    then keep_local
    else if ltb_ℤ info.local_modified_time info.remote_modified_time
    then keep_remote
    else keep_both
