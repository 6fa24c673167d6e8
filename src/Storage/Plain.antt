-- ===== src/Storage/Plain.antt =====
-- Names and paths that stay in their own directory, and the files in which the databases are kept: which
-- calls of the storage (src/server/storage_manager.cpp) leave those alone.
use dropbox_lite.Prelude.{
  ℕ, ◌≡◌, ◌≢◌, refl, sym, ap, subst, ◌∙◌, List, [], ◌∷◌, ◌++◌, Bool, false, Bytes, Str, All, codes,
  ◌==◌, if◌then◌else◌, str_eq, str_eq_iff, if_both, arith,
}
use dropbox_lite.Prelude.Int.{ℤ}
use dropbox_lite.Prelude.Dict.{Dict, get, get-put}
use dropbox_lite.Hash.{Ssl}
use dropbox_lite.Storage.{Env, Storage, has_chunk, write_chunk, store_chunk, finalize_file}
use dropbox_lite.Storage.Paths.{
  NoSlash, get_chunk_path, get_client_storage_path, get_temp_file_path, starts_with,
  get_chunk_path-ne-temp, get_temp_file_path-injective, get_temp_file_path-cancel,
}
use dropbox_lite.Storage.Elsewhere.{store_chunk-write, finalize_file-Elsewhere}

-- One component of a path, which the file system takes as it is.
pub record IsName (name : Str) : Type 0 where
  pub named : str_eq [] name ≡ false
  pub not_here : str_eq (codes ".") name ≡ false
  pub not_above : str_eq (codes "..") name ≡ false
  pub whole : All (λ c. (c ≢ b'/') × (c ≢ 0)) name

abbrev add_first : ℕ → List Str → List Str
add_first c [] = (c ∷ []) ∷ []
add_first c (n ∷ ns) = (c ∷ n) ∷ ns

unfoldable pub components : Str → List Str
components [] = [] ∷ []
components (c ∷ cs) = let rest = components cs in if c == b'/' then [] ∷ rest else add_first c rest

-- A path of names, which is none of the client's database and SQLite's files beside it.
pub record IsPlain (path : Str) : Type 0 where
  pub names : All IsName (components path)
  pub own : starts_with (codes "metadata.db") path ≡ false

-- Where a client's database is kept.
unfoldable pub db_path : Str → Str → Str
unfolding get_client_storage_path
db_path root client = get_client_storage_path root client ++ codes "/metadata.db"

pub IsName-NoSlash : (name : Str) → IsName name → NoSlash name
IsName-NoSlash name h = go name h.whole
  where
    go : (cs : Str) → All (λ c. (c ≢ b'/') × (c ≢ 0)) cs → NoSlash cs
    go [] k = tt
    go (c ∷ cs) k = (k.0.0, go cs k.1)

db_path-eq-temp :
    (root client : Str) → db_path root client ≡ get_temp_file_path root client (codes "metadata.db")
unfolding db_path get_temp_file_path
db_path-eq-temp root client = refl

-- No chunk is stored where a database is, and no plain file either.
db_path-ne-chunk : (root h c : Str) → db_path root c ≢ get_chunk_path root h
db_path-ne-chunk root h c e =
    get_chunk_path-ne-temp root h c (codes "metadata.db") (sym e ∙ db_path-eq-temp root c)

abbrev pub NotDatabase : Str → Type 0
NotDatabase path = path ≢ codes "metadata.db"

pub IsPlain-NotDatabase : (path : Str) → IsPlain path → NotDatabase path
unfolding starts_with
IsPlain-NotDatabase path h e =
    let no : starts_with (codes "metadata.db") (codes "metadata.db") ≡ false =
      subst (λ (p : Str). starts_with (codes "metadata.db") p ≡ false) e h.own in
    absurd (ground (arith, no))

db_path-ne-temp :
    (root c client path : Str)
    → NoSlash c
    → NoSlash client
    → NotDatabase path
    → db_path root c ≢ get_temp_file_path root client path
db_path-ne-temp root c client path hc hn ne e =
    let e1 = sym (db_path-eq-temp root c) ∙ e in
    let same : c ≡ client =
      get_temp_file_path-injective root c client (codes "metadata.db") path hc hn e1 in
    ne (
      get_temp_file_path-cancel root client path (codes "metadata.db")
        (sym e1 ∙ ap (λ (n : Str). get_temp_file_path root n (codes "metadata.db")) same))

-- The file of `c`'s database is as it was.
abbrev pub Untouched : Str → Storage → Storage → Type 0
Untouched c s r =
    (r.storage_root ≡ s.storage_root)
    × (get r.files (db_path s.storage_root c) ≡ get s.files (db_path s.storage_root c))

pub Untouched-trans :
    (c : Str) (s t r : Storage) → Untouched c s t → Untouched c t r → Untouched c s r
Untouched-trans c s t r (e1, f1) (e2, f2) = (
  e2 ∙ e1,
  subst (λ (root : Str). get r.files (db_path root c) ≡ get t.files (db_path root c)) e1 f2 ∙ f1,
)

write_chunk-Untouched :
    (env : Env) (c : Str) (d : Bytes) (h : Str) (s : Storage)
    → Untouched c s (write_chunk env d h s).1
unfolding write_chunk
write_chunk-Untouched env c d h s =
    let P = λ (r : Bool × Storage). Untouched c s r.1 in
    let path = get_chunk_path s.storage_root h in
    if_both P (has_chunk h s) (refl, refl)
      (if_both P (env.can_write path)
        (
          refl,
          ground (
            arith,
            get-put s.files path (db_path s.storage_root c) d,
            str_eq_iff path (db_path s.storage_root c),
            λ (e : path ≡ db_path s.storage_root c). db_path-ne-chunk s.storage_root h c (sym e),
          ),
        )
        (refl, refl))

pub store_chunk-Untouched :
    (env : Env) (client c path : Str) (i : ℤ) (d : Bytes) (h : Str) (s : Storage)
    → Untouched c s (store_chunk env client path i d h s).1
store_chunk-Untouched env client c path i d h s =
    let (files, root) = store_chunk-write env client path i d h s in
    let (root1, files1) = write_chunk-Untouched env c d h s in
    (root ∙ root1, ap (λ (f : Dict Bytes). get f (db_path s.storage_root c)) files ∙ files1)

pub finalize_file-Untouched :
    (ssl : Ssl) (env : Env) (client c path : Str) (total : ℤ) (s : Storage)
    → NoSlash c
    → NoSlash client
    → NotDatabase path
    → Untouched c s (finalize_file ssl env client path total s).1
finalize_file-Untouched ssl env client c path total s hc hn ne =
    let (root, files) = finalize_file-Elsewhere ssl env client path total s in
    (root, files (db_path s.storage_root c) (db_path-ne-temp s.storage_root c client path hc hn ne))
