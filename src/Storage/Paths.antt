-- ===== src/Storage/Paths.antt =====
-- Where chunks and files are stored.
use dropbox_lite.Prelude.{
  ℕ, ◌≤◌, ◌≡◌, ◌≢◌, refl, sym, ap, ◌∙◌, All, [], ◌∷◌, ◌++◌, Bool, true, false, ◌&&◌, Str, codes,
  take, length, arith, ◌==◌, append_assoc,
}

-- The first two characters of a hash name its directory.
unfoldable pub get_chunk_path : Str → Str → Str
get_chunk_path root hash = root ++ (codes "/chunks/" ++ (take 2 hash ++ (codes "/" ++ hash)))

unfoldable pub get_client_storage_path : Str → Str → Str
get_client_storage_path root client = root ++ (codes "/clients/" ++ client)

unfoldable pub get_temp_file_path : Str → Str → Str → Str
unfolding get_client_storage_path
get_temp_file_path root client filepath =
    get_client_storage_path root client ++ (codes "/" ++ filepath)

unfoldable pub starts_with : Str → Str → Bool
starts_with [] p = true
starts_with (c ∷ cs) [] = false
starts_with (c ∷ cs) (x ∷ xs) = (c == x) && starts_with cs xs

append-cancel : (xs ys zs : Str) → xs ++ ys ≡ xs ++ zs → ys ≡ zs
append-cancel [] ys zs e = e
append-cancel (x ∷ xs) ys zs e = append-cancel xs ys zs (cc)

-- Different hashes are stored at different paths.
pub get_chunk_path-injective :
    (root h k : Str)
    → 2 ≤ length h
    → 2 ≤ length k
    → get_chunk_path root h ≡ get_chunk_path root k
    → h ≡ k
unfolding get_chunk_path
get_chunk_path-injective root [] k hh hk e = absurd (omega arith)
get_chunk_path-injective root (a ∷ []) k hh hk e = absurd (omega arith)
get_chunk_path-injective root (a ∷ b ∷ h) [] hh hk e = absurd (omega arith)
get_chunk_path-injective root (a ∷ b ∷ h) (c ∷ []) hh hk e = absurd (omega arith)
get_chunk_path-injective root (a ∷ b ∷ h) (c ∷ d ∷ k) hh hk e = cc (append-cancel root _ _ e)

abbrev third : Str → ℕ
third (a ∷ b ∷ c ∷ cs) = c
third _ = 0

-- No file is stored where a chunk is.
pub get_chunk_path-ne-temp :
    (root h client filepath : Str) → get_chunk_path root h ≢ get_temp_file_path root client filepath
unfolding get_chunk_path get_temp_file_path
get_chunk_path-ne-temp root h client filepath e =
    absurd (omega (arith, ap third (append-cancel root _ _ (rw append_assoc at e))))

-- A name that is one component of a path.
abbrev pub NoSlash : Str → Type 0
NoSlash = All (λ c. c ≢ b'/')

before_slash :
    (xs ys us vs : Str) → NoSlash xs → NoSlash ys → xs ++ b'/' ∷ us ≡ ys ++ b'/' ∷ vs → xs ≡ ys
before_slash [] [] us vs hx hy e = refl
before_slash [] (y ∷ ys) us vs hx hy e = absurd (hy.0 (cc))
before_slash (x ∷ xs) [] us vs hx hy e = absurd (hx.0 (cc))
before_slash (x ∷ xs) (y ∷ ys) us vs hx hy e =
    let tails : xs ++ b'/' ∷ us ≡ ys ++ b'/' ∷ vs = cc in
    let ih = before_slash xs ys us vs hx.1 hy.1 tails in cc

-- Clients whose names have no slash share no file.
pub get_temp_file_path-injective :
    (root client c path p : Str)
    → NoSlash client
    → NoSlash c
    → get_temp_file_path root client path ≡ get_temp_file_path root c p
    → client ≡ c
unfolding get_temp_file_path get_client_storage_path
get_temp_file_path-injective root client c path p h k e =
    let tails =
      append-cancel root (codes "/clients/" ++ (client ++ (codes "/" ++ path)))
        (codes "/clients/" ++ (c ++ (codes "/" ++ p)))
        (sym (append_assoc root (codes "/clients/" ++ client) (codes "/" ++ path))
          ∙ (e ∙ append_assoc root (codes "/clients/" ++ c) (codes "/" ++ p))) in
    before_slash client c path p h k (cc)

-- A client's files with other paths are other files.
pub get_temp_file_path-cancel :
    (root client path p : Str)
    → get_temp_file_path root client path ≡ get_temp_file_path root client p
    → path ≡ p
unfolding get_temp_file_path
get_temp_file_path-cancel root client path p e =
    let dir = get_client_storage_path root client in
    append-cancel (dir ++ codes "/") path p
      (append_assoc dir (codes "/") path ∙ (e ∙ sym (append_assoc dir (codes "/") p)))
