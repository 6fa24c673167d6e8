-- ===== src/Conflict/Name.antt =====
-- The name of a conflict copy.
use dropbox_lite.Prelude.{
  ℕ, ◌+◌, ◌≤◌, ◌<◌, ◌≡◌, ◌≢◌, sym, ap, ◌∙◌, [], ◌∷◌, ◌++◌, Str, All-append, All-append_left,
  All-append_right, codes, str_eq, if◌then◌else◌, if_both, arith, length, length-append,
}
use dropbox_lite.Conflict.{
  ConflictInfo, keep_both, get_file_extension, without_dot, get_base_name, conflict_name,
  generate_conflict_name, resolve,
}
use dropbox_lite.Conflict.FilePath.{
  Lacks, filename, stem, extension, stem_extension, parent_path, filename-join, filename-Lacks,
  stem-append-extension,
}

stem-Lacks : (p : Str) → Lacks b'/' (stem p) × Lacks b'/' (extension p)
unfolding stem extension
stem-Lacks p =
    let whole = stem-append-extension (filename p) in
    let h : Lacks b'/' ((stem_extension (filename p)).0 ++ (stem_extension (filename p)).1) =
      rw whole (filename-Lacks p) in
    (
      All-append_left _ (stem_extension (filename p)).0 (stem_extension (filename p)).1 h,
      All-append_right _ (stem_extension (filename p)).0 (stem_extension (filename p)).1 h,
    )

without_dot-Lacks : (c : ℕ) (e : Str) → Lacks c e → Lacks c (without_dot e)
unfolding without_dot
without_dot-Lacks c [] h = tt
without_dot-Lacks c (x ∷ xs) h = ground arith

conflict_name-Lacks :
    (p client now : Str)
    → Lacks b'/' client
    → Lacks b'/' now
    → Lacks b'/' (conflict_name p client now)
unfolding conflict_name get_base_name get_file_extension
conflict_name-Lacks p client now hc hn =
    let L = λ (x : ℕ). x ≢ b'/' in
    let ext = without_dot (extension p) in
    let ext_h : Lacks b'/' ext = without_dot-Lacks b'/' (extension p) (stem-Lacks p).1 in
    let tail : Str = if str_eq ext [] then [] else b'.' ∷ ext in
    let tail_h : Lacks b'/' tail = if_both (Lacks b'/') (str_eq ext []) tt (omega arith, ext_h) in
    All-append L (stem p) _ (stem-Lacks p).0 (
      All-append L (codes " (conflicted copy ") _ (omega arith) (
        All-append L client _ hc (
          All-append L (codes " ") _ (omega arith)
            (All-append L now _ hn (All-append L (codes ")") tail (omega arith) tail_h)))))

length-without_dot : (e : Str) → length e < length (without_dot e) + 2
unfolding without_dot
length-without_dot [] = omega arith
length-without_dot (x ∷ xs) = ground arith

-- The copy's name is longer than the original's.
length-conflict_name :
    (p client now : Str) → length (filename p) < length (conflict_name p client now)
unfolding conflict_name get_base_name get_file_extension stem extension
length-conflict_name p client now =
    let ext = without_dot (extension p) in
    let tail : Str = if str_eq ext [] then [] else b'.' ∷ ext in
    omega (
      arith,
      ap length (stem-append-extension (filename p)),
      length-append {0} (stem p) (extension p),
      length-without_dot (extension p),
      tail_length ext,
      length-append {0} (stem p)
          (codes " (conflicted copy " ++ (client ++ (codes " " ++ (now ++ (codes ")" ++ tail))))),
      length-append {0} client (codes " " ++ (now ++ (codes ")" ++ tail))),
      length-append {0} now (codes ")" ++ tail),
    )
  where
    tail_length : (ext : Str) → length ext ≤ length (if str_eq ext [] then [] else b'.' ∷ ext)
    tail_length [] = omega arith
    tail_length (x ∷ xs) = unfold str_eq in omega arith

-- The file name of the copy is the name made for it, and the copy is never the original: keeping both
-- sides does not write one over the other. The client's name and the time have no slash.
pub generate_conflict_name_fresh :
    (p client now : Str)
    → Lacks b'/' client
    → Lacks b'/' now
    → (filename (generate_conflict_name p client now) ≡ conflict_name p client now)
      × (generate_conflict_name p client now ≢ p)
unfolding generate_conflict_name
generate_conflict_name_fresh p client now hc hn =
    let name =
      filename-join (parent_path p) (conflict_name p client now)
        (conflict_name-Lacks p client now hc hn) in
    (
      name,
      λ e.
          absurd (
            omega (arith, length-conflict_name p client now, ap length (sym name ∙ ap filename e))),
    )

-- Keeping both sides names a file other than the one in conflict.
pub resolve-keep_both :
    (info : ConflictInfo) (now : Str) → Lacks b'/' now → resolve info keep_both now ≢ info.path
unfolding resolve
resolve-keep_both info now hn =
    (generate_conflict_name_fresh info.path (codes "local") now (omega arith) hn).1
