-- ===== src/Conflict/FilePath.antt =====
-- What the resolver uses of `std::filesystem::path`, on POSIX paths: the file name, its stem and its
-- extension, the parent, and `/`.
use dropbox_lite.Prelude.{
  ℕ, ◌≡◌, ◌≢◌, refl, sym, ap, append-nil, if_both, ==_iff, [], ◌∷◌, ◌++◌, Option, none, some, Bool,
  true, false, ◌&&◌, ◌||◌, Str, All, codes, str_eq, if◌then◌else◌, ◌==◌, arith, Bool-cases, inl,
  inr,
}

-- What stands before and behind the last `c`.
unfoldable pub last_split : ℕ → Str → Option (Str × Str)
last_split c [] = none
last_split c (x ∷ xs) = elim (last_split c xs) [
  | some (before, behind) ↦ some (x ∷ before, behind)
  | none ↦ if x == c then some ([], xs) else none
]

unfoldable pub ends_with : ℕ → Str → Bool
ends_with c [] = false
ends_with c (x ∷ []) = x == c
ends_with c (x ∷ y ∷ r) = ends_with c (y ∷ r)

unfoldable pub filename : Str → Str
filename p = elim (last_split b'/' p) [ none ↦ p | some (_, name) ↦ name ]

-- Without the slashes at its end.
unfoldable pub strip : Str → Str
strip [] = []
strip (x ∷ xs) = let rest = strip xs in if x == b'/' && str_eq rest [] then [] else x ∷ rest

-- The part before the file name, without the slashes between; the root keeps its slash.
unfoldable pub parent_path : Str → Str
unfolding strip
parent_path p = elim (last_split b'/' p) [
  | none ↦ []
  | some (before, _) ↦ if str_eq (strip before) [] then b'/' ∷ [] else strip before
]

-- `.` and `..`, a name without a dot, and one whose only dot leads have no extension.
unfoldable pub stem_extension : Str → Str × Str
stem_extension name =
    if str_eq name (codes ".") || str_eq name (codes "..")
    then (name, [])
    else elim (last_split b'.' name) [
      | none ↦ (name, [])
      | some (before, behind) ↦ if str_eq before [] then (name, []) else (before, b'.' ∷ behind)
    ]

unfoldable pub stem : Str → Str
stem p = (stem_extension (filename p)).0

unfoldable pub extension : Str → Str
extension p = (stem_extension (filename p)).1

-- `parent / name`, for a relative name.
unfoldable pub join : Str → Str → Str
join [] name = name
join (c ∷ cs) name = if ends_with b'/' (c ∷ cs) then (c ∷ cs) ++ name else (c ∷ cs) ++ b'/' ∷ name

abbrev pub Lacks : ℕ → Str → Type 0
Lacks c = All (λ x. x ≢ c)

pub last_split-Lacks : (c : ℕ) (xs : Str) → Lacks c xs → last_split c xs ≡ none
unfolding last_split
last_split-Lacks c [] h = refl
last_split-Lacks c (x ∷ xs) h = ground (arith, last_split-Lacks c xs h.1)

pub last_split-append :
    (c : ℕ) (xs ys : Str) → Lacks c ys → last_split c (xs ++ c ∷ ys) ≡ some (xs, ys)
unfolding last_split
last_split-append c [] ys h = ground (arith, last_split-Lacks c ys h)
last_split-append c (x ∷ xs) ys h = rw (last_split-append c xs ys h)

-- What a split gives back, put together again.
abbrev pub SplitAt : ℕ → Str → Option (Str × Str) → Type 0
SplitAt c xs none = Lacks c xs
SplitAt c xs (some (before, behind)) = (xs ≡ before ++ c ∷ behind) × Lacks c behind

cons-SplitAt :
    (c x : ℕ) (xs : Str) (r : Option (Str × Str))
    → SplitAt c xs r
    → SplitAt c (x ∷ xs) (elim r [
      | some (before, behind) ↦ some (x ∷ before, behind)
      | none ↦ if x == c then some ([], xs) else none
    ])
cons-SplitAt c x xs none h = elim (Bool-cases (x == c)) [
  | inl e ↦ rw e (ap (λ (t : ℕ). t ∷ xs) ((==_iff x c).0 e), h)
  | inr e ↦ rw e (differs e, h)
]
  where
    differs : (x == c) ≡ false → x ≢ c
    differs e p = ground arith
cons-SplitAt c x xs (some (before, behind)) h = (ap (◌∷◌ x) h.0, h.1)

pub last_split-SplitAt : (c : ℕ) (xs : Str) → SplitAt c xs (last_split c xs)
unfolding last_split
last_split-SplitAt c [] = tt
last_split-SplitAt c (x ∷ xs) = cons-SplitAt c x xs (last_split c xs) (last_split-SplitAt c xs)

last_split-ends_with :
    (c : ℕ) (p name : Str)
    → ends_with c p ≡ true
    → Lacks c name
    → (before : Str) × (last_split c (p ++ name) ≡ some (before, name))
unfolding last_split ends_with
last_split-ends_with c [] name e h = absurd (cc)
last_split-ends_with c (x ∷ []) name e h = ([], ground (arith, last_split-Lacks c name h))
last_split-ends_with c (x ∷ y ∷ r) name e h =
    let (before, split) = last_split-ends_with c (y ∷ r) name e h in (x ∷ before, rw split)

-- A name without a slash is the file name of what it is joined to.
pub filename-join : (parent name : Str) → Lacks b'/' name → filename (join parent name) ≡ name
unfolding filename join
filename-join [] name h = ground (arith, last_split-Lacks b'/' name h)
filename-join (c ∷ cs) name h = elim (Bool-cases (ends_with b'/' (c ∷ cs))) [
  | inl e ↦ ground (arith, (last_split-ends_with b'/' (c ∷ cs) name e h).1)
  | inr e ↦ ground (arith, last_split-append b'/' (c ∷ cs) name h)
]

-- A file name has no slash.
pub filename-Lacks : (p : Str) → Lacks b'/' (filename p)
unfolding filename
filename-Lacks p = go (last_split b'/' p) (last_split-SplitAt b'/' p)
  where
    go :
        (r : Option (Str × Str))
        → SplitAt b'/' p r
        → Lacks b'/' (elim r [ none ↦ p | some (_, name) ↦ name ])
    go none h = h
    go (some (before, name)) h = h.1

-- The stem and the extension are the name.
pub stem-append-extension : (name : Str) → (stem_extension name).0 ++ (stem_extension name).1 ≡ name
unfolding stem_extension
stem-append-extension name =
    if_both (λ (t : Str × Str). t.0 ++ t.1 ≡ name)
      (str_eq name (codes ".") || str_eq name (codes "..")) (append-nil name)
      (go (last_split b'.' name) (last_split-SplitAt b'.' name))
  where
    go :
        (r : Option (Str × Str))
        → SplitAt b'.' name r
        → (let t : Str × Str = elim r [
          | none ↦ (name, [])
          | some (before, behind) ↦ if str_eq before [] then (name, []) else (before, b'.' ∷ behind)
        ] in
            t.0 ++ t.1 ≡ name)
    go none h = append-nil name
    go (some (before, behind)) h =
        if_both (λ (t : Str × Str). t.0 ++ t.1 ≡ name) (str_eq before []) (append-nil name)
          (sym h.0)
