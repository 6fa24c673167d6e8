-- ===== src/Prelude/Dict.antt =====
-- Maps with string keys (`std::unordered_map`, the files of a directory tree) as association lists.
use mathlib.Core.Path.{◌≡◌, refl}
use mathlib.Core.Bool.{Bool, true, false}
use mathlib.Core.Option.{Option, none, some}
use mathlib.Core.List.{List, [], ◌∷◌}
use native.Mathlib.Omega.{arith}
use dropbox_lite.Prelude.Tests.{if◌then◌else◌}
use dropbox_lite.Prelude.Text.{Str, str_eq, str_eq_iff, str_eq_self}

abbrev pub Dict {ℓ} : Type ℓ → Type ℓ
Dict V = List (Str × V)

module _ {ℓ} {V : Type ℓ} where
  unfoldable pub get : Dict V → Str → Option V
  get [] k = none
  get ((j, v) ∷ m) k = if str_eq j k then some v else get m k

  unfoldable pub put : Dict V → Str → V → Dict V
  put [] k v = (k, v) ∷ []
  put ((j, w) ∷ m) k v = let rest = put m k v in if str_eq j k then (k, v) ∷ m else (j, w) ∷ rest

  unfoldable pub has : Dict V → Str → Bool
  has [] k = false
  has ((j, v) ∷ m) k = if str_eq j k then true else has m k

  pub get-put :
      (m : Dict V) (k j : Str) (v : V)
      → get (put m k v) j ≡ (if str_eq k j then some v else get m j)
  unfolding get put
  get-put [] k j v = refl
  get-put ((i, w) ∷ m) k j v =
      ground (arith, str_eq_iff k j, str_eq_iff i k, str_eq_iff i j, get-put m k j v)

  pub has-get : (m : Dict V) (k : Str) → has m k ≡ (elim (get m k) [ none ↦ false | some v ↦ true ])
  unfolding get has
  has-get [] k = refl
  has-get ((i, w) ∷ m) k = ground (arith, has-get m k)

  pub get-put_self : (m : Dict V) (k : Str) (v : V) → get (put m k v) k ≡ some v
  get-put_self m k v = ground (arith, get-put m k k v, str_eq_self k)
