-- ===== src/Delta/Identical.antt =====
-- Comparing two files by their hashes.
use dropbox_lite.Prelude.{
  ◌≡◌, refl, none, some, true, false, Bytes, Str, [], ◌∷◌, length, str_eq, str_eq_iff, arith,
}
use dropbox_lite.Hash.{Ssl, sha256}
use dropbox_lite.Hash.Hex.{sha256_form}
use dropbox_lite.Hash.Stream.{sha256_file-eq-sha256}
use dropbox_lite.Delta.{are_files_identical}

module _ (ssl : Ssl) where
  sha256-ne-nil : (d : Bytes) → str_eq (sha256 ssl d) [] ≡ false
  sha256-ne-nil d = go (sha256 ssl d) (sha256_form ssl d).0
    where
      go : (h : Str) → length h ≡ 64 → str_eq h [] ≡ false
      go [] e = absurd (omega arith)
      go (x ∷ xs) e = unfold str_eq in refl

  -- Two readable files are identical exactly when their SHA-256 agree; a file that cannot be read is
  -- identical to none, itself included.
  pub are_files_identical_lem :
      (a b : Bytes)
      → (are_files_identical ssl (some a) (some b) ≡ some (str_eq (sha256 ssl a) (sha256 ssl b)))
        × (are_files_identical ssl none (some b) ≡ some false)
        × (are_files_identical ssl (some a) none ≡ some false)
        × (are_files_identical ssl none none ≡ some false)
  unfolding are_files_identical
  are_files_identical_lem a b = (
    ground
        (arith, (sha256_file-eq-sha256 ssl a).0, (sha256_file-eq-sha256 ssl b).0, sha256-ne-nil a),
    ground (arith, (sha256_file-eq-sha256 ssl b).0, (sha256_file-eq-sha256 ssl a).1, unreadable),
    ground (
      arith,
      (sha256_file-eq-sha256 ssl a).0,
      (sha256_file-eq-sha256 ssl a).1,
      sha256-ne-nil a,
      str_eq_iff (sha256 ssl a) [],
    ),
    ground (arith, (sha256_file-eq-sha256 ssl a).1, unreadable),
  )
    where
      unreadable : str_eq [] [] ≡ true
      unreadable = unfold str_eq in refl
