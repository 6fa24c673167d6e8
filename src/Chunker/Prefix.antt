-- ===== src/Chunker/Prefix.antt =====
-- Where two buffers begin alike they are cut alike.
use mathlib.Core.List.{flatten}
use dropbox_lite.Prelude.{
  ℕ, ◌+◌, ◌-◌, ◌≤◌, ◌<◌, ◌≡◌, refl, sym, ap, ◌∙◌, List, [], ◌∷◌, ◌++◌, Bytes, All, length, ltb,
  arith, length-append, Bool-cases, inl, inr,
}
use dropbox_lite.Hash.Rolling
use dropbox_lite.Hash.Rolling.{RollingHash}
use dropbox_lite.Chunker.{k_max_chunk_size}
use dropbox_lite.Chunker.Partition.{InLimits, lengths, pieces-InLimits, flatten-pieces}
use dropbox_lite.Chunker.Pieces.{cut, fresh, split, pieces, split-cut, split-keep}

-- The first piece has all that was read before it.
split-first :
    (r : RollingHash) (current rest : Bytes) (p : Bytes) (ps : List Bytes)
    → split r current rest ≡ p ∷ ps
    → length current < length p
split-first r current [] p ps e = absurd (unfold split in cc (e))
split-first r current (b ∷ []) p ps e =
    let e' : (current ++ b ∷ []) ∷ [] ≡ p ∷ ps = unfold split in e in
    let first : current ++ b ∷ [] ≡ p = cc in
    omega (arith, length-append {0} current (b ∷ []), ap length first)
split-first r current (b ∷ c ∷ rest) p ps e =
    let r' = Rolling.append r b in
    let current' = current ++ b ∷ [] in
    elim (Bool-cases (cut r' (length current'))) [
      | inl here ↦
          let e' : current' ∷ split fresh [] (c ∷ rest) ≡ p ∷ ps =
            sym (split-cut r current b c rest here) ∙ e in
          let first : current' ≡ p = cc in
          omega (arith, length-append {0} current (b ∷ []), ap length first)
      | inr on ↦
          let later =
            split-first r' current' (c ∷ rest) p ps (sym (split-keep r current b c rest on) ∙ e) in
          omega (arith, length-append {0} current (b ∷ []), later)
    ]

-- Pieces that end within the common beginning of two buffers are pieces of both.
split_prefix :
    (r : RollingHash) (current x y z : Bytes) (ps qs : List Bytes)
    → split r current (x ++ y) ≡ ps ++ qs
    → length (flatten ps) < length current + length x
    → (qs' : List Bytes) × (split r current (x ++ z) ≡ ps ++ qs')
unfolding flatten
split_prefix r current x y z [] qs e h = (split r current (x ++ z), refl)
split_prefix r current [] y z (p ∷ ps) qs e h =
    absurd
      (omega (arith, split-first r current y p (ps ++ qs) e, length-append {0} p (flatten ps), h))
split_prefix r current (b ∷ []) y z (p ∷ ps) qs e h = absurd (
    omega
      (arith, split-first r current (b ∷ y) p (ps ++ qs) e, length-append {0} p (flatten ps), h))
split_prefix r current (b ∷ c ∷ x) y z (p ∷ ps) qs e h =
    let r' = Rolling.append r b in
    let current' = current ++ b ∷ [] in
    let long = length-append {0} current (b ∷ []) in
    elim (Bool-cases (cut r' (length current'))) [
      | inl here ↦
          let e' : current' ∷ split fresh [] (c ∷ (x ++ y)) ≡ p ∷ (ps ++ qs) =
            sym (split-cut r current b c (x ++ y) here) ∙ e in
          let first : current' ≡ p = cc in
          let others : split fresh [] (c ∷ (x ++ y)) ≡ ps ++ qs = cc in
          let (qs', same) =
            split_prefix fresh [] (c ∷ x) y z ps qs others
              (omega (arith, long, ap length first, length-append {0} p (flatten ps), h)) in
          (
            qs',
            split-cut r current b c (x ++ z) here
                ∙ (ap (◌∷◌ current') same ∙ ap (λ (q : Bytes). q ∷ (ps ++ qs')) first),
          )
      | inr on ↦
          let (qs', same) =
            split_prefix r' current' (c ∷ x) y z (p ∷ ps) qs
              (sym (split-keep r current b c (x ++ y) on) ∙ e) (omega (arith, long, h)) in
          (qs', split-keep r current b c (x ++ z) on ∙ same)
    ]

-- Of pieces of at most `m` bytes, those that end before a position leave less than one piece before it.
reach :
    (m : ℕ) (ps : List Bytes) (n : ℕ)
    → All (λ p. length p ≤ m) ps
    → 0 < n
    → n ≤ length (flatten ps)
    → (us vs : List Bytes) × (ps ≡ us ++ vs)
      × (length (flatten us) < n)
      × (n ≤ length (flatten us) + m)
unfolding flatten
reach m [] n h some_bytes fits = absurd (omega arith)
reach m (p ∷ ps) n h some_bytes fits = elim (Bool-cases (ltb (length p) n)) [
  | inl within ↦
      let (us, vs, e, before, near) =
        reach m ps (n - length p) h.1 (ground arith)
          (ground (arith, length-append {0} p (flatten ps))) in
      (
        p ∷ us,
        vs,
        ap (◌∷◌ p) e,
        ground (arith, length-append {0} p (flatten us)),
        ground (arith, length-append {0} p (flatten us)),
      )
  | inr past ↦ ([], p ∷ ps, refl, some_bytes, ground (arith, h.0))
]

InLimits-max : (ps : List Bytes) → InLimits (lengths ps) → All (λ p. length p ≤ k_max_chunk_size) ps
InLimits-max [] h = tt
InLimits-max (p ∷ []) h = (h.1, tt)
InLimits-max (p ∷ q ∷ ps) h = (h.1, InLimits-max (q ∷ ps) h.2)

-- Two buffers that begin alike have their first pieces in common, up to less than one piece before they part.
pub pieces_prefix :
    (x y z : Bytes)
    → (ps qs qs' : List Bytes) × (pieces (x ++ y) ≡ ps ++ qs)
      × (pieces (x ++ z) ≡ ps ++ qs')
      × (length x ≤ length (flatten ps) + k_max_chunk_size)
unfolding pieces
pieces_prefix [] y z = ([], split fresh [] y, split fresh [] z, refl, refl, omega arith)
pieces_prefix (b ∷ x) y z =
    let whole = b ∷ x in
    let all = ap length (flatten-pieces (whole ++ y)) in
    let (ps, qs, e, before, near) =
      reach k_max_chunk_size (pieces (whole ++ y)) (length whole)
        (InLimits-max (pieces (whole ++ y)) (pieces-InLimits (whole ++ y))) (omega arith)
        (omega (arith, all, length-append {0} whole y)) in
    let (qs', e') = split_prefix fresh [] whole y z ps qs e (omega (arith, before)) in
    (ps, qs, qs', e, e', near)
