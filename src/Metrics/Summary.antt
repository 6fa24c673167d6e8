-- ===== src/Metrics/Summary.antt =====
-- What the latencies of a name come to.
use dropbox_lite.Prelude.{
  ℕ, ◌+◌, ◌^◌, ◌≤◌, ◌<◌, ◌≡◌, refl, sym, ap, subst, ◌∙◌, List, [], ◌∷◌, none, some, false, Str, All,
  arith, length, ltb, if◌then◌else◌, if_both, str_eq, inl, inr, ◌⊎◌,
}
use dropbox_lite.Prelude.Words.{add64}
use dropbox_lite.Prelude.Int.{signed64, ltb_ℤ}
use dropbox_lite.Prelude.Dict.{get, get-put, get-put_self}
use dropbox_lite.Metrics.{Metrics, Latency, no_latency, found_or, add_latency, record_latency}

abbrev pub sum : List ℕ → ℕ
sum [] = 0
sum (u ∷ us) = u + sum us

abbrev pub Occurs : ℕ → List ℕ → Type 0
Occurs n [] = ⊥
Occurs n (u ∷ us) = (n ≡ u) ⊎ Occurs n us

-- `st` describes these durations.
pub record IsSummary (us : List ℕ) (st : Latency) : Type 0 where
  pub counted : st.count ≡ length us
  pub summed : st.sum_us ≡ sum us
  pub above : All (λ u. st.min_us ≤ u) us
  pub below : All (λ u. u ≤ st.max_us) us
  pub least : Occurs st.min_us us
  pub most : Occurs st.max_us us

-- Recording some durations, the last in the list first.
unfoldable pub record_all : Str → List ℕ → Metrics → Metrics
record_all name [] s = s
record_all name (u ∷ us) s = record_latency name u (record_all name us s)

All-weaken_above : (n m : ℕ) (us : List ℕ) → n ≤ m → All (λ u. m ≤ u) us → All (λ u. n ≤ u) us
All-weaken_above n m [] h a = tt
All-weaken_above n m (u ∷ us) h a = (omega arith, All-weaken_above n m us h a.1)

All-weaken_below : (n m : ℕ) (us : List ℕ) → n ≤ m → All (λ u. u ≤ n) us → All (λ u. u ≤ m) us
All-weaken_below n m [] h a = tt
All-weaken_below n m (u ∷ us) h a = (omega arith, All-weaken_below n m us h a.1)

Occurs-le-sum : (n : ℕ) (us : List ℕ) → Occurs n us → n ≤ sum us
Occurs-le-sum n [] o = absurd o
Occurs-le-sum n (u ∷ us) (inl e) = omega arith
Occurs-le-sum n (u ∷ us) (inr o) = omega (arith, Occurs-le-sum n us o)

signed_lt : (a b : ℕ) → a < 2 ^ 63 → b < 2 ^ 63 → ltb_ℤ (signed64 a) (signed64 b) ≡ ltb a b
signed_lt a b ha hb = ground arith

-- Below 2^63 nothing wraps and no pattern is negative.
add_latency-small :
    (u : ℕ) (st : Latency)
    → u < 2 ^ 63
    → st.count < 2 ^ 63
    → st.sum_us + u < 2 ^ 63
    → st.min_us < 2 ^ 63
    → st.max_us < 2 ^ 63
    → add_latency u st ≡ record {
      count = st.count + 1;
      sum_us = st.sum_us + u;
      min_us = if ltb u st.min_us then u else st.min_us;
      max_us = if ltb st.max_us u then u else st.max_us;
    }
unfolding add_latency
add_latency-small u st hu hc hs hn hx =
    let ec : add64 st.count 1 ≡ st.count + 1 = omega arith in
    let es : add64 st.sum_us u ≡ st.sum_us + u = omega arith in
    λ i. record {
      count = ec i;
      sum_us = es i;
      min_us = if signed_lt u st.min_us hu hn i then u else st.min_us;
      max_us = if signed_lt st.max_us u hx hu i then u else st.max_us;
    }

-- The first duration.
add_latency-first : (u : ℕ) → u < 2 ^ 63 → IsSummary (u ∷ []) (add_latency u no_latency)
add_latency-first u small =
    subst (IsSummary (u ∷ []))
      (sym (
        add_latency-small u no_latency small (omega arith) (omega arith) (omega arith)
          (omega arith)))
      (ground arith)

add_latency-IsSummary :
    (u : ℕ) (us : List ℕ) (st : Latency)
    → sum (u ∷ us) < 2 ^ 63
    → length (u ∷ us) < 2 ^ 63
    → IsSummary us st
    → IsSummary (u ∷ us) (add_latency u st)
add_latency-IsSummary u us st small few v =
    let lowest = Occurs-le-sum st.min_us us v.least in
    let highest = Occurs-le-sum st.max_us us v.most in
    subst (IsSummary (u ∷ us))
      (sym (
        add_latency-small u st (omega arith) (omega (arith, v.counted)) (omega (arith, v.summed))
          (omega arith) (omega arith)))
      (record {
        counted = omega (arith, v.counted);
        summed = omega (arith, v.summed);
        above = (ground arith, All-weaken_above _ st.min_us us (ground arith) v.above);
        below = (ground arith, All-weaken_below st.max_us _ us (ground arith) v.below);
        least = if_both (λ (n : ℕ). Occurs n (u ∷ us)) (ltb u st.min_us) (inl refl) (inr v.least);
        most = if_both (λ (n : ℕ). Occurs n (u ∷ us)) (ltb st.max_us u) (inl refl) (inr v.most);
      })

-- Under a name that has none yet, some durations below 2^63 microseconds in all leave their number, their
-- sum, their least and their greatest; the latencies of any other name stay as they were.
pub record_all-IsSummary :
    (name other : Str) (u : ℕ) (us : List ℕ) (s : Metrics)
    → get s.latencies name ≡ none
    → str_eq name other ≡ false
    → sum (u ∷ us) < 2 ^ 63
    → length (u ∷ us) < 2 ^ 63
    → (st : Latency) × (get (record_all name (u ∷ us) s).latencies name ≡ some st)
      × IsSummary (u ∷ us) st
      × (get (record_all name (u ∷ us) s).latencies other ≡ get s.latencies other)
unfolding record_all record_latency
record_all-IsSummary name other u [] s new ne small few = (
  add_latency u (found_or no_latency (get s.latencies name)),
  get-put_self s.latencies name _,
  rw new (add_latency-first u (omega arith)),
  rw (
    get-put s.latencies name other (add_latency u (found_or no_latency (get s.latencies name))),
    ne,
  ),
)
record_all-IsSummary name other u (u' ∷ us) s new ne small few =
    let (st, found, summary, kept) =
      record_all-IsSummary name other u' us s new ne (omega arith) (omega arith) in
    let m = (record_all name (u' ∷ us) s).latencies in
    (
      add_latency u st,
      get-put_self m name (add_latency u (found_or no_latency (get m name)))
          ∙ ap (λ o. some (add_latency u (found_or no_latency o))) found,
      add_latency-IsSummary u (u' ∷ us) st small few summary,
      get-put m name other (add_latency u (found_or no_latency (get m name))) ∙ rw ne kept,
    )
