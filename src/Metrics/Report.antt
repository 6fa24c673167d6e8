-- ===== src/Metrics/Report.antt =====
-- When the report can be made.
use dropbox_lite.Prelude.{◌≡◌, ◌≢◌, ◌↔◌, [], ◌∷◌, none, ℕ, arith}
use dropbox_lite.Prelude.Dict.{Dict}
use dropbox_lite.Metrics.{Metrics, Throughput, Format, get_bytes_per_second, rate_lines, to_string}

module _ (format : Format) where
  rate_lines_stuck :
      (ts : Dict Throughput) (now : ℕ) (s : Metrics) → rate_lines format ts now s ≡ none ↔ ts ≢ []
  unfolding rate_lines get_bytes_per_second
  rate_lines_stuck [] now s = ground arith
  rate_lines_stuck (t ∷ ts) now s = ground arith

  -- The report waits for its own mutex exactly when some throughput has been recorded.
  pub to_string-eq-none :
      (now : ℕ) (s : Metrics) → to_string format now s ≡ none ↔ s.throughput ≢ []
  unfolding to_string
  to_string-eq-none now s = ground (arith, rate_lines_stuck s.throughput now s)
