-- ===== src/Metrics.antt =====
-- Metrics and ScopedTimer (include/common/metrics.h, src/common/metrics.cpp). An `int64_t` is kept as its
-- bit pattern; the maps are read in the order of insertion; the clock counts nanoseconds. What a stream
-- makes of numbers is the argument `Format`. A mutex that its own thread holds cannot be taken again.
pub mod Summary
pub mod Refinement
pub mod Report
use dropbox_lite.Prelude.{
  ℕ, suc, ◌+◌, ◌-◌, ◌*◌, ◌/◌, ◌^◌, ◌≡◌, List, [], ◌∷◌, ◌++◌, Option, none, some, Bool, true, false,
  Str, codes, ltb, ◌==◌, ◌||◌, if◌then◌else◌,
}
use dropbox_lite.Prelude.Words.{add64}
use dropbox_lite.Prelude.Int.{ℤ, pos, signed64, ltb_ℤ}
use dropbox_lite.Prelude.Dict.{Dict, get, put}

pub record Latency : Type 0 where
  pub count : ℕ
  pub sum_us : ℕ
  pub min_us : ℕ
  pub max_us : ℕ

-- The member initialisers.
abbrev pub no_latency : Latency
no_latency = record { count = 0; sum_us = 0; min_us = 2 ^ 63 - 1; max_us = 0 }

pub record Throughput : Type 0 where
  pub total_bytes : ℕ
  pub start_time : ℕ

abbrev pub no_throughput : Throughput
no_throughput = record { total_bytes = 0; start_time = 0 }

pub record Metrics : Type 0 where
  pub counters : Dict ℕ
  pub gauges : Dict ℕ
  pub latencies : Dict Latency
  pub throughput : Dict Throughput

unfoldable pub empty : Metrics
empty = record { counters = []; gauges = []; latencies = []; throughput = [] }

-- What `operator[]` finds, and otherwise puts there.
abbrev pub found_or {ℓ} : {V : Type ℓ} → V → Option V → V
found_or v none = v
found_or v (some w) = w

unfoldable pub increment_counter : Str → ℕ → Metrics → Metrics
increment_counter name value s = record s {
  counters = put s.counters name (add64 (found_or 0 (get s.counters name)) value);
}

unfoldable pub get_counter : Str → Metrics → ℤ
get_counter name s = signed64 (found_or 0 (get s.counters name))

unfoldable pub set_gauge : Str → ℕ → Metrics → Metrics
set_gauge name value s = record s { gauges = put s.gauges name value }

unfoldable pub get_gauge : Str → Metrics → ℤ
get_gauge name s = signed64 (found_or 0 (get s.gauges name))

-- The exchange loops, which no other thread disturbs under the mutex.
unfoldable pub add_latency : ℕ → Latency → Latency
add_latency us st = record {
  count = add64 st.count 1;
  sum_us = add64 st.sum_us us;
  min_us = if ltb_ℤ (signed64 us) (signed64 st.min_us) then us else st.min_us;
  max_us = if ltb_ℤ (signed64 st.max_us) (signed64 us) then us else st.max_us;
}

unfoldable pub record_latency : Str → ℕ → Metrics → Metrics
record_latency name us s = record s {
  latencies = put s.latencies name (add_latency us (found_or no_latency (get s.latencies name)));
}

unfoldable pub add_bytes : ℕ → ℕ → Throughput → Throughput
add_bytes bytes now st = record {
  total_bytes = add64 st.total_bytes bytes;
  start_time = if st.total_bytes == 0 then now else st.start_time;
}

unfoldable pub record_bytes : Str → ℕ → ℕ → Metrics → Metrics
record_bytes name bytes now s = record s {
  throughput =
      put s.throughput name (add_bytes bytes now (found_or no_throughput (get s.throughput name)));
}

-- A quotient, which the code computes as a `double`.
pub record Rate : Type 0 where
  pub bytes : ℕ
  pub seconds : ℕ

abbrev pub no_rate : Rate
no_rate = record { bytes = 0; seconds = 1 }

abbrev pub rate_of : ℕ → Option Throughput → Rate
rate_of now none = no_rate
rate_of now (some st) =
    let elapsed = (now - st.start_time) / 1000000000 in
    if st.total_bytes == 0 || elapsed == 0
    then no_rate
    else record { bytes = st.total_bytes; seconds = elapsed }

-- `none` where the calling thread holds the mutex: it waits for itself.
unfoldable pub get_bytes_per_second : Bool → Str → ℕ → Metrics → Option Rate
get_bytes_per_second locked name now s =
    if locked then none else some (rate_of now (get s.throughput name))

unfoldable pub reset : Metrics → Metrics
reset s = empty

-- `operator<<` of an `int64_t`; of the double `sum / count`, and of a rate in MB, with two digits.
pub record Format : Type 0 where
  pub show_int : ℤ → Str
  pub show_average : ℤ → ℤ → Str
  pub show_rate : Rate → Str

module _ (format : Format) where
  open format use {show_int, show_average, show_rate}

  unfoldable pub value_lines : Dict ℕ → Str
  value_lines [] = []
  value_lines ((name, value) ∷ vs) =
      codes "  " ++ (name ++ (codes ": " ++ (show_int (signed64 value) ++ (10 ∷ value_lines vs))))

  -- " μs" in UTF-8, and the end of the line.
  abbrev us_end : Str
  us_end = 32 ∷ 206 ∷ 188 ∷ b's' ∷ 10 ∷ []

  unfoldable pub latency_lines : Dict Latency → Str
  latency_lines [] = []
  latency_lines ((name, st) ∷ ls) =
      (if ltb_ℤ (pos 0) (signed64 st.count)
        then codes "  "
          ++ (name
              ++ (codes ":"
                  ++ (10 ∷ codes "    count: "
                      ++ (show_int (signed64 st.count)
                          ++ (10 ∷ codes "    avg: "
                              ++ (show_average (signed64 st.sum_us) (signed64 st.count)
                                  ++ (us_end
                                      ++ (codes "    min: "
                                          ++ (show_int (signed64 st.min_us)
                                              ++ (us_end
                                                  ++ (codes "    max: "
                                                      ++ (show_int (signed64 st.max_us)
                                                          ++ us_end))))))))))))
        else [])
      ++ latency_lines ls

  -- The last loop asks for each rate with the mutex held.
  unfoldable pub rate_lines : Dict Throughput → ℕ → Metrics → Option Str
  rate_lines [] now s = some []
  rate_lines ((name, _) ∷ ts) now s = elim (get_bytes_per_second true name now s) [
    | none ↦ none
    | some r ↦ elim (rate_lines ts now s) [
      | none ↦ none
      | some text ↦
          some (
            codes "  " ++ (name ++ (codes ": " ++ (show_rate r ++ (codes " MB/s" ++ (10 ∷ text))))))
    ]
  ]

  -- A part of the text, with its title, if there is anything to list.
  abbrev section {ℓ} : {V : Type ℓ} → Str → Dict V → Str → Str
  section title [] lines = []
  section title (v ∷ vs) lines = 10 ∷ title ++ (codes ":" ++ (10 ∷ lines))

  unfoldable pub to_string : ℕ → Metrics → Option Str
  to_string now s = elim (rate_lines s.throughput now s) [
    | none ↦ none
    | some rates ↦ some (
        codes "=== Metrics ==="
        ++ (10 ∷ section (codes "Counters") s.counters (value_lines s.counters)
            ++ (section (codes "Gauges") s.gauges (value_lines s.gauges)
                ++ (section (codes "Latencies") s.latencies (latency_lines s.latencies)
                    ++ section (codes "Throughput") s.throughput rates))))
  ]

-- ScopedTimer: the name and the time at which it was made.
pub record ScopedTimer : Type 0 where
  pub metric_name : Str
  pub started : ℕ

unfoldable pub timer_new : Str → ℕ → ScopedTimer
timer_new metric_name now = record { metric_name = metric_name; started = now }

-- The destructor, with the duration in whole microseconds.
unfoldable pub timer_drop : ℕ → ScopedTimer → Metrics → Metrics
timer_drop now t = record_latency t.metric_name ((now - t.started) / 1000)
