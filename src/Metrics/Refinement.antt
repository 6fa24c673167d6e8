-- ===== src/Metrics/Refinement.antt =====
-- The counters and gauges, seen as functions from names to numbers.
use dropbox_lite.Prelude.{
  ◌≡◌, refl, ap, ◌∙◌, List, [], ◌∷◌, Str, ℕ, str_eq, str_eq_iff, if◌then◌else◌, Bool-cases, inl,
  inr,
}
use dropbox_lite.Prelude.Words.{add64}
use dropbox_lite.Prelude.Int.{signed64}
use dropbox_lite.Prelude.Dict.{get, get-put}
use dropbox_lite.Metrics.{
  Metrics, empty, found_or, increment_counter, get_counter, set_gauge, get_gauge, record_latency,
  record_bytes, reset,
}

pub data Op : Type 0 where
  increment : Str → ℕ → Op
  gauge : Str → ℕ → Op
  latency : Str → ℕ → Op
  bytes : Str → ℕ → ℕ → Op
  clear : Op

abbrev pub apply : Op → Metrics → Metrics
apply (increment name value) s = increment_counter name value s
apply (gauge name value) s = set_gauge name value s
apply (latency name us) s = record_latency name us s
apply (bytes name n now) s = record_bytes name n now s
apply clear s = reset s

unfoldable pub run : List Op → Metrics → Metrics
run [] s = s
run (op ∷ ops) s = run ops (apply op s)

-- The same operations on one number: a counter adds, a gauge is set, and both forget all on a reset.
abbrev pub count_op : Str → Op → ℕ → ℕ
count_op name (increment n value) c = if str_eq n name then add64 c value else c
count_op name clear c = 0
count_op name _ c = c

abbrev pub gauge_op : Str → Op → ℕ → ℕ
gauge_op name (gauge n value) g = if str_eq n name then value else g
gauge_op name clear g = 0
gauge_op name _ g = g

unfoldable pub replay : (Op → ℕ → ℕ) → List Op → ℕ → ℕ
replay f [] n = n
replay f (op ∷ ops) n = replay f ops (f op n)

abbrev pub counter : Str → Metrics → ℕ
counter name s = found_or 0 (get s.counters name)

abbrev pub level : Str → Metrics → ℕ
level name s = found_or 0 (get s.gauges name)

counter-increment :
    (name n : Str) (value : ℕ) (s : Metrics)
    → counter name (increment_counter n value s)
      ≡ (if str_eq n name then add64 (counter name s) value else counter name s)
unfolding increment_counter
counter-increment name n value s = elim (Bool-cases (str_eq n name)) [
  | inl same ↦
      let e : n ≡ name = (str_eq_iff n name).0 same in
      rw (get-put s.counters n name (add64 (counter n s) value), same)
        (ap (λ (m : Str). add64 (counter m s) value) e)
  | inr other ↦ rw (get-put s.counters n name (add64 (counter n s) value), other)
]

level-set_gauge :
    (name n : Str) (value : ℕ) (s : Metrics)
    → level name (set_gauge n value s) ≡ (if str_eq n name then value else level name s)
unfolding set_gauge
level-set_gauge name n value s = elim (Bool-cases (str_eq n name)) [
  | inl same ↦ rw (get-put s.gauges n name value, same)
  | inr other ↦ rw (get-put s.gauges n name value, other)
]

counter-apply :
    (name : Str) (op : Op) (s : Metrics)
    → counter name (apply op s) ≡ count_op name op (counter name s)
unfolding set_gauge record_latency record_bytes reset empty get
counter-apply name (increment n value) s = counter-increment name n value s
counter-apply name (gauge n value) s = refl
counter-apply name (latency n us) s = refl
counter-apply name (bytes n b now) s = refl
counter-apply name clear s = refl

level-apply :
    (name : Str) (op : Op) (s : Metrics) → level name (apply op s) ≡ gauge_op name op (level name s)
unfolding increment_counter record_latency record_bytes reset empty get
level-apply name (increment n value) s = refl
level-apply name (gauge n value) s = level-set_gauge name n value s
level-apply name (latency n us) s = refl
level-apply name (bytes n b now) s = refl
level-apply name clear s = refl

counter-run :
    (name : Str) (ops : List Op) (s : Metrics)
    → counter name (run ops s) ≡ replay (count_op name) ops (counter name s)
unfolding run replay
counter-run name [] s = refl
counter-run name (op ∷ ops) s =
    counter-run name ops (apply op s) ∙ ap (replay (count_op name) ops) (counter-apply name op s)

level-run :
    (name : Str) (ops : List Op) (s : Metrics)
    → level name (run ops s) ≡ replay (gauge_op name) ops (level name s)
unfolding run replay
level-run name [] s = refl
level-run name (op ∷ ops) s =
    level-run name ops (apply op s) ∙ ap (replay (gauge_op name) ops) (level-apply name op s)

-- Whatever is called, in any order, a counter reads as what was added under its name since the last
-- reset, and a gauge as what it was last set to; no other operation is seen in them.
pub run_refines :
    (name : Str) (ops : List Op) (s : Metrics)
    → (get_counter name (run ops s) ≡ signed64 (replay (count_op name) ops (counter name s)))
      × (get_gauge name (run ops s) ≡ signed64 (replay (gauge_op name) ops (level name s)))
unfolding get_counter get_gauge
run_refines name ops s = (ap signed64 (counter-run name ops s), ap signed64 (level-run name ops s))
