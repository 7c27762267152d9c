-- ===== src/Scheduler/Tests.antt =====
-- Delays of a doubling and of a varied policy.
use mellow_programming_langu.Prelude.{ℕ, ◌-◌, ◌*◌, ◌/◌, ◌^◌, ◌≤◌, min, max, ◌≡◌, refl, some, arith}
use mellow_programming_langu.Prelude.Int.{pos}
use mellow_programming_langu.Text.{Text, codes}
use mellow_programming_langu.Scheduler.Backoff.{
  exponential, jitter, RawBackoff, Backoff, Jitter, normalize_backoff, compute_backoff_delay_ms,
}
use mellow_programming_langu.Scheduler.Backoff.Bounds.{
  compute_backoff_delay_ms_bounds, compute_backoff_delay_ms_mono, compute_backoff_delay_ms_jitter,
}

-- Ten per cent of jitter, and a generator that draws the least number.
abbrev pub least : Jitter
least = record {
  low = λ d. d * 9 / 10;
  high = λ d. d * 11 / 10;
  randint = λ a b. a;
  randint_bounds = λ a b h. (omega arith, h);
}

abbrev keep : Text → Text
keep t = t

abbrev raw : RawBackoff
raw = record {
  strategy = some (codes "exponential");
  initial_delay_ms = some (pos 100);
  max_delay_ms = some (pos 1000);
}

abbrev pub doubling : Backoff
doubling = record { strategy = exponential; initial_delay_ms = 100; max_delay_ms = 1000 }

abbrev varied : Backoff
varied = record { strategy = jitter; initial_delay_ms = 100; max_delay_ms = 1000 }

normalized : normalize_backoff keep raw ≡ doubling
unfolding normalize_backoff
normalized = refl

compute_backoff_delay_ms_bounds_example :
    (d : ℕ) × (compute_backoff_delay_ms least (normalize_backoff keep raw) 3 ≡ some d)
    × ((normalize_backoff keep raw).initial_delay_ms ≤ d)
    × (d ≤ (normalize_backoff keep raw).max_delay_ms)
unfolding normalize_backoff
compute_backoff_delay_ms_bounds_example =
    compute_backoff_delay_ms_bounds keep raw least 3 (λ h. cc) (omega arith)

compute_backoff_delay_ms_mono_example : 200 ≤ 1000
unfolding compute_backoff_delay_ms
compute_backoff_delay_ms_mono_example =
    compute_backoff_delay_ms_mono least doubling 2 7 200 1000 refl (omega arith) refl refl

compute_backoff_delay_ms_jitter_example :
    let g = min (100 * 2 ^ (2 - 1)) 1000 in
    (g * 9 / 10 ≤ 180) × (180 ≤ max (g * 9 / 10) (g * 11 / 10))
unfolding compute_backoff_delay_ms
compute_backoff_delay_ms_jitter_example =
    compute_backoff_delay_ms_jitter least varied 2 180 refl (omega arith) refl
