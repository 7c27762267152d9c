-- ===== src/Scheduler/Backoff.antt =====
-- src/mellowlang/agents/scheduling/backoff.py: the settings of a retry and the delay of an attempt.
pub mod Bounds
use mellow_programming_langu.Prelude.{
  ℕ, ◌-◌, ◌*◌, ◌^◌, ◌≤◌, min, max, Option, none, some, ltb, ◌==◌, if◌then◌else◌,
}
use mellow_programming_langu.Prelude.Int.{ℤ, pos, negsuc, pos_part}
use mellow_programming_langu.Text.{Text, codes, text_eq, is_empty}

pub data Strategy : Type 0 where
  fixed exponential jitter : Strategy

-- The settings as they are given; `none` is a missing key or `None`.
pub record RawBackoff : Type 0 where
  pub strategy : Option Text
  pub initial_delay_ms : Option ℤ
  pub max_delay_ms : Option ℤ

-- The settings after `_normalize_backoff`; the percentage of the jitter is part of `Jitter`.
pub record Backoff : Type 0 where
  pub strategy : Strategy
  pub initial_delay_ms : ℕ
  pub max_delay_ms : ℕ

-- What Python's floats and generator make of a jittered delay: the bounds `int(delay * (1 - pct))`
-- and `int(delay * (1 + pct))`, and the draw of `random.randint`, which lies between its bounds.
pub record Jitter : Type 0 where
  pub low : ℕ → ℕ
  pub high : ℕ → ℕ
  pub randint : ℕ → ℕ → ℕ
  pub randint_bounds : (a b : ℕ) → a ≤ b → (a ≤ randint a b) × (randint a b ≤ b)

-- `str(raw.get('strategy') or 'fixed').lower()`, with anything unknown read as 'fixed'.
pub strategy_of : (Text → Text) → Option Text → Strategy
unfolding text_eq
strategy_of lower none = fixed
strategy_of lower (some s) =
    if is_empty s
    then fixed
    else if text_eq (lower s) (codes "exponential")
    then exponential
    else if text_eq (lower s) (codes "jitter")
    then jitter
    else fixed

-- `max(initial, int(raw or initial or 0))`
pub max_delay_of : ℕ → Option ℤ → ℕ
max_delay_of initial none = initial
max_delay_of initial (some (pos n)) = if n == 0 then initial else max initial n
max_delay_of initial (some (negsuc n)) = initial

-- `max(0, int(raw or 0))`
pub initial_delay_of : Option ℤ → ℕ
initial_delay_of none = 0
initial_delay_of (some z) = pos_part z

unfoldable pub normalize_backoff : (Text → Text) → RawBackoff → Backoff
unfolding strategy_of max_delay_of initial_delay_of
normalize_backoff lower raw = record {
  strategy = strategy_of lower raw.strategy;
  initial_delay_ms = initial_delay_of raw.initial_delay_ms;
  max_delay_ms = max_delay_of (initial_delay_of raw.initial_delay_ms) raw.max_delay_ms;
}

-- The exponential delay; `none` is the `OverflowError` of `math.pow(2, exp)` from 1024 on.
pub grown_delay : Backoff → ℕ → Option ℕ
grown_delay policy attempt =
    if ltb (attempt - 1) 1024
    then some (min (policy.initial_delay_ms * 2 ^ (attempt - 1)) policy.max_delay_ms)
    else none

pub jittered : Jitter → ℕ → ℕ
jittered j delay = j.randint (j.low delay) (max (j.low delay) (j.high delay))

-- `_compute_backoff_delay_ms` after its normalisation.
pub delay_of : Jitter → Backoff → Strategy → ℕ → Option ℕ
unfolding grown_delay jittered
delay_of j policy fixed attempt = some policy.initial_delay_ms
delay_of j policy exponential attempt = grown_delay policy attempt
delay_of j policy jitter attempt = elim (grown_delay policy attempt) [
  | none ↦ none
  | some d ↦ some (jittered j d)
]

unfoldable pub compute_backoff_delay_ms : Jitter → Backoff → ℕ → Option ℕ
unfolding delay_of
compute_backoff_delay_ms j policy attempt =
    if policy.initial_delay_ms == 0 then some 0 else delay_of j policy policy.strategy attempt
