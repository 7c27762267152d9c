-- ===== src/Scheduler/Backoff/Bounds.antt =====
-- Bounds of the delays of src/mellowlang/agents/scheduling/backoff.py.
use native.Mathlib.Nat.{one-le-pow, pow-le-pow_right}
use mellow_programming_langu.Prelude.{
  ℕ, ◌-◌, ◌*◌, ◌^◌, ◌≤◌, ◌<◌, min, max, ◌≡◌, refl, ap, ◌≢◌, inl, inr, Option, none, some, arith,
  ltb, ◌==◌, if◌then◌else◌, Bool-cases,
}
use mellow_programming_langu.Prelude.Int.{ℤ, pos, negsuc}
use mellow_programming_langu.Text.{Text}
use mellow_programming_langu.Scheduler.Backoff.{
  Strategy, fixed, exponential, jitter, RawBackoff, Backoff, Jitter, normalize_backoff,
  max_delay_of, initial_delay_of, grown_delay, jittered, delay_of, compute_backoff_delay_ms,
}

-- Settings whose largest delay is at least the first one.
abbrev pub IsOrdered : Backoff → Type 0
IsOrdered b = b.initial_delay_ms ≤ b.max_delay_ms

le-max_delay_of : (initial : ℕ) (raw : Option ℤ) → initial ≤ max_delay_of initial raw
unfolding max_delay_of
le-max_delay_of initial none = omega arith
le-max_delay_of initial (some (pos n)) = ground arith
le-max_delay_of initial (some (negsuc n)) = omega arith

pub normalize_backoff-IsOrdered :
    (lower : Text → Text) (raw : RawBackoff) → IsOrdered (normalize_backoff lower raw)
unfolding normalize_backoff
normalize_backoff-IsOrdered lower raw =
    le-max_delay_of (initial_delay_of raw.initial_delay_ms) raw.max_delay_ms

-- The exponential delay, where it is there.
growth : Backoff → ℕ → ℕ
growth b attempt = min (b.initial_delay_ms * 2 ^ (attempt - 1)) b.max_delay_ms

le-times : (i p : ℕ) → 1 ≤ p → i ≤ i * p
le-times i p h = grind arith

times_mono : (i p q : ℕ) → p ≤ q → i * p ≤ i * q
times_mono i p q h = grind arith

growth_bounds :
    (b : Backoff) (attempt : ℕ)
    → IsOrdered b
    → (b.initial_delay_ms ≤ growth b attempt) × (growth b attempt ≤ b.max_delay_ms)
unfolding growth
growth_bounds b attempt ordered =
    let h =
      le-times b.initial_delay_ms (2 ^ (attempt - 1)) (one-le-pow (attempt - 1) 2 (omega arith)) in
    (omega arith, omega arith)

growth-le : (b : Backoff) (attempt : ℕ) → growth b attempt ≤ b.max_delay_ms
unfolding growth
growth-le b attempt = omega arith

growth_mono : (b : Backoff) (n m : ℕ) → n ≤ m → growth b n ≤ growth b m
unfolding growth
growth_mono b n m h =
    let two_pos : 0 < 2 = omega arith in
    let p : 2 ^ (n - 1) ≤ 2 ^ (m - 1) = pow-le-pow_right two_pos (omega arith) in
    let q = times_mono b.initial_delay_ms (2 ^ (n - 1)) (2 ^ (m - 1)) p in omega arith

grown_delay-growth :
    (b : Backoff) (attempt : ℕ)
    → grown_delay b attempt ≡ (if ltb (attempt - 1) 1024 then some (growth b attempt) else none)
unfolding grown_delay growth
grown_delay-growth b attempt = refl

delay_of_bounds :
    (j : Jitter) (b : Backoff) (s : Strategy) (attempt : ℕ)
    → s ≢ jitter
    → attempt ≤ 1024
    → IsOrdered b
    → (d : ℕ) × (delay_of j b s attempt ≡ some d) × (b.initial_delay_ms ≤ d) × (d ≤ b.max_delay_ms)
unfolding delay_of
delay_of_bounds j b fixed attempt h fits ordered = (b.initial_delay_ms, refl, omega arith, ordered)
delay_of_bounds j b exponential attempt h fits ordered =
    let (low, high) = growth_bounds b attempt ordered in
    (growth b attempt, ground (arith, grown_delay-growth b attempt), low, high)
delay_of_bounds j b jitter attempt h fits ordered = absurd (h refl)

delay_bounds :
    (j : Jitter) (b : Backoff) (attempt : ℕ)
    → b.strategy ≢ jitter
    → attempt ≤ 1024
    → IsOrdered b
    → (d : ℕ) × (compute_backoff_delay_ms j b attempt ≡ some d)
      × (b.initial_delay_ms ≤ d)
      × (d ≤ b.max_delay_ms)
unfolding compute_backoff_delay_ms
delay_bounds j b attempt h fits ordered = elim (Bool-cases (b.initial_delay_ms == 0)) [
  | inl e ↦ (0, rw e, ground arith, omega arith)
  | inr e ↦
      let (d, p, low, high) = delay_of_bounds j b b.strategy attempt h fits ordered in
      (d, rw e p, low, high)
]

delay_of_exponential :
    (j : Jitter) (b : Backoff) (attempt : ℕ)
    → delay_of j b exponential attempt ≡ grown_delay b attempt
unfolding delay_of
delay_of_exponential j b attempt = refl

delay_of_jitter :
    (j : Jitter) (b : Backoff) (attempt : ℕ)
    → delay_of j b jitter attempt
      ≡ (if ltb (attempt - 1) 1024 then some (jittered j (growth b attempt)) else none)
unfolding delay_of
delay_of_jitter j b attempt = ground (arith, grown_delay-growth b attempt)

jittered_bounds :
    (j : Jitter) (g : ℕ) → (j.low g ≤ jittered j g) × (jittered j g ≤ max (j.low g) (j.high g))
unfolding jittered
jittered_bounds j g = j.randint_bounds (j.low g) (max (j.low g) (j.high g)) (omega arith)

jitter_delay :
    (j : Jitter) (b : Backoff) (attempt d : ℕ)
    → b.strategy ≡ jitter
    → 0 < b.initial_delay_ms
    → compute_backoff_delay_ms j b attempt ≡ some d
    → jittered j (growth b attempt) ≡ d
unfolding compute_backoff_delay_ms
jitter_delay j b attempt d s first h =
    ground (arith, ap (λ (t : Strategy). delay_of j b t attempt) s, delay_of_jitter j b attempt)

exponential_delay :
    (j : Jitter) (b : Backoff) (attempt d : ℕ)
    → b.strategy ≡ exponential
    → compute_backoff_delay_ms j b attempt ≡ some d
    → (if b.initial_delay_ms == 0 then 0 else growth b attempt) ≡ d
unfolding compute_backoff_delay_ms
exponential_delay j b attempt d s h = ground (
  arith,
  ap (λ (t : Strategy). delay_of j b t attempt) s,
  delay_of_exponential j b attempt,
  grown_delay-growth b attempt,
)

-- A delay without jitter lies between the first and the largest delay of the settings, and is there
-- for every attempt up to the 1024th, whatever the settings that were given.
pub compute_backoff_delay_ms_bounds :
    (lower : Text → Text) (raw : RawBackoff) (j : Jitter) (attempt : ℕ)
    → (normalize_backoff lower raw).strategy ≢ jitter
    → attempt ≤ 1024
    → (d : ℕ) × (compute_backoff_delay_ms j (normalize_backoff lower raw) attempt ≡ some d)
      × ((normalize_backoff lower raw).initial_delay_ms ≤ d)
      × (d ≤ (normalize_backoff lower raw).max_delay_ms)
compute_backoff_delay_ms_bounds lower raw j attempt h fits =
    delay_bounds j (normalize_backoff lower raw) attempt h fits
      (normalize_backoff-IsOrdered lower raw)

-- With exponential settings a later attempt waits at least as long.
pub compute_backoff_delay_ms_mono :
    (j : Jitter) (b : Backoff) (n m d e : ℕ)
    → b.strategy ≡ exponential
    → n ≤ m
    → compute_backoff_delay_ms j b n ≡ some d
    → compute_backoff_delay_ms j b m ≡ some e
    → d ≤ e
compute_backoff_delay_ms_mono j b n m d e s h p q =
    ground
      (arith, exponential_delay j b n d s p, exponential_delay j b m e s q, growth_mono b n m h)

-- With jitter as the strategy and a first delay above zero, a delay lies between the two bounds that
-- the jitter sets around the doubled delay of its attempt, cut at the largest delay of the settings.
pub compute_backoff_delay_ms_jitter :
    (j : Jitter) (b : Backoff) (attempt d : ℕ)
    → b.strategy ≡ jitter
    → 0 < b.initial_delay_ms
    → compute_backoff_delay_ms j b attempt ≡ some d
    → let g = min (b.initial_delay_ms * 2 ^ (attempt - 1)) b.max_delay_ms in
      (j.low g ≤ d) × (d ≤ max (j.low g) (j.high g))
unfolding growth
compute_backoff_delay_ms_jitter j b attempt d s first h =
    let e = jitter_delay j b attempt d s first h in
    let (low, high) = jittered_bounds j (growth b attempt) in (omega arith, omega arith)
