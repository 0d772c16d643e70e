-- ===== src/Metrics/Counters.antt =====
-- backend/src/metrics.rs: the counters (`AtomicU64`, which wrap around) and the functions that step
-- them, with the sums in the histogram of the exposition.
use open_berat.Base.{
  ℕ, zero, suc, ◌+◌, ◌%◌, ◌^◌, Bool, true, false, List, [], ◌∷◌, if◌then◌else◌, leb,
}
use open_berat.Policy.Types.{Decision, discriminant}

-- The edges of the buckets, in microseconds.
unfoldable pub buckets : List ℕ
buckets = 250 ∷ 500 ∷ 1000 ∷ 2000 ∷ 5000 ∷ 10000 ∷ 50000 ∷ 250000 ∷ []

pub record Metrics : Type 0 where
  pub allowed : ℕ
  pub unauthenticated : ℕ
  pub denied : List ℕ
  pub hits : ℕ
  pub misses : ℕ
  pub latency : List ℕ
  pub latency_micros : ℕ

-- `fetch_add(1)`, alone and on one element of an array. Past the end of the array there is no counter.
abbrev pub step : ℕ → ℕ
step n = (n + 1) % 2 ^ 64

unfoldable pub step_at : ℕ → List ℕ → List ℕ
step_at i [] = []
step_at zero (n ∷ ns) = step n ∷ ns
step_at (suc i) (n ∷ ns) = n ∷ step_at i ns

unfoldable pub outcome : Decision → Metrics → Metrics
outcome Decision.allow m = record m { allowed = step m.allowed }
outcome (Decision.deny reason) m = record m { denied = step_at (discriminant reason) m.denied }

unfoldable pub unauthenticated : Metrics → Metrics
unauthenticated m = record m { unauthenticated = step m.unauthenticated }

-- `cache`
unfoldable pub cache_lookup : Bool → Metrics → Metrics
cache_lookup true m = record m { hits = step m.hits }
cache_lookup false m = record m { misses = step m.misses }

-- `BUCKETS.iter().position(|edge| micros <= *edge)`, with the number of edges for `None`.
unfoldable pub bucket_of : (micros : ℕ) → List ℕ → ℕ
bucket_of micros [] = 0
bucket_of micros (edge ∷ edges) =
    let rest = bucket_of micros edges in if leb micros edge then 0 else suc rest

unfoldable pub observe : (micros : ℕ) → Metrics → Metrics
observe micros m = record m {
  latency_micros = (m.latency_micros + micros % 2 ^ 64) % 2 ^ 64;
  latency = step_at (bucket_of (micros % 2 ^ 64) buckets) m.latency;
}

-- The numbers that `render` writes in its lines of the histogram, the last one behind `+Inf`.
unfoldable pub cumulative : (below : ℕ) → List ℕ → List ℕ
cumulative below [] = []
cumulative below (n ∷ ns) = (below + n) % 2 ^ 64 ∷ cumulative ((below + n) % 2 ^ 64) ns
