-- ===== src/Metrics/Totals.antt =====
-- backend/src/metrics.rs: the outcomes add up to the number of decisions, and the lines of the
-- histogram count the latencies at or under their edges.
use open_berat.Base.{
  ℕ, zero, suc, ◌+◌, ◌%◌, ◌^◌, ◌<◌, ◌≤◌, Bool, true, false, List, [], ◌∷◌, if◌then◌else◌, leb,
  length, ◌≡◌, refl, arith, Bool-cases, inl, inr, ap,
}
use open_berat.Policy.Types.{Deny, Decision, discriminant}
use open_berat.Metrics.Counters
use open_berat.Metrics.Counters.{
  Metrics, buckets, step, step_at, outcome, cache_lookup, bucket_of, observe, cumulative,
}

abbrev pub sum : List ℕ → ℕ
sum [] = 0
sum (n ∷ ns) = n + sum ns

-- A counter for each reason, and one bucket more than there are edges.
abbrev pub IsValid : Metrics → Type 0
IsValid m = (length m.denied ≡ 8) × (length m.latency ≡ 9)

-- The three kinds of outcome together.
abbrev pub total : Metrics → ℕ
total m = m.allowed + m.unauthenticated + sum m.denied

length-step_at : (i : ℕ) (ns : List ℕ) → length (step_at i ns) ≡ length ns
unfolding step_at
length-step_at i [] = refl
length-step_at zero (n ∷ ns) = refl
length-step_at (suc i) (n ∷ ns) = ap suc (length-step_at i ns)

sum-step_at :
    (i : ℕ) (ns : List ℕ) → i < length ns → sum ns + 1 < 2 ^ 64 → sum (step_at i ns) ≡ sum ns + 1
unfolding step_at
sum-step_at i [] h k = absurd (omega arith)
sum-step_at zero (n ∷ ns) h k = omega arith
sum-step_at (suc i) (n ∷ ns) h k = ground (arith, sum-step_at i ns)

discriminant-lt : (d : Deny) → discriminant d < 8
unfolding discriminant
discriminant-lt d = ground arith

pub outcome-IsValid : (d : Decision) (m : Metrics) → IsValid m → IsValid (outcome d m)
unfolding outcome
outcome-IsValid Decision.allow m v = v
outcome-IsValid (Decision.deny d) m v = ground (arith, length-step_at (discriminant d) m.denied)

-- Short of a wrap-around, an outcome steps exactly one counter, whichever reason it has.
pub total-outcome :
    (d : Decision) (m : Metrics)
    → IsValid m
    → total m + 1 < 2 ^ 64
    → total (outcome d m) ≡ total m + 1
unfolding outcome
total-outcome Decision.allow m v h = omega arith
total-outcome (Decision.deny d) m v h =
    ground (arith, discriminant-lt d, sum-step_at (discriminant d) m.denied)

pub total-unauthenticated :
    (m : Metrics) → total m + 1 < 2 ^ 64 → total (Counters.unauthenticated m) ≡ total m + 1
unfolding Counters.unauthenticated
total-unauthenticated m h = omega arith

pub total-cache_lookup : (hit : Bool) (m : Metrics) → total (cache_lookup hit m) ≡ total m
unfolding cache_lookup
total-cache_lookup true m = refl
total-cache_lookup false m = refl

pub cache_lookup-IsValid : (hit : Bool) (m : Metrics) → IsValid m → IsValid (cache_lookup hit m)
unfolding cache_lookup
cache_lookup-IsValid true m v = v
cache_lookup-IsValid false m v = v

-- What one latency adds to the line of an edge.
abbrev pub at_or_under : (micros : ℕ) → List ℕ → List ℕ → List ℕ
at_or_under micros [] [] = []
at_or_under micros [] (n ∷ ns) = (n + 1) ∷ []
at_or_under micros (edge ∷ edges) [] = []
at_or_under micros (edge ∷ edges) (n ∷ ns) =
    (if leb micros edge then n + 1 else n) ∷ at_or_under micros edges ns

-- Every edge is at or past a bound, and the edges go up.
abbrev pub Ascending : (bound : ℕ) → List ℕ → Type 0
Ascending bound [] = Unit
Ascending bound (edge ∷ edges) = (bound ≤ edge) × Ascending edge edges

cumulative-above :
    (micros below bound : ℕ) (edges ns : List ℕ)
    → micros ≤ bound
    → Ascending bound edges
    → length ns ≡ suc (length edges)
    → below + sum ns + 1 < 2 ^ 64
    → cumulative (below + 1) ns ≡ at_or_under micros edges (cumulative below ns)
unfolding cumulative
cumulative-above micros below bound edges [] h a l k = absurd (ground arith)
cumulative-above micros below bound [] (n ∷ []) h a l k = ground arith
cumulative-above micros below bound [] (n ∷ p ∷ ns) h a l k = absurd (ground arith)
cumulative-above micros below bound (edge ∷ edges) (n ∷ ns) h a l k =
    let e : (below + 1 + n) % 2 ^ 64 ≡ below + n + 1 = omega arith in
    let f : (below + n) % 2 ^ 64 ≡ below + n = omega arith in
    ground (arith, cumulative-above micros (below + n) edge edges ns)

cumulative-step_at :
    (micros below bound : ℕ) (edges ns : List ℕ)
    → Ascending bound edges
    → length ns ≡ suc (length edges)
    → below + sum ns + 1 < 2 ^ 64
    → cumulative below (step_at (bucket_of micros edges) ns)
      ≡ at_or_under micros edges (cumulative below ns)
unfolding cumulative step_at bucket_of
cumulative-step_at micros below bound edges [] a l k = absurd (ground arith)
cumulative-step_at micros below bound [] (n ∷ []) a l k = ground arith
cumulative-step_at micros below bound [] (n ∷ p ∷ ns) a l k = absurd (ground arith)
cumulative-step_at micros below bound (edge ∷ edges) (n ∷ ns) a l k =
    elim (Bool-cases (leb micros edge)) [
      | inl e ↦
          let f : (below + (n + 1) % 2 ^ 64) % 2 ^ 64 ≡ below + n + 1 = omega arith in
          let g : (below + n) % 2 ^ 64 ≡ below + n = omega arith in
          ground (arith, cumulative-above micros (below + n) edge edges ns)
      | inr e ↦
          let g : (below + n) % 2 ^ 64 ≡ below + n = omega arith in
          ground (arith, cumulative-step_at micros (below + n) edge edges ns)
    ]

-- With the arrays of the right lengths and short of a wrap-around, a latency below 2^64
-- microseconds adds one to exactly the lines of the histogram whose edge it is at or under, the
-- line `+Inf` included.
pub observe-cumulative :
    (micros : ℕ) (m : Metrics)
    → IsValid m
    → micros < 2 ^ 64
    → sum m.latency + 1 < 2 ^ 64
    → cumulative 0 (observe micros m).latency ≡ at_or_under micros buckets (cumulative 0 m.latency)
unfolding observe buckets
observe-cumulative micros m v h k =
    let e : micros % 2 ^ 64 ≡ micros = omega arith in
    rw e (cumulative-step_at micros 0 0 buckets m.latency ascending v.1 (omega arith))
  where
    ascending : Ascending 0 buckets
    ascending = ground arith
