-- ===== src/Metrics/Render.antt =====
-- backend/src/metrics.rs: the text that `render` answers a scrape with.
use open_berat.Base.{ℕ, zero, suc, ◌+◌, ◌/◌, ◌%◌, List, [], ◌∷◌, ◌++◌, Text, codes, digits, length}
use open_berat.Policy.Types.{Deny, all_reasons, discriminant, as_str}
use open_berat.Metrics.Counters.{Metrics, buckets, cumulative}

-- `EDGES`
unfoldable pub edges : List Text
edges =
    codes "0.00025"
    ∷ codes "0.0005"
    ∷ codes "0.001"
    ∷ codes "0.002"
    ∷ codes "0.005"
    ∷ codes "0.01"
    ∷ codes "0.05"
    ∷ codes "0.25"
    ∷ []

-- A `u64` has twenty digits at most.
abbrev pub show : ℕ → Text
show n = digits 20 n []

abbrev line : Text → Text
line s = s ++ codes "\n"

-- `{:06}`
unfoldable pub six_digits : ℕ → Text
six_digits n =
    (b'0' + n / 100000 % 10)
    ∷ (b'0' + n / 10000 % 10)
    ∷ (b'0' + n / 1000 % 10)
    ∷ (b'0' + n / 100 % 10)
    ∷ (b'0' + n / 10 % 10)
    ∷ (b'0' + n % 10)
    ∷ []

abbrev pub at_or_zero : ℕ → List ℕ → ℕ
at_or_zero i [] = 0
at_or_zero zero (n ∷ ns) = n
at_or_zero (suc i) (n ∷ ns) = at_or_zero i ns

-- The lines of the refusals, one for each reason of `Deny::ALL`.
unfoldable pub reason_lines : Metrics → List Deny → Text
reason_lines m [] = []
reason_lines m (reason ∷ reasons) =
    line (
      codes "openberat_decision_total{decision=\"deny\",reason=\""
      ++ as_str reason
      ++ codes "\"} "
      ++ show (at_or_zero (discriminant reason) m.denied))
    ++ reason_lines m reasons

-- The lines of the buckets under their edges, and the sum below the last one.
unfoldable pub bucket_lines : List Text → List ℕ → Text
bucket_lines [] below = []
bucket_lines (edge ∷ rest) [] = []
bucket_lines (edge ∷ rest) (n ∷ below) =
    line
      (codes "openberat_decision_duration_seconds_bucket{le=\"" ++ edge ++ codes "\"} " ++ show n)
    ++ bucket_lines rest below

unfoldable pub render : (version : Text) → (audit_dropped : ℕ) → Metrics → Text
render version audit_dropped m =
    let below = cumulative 0 m.latency in
    let count = at_or_zero (length buckets) below in
    codes "# HELP openberat_build_info The running version.\n# TYPE openberat_build_info gauge\n"
    ++ line (codes "openberat_build_info{version=\"" ++ version ++ codes "\"} 1")
    ++ codes
        "# HELP openberat_decision_total Authorisation decisions, by outcome and reason.\n# TYPE openberat_decision_total counter\n"
    ++ line
        (codes "openberat_decision_total{decision=\"allow\",reason=\"allowed\"} " ++ show m.allowed)
    ++ line (
        codes "openberat_decision_total{decision=\"unauthenticated\",reason=\"no_session\"} "
        ++ show m.unauthenticated)
    ++ reason_lines m all_reasons
    ++ codes
        "# HELP openberat_decision_cache_total Decision cache lookups.\n# TYPE openberat_decision_cache_total counter\n"
    ++ line (codes "openberat_decision_cache_total{result=\"hit\"} " ++ show m.hits)
    ++ line (codes "openberat_decision_cache_total{result=\"miss\"} " ++ show m.misses)
    ++ codes
        "# HELP openberat_decision_duration_seconds Time spent answering /decide.\n# TYPE openberat_decision_duration_seconds histogram\n"
    ++ bucket_lines edges below
    ++ line (codes "openberat_decision_duration_seconds_bucket{le=\"+Inf\"} " ++ show count)
    ++ line (
        codes "openberat_decision_duration_seconds_sum "
        ++ show (m.latency_micros / 1000000)
        ++ codes "."
        ++ six_digits (m.latency_micros % 1000000))
    ++ line (codes "openberat_decision_duration_seconds_count " ++ show count)
    ++ codes
        "# HELP openberat_audit_dropped_total Audit summaries that never reached Postgres.\n# TYPE openberat_audit_dropped_total counter\n"
    ++ line (codes "openberat_audit_dropped_total " ++ show audit_dropped)
