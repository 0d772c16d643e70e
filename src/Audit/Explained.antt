-- ===== src/Audit/Explained.antt =====
-- backend/src/audit.rs: the explanation against the decision path on the same tables.
use open_berat.Base.{Bool, true, List, map, Option, some, Text, text_eq, ◌≡◌, ◌↔◌, In}
use open_berat.Base.Keyed.{Keyed}
use open_berat.Policy.Types.{Instant, Rule, as_pair}
use open_berat.Policy.Rules
use open_berat.Policy.Rules.{RuleTrace, trace_rule, decide, is_live}
use open_berat.Store.Tables.{
  Entitlement, Tables, TracedRule, applicable, traced_rule, rules_for, rule_from,
}
use open_berat.Store.Queries.{IsArrangement}
use open_berat.Decide.Request.{AppRules}
use open_berat.Nginx.Render.{Application}
use open_berat.Audit.Screen
use open_berat.Audit.Screen.{ExplainQuery, Explanation, Walked, walked}

-- The row of the screen for an entitlement.
abbrev pub row_of : Option Text → Instant → Entitlement → Walked
row_of path now f = walked (traced_rule f) (trace_rule path now (rule_from f))

abbrev rules_in : List TracedRule → List Rule
rules_in = map (λ (t : TracedRule). t.rule)

abbrev on_host : Text → Application → Bool
on_host host a = text_eq a.external_hostname host

module _ (order found_order : List Entitlement → List Entitlement) (same : IsArrangement order)
    (found_same : IsArrangement found_order) where
  -- What an explanation says of the request, against the tables.
  abbrev pub Agrees : Tables → ExplainQuery → Instant → Explanation → Type 0
  Agrees tables q now e =
      (a : Application) × In a tables.applications
      × (a.external_hostname ≡ e.host)
      × (app : AppRules) × (rules_for found_order tables a.slug q.user e.groups ≡ some app)
      × ((e.decision, e.reason) ≡ as_pair (decide app.enabled app.rules q.path now))
      × ((w : Walked)
          → In w e.rules ↔ (
              (f : Entitlement) × In f tables.entitlements
              × (applicable a.id e.groups q.user f ≡ true)
              × (row_of e.normalised_path now f ≡ w)))
