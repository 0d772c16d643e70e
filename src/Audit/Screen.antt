-- ===== src/Audit/Screen.antt =====
-- backend/src/audit.rs: why a decision came out the way it did (`explain`).
use open_berat.Base.{
  Bool, not, List, [], ◌∷◌, map, filter, find, Option, none, some, Result, ok, err, Text, codes,
  is_empty, trim, to_lower, before, split_on, text_eq,
}
use open_berat.Policy.Types.{Instant, Effect, as_pair}
use open_berat.Policy.Rules
use open_berat.Policy.Rules.{RuleTrace, Trace, trace_rule, decide, is_live}
use open_berat.Admin.Failure.{StoreError, Failure, failed}
use open_berat.Store.Channel.{Uuid}
use open_berat.Store.Tables.{Entitlement, Tables, TracedRule, traced_rules_for}
use open_berat.Nginx.Render.{Application}

pub record ExplainQuery : Type 0 where
  pub user : Text
  pub groups : Option Text
  pub host : Text
  pub path : Text

-- `groups.split(',').map(str::trim).filter(|g| !g.is_empty())`
unfoldable pub listed_groups : Text → List Text
listed_groups groups = filter (λ g. not (is_empty g)) (map trim (split_on b',' groups))

-- `q.host.split(':').next().unwrap_or_default().to_ascii_lowercase()`
unfoldable pub bare_host : Text → Text
bare_host host = to_lower (before b':' host)

-- A row of the answer.
pub record Walked : Type 0 where
  pub id : Uuid
  pub application_id : Option Uuid
  pub subject_type : Text
  pub subject_id : Text
  pub effect : Text
  pub path_pattern : Text
  pub expires_at : Option Instant
  pub matched : Bool
  pub expired : Bool

unfoldable pub effect_name : Effect → Text
effect_name Effect.allow = codes "allow"
effect_name Effect.deny = codes "deny"

unfoldable pub walked : TracedRule → RuleTrace → Walked
walked row verdict = record {
  id = row.id;
  application_id = row.application_id;
  subject_type = row.subject_type;
  subject_id = row.subject_id;
  effect = effect_name row.rule.effect;
  path_pattern = row.rule.path_pattern;
  expires_at = row.rule.expires_at;
  matched = verdict.matched;
  expired = verdict.expired;
}

-- `traced.iter().zip(&trace.rules).map(..)`
unfoldable pub walk_rows : List TracedRule → List RuleTrace → List Walked
walk_rows [] verdicts = []
walk_rows (row ∷ rows) [] = []
walk_rows (row ∷ rows) (verdict ∷ verdicts) = walked row verdict ∷ walk_rows rows verdicts

pub record Explanation : Type 0 where
  pub sub : Text
  pub groups : List Text
  pub host : Text
  pub application : Text
  pub enabled : Bool
  pub path : Text
  pub normalised_path : Option Text
  pub decision : Text
  pub reason : Text
  pub rules : List Walked

pub data ExplainAnswer : Type 0 where
  bad_request : ExplainAnswer
  not_found : (host : Text) → ExplainAnswer
  failure : Failure → ExplainAnswer
  explained : Explanation → ExplainAnswer

-- From the rows of the application on.
unfoldable pub explain_application :
    ExplainQuery
    → (groups : List Text) → (host : Text) → Application
    → Instant
    → List TracedRule
    → Explanation
explain_application q groups host a now traced =
    let trace = Rules.explain a.enabled (map (λ (t : TracedRule). t.rule) traced) q.path now in
    let (decision, reason) = as_pair trace.decision in
    record {
      sub = q.user;
      groups = groups;
      host = host;
      application = a.slug;
      enabled = a.enabled;
      path = q.path;
      normalised_path = trace.path;
      decision = decision;
      reason = reason;
      rules = walk_rows traced trace.rules;
    }

-- The handler: the tables as the first query finds them, and as the second does.
unfoldable pub explain :
    (order : List Entitlement → List Entitlement)
    → Result StoreError Tables
    → Result StoreError Tables
    → ExplainQuery
    → Instant
    → ExplainAnswer
explain order first second q now = elim q.groups [
  | none ↦ bad_request
  | some named ↦
      let groups = listed_groups named in
      let host = bare_host q.host in
      elim first [
        | err e ↦ failure (failed e)
        | ok tables ↦
            elim (find (λ (a : Application). text_eq a.external_hostname host)
              tables.applications) [
                | none ↦ not_found host
                | some a ↦ elim second [
                  | err e ↦ failure (failed e)
                  | ok later ↦ explained (
                      explain_application q groups host a now
                        (traced_rules_for order later a.id q.user groups))
                ]
              ]
      ]
]
