-- ===== src/Policy/Rules.antt =====
-- backend/src/policy.rs: whether a pattern matches a path (`matches`), the verdict for one path
-- (`decide_path`), for a request (`decide`), and its annotation for the explain screen (`explain`).
use open_berat.Base.{
  Bool, true, false, ◌&&◌, ◌||◌, not, List, [], ◌∷◌, map, Option, none, some, if◌then◌else◌, leb,
  ltb, ◌==◌, ok, err, to_option, Text, is_empty, text_eq, any, find, filter, strip_prefix,
  starts_with, trim_end, to_lower,
}
use open_berat.Policy.Types.{
  Effect, Instant, Rule, Decision, application_disabled, explicit_deny, no_matching_grant,
}
use open_berat.Policy.Uri.{resolve, normalise, readings}

-- The path that stands before the `*` of a pattern, written as a request path is.
unfoldable pub base : Text → Text
base pattern = trim_end (λ c. c == b'/') (to_lower (resolve (trim_end (λ c. c == b'*') pattern)))

-- The test of `matches` once the base is known.
unfoldable pub under : (base path : Text) → Bool
under base path =
    is_empty base
    || text_eq path base
    || elim (strip_prefix base path) [ none ↦ false | some rest ↦ starts_with (b'/' ∷ []) rest ]

unfoldable pub matches : (pattern path : Text) → Bool
matches pattern path = under (base pattern) path

unfoldable pub is_live : Instant → Rule → Bool
is_live now r = elim r.expires_at [ none ↦ true | some e ↦ ltb now e ]

abbrev pub is_deny : Effect → Bool
is_deny Effect.deny = true
is_deny Effect.allow = false

abbrev pub is_allow : Effect → Bool
is_allow Effect.allow = true
is_allow Effect.deny = false

-- The closures that `decide_path` hands to `any`.
unfoldable pub denies : Text → Rule → Bool
denies path r = is_deny r.effect && matches r.path_pattern path

unfoldable pub allows : Text → Rule → Bool
allows path r = is_allow r.effect && matches r.path_pattern path

unfoldable pub decide_path : List Rule → Text → Instant → Decision
decide_path rules path now =
    let live = filter (is_live now) rules in
    if any (denies path) live
    then Decision.deny explicit_deny
    else if any (allows path) live
    then Decision.allow
    else Decision.deny no_matching_grant

-- `*d == Decision::Deny(Deny::ExplicitDeny)`
abbrev pub is_explicit : Decision → Bool
is_explicit (Decision.deny explicit_deny) = true
is_explicit _ = false

-- `*d != Decision::Allow`
abbrev pub is_refusal : Decision → Bool
is_refusal Decision.allow = false
is_refusal (Decision.deny reason) = true

-- The chain of `find`, `or_else` and `unwrap_or` at the end of `decide`.
unfoldable pub combine : List Decision → Decision
combine decisions = elim (find is_explicit decisions) [
  | some d ↦ d
  | none ↦ elim (find is_refusal decisions) [ some d ↦ d | none ↦ Decision.allow ]
]

unfoldable pub decide : (app_enabled : Bool) → List Rule → (raw_uri : Text) → Instant → Decision
decide app_enabled rules raw_uri now = elim (readings raw_uri) [
  | err reason ↦ Decision.deny reason
  | ok paths ↦
      if not app_enabled
      then Decision.deny application_disabled
      else combine (map (λ path. decide_path rules path now) paths)
]

pub record RuleTrace : Type 0 where
  pub matched : Bool
  pub expired : Bool

pub record Trace : Type 0 where
  pub decision : Decision
  pub path : Option Text
  pub rules : List RuleTrace

unfoldable pub trace_rule : Option Text → Instant → Rule → RuleTrace
trace_rule path now r = record {
  matched = elim path [ none ↦ false | some p ↦ matches r.path_pattern p ];
  expired = elim r.expires_at [ none ↦ false | some e ↦ leb e now ];
}

unfoldable pub explain : (app_enabled : Bool) → List Rule → (raw_uri : Text) → Instant → Trace
explain app_enabled rules raw_uri now =
    let path = to_option (normalise raw_uri) in
    record {
      decision = decide app_enabled rules raw_uri now;
      path = path;
      rules = map (trace_rule path now) rules;
    }
