-- ===== src/Policy/Tests.antt =====
-- Runs of the decision on the inputs of the unit tests of backend/src/policy.rs, and the theorems at
-- concrete inputs.
use open_berat.Base.{
  true, false, List, [], ◌∷◌, none, ◌≡◌, refl, ok, Text, codes, split, before, join, strip_prefix,
  ◌↔◌, In, inl, inr, err, ℕ, starts_with, ends_with, trim_end, is_control, arith,
}
use open_berat.Base.Utf8.{encode_char, encode, lead, finish, continue, decode_from, from_utf8}
use open_berat.Policy.Types.{Effect, Rule, Deny, Decision}
use open_berat.Policy.Verdict.{
  Hit, Granted, Everywhere, Somewhere, decide-allow_iff, decide-explicit_deny_iff,
}
use open_berat.Policy.Order.{SameLive, decide-same_live}
use open_berat.Policy.Matching.{Below, matches-Below_iff}
use open_berat.Policy.Normal.{IsNormal}
use open_berat.Policy.Canonical.{normalise_idem}
use open_berat.Policy.Explain.{Row, readings-normalise, explain-allow}
use open_berat.Policy.Uri.{
  to_digit, escape, decode_bytes, decode, pop, resolve_segment, resolve_segments, ends_in_directory,
  is_nil, resolve, slashes, clean, normalise, unparametered, decode_resolved, readings,
}
use open_berat.Policy.Rules.{
  base, under, matches, is_live, denies, allows, decide_path, combine, decide, explain, trace_rule,
  RuleTrace,
}

-- All that a run of the decision computes with.
program : Unit {0}
unfolding split before join strip_prefix starts_with ends_with trim_end is_control encode_char
    encode lead finish continue decode_from from_utf8 to_digit escape decode_bytes decode pop
    resolve_segment resolve_segments ends_in_directory is_nil resolve slashes clean normalise
    unparametered decode_resolved readings base under matches is_live denies allows decide_path
    combine decide explain trace_rule
program = tt

abbrev rule : Effect → Text → Rule
rule effect pattern = record { effect = effect; path_pattern = pattern; expires_at = none }

abbrev admin_denied : List Rule
admin_denied = rule Effect.allow [] ∷ rule Effect.deny (codes "/admin/*") ∷ []

abbrev explicit : Decision
explicit = Decision.deny Deny.explicit_deny

normalised : normalise (codes "/%61dmin//x/.././Users/?q=1") ≡ ok (codes "/admin/users/")
unfolding program
normalised = refl

rewritten_paths :
    (decide true admin_denied (codes "/%61dmin/users") 5 ≡ explicit)
    × (decide true admin_denied (codes "/x/..//./ADMIN/") 5 ≡ explicit)
    × (decide true admin_denied (codes "/%61dmin;x") 5 ≡ explicit)
    × (decide true admin_denied (codes "/x\\..\\admin/") 5 ≡ explicit)
    × (decide true admin_denied (codes "/adminx") 5 ≡ Decision.allow)
    × (decide true admin_denied (codes "/%2561dmin/") 5 ≡ Decision.deny Deny.malformed_uri)
    × (decide true admin_denied (codes "/admin%c2%80") 5 ≡ Decision.deny Deny.malformed_uri)
    × (decide true admin_denied (codes "/%c0%af") 5 ≡ Decision.deny Deny.malformed_uri)
unfolding program
rewritten_paths = (refl, refl, refl, refl, refl, refl, refl, refl)

-- An encoded dot segment together with path parameters: a server that cuts the parameters, decodes and
-- then resolves reads `/admin`, which is none of the three readings.
mixed_spelling :
    (readings (codes "/x/%2e%2e/admin;y")
      ≡ ok (codes "/admin;y" ∷ codes "/x/../admin;y" ∷ codes "/x/../admin" ∷ []))
    × (decide true admin_denied (codes "/x/%2e%2e/admin;y") 5 ≡ Decision.allow)
unfolding program
mixed_spelling = (refl, refl)

decide-allow_iff_example :
    (decide true admin_denied (codes "/x/..//wiki;v=1") 5 ≡ Decision.allow)
    ↔ Everywhere true admin_denied (codes "/x/..//wiki;v=1") 5 (λ path. Granted admin_denied path 5)
decide-allow_iff_example = decide-allow_iff true admin_denied (codes "/x/..//wiki;v=1") 5

decide-explicit_deny_iff_example :
    (decide true admin_denied (codes "/%61dmin;x") 5 ≡ explicit)
    ↔ Somewhere true admin_denied
        (codes "/%61dmin;x")
        5
        (λ path. Hit Effect.deny admin_denied path 5)
decide-explicit_deny_iff_example = decide-explicit_deny_iff true admin_denied (codes "/%61dmin;x") 5

refused_reading : readings (codes "/%2561dmin/") ≡ err Deny.malformed_uri
unfolding program
refused_reading = refl

abbrev admin_denied_first : List Rule
admin_denied_first = rule Effect.deny (codes "/admin/*") ∷ rule Effect.allow [] ∷ []

swapped : {A : Type 0} (a b r : A) → In r (a ∷ b ∷ []) → In r (b ∷ a ∷ [])
swapped a b r (inl e) = inr (inl e)
swapped a b r (inr (inl e)) = inl e
swapped a b r (inr (inr n)) = elim n [ ]

same_rules : SameLive 5 admin_denied admin_denied_first
same_rules r live = (swapped _ _ r, swapped _ _ r)

decide-same_live_example :
    decide true admin_denied (codes "/Admin/x") 5
    ≡ decide true admin_denied_first (codes "/Admin/x") 5
decide-same_live_example =
    decide-same_live 5 admin_denied admin_denied_first same_rules true (codes "/Admin/x")

allowed_before : decide true admin_denied (codes "/wiki") 5 ≡ Decision.allow
unfolding program
allowed_before = refl

allowed_beside :
    decide true (rule Effect.deny (codes "/crm/*") ∷ admin_denied) (codes "/wiki") 5
    ≡ Decision.allow
unfolding program
allowed_beside = refl

matches-Below_iff_example :
    (matches (codes "/admin/*") (codes "/adminx/y") ≡ true)
    ↔ Below (base (codes "/admin/*")) (codes "/adminx/y")
unfolding program
matches-Below_iff_example = matches-Below_iff (codes "/admin/*") (codes "/adminx/y") refl

three_readings :
    readings (codes "/A//b;x") ≡ ok (codes "/a/b;x" ∷ codes "/a/b;x" ∷ codes "/a/b" ∷ [])
unfolding program
three_readings = refl

readings-normalise_example :
    (path : Text) × (normalise (codes "/A//b;x") ≡ ok path)
    × In path (codes "/a/b;x" ∷ codes "/a/b;x" ∷ codes "/a/b" ∷ [])
readings-normalise_example = readings-normalise (codes "/A//b;x") three_readings

explained : (explain true admin_denied (codes "/wiki") 5).decision ≡ Decision.allow
unfolding program
explained = refl

explain-allow_example :
    ((i : ℕ) × (r : Rule) × (row : RuleTrace) × Row true admin_denied (codes "/wiki") 5 i r row
      × (r.effect ≡ Effect.allow)
      × (row.matched ≡ true)
      × (row.expired ≡ false))
    × ((i : ℕ) (r : Rule) (row : RuleTrace)
        → Row true admin_denied (codes "/wiki") 5 i r row
        → r.effect ≡ Effect.deny
        → row.matched ≡ true
        → row.expired ≡ true)
explain-allow_example = explain-allow true admin_denied (codes "/wiki") 5 explained

normalise_idem_example :
    IsNormal (codes "/admin/users/")
    × (normalise (codes "/admin/users/") ≡ ok (codes "/admin/users/"))
normalise_idem_example =
    normalise_idem (codes "/%61dmin//x/.././Users/?q=1") (codes "/admin/users/") (ground arith)
      normalised refl refl
