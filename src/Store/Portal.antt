-- ===== src/Store/Portal.antt =====
-- backend/src/store.rs: `portal_apps` folds the joined rows back into applications with their rules.
use mathlib.Core.List.{append_assoc, append-nil}
use open_berat.Base.{
  Bool, true, not, List, [], ◌∷◌, ◌++◌, map, Option, none, some, if◌then◌else◌, Text, text_eq,
  text_eq_refl, codes, ◌≡◌, refl, sym, ap, ◌∙◌,
}
use open_berat.Policy.Types.{Instant, Rule, Effect}

-- A row: the application, and the columns of the joined rule where there is one.
pub record PortalRow : Type 0 where
  pub slug : Text
  pub name : Text
  pub icon : Option Text
  pub external_hostname : Text
  pub effect : Option Text
  pub path_pattern : Option Text
  pub expires_at : Option Instant

pub record PortalApp : Type 0 where
  pub slug : Text
  pub name : Text
  pub icon : Option Text
  pub external_hostname : Text
  pub rules : List Rule

-- `apps.last()`, and a change of the last element.
abbrev pub last : List PortalApp → Option PortalApp
last [] = none
last (a ∷ []) = some a
last (a ∷ b ∷ apps) = last (b ∷ apps)

abbrev on_last : (PortalApp → PortalApp) → List PortalApp → List PortalApp
on_last f [] = []
on_last f (a ∷ []) = f a ∷ []
on_last f (a ∷ b ∷ apps) = a ∷ on_last f (b ∷ apps)

abbrev pub is_other : Text → Option PortalApp → Bool
is_other slug none = true
is_other slug (some a) = not (text_eq a.slug slug)

-- The first statement of the loop: an application that is not the last one is new.
unfoldable pub open_app : List PortalApp → PortalRow → List PortalApp
open_app apps row =
    if is_other row.slug (last apps)
    then apps
      ++ record {
        slug = row.slug;
        name = row.name;
        icon = row.icon;
        external_hostname = row.external_hostname;
        rules = [];
      }
        ∷ []
    else apps

abbrev effect_from : Text → Effect
effect_from effect = if text_eq effect (codes "deny") then Effect.deny else Effect.allow

-- The second one: the rule of the row, where there is one, goes to the last application.
unfoldable pub push_rule : List PortalApp → PortalRow → List PortalApp
push_rule apps row = elim row.effect [
  | none ↦ apps
  | some effect ↦ elim row.path_pattern [
    | none ↦ apps
    | some path_pattern ↦
        on_last
          (λ a. record a {
            rules =
                a.rules
                ++ record {
                  effect = effect_from effect;
                  path_pattern = path_pattern;
                  expires_at = row.expires_at;
                }
                  ∷ [];
          })
          apps
  ]
]

-- The loop, from the applications collected so far.
unfoldable pub portal_apps : List PortalApp → List PortalRow → List PortalApp
portal_apps apps [] = apps
portal_apps apps (row ∷ rows) = portal_apps (push_rule (open_app apps row) row) rows

-- What the left join makes of an application: a row for each rule, or one without a rule.
abbrev pub effect_text : Effect → Text
effect_text Effect.deny = codes "deny"
effect_text Effect.allow = codes "allow"

abbrev pub rule_row : PortalApp → Rule → PortalRow
rule_row a r = record {
  slug = a.slug;
  name = a.name;
  icon = a.icon;
  external_hostname = a.external_hostname;
  effect = some (effect_text r.effect);
  path_pattern = some r.path_pattern;
  expires_at = r.expires_at;
}

abbrev pub bare_row : PortalApp → PortalRow
bare_row a = record {
  slug = a.slug;
  name = a.name;
  icon = a.icon;
  external_hostname = a.external_hostname;
  effect = none;
  path_pattern = none;
  expires_at = none;
}

abbrev pub rows_of : PortalApp → List PortalRow
rows_of a = elim a.rules [ [] ↦ bare_row a ∷ [] | r ∷ rs ↦ map (rule_row a) (r ∷ rs) ]

abbrev pub joined : List PortalApp → List PortalRow
joined [] = []
joined (a ∷ apps) = rows_of a ++ joined apps

-- No two neighbours have the same slug, the application before the first included.
abbrev pub Separate : Option PortalApp → List PortalApp → Type 0
Separate before [] = Unit
Separate before (a ∷ apps) = (is_other a.slug before ≡ true) × Separate (some a) apps

last-append : (apps : List PortalApp) (a : PortalApp) → last (apps ++ a ∷ []) ≡ some a
last-append [] a = refl
last-append (b ∷ []) a = refl
last-append (b ∷ c ∷ apps) a = last-append (c ∷ apps) a

on_last-append :
    (f : PortalApp → PortalApp) (apps : List PortalApp) (a : PortalApp)
    → on_last f (apps ++ a ∷ []) ≡ apps ++ f a ∷ []
on_last-append f [] a = refl
on_last-append f (b ∷ []) a = refl
on_last-append f (b ∷ c ∷ apps) a = ap (λ l. b ∷ l) (on_last-append f (c ∷ apps) a)

effect_from-text : (e : Effect) → effect_from (effect_text e) ≡ e
effect_from-text Effect.deny = refl
effect_from-text Effect.allow = refl

abbrev with_rules : PortalApp → List Rule → PortalApp
with_rules a rs = record a { rules = rs }

portal_apps-append :
    (apps : List PortalApp) (xs ys : List PortalRow)
    → portal_apps apps (xs ++ ys) ≡ portal_apps (portal_apps apps xs) ys
unfolding portal_apps
portal_apps-append apps [] ys = refl
portal_apps-append apps (x ∷ xs) ys = portal_apps-append (push_rule (open_app apps x) x) xs ys

open_app-same :
    (apps : List PortalApp) (a : PortalApp) (rs : List Rule) (s : Rule)
    → open_app (apps ++ with_rules a rs ∷ []) (rule_row a s) ≡ apps ++ with_rules a rs ∷ []
unfolding open_app
open_app-same apps a rs s = rw (last-append apps (with_rules a rs), text_eq_refl a.slug) refl

push_rule-new :
    (apps : List PortalApp) (a : PortalApp) (rs : List Rule) (s : Rule)
    → push_rule (apps ++ with_rules a rs ∷ []) (rule_row a s)
      ≡ apps ++ with_rules a (rs ++ s ∷ []) ∷ []
unfolding push_rule
push_rule-new apps a rs s =
    on_last-append _ apps (with_rules a rs)
    ∙ ap
        (λ e.
          apps
          ++ with_rules a (
              rs
              ++ record { effect = e; path_pattern = s.path_pattern; expires_at = s.expires_at }
                ∷ [])
            ∷ [])
        (effect_from-text s.effect)

-- The rows of the open application add their rules in order.
portal_apps-rules :
    (apps : List PortalApp) (a : PortalApp) (rs ss : List Rule)
    → portal_apps (apps ++ with_rules a rs ∷ []) (map (rule_row a) ss)
      ≡ apps ++ with_rules a (rs ++ ss) ∷ []
unfolding portal_apps
portal_apps-rules apps a rs [] = ap (λ l. apps ++ with_rules a l ∷ []) (sym (append-nil rs))
portal_apps-rules apps a rs (s ∷ ss) =
    ap (λ l. portal_apps (push_rule l (rule_row a s)) (map (rule_row a) ss))
      (open_app-same apps a rs s)
    ∙ ap (λ l. portal_apps l (map (rule_row a) ss)) (push_rule-new apps a rs s)
    ∙ portal_apps-rules apps a (rs ++ s ∷ []) ss
    ∙ ap (λ l. apps ++ with_rules a l ∷ []) (append_assoc rs (s ∷ []) ss)

open_app-new :
    (apps : List PortalApp) (a : PortalApp) (r : Rule)
    → is_other a.slug (last apps) ≡ true
    → open_app apps (rule_row a r) ≡ apps ++ with_rules a [] ∷ []
unfolding open_app
open_app-new apps a r h = rw h refl

portal_apps-app :
    (apps : List PortalApp) (a : PortalApp) (rules : List Rule)
    → is_other a.slug (last apps) ≡ true
    → portal_apps apps (rows_of (with_rules a rules)) ≡ apps ++ with_rules a rules ∷ []
unfolding portal_apps open_app push_rule
portal_apps-app apps a [] h = rw h refl
portal_apps-app apps a (r ∷ rs) h =
    ap (λ l. portal_apps (push_rule l (rule_row a r)) (map (rule_row a) rs))
      (open_app-new apps a r h)
    ∙ ap (λ l. portal_apps l (map (rule_row a) rs)) (push_rule-new apps a [] r)
    ∙ portal_apps-rules apps a (r ∷ []) rs

-- Whatever the applications and their rules, as long as no two neighbours have the same slug: the fold
-- takes the rows of the join back to the applications, each with its rules in order, and keeps those
-- without a rule.
pub portal_apps-joined :
    (apps found : List PortalApp)
    → Separate (last found) apps
    → portal_apps found (joined apps) ≡ found ++ apps
unfolding portal_apps
portal_apps-joined [] found h = sym (append-nil found)
portal_apps-joined (a ∷ apps) found (n, h) =
    portal_apps-append found (rows_of a) (joined apps)
    ∙ ap (λ f. portal_apps f (joined apps)) (portal_apps-app found a a.rules n)
    ∙ portal_apps-joined apps (found ++ a ∷ []) (rw (last-append found a) h)
    ∙ append_assoc found (a ∷ []) apps
