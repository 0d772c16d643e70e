-- ===== src/Store/Tables.antt =====
-- backend/src/store.rs: the queries over the tables `application` and `entitlement`: `applicable!`,
-- `rules_for`, `traced_rules_for` and `portal_apps`. The database keeps the tables and may give the rows of a
-- query in any order that the statement leaves open.
use open_berat.Base.{
  Bool, true, ◌&&◌, ◌||◌, List, [], ◌∷◌, ◌++◌, map, filter, find, any, Option, none, some, Text,
  text_eq, codes, ◌==◌,
}
use open_berat.Policy.Types.{Instant, Rule}
use open_berat.Store.Channel.{Uuid}
use open_berat.Store.Portal.{PortalRow, PortalApp, portal_apps}
use open_berat.Decide.Request.{AppRules, effect_of, rules_of}
use open_berat.Nginx.Render.{Application}

-- A row of the table `entitlement`.
pub record Entitlement : Type 0 where
  pub id : Uuid
  pub application_id : Option Uuid
  pub subject_type : Text
  pub subject_id : Text
  pub effect : Text
  pub path_pattern : Text
  pub expires_at : Option Instant

pub record Tables : Type 0 where
  pub applications : List Application
  pub entitlements : List Entitlement

-- `application_id = $1 or application_id is null`
abbrev pub covers : Option Uuid → Uuid → Bool
covers none id = true
covers (some a) id = a == id

-- `applicable!`
unfoldable pub applicable : Uuid → (groups : List Text) → (sub : Text) → Entitlement → Bool
applicable id groups sub e =
    covers e.application_id id
    && ((text_eq e.subject_type (codes "ad_group") && any (λ g. text_eq g e.subject_id) groups)
        || (text_eq e.subject_type (codes "user") && text_eq e.subject_id sub))

-- The columns that the rule is made of.
abbrev pub columns : Entitlement → Text × Text × Option Instant
columns e = (e.effect, e.path_pattern, e.expires_at)

abbrev pub rule_from : Entitlement → Rule
rule_from e = record {
  effect = effect_of e.effect;
  path_pattern = e.path_pattern;
  expires_at = e.expires_at;
}

-- `select id, enabled from application where slug = $1`
abbrev pub application_row : Option Application → Option (Uuid × Bool)
application_row none = none
application_row (some a) = some (a.id, a.enabled)

abbrev pub id_or_none :
    Option Application → List Entitlement → (Uuid → Entitlement → Bool) → List Entitlement
id_or_none none es p = []
id_or_none (some a) es p = filter (p a.id) es

-- `order` is the database's: the statement has no `order by`.
unfoldable pub rules_for :
    (order : List Entitlement → List Entitlement)
    → Tables
    → (slug sub : Text) → (groups : List Text) → Option AppRules
rules_for order tables slug sub groups =
    let found = find (λ (a : Application). text_eq a.slug slug) tables.applications in
    rules_of (application_row found)
      (map columns (order (id_or_none found tables.entitlements (λ id. applicable id groups sub))))

-- `TracedRule`
pub record TracedRule : Type 0 where
  pub id : Uuid
  pub application_id : Option Uuid
  pub subject_type : Text
  pub subject_id : Text
  pub rule : Rule

unfoldable pub traced_rule : Entitlement → TracedRule
traced_rule e = record {
  id = e.id;
  application_id = e.application_id;
  subject_type = e.subject_type;
  subject_id = e.subject_id;
  rule = rule_from e;
}

-- `order` is the database's, by effect and then by subject.
unfoldable pub traced_rules_for :
    (order : List Entitlement → List Entitlement)
    → Tables
    → Uuid
    → (sub : Text) → (groups : List Text) → List TracedRule
traced_rules_for order tables id sub groups =
    map traced_rule (order (filter (applicable id groups sub) tables.entitlements))

-- The rows of the left join for one application: a row for every entitlement that applies, or one without.
-- `order` is the database's: the statement orders the applications only.
unfoldable pub join_rows :
    (order : List Entitlement → List Entitlement)
    → (groups : List Text) → (sub : Text) → List Entitlement
    → Application
    → List PortalRow
join_rows order groups sub entitlements a =
    elim (order (filter (applicable a.id groups sub) entitlements)) [
      | [] ↦
          record {
            slug = a.slug;
            name = a.name;
            icon = a.icon;
            external_hostname = a.external_hostname;
            effect = none;
            path_pattern = none;
            expires_at = none;
          }
          ∷ []
      | e ∷ es ↦
          map
            (λ (f : Entitlement). record {
              slug = a.slug;
              name = a.name;
              icon = a.icon;
              external_hostname = a.external_hostname;
              effect = some f.effect;
              path_pattern = some f.path_pattern;
              expires_at = f.expires_at;
            })
            (e ∷ es)
    ]

abbrev pub concat_map {ℓ κ} : {A : Type ℓ} {B : Type κ} → (A → List B) → List A → List B
concat_map f [] = []
concat_map f (x ∷ xs) = f x ++ concat_map f xs

-- `portal_apps`, the query and the fold. `order` is the database's, by name and then by slug.
unfoldable pub portal_apps_for :
    (order : List Application → List Application)
    → (rule_order : List Entitlement → List Entitlement) → Tables
    → (sub : Text) → (groups : List Text) → List PortalApp
portal_apps_for order rule_order tables sub groups = portal_apps [] (
    concat_map (join_rows rule_order groups sub tables.entitlements)
      (order (filter (λ a. a.enabled) tables.applications)))
