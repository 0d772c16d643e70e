-- ===== src/Store/Queries.antt =====
-- backend/src/store.rs: what the three queries give from the same tables.
use open_berat.Base.{
  true, List, [], ◌∷◌, map, filter, Option, none, some, Text, text_eq, text_eq_iff, codes, ◌≡◌, ◌≢◌,
  ◌↔◌, ◌⊎◌, refl, sym, ap, ◌∙◌, inl, inr, In, All, arith, subst, List-cases, All-intro, All-In,
  All-filter,
}
use open_berat.Base.Keyed.{Keyed, filter-Keyed, find-Keyed}
use open_berat.Policy.Types.{Rule}
use open_berat.Store.Portal.{
  PortalApp, portal_apps, portal_apps-joined, Separate, joined, rows_of, rule_row, is_other,
  effect_text,
}
use open_berat.Decide.Request.{effect_of, rules_of}
use open_berat.Nginx.Render.{Application}
use open_berat.Store.Tables.{
  Entitlement, Tables, applicable, rules_for, rule_from, columns, join_rows, concat_map,
  portal_apps_for,
}

-- An order that the database gives the rows of a query: the same rows, each as often.
pub record IsOrdering {ℓ κ} {A : Type ℓ} {K : Type κ} (key : A → K) (order : List A → List A)
    : Type (ℓ ⊔ κ) where
  pub same : (a : A) (xs : List A) → In a (order xs) ↔ In a xs
  pub once : (xs : List A) → Keyed key xs → Keyed key (order xs)

-- The check of the schema on the column of the effect.
abbrev pub IsEffect : Entitlement → Type 0
IsEffect e = (e.effect ≡ codes "allow") ⊎ (e.effect ≡ codes "deny")

effect_text-of : (e : Entitlement) → IsEffect e → effect_text (effect_of e.effect) ≡ e.effect
unfolding effect_of
effect_text-of e (inl h) = rw h refl
effect_text-of e (inr h) = rw h refl

-- An order that the database gives the rules of a query that names none: the same rows.
abbrev pub IsArrangement : (List Entitlement → List Entitlement) → Type 0
IsArrangement order = (f : Entitlement) (es : List Entitlement) → In f (order es) ↔ In f es

-- The rules of an application that apply to a subject.
unfoldable pub rules_at :
    (order : List Entitlement → List Entitlement)
    → Tables
    → (sub : Text) → (groups : List Text) → Application
    → List Rule
rules_at order tables sub groups a =
    map rule_from (order (filter (applicable a.id groups sub) tables.entitlements))

fuse :
    (es : List Entitlement)
    → map
        (λ (effect, path_pattern, expires_at). record {
          effect = effect_of effect;
          path_pattern = path_pattern;
          expires_at = expires_at;
        })
        (map columns es)
      ≡ map rule_from es
fuse [] = refl
fuse (e ∷ es) = ap (λ l. rule_from e ∷ l) (fuse es)

map-columns :
    (a : Application) (es : List Entitlement)
    → rules_of (some (a.id, a.enabled)) (map columns es)
      ≡ some (record { id = a.id; enabled = a.enabled; rules = map rule_from es })
unfolding rules_of
map-columns a es = ap (λ rs. some (record { id = a.id; enabled = a.enabled; rules = rs })) (fuse es)

-- The decision path finds the application of a slug with exactly its rules.
pub rules_for-slug :
    (order : List Entitlement → List Entitlement) (tables : Tables) (sub : Text)
    (groups : List Text) (a : Application)
    → Keyed (λ (b : Application). b.slug) tables.applications
    → In a tables.applications
    → rules_for order tables a.slug sub groups
      ≡ some (record { id = a.id; enabled = a.enabled; rules = rules_at order tables sub groups a })
unfolding rules_for rules_at
rules_for-slug order tables sub groups a k m =
    let found =
      find-Keyed (λ (b : Application). b.slug) (λ b. text_eq b.slug a.slug) a tables.applications
        (λ b. text_eq_iff b.slug a.slug) k m in
    rw found (map-columns a (order (filter (applicable a.id groups sub) tables.entitlements)))

-- The entry of the portal for an application.
abbrev pub portal_app :
    (order : List Entitlement → List Entitlement)
    → Tables
    → (sub : Text) → (groups : List Text) → Application
    → PortalApp
portal_app order tables sub groups a = record {
  slug = a.slug;
  name = a.name;
  icon = a.icon;
  external_hostname = a.external_hostname;
  rules = rules_at order tables sub groups a;
}

abbrev pub slug_of : Application → Text
slug_of a = a.slug

module _ (rule_order : List Entitlement → List Entitlement) (arranged : IsArrangement rule_order)
    (tables : Tables) (sub : Text) (groups : List Text) where
  abbrev entry : Application → PortalApp
  entry = portal_app rule_order tables sub groups

  map-row :
      (a : Application) (es : List Entitlement)
      → All IsEffect es
      → map
          (λ (f : Entitlement). record {
            slug = a.slug;
            name = a.name;
            icon = a.icon;
            external_hostname = a.external_hostname;
            effect = some f.effect;
            path_pattern = some f.path_pattern;
            expires_at = f.expires_at;
          })
          es
        ≡ map (rule_row (entry a)) (map rule_from es)
  map-row a [] h = refl
  map-row a (e ∷ es) (k, h) = rw (effect_text-of e k) (rw (map-row a es h) refl)

  join_rows-entry :
      (a : Application)
      → All IsEffect tables.entitlements
      → join_rows rule_order groups sub tables.entitlements a ≡ rows_of (entry a)
  unfolding join_rows rules_at
  join_rows-entry a h =
      let those = filter (applicable a.id groups sub) tables.entitlements in
      let filtered = All-filter IsEffect (applicable a.id groups sub) tables.entitlements h in
      let kept : All IsEffect (rule_order those) =
        All-intro IsEffect (rule_order those)
          (λ f m. All-In IsEffect f those filtered ((arranged f those).0 m)) in
      elim (List-cases (rule_order those)) [
        | inl e ↦ rw (e, join_rows, rules_at) refl
        | inr (f, fs, e) ↦
            rw (e, join_rows, rules_at) (map-row a (f ∷ fs) (subst (All IsEffect) e kept))
      ]

  joined-entries :
      (apps : List Application)
      → All IsEffect tables.entitlements
      → concat_map (join_rows rule_order groups sub tables.entitlements) apps
        ≡ joined (map entry apps)
  joined-entries [] h = refl
  joined-entries (a ∷ apps) h = rw (join_rows-entry a h, joined-entries apps h) refl

  entries-Separate :
      (apps : List Application) (before : Option PortalApp)
      → All (λ (a : Application). is_other a.slug before ≡ true) apps
      → Keyed slug_of apps
      → Separate before (map entry apps)
  entries-Separate [] before h k = tt
  entries-Separate (a ∷ apps) before (o, h) (n, k) =
      (o, entries-Separate apps (some (entry a)) (others apps n) k)
    where
      others :
          (bs : List Application)
          → All (λ b. slug_of b ≢ slug_of a) bs
          → All (λ (b : Application). is_other b.slug (some (entry a)) ≡ true) bs
      others [] m = tt
      others (b ∷ bs) (m, ms) = (
        ground (arith, text_eq_iff a.slug b.slug, λ (e : a.slug ≡ b.slug). m (sym e)),
        others bs ms,
      )

  -- The portal's query and its fold give one entry for every application that is enabled, in the order of the
  -- query, with exactly the rules that the decision path would find for it.
  pub portal_apps_for-entries :
      (order : List Application → List Application)
      → IsOrdering slug_of order
      → Keyed slug_of tables.applications
      → All IsEffect tables.entitlements
      → portal_apps_for order rule_order tables sub groups
        ≡ map entry (order (filter (λ a. a.enabled) tables.applications))
  unfolding portal_apps_for
  portal_apps_for-entries order o k h =
      let shown = order (filter (λ a. a.enabled) tables.applications) in
      ap (portal_apps []) (joined-entries shown h)
      ∙ portal_apps-joined (map entry shown) [] (
          entries-Separate shown none (All-intro _ _ (λ a m. refl))
            (o.once _ (filter-Keyed slug_of (λ a. a.enabled) tables.applications k)))
