-- ===== src/Portal/Apps.antt =====
-- backend/src/portal.rs: the applications that the portal shows (`apps`), and what it says of its caller (`me`).
use open_berat.Base.{
  Bool, true, List, [], ◌++◌, map, filter, Option, none, some, Result, ok, err, Text, codes, ◌≡◌,
  ◌↔◌, refl, sym, ap, ◌∙◌, In, All, arith, In-map, In-map_inv, In-filter, In-filter_inv, subst,
}
use open_berat.Base.Keyed.{Keyed}
use open_berat.Policy.Types.{Instant, Decision}
use open_berat.Policy.Groups.{in_group}
use open_berat.Policy.Rules.{decide}
use open_berat.Policy.Verdict.{decide-allow_iff}
use open_berat.Admin.Failure.{StoreError}
use open_berat.Store.Portal
use open_berat.Store.Arranged.{decide-rules_at}
use open_berat.Store.Tables.{Entitlement, Tables, portal_apps_for, rules_for}
use open_berat.Store.Queries.{
  IsOrdering, IsEffect, slug_of, portal_app, IsArrangement, portal_apps_for-entries, rules_for-slug,
  rules_at,
}
use open_berat.Decide.Request.{AppRules}
use open_berat.Nginx.Render.{Application}
use open_berat.Cache.Types.{decision_eq, decision_eq_iff}
use open_berat.Session.Logout.{Headers, Caller, caller_from}

pub record PortalApp : Type 0 where
  pub slug : Text
  pub name : Text
  pub icon : Option Text
  pub url : Text

pub data AppsAnswer : Type 0 where
  unauthorized service_unavailable : AppsAnswer
  listed : List PortalApp → AppsAnswer

-- `policy::decide(true, &app.rules, "/", now) == Decision::Allow`
unfoldable pub is_reachable : Instant → Portal.PortalApp → Bool
is_reachable now app = decision_eq (decide true app.rules (codes "/") now) Decision.allow

unfoldable pub shown : Portal.PortalApp → PortalApp
shown app = record {
  slug = app.slug;
  name = app.name;
  icon = app.icon;
  url = codes "https://" ++ app.external_hostname ++ codes "/";
}

-- The handler on what the store answers.
unfoldable pub apps :
    Headers → (Caller → Result StoreError (List Portal.PortalApp)) → Instant → AppsAnswer
apps headers portal_apps now = elim (caller_from headers) [
  | none ↦ unauthorized
  | some caller ↦ elim (portal_apps caller) [
    | err e ↦ service_unavailable
    | ok found ↦ listed (map shown (filter (is_reachable now) found))
  ]
]

pub record Me : Type 0 where
  pub sub : Text
  pub username : Text
  pub email : Text
  pub groups : List Text
  pub admin : Bool
  pub auditor : Bool

unfoldable pub me : (admin_group auditor_group : Text) → Headers → Option Me
me admin_group auditor_group headers = elim (caller_from headers) [
  | none ↦ none
  | some caller ↦ some (record {
    sub = caller.sub;
    username = caller.username;
    email = caller.email;
    groups = caller.groups;
    admin = in_group caller.groups admin_group;
    auditor = in_group caller.groups auditor_group;
  })
]

-- What the decision path answers for an application at its root, from the rules that it finds by the slug.
unfoldable pub Reaches :
    (order : List Entitlement → List Entitlement) → Tables → Caller → Instant → Application → Type 0
Reaches order tables caller now a =
    (app : AppRules) × (rules_for order tables a.slug caller.sub caller.groups ≡ some app)
    × (decide app.enabled app.rules (codes "/") now ≡ Decision.allow)

some_injective : {a b : AppRules} → ◌≡◌ {A = Option AppRules} (some a) (some b) → a ≡ b
some_injective h = ground arith

-- The applications on the caller's page.
abbrev pub on_page : AppsAnswer → List PortalApp
on_page (listed shown) = shown
on_page _ = []

module _ (order : List Application → List Application)
    (rule_order found_order : List Entitlement → List Entitlement) (tables : Tables)
    (o : IsOrdering slug_of order) (ro : IsArrangement rule_order) (fo : IsArrangement found_order)
    (k : Keyed slug_of tables.applications) (h : All IsEffect tables.entitlements)
    (headers : Headers) (caller : Caller) (now : Instant)
    (c : caller_from headers ≡ some caller) where
  abbrev answer : AppsAnswer
  answer = apps headers (λ d. ok (portal_apps_for order rule_order tables d.sub d.groups)) now

  abbrev entry : Application → Portal.PortalApp
  entry = portal_app rule_order tables caller.sub caller.groups

  answer-entries :
      on_page answer
      ≡ map shown (
          filter
            (is_reachable now)
            (map entry (order (filter (λ a. a.enabled) tables.applications))))
  unfolding apps
  answer-entries =
      rw
        (c, apps, portal_apps_for-entries rule_order ro tables caller.sub caller.groups order o k h)
        refl

  abbrev verdict : Bool → Application → Decision
  verdict on a = decide on (rules_at found_order tables caller.sub caller.groups a) (codes "/") now

  -- The portal and the decision path may read the rules in different orders.
  abbrev listed_verdict : Application → Decision
  listed_verdict a =
      decide true (rules_at rule_order tables caller.sub caller.groups a) (codes "/") now

  same_verdict : (a : Application) → listed_verdict a ≡ verdict true a
  same_verdict a =
      decide-rules_at rule_order found_order ro fo tables caller.sub caller.groups a true
        (codes "/") now

  reaches :
      (a : Application)
      → In a tables.applications
      → a.enabled ≡ true
      → is_reachable now (entry a) ≡ true
      → Reaches found_order tables caller now a
  unfolding is_reachable Reaches
  reaches a m on r = (
    record {
      id = a.id;
      enabled = a.enabled;
      rules = rules_at found_order tables caller.sub caller.groups a;
    },
    rules_for-slug found_order tables caller.sub caller.groups a k m,
    ap (λ b. verdict b a) on
        ∙ sym (same_verdict a)
        ∙ (decision_eq_iff (listed_verdict a) Decision.allow).0 r,
  )

  reached :
      (a : Application)
      → In a tables.applications
      → Reaches found_order tables caller now a
      → (a.enabled ≡ true) × (is_reachable now (entry a) ≡ true)
  unfolding is_reachable Reaches
  reached a m (app, found, allowed) =
      let made : ◌≡◌ {A = Option AppRules} (some app) (
          some (record {
            id = a.id;
            enabled = a.enabled;
            rules = rules_at found_order tables caller.sub caller.groups a;
          })) =
        sym found ∙ rules_for-slug found_order tables caller.sub caller.groups a k m in
      let on_rules : verdict a.enabled a ≡ Decision.allow =
        subst (λ (b : AppRules). decide b.enabled b.rules (codes "/") now ≡ Decision.allow)
          (some_injective made) allowed in
      let on =
        ((decide-allow_iff a.enabled (rules_at found_order tables caller.sub caller.groups a)
            (codes "/") now).0
          on_rules).0 in
      (
        on,
        (decision_eq_iff (listed_verdict a) Decision.allow).1
            (same_verdict a ∙ ap (λ b. verdict b a) (sym on) ∙ on_rules),
      )

  -- The page of an identified caller shows exactly the applications for which the decision path, from the
  -- rules that it finds by their slugs, allows this caller the root: nothing that it would refuse, and none
  -- missing that it would allow. The rows are those of the two tables, with their unique slugs and their
  -- check on effects; the two queries may give the rules in different orders.
  pub apps-reachable :
      (p : PortalApp)
      → In p (on_page answer) ↔ (
          (a : Application) × In a tables.applications
          × Reaches found_order tables caller now a
          × (shown (entry a) ≡ p))
  apps-reachable p = (forth, λ (a, m, r, e). back a m r e)
    where
      forth :
          In p (on_page answer)
          → (a : Application) × In a tables.applications
            × Reaches found_order tables caller now a
            × (shown (entry a) ≡ p)
      forth m =
          let (f, n, e) = In-map_inv shown p _ (subst (In p) answer-entries m) in
          let (l, r) = In-filter_inv (is_reachable now) f _ n in
          let (a, i, g) = In-map_inv entry f _ l in
          let (there, on) =
            In-filter_inv (λ (b : Application). b.enabled) a tables.applications
              ((o.same a _).0 i) in
          (a, there, reaches a there on (rw g r), ap shown g ∙ e)

      back :
          (a : Application)
          → In a tables.applications
          → Reaches found_order tables caller now a
          → shown (entry a) ≡ p
          → In p (on_page answer)
      back a m r e =
          let (on, lit) = reached a m r in
          subst (In p) (sym answer-entries) (
            subst
              (λ q. In q (
                map shown (
                  filter (is_reachable now) (
                    map entry
                      (order (filter (λ (b : Application). b.enabled) tables.applications))))))
              e
              (In-map shown (entry a) _ (
                In-filter (is_reachable now) (entry a) _
                  (In-map entry a _ (
                    (o.same a _).1
                      (In-filter (λ (b : Application). b.enabled) a tables.applications m on)))
                  lit)))
