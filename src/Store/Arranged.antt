-- ===== src/Store/Arranged.antt =====
-- backend/src/store.rs over backend/src/policy.rs: the order in which the database gives the rules does
-- not matter to a decision.
use open_berat.Base.{Bool, List, map, filter, Text, ◌≡◌, sym, ◌∙◌, In, In-map, In-map_inv, subst}
use open_berat.Policy.Types.{Instant, Rule}
use open_berat.Policy.Rules.{decide}
use open_berat.Policy.Order.{decide-same_live}
use open_berat.Store.Tables.{Entitlement, Tables, applicable, rule_from}
use open_berat.Store.Queries.{IsArrangement, rules_at}
use open_berat.Nginx.Render.{Application}

module _ (order : List Entitlement → List Entitlement) (same : IsArrangement order) where
  pub decide-order :
      (on : Bool) (path : Text) (now : Instant) (es : List Entitlement)
      → decide on (map rule_from (order es)) path now ≡ decide on (map rule_from es) path now
  decide-order on path now es =
      decide-same_live now (map rule_from (order es)) (map rule_from es) (λ r l. (there r, back r))
        on path
    where
      there : (r : Rule) → In r (map rule_from (order es)) → In r (map rule_from es)
      there r m =
          let (f, n, e) = In-map_inv rule_from r (order es) m in
          subst (λ s. In s (map rule_from es)) e (In-map rule_from f es ((same f es).0 n))

      back : (r : Rule) → In r (map rule_from es) → In r (map rule_from (order es))
      back r m =
          let (f, n, e) = In-map_inv rule_from r es m in
          subst (λ s. In s (map rule_from (order es))) e
            (In-map rule_from f (order es) ((same f es).1 n))

-- Two queries of the same rules lead to the same decision.
pub decide-rules_at :
    (order other : List Entitlement → List Entitlement)
    → IsArrangement order
    → IsArrangement other
    → (tables : Tables) (sub : Text) (groups : List Text) (a : Application) (on : Bool)
      (path : Text) (now : Instant)
    → decide on (rules_at order tables sub groups a) path now
      ≡ decide on (rules_at other tables sub groups a) path now
unfolding rules_at
decide-rules_at order other same other_same tables sub groups a on path now =
    let es = filter (applicable a.id groups sub) tables.entitlements in
    decide-order order same on path now es ∙ sym (decide-order other other_same on path now es)
