-- ===== src/Admin/Integrity.antt =====
-- backend/src/admin.rs: what holds of the two tables after any sequence of the handlers that write them.
use open_berat.Base.{
  Bool, true, false, not, List, [], ◌∷◌, ◌++◌, map, any, Option, none, some, ok, Text, codes,
  text_eq_iff, ◌==◌, if◌then◌else◌, ◌≡◌, ◌≢◌, ◌⊎◌, refl, sym, ap, ◌∙◌, inl, inr, arith, All,
  All-intro, All-append, All-filter, Bool-cases, Result-cases, any-eq-false,
}
use open_berat.Base.Keyed.{Keyed, filter-Keyed}
use open_berat.Store.Channel.{Uuid}
use open_berat.Store.Tables.{Tables}
use open_berat.Store.Queries.{IsEffect, slug_of}
use open_berat.Validate.Fields.{Url}
use open_berat.Nginx.Render.{Application, check_row}
use open_berat.Admin.Failure.{StoreError}
use open_berat.Admin.Applications
use open_berat.Admin.Applications.{
  ApplicationPatch, Changes, checked_patch, update_row, create_application-check_row,
  update_row-check_row,
}
use open_berat.Admin.Entitlements
use open_berat.Admin.Entitlements.{NewEntitlement, create_entitlement-effect}
use open_berat.Admin.Writes
use open_berat.Admin.Writes.{
  taken, insert_application, update_where, insert_entitlement, Write, WriteAnswer, write,
  store_application, change_application, drop_application, store_entitlement, drop_entitlement,
  store_application, change_application, drop_application, store_entitlement, drop_entitlement,
}

abbrev pub hostname_of : Application → Text
hostname_of a = a.external_hostname

-- A list that gains an element with a new key.
append-Keyed :
    {K : Type 0} (key : Application → K) (xs : List Application) (x : Application)
    → Keyed key xs
    → All (λ y. key y ≢ key x) xs
    → Keyed key (xs ++ x ∷ [])
append-Keyed key [] x k n = (tt, tt)
append-Keyed key (y ∷ xs) x (m, k) (n, ns) = (
  All-append (λ z. key z ≢ key y) xs (x ∷ []) m ((λ e. n (sym e)), tt),
  append-Keyed key xs x k ns,
)

map-Keyed :
    {K : Type 0} (key : Application → K) (f : Application → Application) (xs : List Application)
    → ((a : Application) → key (f a) ≡ key a)
    → Keyed key xs
    → Keyed key (map f xs)
map-Keyed key f [] h k = tt
map-Keyed key f (x ∷ xs) h (n, k) = (mapped xs n, map-Keyed key f xs h k)
  where
    mapped :
        (ys : List Application)
        → All (λ y. key y ≢ key x) ys
        → All (λ y. key y ≢ key (f x)) (map f ys)
    mapped [] m = tt
    mapped (y ∷ ys) (m, ms) = ((λ e. m (sym (h y) ∙ e ∙ h x)), mapped ys ms)

map-All :
    (P : Application → Type 0) (f : Application → Application) (xs : List Application)
    → ((a : Application) → P a → P (f a))
    → All P xs
    → All P (map f xs)
map-All P f [] h p = tt
map-All P f (x ∷ xs) h (p, ps) = (h x p, map-All P f xs h ps)

module _ (parse : Text → Option Url) (portal_origin : Text) where
  abbrev pub Renders : Application → Type 0
  Renders a = check_row parse portal_origin a ≡ ok a.external_hostname

  -- The slugs and the hostnames are unique, every application has passed the checks of its row, and the effects
  -- are those that the rules know.
  pub record IsSound (tables : Tables) : Type 0 where
    pub slugs : Keyed slug_of tables.applications
    pub hostnames : Keyed hostname_of tables.applications
    pub rows : All Renders tables.applications
    pub effects : All IsEffect tables.entitlements

  free-slug : (row a : Application) → taken row a ≡ false → slug_of a ≢ slug_of row
  unfolding taken
  free-slug row a h e = ground (arith, text_eq_iff a.slug row.slug)

  free-hostname : (row a : Application) → taken row a ≡ false → hostname_of a ≢ hostname_of row
  unfolding taken
  free-hostname row a h e = ground (arith, text_eq_iff a.external_hostname row.external_hostname)

  insert_application-IsSound :
      (row : Application) (tables : Tables)
      → Renders row
      → IsSound tables
      → IsSound (insert_application row tables).0
  unfolding insert_application
  insert_application-IsSound row tables r v =
      elim (Bool-cases (any (taken row) tables.applications)) [
        | inl e ↦ rw (e, insert_application) v
        | inr e ↦
            rw (e, insert_application)
              (record {
                slugs = append-Keyed slug_of tables.applications row v.slugs (
                    All-intro _ tables.applications (λ a m.
                      free-slug row a (any-eq-false (taken row) a tables.applications e m)));
                hostnames = append-Keyed hostname_of tables.applications row v.hostnames (
                    All-intro _ tables.applications (λ a m.
                      free-hostname row a (any-eq-false (taken row) a tables.applications e m)));
                rows = All-append Renders tables.applications (row ∷ []) v.rows (r, tt);
                effects = v.effects;
              })
      ]

  update_where-hostname :
      (id : Uuid) (changes : Changes) (a : Application)
      → hostname_of (update_where id (update_row changes) a) ≡ hostname_of a
  unfolding update_where update_row
  update_where-hostname id changes a = ground arith

  update_where-slug :
      (id : Uuid) (changes : Changes) (a : Application)
      → slug_of (update_where id (update_row changes) a) ≡ slug_of a
  unfolding update_where update_row
  update_where-slug id changes a = ground arith

  update_where-Renders :
      (id : Uuid) (patch : ApplicationPatch) (changes : Changes) (a : Application)
      → checked_patch parse portal_origin patch ≡ ok changes
      → Renders a
      → Renders (update_where id (update_row changes) a)
  unfolding update_where
  update_where-Renders id patch changes a h r = elim (Bool-cases (a.id == id)) [
    | inr e ↦ rw (e, update_where) r
    | inl e ↦
        rw (e, update_where)
          (update_row-check_row parse portal_origin patch changes a a.external_hostname h r
            ∙ ap ok (sym (same_hostname changes a)))
  ]
    where
      same_hostname :
          (changes : Changes) (a : Application)
          → (update_row changes a).external_hostname ≡ a.external_hostname
      same_hostname changes a = unfold update_row in refl

  insert_entitlement-IsSound :
      (id : Uuid) (new : NewEntitlement) (tables : Tables)
      → (new.effect ≡ codes "allow") ⊎ (new.effect ≡ codes "deny")
      → IsSound tables
      → IsSound (insert_entitlement id new tables).0
  unfolding insert_entitlement
  insert_entitlement-IsSound id new tables k v =
      elim (Bool-cases (any (Writes.same_rule new) tables.entitlements)) [
        | inl e ↦ rw (e, insert_entitlement) v
        | inr e ↦ elim (Bool-cases (Writes.refers_to_one new.application_id tables.applications)) [
          | inr f ↦ rw (e, f, insert_entitlement) v
          | inl f ↦
              rw (e, f, insert_entitlement)
                (record {
                  slugs = v.slugs;
                  hostnames = v.hostnames;
                  rows = v.rows;
                  effects = All-append IsEffect tables.entitlements _ v.effects (k, tt);
                })
        ]
      ]

  -- A handler that the database faults leaves the tables, and one of two results otherwise.
  or_fault-IsSound :
      (fault : Option StoreError) (tables : Tables) (result : Tables × WriteAnswer)
      → IsSound tables
      → IsSound result.0
      → IsSound (Writes.or_fault parse portal_origin fault tables result).0
  or_fault-IsSound none tables result v w = w
  or_fault-IsSound (some e) tables result v w = v

  if-IsSound :
      (b : Bool) (tables : Tables) (changed : Tables × WriteAnswer) (answer : WriteAnswer)
      → IsSound tables
      → IsSound changed.0
      → IsSound (if b then changed else (tables, answer)).0
  if-IsSound true tables changed answer v w = w
  if-IsSound false tables changed answer v w = v

  write-IsSound :
      (fault : Option StoreError) (tables : Tables) (w : Write)
      → IsSound tables
      → IsSound (write parse portal_origin fault tables w).0
  unfolding write change_application store_application drop_application store_entitlement
      drop_entitlement
  write-IsSound fault tables (Write.create_application id new) v =
      elim (Result-cases (Applications.create_application parse portal_origin id new)) [
        | inr (why, e) ↦ rw (e, store_application) v
        | inl (row, e) ↦
            rw (e, store_application)
              (or_fault-IsSound fault tables (insert_application row tables) v (
                insert_application-IsSound row tables
                  (create_application-check_row parse portal_origin id new row e) v))
      ]
  write-IsSound fault tables (Write.update_application id patch) v =
      elim (Result-cases (checked_patch parse portal_origin patch)) [
        | inr (why, e) ↦ rw (e, change_application) v
        | inl (changes, e) ↦
            let f = update_where id (update_row changes) in
            rw (e, change_application)
              (or_fault-IsSound fault tables _ v (
                if-IsSound (any (λ a. a.id == id) tables.applications) tables _ _ v (record {
                  slugs =
                      map-Keyed slug_of f tables.applications (update_where-slug id changes)
                        v.slugs;
                  hostnames =
                      map-Keyed hostname_of f tables.applications (update_where-hostname id changes)
                        v.hostnames;
                  rows =
                      map-All Renders f tables.applications
                        (λ a r. update_where-Renders id patch changes a e r) v.rows;
                  effects = v.effects;
                })))
      ]
  write-IsSound fault tables (Write.delete_application id) v = or_fault-IsSound fault tables _ v (
      if-IsSound (any (λ a. a.id == id) tables.applications) tables _ _ v (record {
        slugs = filter-Keyed slug_of (λ a. not (a.id == id)) tables.applications v.slugs;
        hostnames =
            filter-Keyed hostname_of (λ a. not (a.id == id)) tables.applications v.hostnames;
        rows = All-filter Renders (λ a. not (a.id == id)) tables.applications v.rows;
        effects = All-filter IsEffect (λ e. not (Writes.refers id e)) tables.entitlements v.effects;
      }))
  write-IsSound fault tables (Write.create_entitlement id new) v =
      elim (Result-cases (Entitlements.create_entitlement new)) [
        | inr (why, e) ↦ rw (e, store_entitlement) v
        | inl (row, e) ↦
            rw (e, store_entitlement)
              (or_fault-IsSound fault tables (insert_entitlement id row tables) v
                (insert_entitlement-IsSound id row tables (create_entitlement-effect new row e) v))
      ]
  write-IsSound fault tables (Write.delete_entitlement id) v = or_fault-IsSound fault tables _ v (
      if-IsSound (any (λ e. e.id == id) tables.entitlements) tables _ _ v (record {
        slugs = v.slugs;
        hostnames = v.hostnames;
        rows = v.rows;
        effects = All-filter IsEffect (λ e. not (e.id == id)) tables.entitlements v.effects;
      }))

  -- The tables behind a sequence of handlers, each with the fault that the database reports in it.
  abbrev pub written : Tables → List (Option StoreError × Write) → Tables
  written tables [] = tables
  written tables ((fault, w) ∷ ws) = written (write parse portal_origin fault tables w).0 ws

  -- After any sequence of the handlers that write the tables, from sound ones and whatever the database faults,
  -- no two applications share a slug or a hostname, every application still passes the checks that a row of it
  -- passes before it can be rendered, and every rule allows or denies.
  pub written-IsSound :
      (tables : Tables) (ws : List (Option StoreError × Write))
      → IsSound tables
      → IsSound (written tables ws)
  written-IsSound tables [] v = v
  written-IsSound tables ((fault, w) ∷ ws) v =
      written-IsSound (write parse portal_origin fault tables w).0 ws
        (write-IsSound fault tables w v)
