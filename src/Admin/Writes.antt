-- ===== src/Admin/Writes.antt =====
-- backend/src/admin.rs: the handlers that write the two tables, with their statements and what the schema
-- (backend/migrations) refuses. `fault` is an error that the database reports instead of running a statement.
use open_berat.Base.{
  Bool, true, false, ◌&&◌, ◌||◌, not, List, [], ◌∷◌, ◌++◌, map, filter, any, Option, none, some, ok,
  err, Text, text_eq, ◌==◌, if◌then◌else◌,
}
use open_berat.Store.Channel.{Uuid}
use open_berat.Store.Tables.{Tables, Entitlement}
use open_berat.Validate.Fields.{Url}
use open_berat.Nginx.Render.{Application}
use open_berat.Admin.Failure.{StoreError, unique_violation, other, Failure, failed}
use open_berat.Admin.Applications
use open_berat.Admin.Entitlements
use open_berat.Admin.Applications.{NewApplication, ApplicationPatch, checked_patch, update_row}
use open_berat.Admin.Entitlements.{NewEntitlement}

pub data WriteAnswer : Type 0 where
  done not_found : WriteAnswer
  bad_request : Text → WriteAnswer
  failure : Failure → WriteAnswer

-- The primary key and the unique columns of `application`.
unfoldable pub taken : Application → Application → Bool
taken row a =
    a.id == row.id || text_eq a.slug row.slug || text_eq a.external_hostname row.external_hostname

unfoldable pub insert_application : Application → Tables → Tables × WriteAnswer
insert_application row tables =
    if any (taken row) tables.applications
    then (tables, failure (failed unique_violation))
    else (record tables { applications = tables.applications ++ row ∷ [] }, done)

-- `update … where id = $1`
unfoldable pub update_where : Uuid → (Application → Application) → Application → Application
update_where id f a = if a.id == id then f a else a

unfoldable pub refers : Uuid → Entitlement → Bool
refers id e = elim e.application_id [ none ↦ false | some a ↦ a == id ]

abbrev pub option_eq : Option Uuid → Option Uuid → Bool
option_eq none none = true
option_eq none (some b) = false
option_eq (some a) none = false
option_eq (some a) (some b) = a == b

-- The unique constraint of `entitlement`, in which nulls are not distinct.
unfoldable pub same_rule : NewEntitlement → Entitlement → Bool
same_rule new e =
    option_eq e.application_id new.application_id
    && (text_eq e.subject_type new.subject_type
        && (text_eq e.subject_id new.subject_id
            && (text_eq e.effect new.effect && text_eq e.path_pattern new.path_pattern)))

-- The foreign key: null, or the id of an application.
unfoldable pub refers_to_one : Option Uuid → List Application → Bool
refers_to_one none applications = true
refers_to_one (some id) applications = any (λ a. a.id == id) applications

unfoldable pub insert_entitlement : Uuid → NewEntitlement → Tables → Tables × WriteAnswer
insert_entitlement id new tables =
    if any (same_rule new) tables.entitlements
    then (tables, failure (failed unique_violation))
    else if not (refers_to_one new.application_id tables.applications)
    then (tables, failure (failed other))
    else (
      record tables {
        entitlements =
            tables.entitlements
            ++ record {
              id = id;
              application_id = new.application_id;
              subject_type = new.subject_type;
              subject_id = new.subject_id;
              effect = new.effect;
              path_pattern = new.path_pattern;
              expires_at = new.expires_at;
            }
              ∷ [];
      },
      done,
    )

pub data Write : Type 0 where
  create_application : (id : Uuid) → NewApplication → Write
  update_application : (id : Uuid) → ApplicationPatch → Write
  delete_application : (id : Uuid) → Write
  create_entitlement : (id : Uuid) → NewEntitlement → Write
  delete_entitlement : (id : Uuid) → Write

module _ (parse : Text → Option Url) (portal_origin : Text) where
  abbrev pub or_fault : Option StoreError → Tables → Tables × WriteAnswer → Tables × WriteAnswer
  or_fault none tables result = result
  or_fault (some e) tables result = (tables, failure (failed e))

  -- The handlers, each on the tables.
  unfoldable pub store_application :
      Option StoreError → Tables → Uuid → NewApplication → Tables × WriteAnswer
  store_application fault tables id new =
      elim (Applications.create_application parse portal_origin id new) [
        | err why ↦ (tables, bad_request why)
        | ok row ↦ or_fault fault tables (insert_application row tables)
      ]

  unfoldable pub change_application :
      Option StoreError → Tables → Uuid → ApplicationPatch → Tables × WriteAnswer
  change_application fault tables id patch = elim (checked_patch parse portal_origin patch) [
    | err why ↦ (tables, bad_request why)
    | ok changes ↦ or_fault fault tables (
        if any (λ a. a.id == id) tables.applications
        then (
          record tables {
            applications = map (update_where id (update_row changes)) tables.applications;
          },
          done,
        )
        else (tables, not_found))
  ]

  unfoldable pub drop_application : Option StoreError → Tables → Uuid → Tables × WriteAnswer
  drop_application fault tables id = or_fault fault tables (
      if any (λ a. a.id == id) tables.applications
      then (
        record {
          applications = filter (λ a. not (a.id == id)) tables.applications;
          entitlements = filter (λ e. not (refers id e)) tables.entitlements;
        },
        done,
      )
      else (tables, not_found))

  unfoldable pub store_entitlement :
      Option StoreError → Tables → Uuid → NewEntitlement → Tables × WriteAnswer
  store_entitlement fault tables id new = elim (Entitlements.create_entitlement new) [
    | err why ↦ (tables, bad_request why)
    | ok row ↦ or_fault fault tables (insert_entitlement id row tables)
  ]

  unfoldable pub drop_entitlement : Option StoreError → Tables → Uuid → Tables × WriteAnswer
  drop_entitlement fault tables id = or_fault fault tables (
      if any (λ e. e.id == id) tables.entitlements
      then (
        record tables { entitlements = filter (λ e. not (e.id == id)) tables.entitlements },
        done,
      )
      else (tables, not_found))

  unfoldable pub write : Option StoreError → Tables → Write → Tables × WriteAnswer
  write fault tables (create_application id new) = store_application fault tables id new
  write fault tables (update_application id patch) = change_application fault tables id patch
  write fault tables (delete_application id) = drop_application fault tables id
  write fault tables (create_entitlement id new) = store_entitlement fault tables id new
  write fault tables (delete_entitlement id) = drop_entitlement fault tables id
