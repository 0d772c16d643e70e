-- ===== src/Tests/Screens.antt =====
-- The screens that only read, and the portal, at concrete tables.
use open_berat.Base.{
  ℕ, zero, suc, ◌<◌, true, List, [], ◌∷◌, Option, none, some, ok, ◌≡◌, ◌≢◌, ◌↔◌, inl, refl, ap,
  arith, Text, codes, In, split,
}
use open_berat.Base.Sorting.{Sorted}
use open_berat.Base.Keyed.{Keyed}
use open_berat.Policy.Types.{Instant}
use open_berat.Nginx.Render.{Application}
use open_berat.Store.Tables.{Entitlement, Tables, traced_rules_for, portal_apps_for}
use open_berat.Store.Queries.{IsOrdering, IsArrangement, slug_of, portal_app}
use open_berat.Session.Logout.{Caller, caller_from, group_names}
use open_berat.Session.Live.{live}
use open_berat.Session.Live.Scan.{steady, ends, alive}
use open_berat.Session.Ticket.{index_key}
use open_berat.Portal.Apps.{PortalApp, apps, on_page, Reaches, shown, apps-reachable}
use open_berat.Audit.Rows.{AuditRow, AuditQuery, pos, key, newer, precedes}
use open_berat.Audit.Paging.{walk, listing, Fresh, walk-listing}
use open_berat.Audit.Sessions.{LiveSession, listed_before, list_sessions, listed}
use open_berat.Audit.SignedIn.{list_sessions-live}
use open_berat.Audit.Screen
use open_berat.Audit.Screen.{
  ExplainQuery, Explanation, bare_host, listed_groups, explain_application,
}
use open_berat.Tests.{headers}

abbrev row : (id : ℕ) → (ts : Instant) → AuditRow
row id ts = record {
  id = id;
  ts = ts;
  actor_sub = codes "u1";
  actor_name = some (codes "ann");
  application_id = some 7;
  application_slug = codes "wiki";
  decision = codes "deny";
  reason = codes "explicit_deny";
  count = 3;
  first_seen = ts;
  last_seen = ts;
  distinct_path = 1;
  first_path = codes "/admin/";
  src_ip = none;
  request_id = none;
}

abbrev record_of_three : List AuditRow
record_of_three = row 1 20 ∷ row 2 30 ∷ row 3 20 ∷ []

-- Two rows to a page, of the denials.
abbrev denials : AuditQuery
denials = record {
  actor = none;
  app = none;
  decision = none;
  reason = some (codes "explicit_deny");
  since = none;
  until = none;
  before_ts = none;
  before_id = none;
  limit = some (pos 2);
}

abbrev arriving : ℕ → List AuditRow
arriving zero = []
arriving (suc i) = row 9 40 ∷ []

differ : (r s : AuditRow) → r.id ≢ s.id → key r ≢ key s
differ r s n e = n (ap (λ p. p.0) e)

three_keys : Keyed key record_of_three
three_keys = (
  (
    differ (row 2 30) (row 1 20) (λ e. ground arith),
    (differ (row 3 20) (row 1 20) (λ e. ground arith), tt),
  ),
  ((differ (row 3 20) (row 2 30) (λ e. ground arith), tt), (tt, tt)),
)

arriving-Fresh : (i : ℕ) → Fresh record_of_three (arriving i)
unfolding newer precedes
arriving-Fresh zero = tt
arriving-Fresh (suc i) = ((refl, (refl, (refl, tt))), tt)

walk-listing_example : walk arriving record_of_three 3 0 denials ≡ listing denials record_of_three
walk-listing_example =
    walk-listing denials record_of_three three_keys arriving 3 refl refl refl arriving-Fresh
      (omega arith)

-- One reply of the scan, which names the set of one subject.
abbrev one_reply : ℕ → ℕ → Option (ℕ × List Text)
one_reply i cursor = some (0, index_key (codes "u1") ∷ [])

abbrev one_set : Text → List Text
one_set name = codes "_oauth2_proxy-1" ∷ []

abbrev all_exist : List Text → ℕ
all_exist members = 1

list_sessions-live_example :
    (rows : List LiveSession) × (list_sessions
        (live (steady one_reply one_set all_exist) 1)
        (ok record_of_three)
      ≡ listed rows)
    × Sorted listed_before rows
    × ((sub : Text) (k : ℕ)
        → ((r : LiveSession) × In r rows × (r.sub ≡ sub) × (r.sessions ≡ k)) ↔ (
            In (index_key sub) (index_key (codes "u1") ∷ [])
            × (alive one_reply one_set all_exist sub ≡ k)
            × (0 < k)))
list_sessions-live_example =
    list_sessions-live one_reply one_set all_exist 1 1 (index_key (codes "u1") ∷ [])
      (ok record_of_three) (ends refl) (omega arith)

abbrev wiki : Application
wiki = record {
  id = 7;
  slug = codes "wiki";
  name = codes "Wiki";
  icon = none;
  upstream_url = codes "http://wiki-app:8080";
  external_hostname = codes "wiki.example";
  enabled = true;
}

abbrev grant : Entitlement
grant = record {
  id = 1;
  application_id = none;
  subject_type = codes "ad_group";
  subject_id = codes "staff";
  effect = codes "allow";
  path_pattern = [];
  expires_at = none;
}

abbrev tables : Tables
tables = record { applications = wiki ∷ []; entitlements = grant ∷ [] }

abbrev as_found {ℓ} : {A : Type ℓ} → List A → List A
as_found xs = xs

abbrev question : ExplainQuery
question = record {
  user = codes "u1";
  groups = some (codes "staff, admins");
  host = codes "Wiki.example:443";
  path = codes "/a/../b";
}

abbrev explanation : Explanation
explanation =
    explain_application question (listed_groups (codes "staff, admins"))
      (bare_host (codes "Wiki.example:443")) wiki 5
      (traced_rules_for as_found tables 7 (codes "u1") (listed_groups (codes "staff, admins")))

as_found-IsArrangement : IsArrangement as_found
as_found-IsArrangement f es = ((λ m. m), (λ m. m))

as_found-IsOrdering : IsOrdering slug_of as_found
as_found-IsOrdering = record { same = λ a xs. ((λ m. m), (λ m. m)); once = λ xs k. k }

abbrev caller : Caller
caller = record {
  sub = codes "u1";
  username = codes "ann";
  email = [];
  groups = codes "staff" ∷ codes "admins" ∷ [];
}

identified : caller_from headers ≡ some caller
unfolding caller_from group_names split
identified = refl

abbrev wiki_shown : PortalApp
wiki_shown = shown (portal_app as_found tables caller.sub caller.groups wiki)

apps-reachable_example :
    In wiki_shown
      (on_page (apps headers (λ d. ok (portal_apps_for as_found as_found tables d.sub d.groups)) 5))
    ↔ ((a : Application) × In a tables.applications
        × Reaches as_found tables caller 5 a
        × (shown (portal_app as_found tables caller.sub caller.groups a) ≡ wiki_shown))
apps-reachable_example =
    apps-reachable as_found as_found as_found tables as_found-IsOrdering as_found-IsArrangement
      as_found-IsArrangement (tt, tt) (inl refl, tt) headers caller 5 identified wiki_shown
