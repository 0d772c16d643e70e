-- ===== src/Tests/Configuration.antt =====
-- The rows of the two tables and the generated configuration at concrete inputs.
use open_berat.Base.{true, false, [], ◌∷◌, ◌++◌, none, some, ◌≡◌, refl, inl, ok, codes, In, trim}
use open_berat.Base.Assoc.{text_Eq}
use open_berat.Policy.Types.{Effect}
use open_berat.Store.Portal.{PortalApp, joined, portal_apps, portal_apps-joined}
use open_berat.Validate.Pattern.{validate_path_pattern}
use open_berat.Nginx.Render.{Application, Upstream, check_row, renderable}
use open_berat.Nginx.Rows.{IsRendered, renderable-IsRendered}
use open_berat.Nginx.Stage.{Directory, FileSystem}
use open_berat.Admin.Applications.{
  NewApplication, ApplicationPatch, Changes, create_application, checked_patch,
}
use open_berat.Admin.Entitlements.{NewEntitlement, create_entitlement, create_entitlement-groups_of}
use open_berat.Decide.Request.{groups_of}
use open_berat.Tests.{externals, cached_one}
use open_berat.Tests.Management.{program, parse, origin}

abbrev new_wiki : NewApplication
new_wiki = record {
  slug = codes "wiki";
  name = codes " Wiki ";
  icon = none;
  upstream_url = codes "http://wiki-app:8080";
  external_hostname = codes "Wiki.example";
  enabled = true;
}

abbrev wiki : Application
wiki = record {
  id = 7;
  slug = codes "wiki";
  name = codes "Wiki";
  icon = none;
  upstream_url = codes "http://wiki-app:8080";
  external_hostname = codes "wiki.example";
  enabled = true;
}

created : create_application parse origin 7 new_wiki ≡ ok wiki
unfolding program
created = refl

abbrev patch : ApplicationPatch
patch = record {
  name = some (codes "Pages");
  icon = some none;
  upstream_url = some (codes "http://pages");
  enabled = none;
}

abbrev changes : Changes
changes = record {
  name = some (codes "Pages");
  icon = some none;
  upstream_url = some (codes "http://pages");
  enabled = none;
}

patched : checked_patch parse origin patch ≡ ok changes
unfolding program
patched = refl

wiki_passes : check_row parse origin wiki ≡ ok (codes "wiki.example")
unfolding program
wiki_passes = refl

abbrev staff : NewEntitlement
staff = record {
  application_id = some 7;
  subject_type = codes "ad_group";
  subject_id = codes " staff ";
  effect = codes "allow";
  path_pattern = codes "/docs/*";
  expires_at = none;
}

abbrev staff_row : NewEntitlement
staff_row = record staff { subject_id = codes "staff" }

stored : create_entitlement staff ≡ ok staff_row
unfolding program
stored = refl

create_entitlement-groups_of_example :
    (codes "staff" ≡ trim (codes " staff "))
    × (groups_of externals cached_one.identity ≡ codes "staff" ∷ [])
    × (validate_path_pattern (codes "/docs/*") ≡ ok tt)
create_entitlement-groups_of_example =
    create_entitlement-groups_of staff staff_row externals cached_one.identity stored refl refl

abbrev wiki_row : Upstream
wiki_row = record { app = wiki; host = codes "wiki-app"; port = 8080; scheme = codes "http" }

abbrev hidden : Application
hidden = record wiki { enabled = false }

abbrev injecting : Application
injecting = record wiki { slug = codes "a; b" }

rendered : In wiki_row (renderable parse origin (hidden ∷ injecting ∷ wiki ∷ []))
unfolding program
rendered = inl refl

renderable-IsRendered_example : IsRendered parse origin (hidden ∷ injecting ∷ wiki ∷ []) wiki_row
renderable-IsRendered_example =
    renderable-IsRendered parse origin (hidden ∷ injecting ∷ wiki ∷ []) wiki_row rendered

-- A disk that is full at the first write.
abbrev full_disk : FileSystem
full_disk = record { cut_short = λ n. some (codes "# Gen"); renames = λ n. true }

abbrev before_stage : Directory
before_stage = record { files = (codes "apps.conf.staged", codes "# old") ∷ []; calls = 0 }

abbrev crm_app : PortalApp
crm_app = record {
  slug = codes "crm";
  name = codes "Pages";
  icon = none;
  external_hostname = codes "crm.example";
  rules = [];
}

-- Two applications of one name.
abbrev wiki_app : PortalApp
wiki_app = record {
  slug = codes "wiki";
  name = codes "Pages";
  icon = none;
  external_hostname = codes "wiki.example";
  rules =
      record { effect = Effect.allow; path_pattern = []; expires_at = none }
      ∷ record { effect = Effect.deny; path_pattern = codes "/admin/*"; expires_at = none }
      ∷ [];
}

portal_apps-joined_example :
    portal_apps [] (joined (crm_app ∷ wiki_app ∷ [])) ≡ [] ++ crm_app ∷ wiki_app ∷ []
portal_apps-joined_example = portal_apps-joined (crm_app ∷ wiki_app ∷ []) [] (refl, (refl, tt))
