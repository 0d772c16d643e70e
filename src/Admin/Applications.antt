-- ===== src/Admin/Applications.antt =====
-- backend/src/admin.rs: `create_application` and `update_application`, up to the row that they hand to
-- the database, and what the database answers.
use open_berat.Base.{
  Bool, Option, none, some, Result, ok, and_then, Text, ◌≡◌, inl, inr, sym, ap, ◌∙◌, arith, subst,
  Option-cases, Result-cases,
}
use open_berat.Store.Channel.{Uuid}
use open_berat.Validate.Fields.{Url, validate_slug, validate_hostname, validate_name, validate_icon}
use open_berat.Validate.Shape.{validate_hostname_idem}
use open_berat.Validate.Upstream.{validate_upstream}
use open_berat.Nginx.Render.{Application, check_row}

pub record NewApplication : Type 0 where
  pub slug : Text
  pub name : Text
  pub icon : Option Text
  pub upstream_url : Text
  pub external_hostname : Text
  pub enabled : Bool

-- The icon has two levels: absent, null, and a text.
pub record ApplicationPatch : Type 0 where
  pub name : Option Text
  pub icon : Option (Option Text)
  pub upstream_url : Option Text
  pub enabled : Option Bool

-- The values that `update_application` binds.
pub record Changes : Type 0 where
  pub name : Option Text
  pub icon : Option (Option Text)
  pub upstream_url : Option Text
  pub enabled : Option Bool

abbrev or_keep : {A : Type 0} → Option A → A → A
or_keep none a = a
or_keep (some b) a = b

module _ (parse : Text → Option Url) (portal_origin : Text) where
  -- The row that `create_application` inserts; `err` is the text of the 400 that it answers instead. The
  -- database gives the id.
  unfoldable pub create_application : (id : Uuid) → NewApplication → Result Text Application
  create_application id new = and_then (validate_slug new.slug) (λ u.
      and_then (validate_upstream parse new.upstream_url) (λ v.
        and_then (validate_hostname parse new.external_hostname portal_origin) (λ hostname.
          and_then (validate_name new.name) (λ name. and_then (validate_icon new.icon) (λ icon.
            ok (record {
              id = id;
              slug = new.slug;
              name = name;
              icon = icon;
              upstream_url = new.upstream_url;
              external_hostname = hostname;
              enabled = new.enabled;
            }))))))

  -- `validate` on a field that may be absent.
  abbrev checked : {A B : Type 0} → (A → Result Text B) → Option A → Result Text (Option B)
  checked validate none = ok none
  checked validate (some a) = and_then (validate a) (λ b. ok (some b))

  unfoldable pub checked_patch : ApplicationPatch → Result Text Changes
  checked_patch patch = and_then (checked (validate_upstream parse) patch.upstream_url) (λ u.
      and_then (checked validate_name patch.name) (λ name.
        and_then (checked validate_icon patch.icon) (λ icon. ok (record {
          name = name;
          icon = icon;
          upstream_url = patch.upstream_url;
          enabled = patch.enabled;
        }))))

-- The update statement on the row of the id.
unfoldable pub update_row : Changes → Application → Application
update_row changes row = record row {
  name = or_keep changes.name row.name;
  icon = or_keep changes.icon row.icon;
  upstream_url = or_keep changes.upstream_url row.upstream_url;
  enabled = or_keep changes.enabled row.enabled;
}

module _ (parse : Text → Option Url) (portal_origin : Text) where
  -- What `create_application` stores passes the checks that run again when the row is rendered, so no
  -- row that it stores is ever skipped for its slug, upstream or hostname.
  pub create_application-check_row :
      (id : Uuid) (new : NewApplication) (row : Application)
      → create_application parse portal_origin id new ≡ ok row
      → check_row parse portal_origin row ≡ ok row.external_hostname
  unfolding create_application check_row
  create_application-check_row id new row h = elim (Result-cases (validate_slug new.slug)) [
    | inr (w, e) ↦ absurd (ground arith)
    | inl (u, e) ↦ elim (Result-cases (validate_upstream parse new.upstream_url)) [
      | inr (w, f) ↦ absurd (ground arith)
      | inl (v, f) ↦
          elim (Result-cases (validate_hostname parse new.external_hostname portal_origin)) [
            | inr (w, g) ↦ absurd (ground arith)
            | inl (stored, g) ↦ elim (Result-cases (validate_name new.name)) [
              | inr (w, i) ↦ absurd (ground arith)
              | inl (name, i) ↦ elim (Result-cases (validate_icon new.icon)) [
                | inr (w, j) ↦ absurd (ground arith)
                | inl (icon, j) ↦
                    let again =
                      validate_hostname_idem parse new.external_hostname portal_origin stored g in
                    let made : Application = record {
                      id = id;
                      slug = new.slug;
                      name = name;
                      icon = icon;
                      upstream_url = new.upstream_url;
                      external_hostname = stored;
                      enabled = new.enabled;
                    } in
                    let same : made ≡ row = ground arith in
                    subst
                      (λ (r : Application).
                        check_row parse portal_origin r ≡ ok r.external_hostname)
                      same (ground arith)
              ]
            ]
          ]
    ]
  ]

  checked_patch-upstream :
      (patch : ApplicationPatch) (changes : Changes)
      → checked_patch parse portal_origin patch ≡ ok changes
      → (changes.upstream_url ≡ patch.upstream_url)
        × ((url : Text) → patch.upstream_url ≡ some url → validate_upstream parse url ≡ ok tt)
  unfolding checked_patch
  checked_patch-upstream patch changes h =
      elim (Result-cases
        (checked parse portal_origin (validate_upstream parse) patch.upstream_url)) [
          | inr (w, e) ↦ absurd (ground arith)
          | inl (u, e) ↦
              elim (Result-cases (checked parse portal_origin validate_name patch.name)) [
                | inr (w, f) ↦ absurd (ground arith)
                | inl (name, f) ↦
                    elim (Result-cases (checked parse portal_origin validate_icon patch.icon)) [
                      | inr (w, g) ↦ absurd (ground arith)
                      | inl (icon, g) ↦
                          let made : Changes = record {
                            name = name;
                            icon = icon;
                            upstream_url = patch.upstream_url;
                            enabled = patch.enabled;
                          } in
                          let same : made ≡ changes = ground arith in
                          (
                            sym (ap (λ (c : Changes). c.upstream_url) same),
                            λ url i. elim (Result-cases (validate_upstream parse url)) [
                              | inl (v, j) ↦ j
                              | inr (w, j) ↦ absurd (ground arith)
                            ],
                          )
                    ]
              ]
        ]

  -- An update of a row that passes these checks leaves one that passes them: slug and hostname cannot be
  -- changed, and a new upstream has gone through the same check.
  pub update_row-check_row :
      (patch : ApplicationPatch) (changes : Changes) (row : Application) (hostname : Text)
      → checked_patch parse portal_origin patch ≡ ok changes
      → check_row parse portal_origin row ≡ ok hostname
      → check_row parse portal_origin (update_row changes row) ≡ ok hostname
  unfolding checked_patch check_row update_row
  update_row-check_row patch changes row hostname h k =
      let (kept, passed) = checked_patch-upstream patch changes h in
      elim (Result-cases (validate_slug row.slug)) [
        | inr (w, e) ↦ absurd (ground arith)
        | inl (u, e) ↦ elim (Option-cases patch.upstream_url) [
          | inl f ↦ let g : changes.upstream_url ≡ none = kept ∙ f in ground arith
          | inr (url, f) ↦
              let g : changes.upstream_url ≡ some url = kept ∙ f in
              let i = passed url f in
              elim (Result-cases (validate_upstream parse row.upstream_url)) [
                | inr (w, j) ↦ absurd (ground arith)
                | inl (v, j) ↦ ground arith
              ]
        ]
      ]
