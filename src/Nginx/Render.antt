-- ===== src/Nginx/Render.antt =====
-- backend/src/nginx.rs: the rows that may become a block (`renderable`) and the two templates.
use open_berat.Base.{
  digits, ℕ, Bool, List, [], ◌∷◌, ◌++◌, Option, none, some, if◌then◌else◌, Result, ok, err,
  and_then, Text, codes,
}
use open_berat.Store.Channel.{Uuid}
use open_berat.Validate.Fields.{Url, validate_slug, validate_hostname}
use open_berat.Validate.Upstream.{validate_upstream}

-- A row of the table (backend/src/admin.rs).
pub record Application : Type 0 where
  pub id : Uuid
  pub slug : Text
  pub name : Text
  pub icon : Option Text
  pub upstream_url : Text
  pub external_hostname : Text
  pub enabled : Bool

-- A row that is rendered, with the parts of its upstream.
pub record Upstream : Type 0 where
  pub app : Application
  pub host : Text
  pub port : ℕ
  pub scheme : Text

module _ (parse : Text → Option Url) (portal_origin : Text) where
  -- The three checks of a row, in their order.
  unfoldable pub check_row : Application → Result Text Text
  check_row app =
      and_then (and_then (validate_slug app.slug) (λ u. validate_upstream parse app.upstream_url))
        (λ u. validate_hostname parse app.external_hostname portal_origin)

  -- The upstream of a row that is valid, in its parts.
  unfoldable pub upstream_of : Application → Option Upstream
  upstream_of app = elim (parse app.upstream_url) [
    | none ↦ none
    | some url ↦ elim url.host_str [
      | none ↦ none
      | some host ↦ elim url.port_or_known_default [
        | none ↦ none
        | some port ↦ some (record { app = app; host = host; port = port; scheme = url.scheme })
      ]
    ]
  ]

  unfoldable pub render_row : Application → Option Upstream
  render_row app = elim (check_row app) [ ok hostname ↦ upstream_of app | err why ↦ none ]

  unfoldable pub renderable : List Application → List Upstream
  renderable [] = []
  renderable (app ∷ applications) =
      let rest = renderable applications in
      if app.enabled then elim (render_row app) [ none ↦ rest | some row ↦ row ∷ rest ] else rest

-- A port has five digits at most.
abbrev pub show_port : ℕ → Text
show_port port = digits 5 port []

-- Lines, each with its newline.
abbrev pub lines : List Text → Text
lines [] = []
lines (l ∷ ls) = l ++ 10 ∷ lines ls

unfoldable pub apps_block : Upstream → Text
apps_block row = lines (
    []
    ∷ codes "server {"
    ∷ codes "    listen 443 ssl;"
    ∷ codes "    http2 on;"
    ∷ (codes "    server_name " ++ row.app.external_hostname ++ codes ";")
    ∷ []
    ∷ codes "    # Fixed here, never taken from the request: the subrequest"
    ∷ codes "    # inherits the client's Host verbatim."
    ∷ (codes "    set $app_slug " ++ row.app.slug ++ codes ";")
    ∷ []
    ∷ codes "    include /etc/nginx/conf.d/errors.inc;"
    ∷ codes "    include /etc/nginx/conf.d/decide.inc;"
    ∷ []
    ∷ codes "    location / {"
    ∷ codes "        include /etc/nginx/conf.d/protected.inc;"
    ∷ (codes "        set $upstream " ++ row.host ++ codes ";")
    ∷ (codes "        proxy_pass "
        ++ row.scheme
        ++ codes "://$upstream:"
        ++ show_port row.port
        ++ codes ";")
    ∷ codes "    }"
    ∷ codes "}"
    ∷ [])

unfoldable pub breakglass_block : Upstream → Text
breakglass_block row = lines (
    []
    ∷ codes "server {"
    ∷ codes "    listen 443 ssl;"
    ∷ codes "    http2 on;"
    ∷ (codes "    server_name " ++ row.app.external_hostname ++ codes ";")
    ∷ []
    ∷ codes "    location / {"
    ∷ codes "        include /etc/nginx/breakglass/upstream.inc;"
    ∷ (codes "        set $upstream " ++ row.host ++ codes ";")
    ∷ (codes "        proxy_pass "
        ++ row.scheme
        ++ codes "://$upstream:"
        ++ show_port row.port
        ++ codes ";")
    ∷ codes "    }"
    ∷ codes "}"
    ∷ [])

-- The loop over the rows: `out` grows by a block for each.
unfoldable pub push_blocks : (Upstream → Text) → Text → List Upstream → Text
push_blocks block out [] = out
push_blocks block out (row ∷ rows) = push_blocks block (out ++ block row) rows

abbrev apps_header : Text
apps_header = lines (
    codes "# Generated from the `application` table by the backend (ADR-0011)."
    ∷ codes "         # Do not edit: the next admin change overwrites it. The hand-written"
    ∷ codes "         # half of the configuration is in the image; only this file is not."
    ∷ [])

abbrev breakglass_header : Text
breakglass_header = lines (
    codes "# Generated from the `application` table by the backend (ADR-0030)."
    ∷ codes "         # BREAK-GLASS: these blocks serve the applications with NO authorisation."
    ∷ codes "         # Read only by breakglass.conf, which nothing starts by itself."
    ∷ [])

module _ (parse : Text → Option Url) (portal_origin : Text) (applications : List Application) where
  unfoldable pub render_apps_conf : Text
  render_apps_conf =
      push_blocks apps_block apps_header (renderable parse portal_origin applications)

  unfoldable pub render_breakglass_conf : Text
  render_breakglass_conf =
      push_blocks breakglass_block breakglass_header (renderable parse portal_origin applications)
