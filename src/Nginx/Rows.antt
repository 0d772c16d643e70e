-- ===== src/Nginx/Rows.antt =====
-- backend/src/nginx.rs: which rows are rendered, and what their text may hold.
use open_berat.Base.{
  ℕ, true, List, [], ◌∷◌, ◌++◌, Option, some, ok, Text, ◌≡◌, refl, ap, ◌∙◌, arith, inl, inr,
  Option-cases, Bool-cases, Result-cases, In, All, lower, map, subst,
}
use open_berat.Validate.Fields.{Url, validate_slug, validate_hostname}
use open_berat.Validate.Shape.{
  accepts-IsPlain, IsPlain, validate_slug-accepts_iff, validate_hostname-ok,
}
use open_berat.Validate.Upstream.{validate_upstream}
use open_berat.Nginx.Render.{Application, Upstream, check_row, upstream_of, render_row, renderable}

module _ (parse : Text → Option Url) (portal_origin : Text) where
  All-map : (P : ℕ → Type 0) (s : Text) → All P (map lower s) → All (λ c. P (lower c)) s
  All-map P [] h = tt
  All-map P (c ∷ s) (p, h) = (p, All-map P s h)

  check_row-ok :
      (app : Application) (stored : Text)
      → check_row parse portal_origin app ≡ ok stored
      → (validate_slug app.slug ≡ ok tt)
        × (validate_upstream parse app.upstream_url ≡ ok tt)
        × (validate_hostname parse app.external_hostname portal_origin ≡ ok stored)
  unfolding check_row
  check_row-ok app stored h = elim (Result-cases (validate_slug app.slug)) [
    | inr (w, e) ↦ absurd (ground arith)
    | inl (u, e) ↦ elim (Result-cases (validate_upstream parse app.upstream_url)) [
      | inr (w, f) ↦ absurd (ground arith)
      | inl (v, f) ↦ (e, f, ground arith)
    ]
  ]

  -- The parts of an upstream.
  abbrev pub IsParsed : Application → Upstream → Type 0
  IsParsed app row =
      (url : Url) × (parse app.upstream_url ≡ some url)
      × (url.host_str ≡ some row.host)
      × (url.port_or_known_default ≡ some row.port)
      × (url.scheme ≡ row.scheme)

  -- A row that may become a block. The hostname is checked in lower case and rendered as it stands.
  abbrev pub IsRenderedAs : List Application → Application → Upstream → Type 0
  IsRenderedAs applications app row =
      In app applications
      × (app.enabled ≡ true)
      × All (IsPlain (b'-' ∷ [])) app.slug
      × All (λ c. IsPlain (b'.' ∷ b'-' ∷ []) (lower c)) app.external_hostname
      × (validate_upstream parse app.upstream_url ≡ ok tt)
      × IsParsed app row

  abbrev pub IsRendered : List Application → Upstream → Type 0
  IsRendered applications row = IsRenderedAs applications row.app row

  upstream_of-IsParsed :
      (app : Application) (row : Upstream)
      → upstream_of parse portal_origin app ≡ some row
      → (app ≡ row.app) × IsParsed app row
  unfolding upstream_of
  upstream_of-IsParsed app row h = elim (Option-cases (parse app.upstream_url)) [
    | inl e ↦ absurd (ground arith)
    | inr (url, e) ↦ elim (Option-cases url.host_str) [
      | inl f ↦ absurd (ground arith)
      | inr (host, f) ↦ elim (Option-cases url.port_or_known_default) [
        | inl g ↦ absurd (ground arith)
        | inr (port, g) ↦
            let same : record { app = app; host = host; port = port; scheme = url.scheme } ≡ row =
              ground arith in
            (
              ap (λ (r : Upstream). r.app) same,
              (
                url,
                e,
                f ∙ ap (λ (r : Upstream). some r.host) same,
                g ∙ ap (λ (r : Upstream). some r.port) same,
                ap (λ (r : Upstream). r.scheme) same,
              ),
            )
      ]
    ]
  ]

  -- Of the checked hostname, to the one that is rendered.
  hostname-IsPlain :
      (hostname stored : Text)
      → validate_hostname parse hostname portal_origin ≡ ok stored
      → All (λ c. IsPlain (b'.' ∷ b'-' ∷ []) (lower c)) hostname
  hostname-IsPlain hostname stored h =
      let (low, shape, p, a, o) = validate_hostname-ok parse hostname portal_origin stored h in
      All-map (IsPlain (b'.' ∷ b'-' ∷ [])) hostname (
        subst (All (IsPlain (b'.' ∷ b'-' ∷ []))) low
          (accepts-IsPlain (b'.' ∷ b'-' ∷ []) true stored shape))

  render_row-IsRendered :
      (applications : List Application) (app : Application) (row : Upstream)
      → In app applications
      → app.enabled ≡ true
      → render_row parse portal_origin app ≡ some row
      → IsRendered applications row
  unfolding render_row
  render_row-IsRendered applications app row m on h =
      elim (Result-cases (check_row parse portal_origin app)) [
        | inr (w, e) ↦ absurd (ground arith)
        | inl (stored, e) ↦
            let (slug, upstream, hostname) = check_row-ok app stored e in
            let (same, parsed) = upstream_of-IsParsed app row (ground arith) in
            let rendered : IsRenderedAs applications app row = (
              m,
              on,
              accepts-IsPlain (b'-' ∷ []) true app.slug
                  ((validate_slug-accepts_iff app.slug).0 slug),
              hostname-IsPlain app.external_hostname stored hostname,
              upstream,
              parsed,
            ) in
            subst (λ a. IsRenderedAs applications a row) same rendered
      ]

  -- Every rendered row stands in the table, is enabled and has an upstream that passed its check
  -- and parsed to the rendered parts; its slug holds only digits, small letters and hyphens, its
  -- hostname only digits, letters, dots and hyphens.
  pub renderable-IsRendered :
      (applications : List Application) (row : Upstream)
      → In row (renderable parse portal_origin applications)
      → IsRendered applications row
  unfolding renderable
  renderable-IsRendered [] row m = elim m [ ]
  renderable-IsRendered (app ∷ applications) row m =
      let on_rest : In row (renderable parse portal_origin applications)
          → IsRendered (app ∷ applications) row =
        (λ n.
          let (k, on, slug, name, up, parsed) = renderable-IsRendered applications row n in
          (inr k, on, slug, name, up, parsed)) in
      elim (Bool-cases app.enabled) [
        | inr e ↦ on_rest (simp e at m)
        | inl e ↦ elim (Option-cases (render_row parse portal_origin app)) [
          | inl f ↦ on_rest (simp (e, f) at m)
          | inr (r, f) ↦
              let n : In row (r ∷ renderable parse portal_origin applications) = simp (e, f) at m in
              elim n [
                | inl same ↦
                    render_row-IsRendered (app ∷ applications) app row (inl refl) e
                      (f ∙ ap some same)
                | inr k ↦ on_rest k
              ]
        ]
      ]

  -- Rows do not touch each other: what one part of the table renders to is the same next to any other
  -- part, so a row that does not validate takes no other row with it.
  pub renderable-append :
      (xs ys : List Application)
      → renderable parse portal_origin (xs ++ ys)
        ≡ renderable parse portal_origin xs ++ renderable parse portal_origin ys
  unfolding renderable
  renderable-append [] ys = refl
  renderable-append (app ∷ xs) ys = ground (arith, renderable-append xs ys)
