-- ===== src/Cache/Family.antt =====
-- backend/src/cache.rs: the cookies that `session_cookie` takes for the session's, and that two of them
-- are refused.
use open_berat.Base.{
  ℕ, ◌+◌, ◌≤◌, Bool, false, ◌||◌, List, [], ◌∷◌, Option, none, some, if◌then◌else◌, ok, err, Text,
  text_eq, text_eq_sound, length, filter, In, split_on, split_once, trim, ltb, ◌≡◌, ◌↔◌, ◌⊎◌, inl,
  inr, refl, ap, ◌∙◌, arith, Bool-cases, Option-cases,
}
use open_berat.Cache.Cookie.{
  cookie_name, ambiguous, is_chunk, scan_cookie, scan_cookies, session_cookie,
}

-- A cookie with the name of the session cookie, or of a chunk of it.
abbrev pub in_family : Text → Bool
in_family cookie = elim (split_once b'=' cookie) [
  | none ↦ false
  | some (name, value) ↦ text_eq (trim name) cookie_name || is_chunk (trim name)
]

-- The session cookie itself, with its value.
abbrev pub IsSession : (value cookie : Text) → Type 0
IsSession value cookie =
    (name : Text) × (split_once b'=' cookie ≡ some (name, value)) × (trim name ≡ cookie_name)

scan_cookie-seen :
    (found : Option Text) (seen : ℕ) (cookie : Text)
    → (scan_cookie found seen cookie).1 ≡ (if in_family cookie then seen + 1 else seen)
unfolding scan_cookie
scan_cookie-seen found seen cookie = elim (Option-cases (split_once b'=' cookie)) [
  | inl e ↦ ground arith
  | inr ((name, value), e) ↦ ground arith
]

scan_cookies-seen :
    (found : Option Text) (seen : ℕ) (cookies : List Text)
    → (scan_cookies found seen cookies).1 ≡ seen + length (filter in_family cookies)
unfolding scan_cookies
scan_cookies-seen found seen [] = omega arith
scan_cookies-seen found seen (cookie ∷ rest) =
    let one = scan_cookie found seen cookie in
    ground (arith, scan_cookies-seen one.0 one.1 rest, scan_cookie-seen found seen cookie)

scan_cookie-found :
    (found : Option Text) (seen : ℕ) (cookie value : Text)
    → (scan_cookie found seen cookie).0 ≡ some value
    → (found ≡ some value) ⊎ IsSession value cookie
unfolding scan_cookie
scan_cookie-found found seen cookie value h = elim (Option-cases (split_once b'=' cookie)) [
  | inl e ↦ inl (ground arith)
  | inr ((name, v), e) ↦ elim (Bool-cases (text_eq (trim name) cookie_name)) [
    | inr f ↦ inl (ground arith)
    | inl f ↦
        let same : v ≡ value = ground arith in
        inr (
          name,
          e ∙ ap (λ (w : Text). some (name, w)) same,
          text_eq_sound (trim name) cookie_name f,
        )
  ]
]

scan_cookies-found :
    (found : Option Text) (seen : ℕ) (cookies : List Text) (value : Text)
    → (scan_cookies found seen cookies).0 ≡ some value
    → (found ≡ some value) ⊎ ((cookie : Text) × In cookie cookies × IsSession value cookie)
unfolding scan_cookies
scan_cookies-found found seen [] value h = inl h
scan_cookies-found found seen (cookie ∷ rest) value h =
    let one = scan_cookie found seen cookie in
    elim (scan_cookies-found one.0 one.1 rest value h) [
      | inr (c, m, s) ↦ inr (c, inr m, s)
      | inl e ↦ elim (scan_cookie-found found seen cookie value e) [
        | inl f ↦ inl f
        | inr s ↦ inr (cookie, inl refl, s)
      ]
    ]

-- A header with two cookies or more of the family (the session cookie or a chunk of it) is refused as
-- ambiguous, and no other; a header that gives a value has a session cookie of just this value, and no
-- second cookie of the family.
pub session_cookie-family :
    (header : Text)
    → ((session_cookie (some header) ≡ err ambiguous)
        ↔ (2 ≤ length (filter in_family (split_on b';' header))))
      × ((value : Text)
          → session_cookie (some header) ≡ ok (some value)
          → (length (filter in_family (split_on b';' header)) ≤ 1)
            × ((cookie : Text) × In cookie (split_on b';' header) × IsSession value cookie))
unfolding session_cookie
session_cookie-family header =
    let cookies = split_on b';' header in
    let seen = scan_cookies-seen none 0 cookies in
    let scanned = scan_cookies none 0 cookies in
    elim (Bool-cases (ltb 1 scanned.1)) [
      | inl e ↦ (ground arith, λ value h. absurd (ground arith))
      | inr e ↦ (
        ground arith,
        λ value h. elim (scan_cookies-found none 0 cookies value (ground arith)) [
          | inl f ↦ absurd (ground arith)
          | inr s ↦ (ground arith, s)
        ],
      )
    ]
