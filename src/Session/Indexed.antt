-- ===== src/Session/Indexed.antt =====
-- backend/src/api.rs: the middleware `indexed` before every handler of the portal and the management
-- plane: a session is in the index of the kill switch before any of them answers.
use open_berat.Base.{
  true, none, some, if◌then◌else◌, Text, is_empty, ◌≡◌, ◌⊎◌, inl, inr, arith, Bool-cases,
  Option-cases,
}
use open_berat.Session.Ticket.{Base64}
use open_berat.Session.World.{sadd, Services, World, after}
use open_berat.Session.Logout.{Headers, or_default, derived_key}

-- What becomes of a request: it goes on to its handler, or it is answered here.
pub data Passage : Type 0 where
  next service_unavailable : Passage

unfoldable pub index_session : Services → Base64 → Headers → World → World × Passage
index_session services engine headers w =
    let sub = or_default headers.subject in
    if is_empty sub then (w, next) else elim (derived_key engine headers.cookie) [
      | none ↦ (w, service_unavailable)
      | some key ↦
          if services.succeeds w.calls (sadd sub key)
          then (after (sadd sub key) w, next)
          else (after (sadd sub key) w, service_unavailable)
    ]

-- A request that goes on to its handler names no subject, and then nothing was done, or the index took
-- the session of its cookie under its subject, by the one call made; the cache stays as it was.
pub index_session-next :
    (services : Services) (engine : Base64) (headers : Headers) (w : World)
    → (index_session services engine headers w).1 ≡ next
    → ((is_empty (or_default headers.subject) ≡ true)
        × ((index_session services engine headers w).0 ≡ w))
      ⊎ ((key : Text) × (derived_key engine headers.cookie ≡ some key)
          × (services.succeeds w.calls (sadd (or_default headers.subject) key) ≡ true)
          × ((index_session services engine headers w).0
              ≡ after (sadd (or_default headers.subject) key) w))
unfolding index_session
index_session-next services engine headers w h =
    let sub = or_default headers.subject in
    elim (Bool-cases (is_empty sub)) [
      | inl e ↦ inl (e, ground arith)
      | inr e ↦ elim (Option-cases (derived_key engine headers.cookie)) [
        | inl f ↦ absurd (ground arith)
        | inr (key, f) ↦ elim (Bool-cases (services.succeeds w.calls (sadd sub key))) [
          | inl g ↦ inr (key, f, g, ground arith)
          | inr g ↦ absurd (ground arith)
        ]
      ]
    ]
