-- ===== src/Audit/Sessions.antt =====
-- backend/src/audit.rs: who is signed in (`list_sessions`), from the index of the kill switch and the audit record.
use open_berat.Base.{
  ℕ, Bool, true, false, ◌&&◌, ◌||◌, not, List, [], ◌∷◌, map, find, Option, none, some, Result, ok,
  err, Text, text_eq, ltb, ◌==◌, if◌then◌else◌, ◌≡◌, refl, arith,
}
use open_berat.Base.Sorting.{IsOrder, sort}
use open_berat.Policy.Types.{Instant}
use open_berat.Admin.Failure.{StoreError}
use open_berat.Audit.Rows.{AuditRow}
use open_berat.Session.Live.{Found}

pub record LiveSession : Type 0 where
  pub sub : Text
  pub sessions : ℕ
  pub last_seen_as : Option Text
  pub last_activity : Option Instant

-- A row of the query for the names: the actor, the name and the time.
abbrev pub Seen : Type 0
Seen = Text × Option Text × Instant

-- The most recent row of an actor: `distinct on (actor_sub) … order by actor_sub, ts desc`.
unfoldable pub newest : Text → List AuditRow → Option Seen
newest sub [] = none
newest sub (r ∷ table) =
    let rest = newest sub table in
    if text_eq r.actor_sub sub
    then elim rest [
      | none ↦ some (r.actor_sub, r.actor_name, r.ts)
      | some (actor, name, ts) ↦
          if ltb r.ts ts then some (actor, name, ts) else some (r.actor_sub, r.actor_name, r.ts)
    ]
    else rest

unfoldable pub select_seen : List Text → List AuditRow → List Seen
select_seen [] table = []
select_seen (sub ∷ subs) table =
    let rest = select_seen subs table in
    elim (newest sub table) [ none ↦ rest | some row ↦ row ∷ rest ]

-- `seen`: without an answer of the store there are no names.
unfoldable pub seen_or_none : List Text → Result StoreError (List AuditRow) → List Seen
seen_or_none subs (ok table) = select_seen subs table
seen_or_none subs (err e) = []

unfoldable pub live_session : List Seen → Text × ℕ → LiveSession
live_session seen (sub, sessions) = elim (find (λ (s : Seen). text_eq s.0 sub) seen) [
  | none ↦ record { sub = sub; sessions = sessions; last_seen_as = none; last_activity = none }
  | some (actor, name, ts) ↦ record {
    sub = sub;
    sessions = sessions;
    last_seen_as = name;
    last_activity = some ts;
  }
]

-- `Ord` of `String` and of `Option<DateTime<Utc>>`.
unfoldable pub text_lt : Text → Text → Bool
text_lt [] [] = false
text_lt [] (d ∷ t) = true
text_lt (c ∷ s) [] = false
text_lt (c ∷ s) (d ∷ t) = ltb c d || (c == d && text_lt s t)

unfoldable pub instant_lt : Option Instant → Option Instant → Bool
instant_lt none none = false
instant_lt none (some b) = true
instant_lt (some a) none = false
instant_lt (some a) (some b) = ltb a b

-- The comparison that `sort_by` is given answers `Less`.
unfoldable pub listed_before : LiveSession → LiveSession → Bool
listed_before a b =
    instant_lt b.last_activity a.last_activity
    || (not (instant_lt a.last_activity b.last_activity) && text_lt a.sub b.sub)

pub data SessionsAnswer : Type 0 where
  service_unavailable : SessionsAnswer
  listed : List LiveSession → SessionsAnswer

-- The handler, on what the index and the store answer.
unfoldable pub list_sessions : Option Found → Result StoreError (List AuditRow) → SessionsAnswer
list_sessions none table = service_unavailable
list_sessions (some live) table =
    let seen = seen_or_none (map (λ (p : Text × ℕ). p.0) live) table in
    listed (sort listed_before (map (live_session seen) live))

text_lt-asym : (s t : Text) → text_lt s t ≡ true → text_lt t s ≡ false
unfolding text_lt
text_lt-asym [] [] h = refl
text_lt-asym [] (d ∷ t) h = refl
text_lt-asym (c ∷ s) [] h = absurd (ground arith)
text_lt-asym (c ∷ s) (d ∷ t) h = ground (arith, text_lt-asym s t)

text_lt-co_trans : (s t u : Text) → text_lt s t ≡ true → text_lt u t ≡ false → text_lt s u ≡ true
unfolding text_lt
text_lt-co_trans [] [] u h k = absurd (ground arith)
text_lt-co_trans (c ∷ s) [] u h k = absurd (ground arith)
text_lt-co_trans [] (d ∷ t) [] h k = absurd (ground arith)
text_lt-co_trans [] (d ∷ t) (e ∷ u) h k = refl
text_lt-co_trans (c ∷ s) (d ∷ t) [] h k = absurd (ground arith)
text_lt-co_trans (c ∷ s) (d ∷ t) (e ∷ u) h k = ground (arith, text_lt-co_trans s t u)

pub listed_before-IsOrder : IsOrder listed_before
unfolding listed_before instant_lt
listed_before-IsOrder = record {
  asym = λ a b h. ground (arith, text_lt-asym a.sub b.sub);
  co_trans =
      λ a b c h k. ground (arith, text_lt-co_trans a.sub b.sub c.sub, text_lt-asym a.sub b.sub);
}
