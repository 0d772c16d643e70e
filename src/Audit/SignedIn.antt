-- ===== src/Audit/SignedIn.antt =====
-- backend/src/audit.rs over backend/src/session.rs: the list of the signed-in subjects against Redis.
use open_berat.Base.{
  ℕ, ◌<◌, ◌≤◌, List, map, find, Option, Result, Text, text_eq, ◌≡◌, ◌↔◌, refl, sym, ap, ◌∙◌, In,
  In-map, In-map_inv, inl, inr, Option-cases,
}
use open_berat.Base.Assoc.{text_Eq}
use open_berat.Base.Sorting.{sort, Sorted, sort-Sorted, In-sort, In-sort_inv}
use open_berat.Base.Weights.{lookup-In, In-lookup}
use open_berat.Admin.Failure.{StoreError}
use open_berat.Audit.Rows.{AuditRow}
use open_berat.Audit.Sessions.{
  LiveSession, Seen, live_session, seen_or_none, listed_before, listed_before-IsOrder,
  list_sessions, listed,
}
use open_berat.Session.Live.{live}
use open_berat.Session.Live.Scan.{steady, Scan, alive, live-lookup}
use open_berat.Session.Ticket.{index_key}

live_session-sub : (seen : List Seen) (p : Text × ℕ) → (live_session seen p).sub ≡ p.0
unfolding live_session
live_session-sub seen (sub, n) = elim (Option-cases (find (λ (s : Seen). text_eq s.0 sub) seen)) [
  | inl e ↦ rw (e, live_session) refl
  | inr (row, e) ↦ rw (e, live_session) refl
]

live_session-sessions : (seen : List Seen) (p : Text × ℕ) → (live_session seen p).sessions ≡ p.1
unfolding live_session
live_session-sessions seen (sub, n) =
    elim (Option-cases (find (λ (s : Seen). text_eq s.0 sub) seen)) [
      | inl e ↦ rw (e, live_session) refl
      | inr (row, e) ↦ rw (e, live_session) refl
    ]

module _ (scan : (i cursor : ℕ) → Option (ℕ × List Text)) (sets : Text → List Text)
    (count : List Text → ℕ) where
  -- While the sets and the sessions stand still, and whatever the audit record answers, the list is in its
  -- order, the most recently active first, and a subject stands in it with a number exactly if the scan named
  -- its set and that number of its sessions, more than none, exist.
  pub list_sessions-live :
      (fuel n : ℕ) (keys : List Text) (table : Result StoreError (List AuditRow))
      → Scan scan sets count 0 0 keys n
      → n ≤ fuel
      → (rows : List LiveSession) × (list_sessions (live (steady scan sets count) fuel) table
          ≡ listed rows)
        × Sorted listed_before rows
        × ((sub : Text) (k : ℕ)
            → ((row : LiveSession) × In row rows × (row.sub ≡ sub) × (row.sessions ≡ k))
              ↔ (In (index_key sub) keys × (alive scan sets count sub ≡ k) × (0 < k)))
  unfolding list_sessions
  list_sessions-live fuel n keys table s h =
      let (found, e, d, spec) = live-lookup scan sets count fuel n keys s h in
      let seen = seen_or_none (map (λ (p : Text × ℕ). p.0) found) table in
      let rows = map (live_session seen) found in
      (
        sort listed_before rows,
        rw (e, list_sessions) refl,
        sort-Sorted listed_before listed_before-IsOrder rows,
        λ sub k. (
          λ (row, m, same, number).
              let (p, there, it) =
                In-map_inv (live_session seen) row found (In-sort_inv listed_before row rows m) in
              let a : p.0 ≡ sub =
                sym (live_session-sub seen p) ∙ ap (λ (r : LiveSession). r.sub) it ∙ same in
              let b : p.1 ≡ k =
                sym (live_session-sessions seen p)
                ∙ ap (λ (r : LiveSession). r.sessions) it
                ∙ number in
              (spec sub k).0 (rw (← a, ← b) (lookup-In p.0 p.1 found d there)),
          λ g.
              let there = In-lookup sub k found ((spec sub k).1 g) in
              (
                live_session seen (sub, k),
                In-sort listed_before (live_session seen (sub, k)) rows
                    (In-map (live_session seen) (sub, k) found there),
                live_session-sub seen (sub, k),
                live_session-sessions seen (sub, k),
              ),
        ),
      )
