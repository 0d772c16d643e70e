-- ===== src/Keycloak/Targets.antt =====
-- backend/src/keycloak.rs: what `target` has read before it names an account.
use open_berat.Base.{
  ℕ, true, List, [], ◌∷◌, ◌++◌, some, ok, Text, codes, length, ==_iff, ◌≡◌, refl, sym, ap, ◌∙◌,
  arith, Option-cases, Bool-cases, inl, inr,
}
use open_berat.Admin.Reset.{Target}
use open_berat.Keycloak.Client.{
  users, user_groups, user_groups_count, Request, token, get, Server, Crates, after_ok-ok,
  get_token, get_value, read_token, read_value,
}
use open_berat.Keycloak.Reset.{groups_read, first_id, counts, group_list, target_groups, target}

module _ {Value : Type 0} (crates : Crates Value) (server : Server) where
  -- What the i-th read answers to a request, behind those sent before it.
  abbrev pub Reads : List Request → Request → Value → Type 0
  Reads sent request v = read_value crates server (server sent request) ≡ ok v

  counts_lem :
      (v : Value) (n : ℕ)
      → counts crates server v n ≡ true
      → crates.as_u64 (crates.member v (codes "count")) ≡ some n
  unfolding counts
  counts_lem v n h = elim (Option-cases (crates.as_u64 (crates.member v (codes "count")))) [
    | inl e ↦ absurd (ground arith)
    | inr (m, e) ↦ ground (arith, ==_iff m n)
  ]

  abbrev pub lookup_by : Text → Text → Request
  lookup_by bearer username =
      get bearer users ((codes "username", username) ∷ (codes "exact", codes "true") ∷ [])

  abbrev pub read_groups : Text → Text → Request
  read_groups bearer id = get bearer (user_groups id) ((codes "max", groups_read) ∷ [])

  -- The groups of a target are all of them.
  abbrev pub Complete : List Request → (bearer : Text) → Target → Type 0
  Complete sent bearer t =
      (listed : Value) × (counted : Value) × Reads sent (read_groups bearer t.id) listed
      × Reads (sent ++ read_groups bearer t.id ∷ []) (get bearer (user_groups_count t.id) [])
          counted
      × (t.groups ≡ group_list crates server listed)
      × (crates.as_u64 (crates.member counted (codes "count")) ≡ some (length t.groups))

  target_groups-Complete :
      (bearer id : Text) (sent : List Request) (t : Target)
      → (target_groups crates server bearer id sent).1 ≡ ok (some t)
      → (t.id ≡ id) × Complete sent bearer t
  unfolding target_groups get_value
  target_groups-Complete bearer id sent t h =
      let (listed, l, h1, s1) =
        after_ok-ok
          (get_value crates server bearer (user_groups id) ((codes "max", groups_read) ∷ []) sent) _
          h in
      let (counted, c, h2, s2) =
        after_ok-ok
          (get_value crates server bearer (user_groups_count id) []
            (sent ++ read_groups bearer id ∷ []))
          _ h1 in
      let groups = group_list crates server listed in
      elim (Bool-cases (counts crates server counted (length groups))) [
        | inr e ↦ absurd (ground arith)
        | inl e ↦
            let made : record { id = id; groups = groups } ≡ t = ground arith in
            rw (← made) (refl, (listed, counted, l, c, refl, counts_lem counted (length groups) e))
      ]

  -- Where `target` names an account, the first user that Keycloak listed under the name has its id, and its
  -- groups are those that Keycloak listed for that id, as many as Keycloak itself counted: no page of them.
  pub target-Complete :
      (username : Text) (sent : List Request) (t : Target)
      → (target crates server username sent).1 ≡ ok (some t)
      → (bearer : Text) × (found : Value) × (raw : Text) × (read_token crates server
            (server sent token)
          ≡ ok bearer)
        × Reads (sent ++ token ∷ []) (lookup_by bearer username) found
        × (first_id crates server found ≡ some raw)
        × (crates.parse_uuid raw ≡ some t.id)
        × Complete ((sent ++ token ∷ []) ++ lookup_by bearer username ∷ []) bearer t
  unfolding target get_token get_value
  target-Complete username sent t h =
      let (bearer, b, h1, s1) = after_ok-ok (get_token crates server sent) _ h in
      let (found, f, h2, s2) =
        after_ok-ok
          (get_value crates server bearer users
            ((codes "username", username) ∷ (codes "exact", codes "true") ∷ [])
            (sent ++ token ∷ []))
          _ h1 in
      elim (Option-cases (first_id crates server found)) [
        | inl e ↦ absurd (ground arith)
        | inr (raw, e) ↦ elim (Option-cases (crates.parse_uuid raw)) [
          | inl g ↦ absurd (ground arith)
          | inr (uuid, g) ↦
              let (same, complete) =
                target_groups-Complete bearer uuid
                  ((sent ++ token ∷ []) ++ lookup_by bearer username ∷ []) t (ground arith) in
              (bearer, found, raw, b, f, e, g ∙ ap some (sym same), complete)
        ]
      ]
