-- ===== src/Admin/Reset.antt =====
-- backend/src/admin.rs: `reset_second_factor`, and with it `policy::may_reset_second_factor` of
-- backend/src/policy.rs.
use open_berat.Base.{
  ℕ, false, ◌||◌, List, [], ◌∷◌, none, some, if◌then◌else◌, ltb, length, Result, ok, err, Text,
  text_eq_iff, is_empty, trim, to_lower, In, ◌≡◌, ◌≢◌, ◌⊎◌, inl, inr, refl, arith, Bool-cases,
  Option-cases, Result-cases,
}
use open_berat.Policy.Groups.{in_group, may_reset_second_factor}
use open_berat.Session.Logout.{Headers, Caller, caller_from}

pub record Target : Type 0 where
  pub id : Text
  pub groups : List Text

-- What Keycloak answers to a lookup and to a removal; a `failed` one has its reason.
pub data Lookup : Type 0 where
  found : Target → Lookup
  missing : Lookup
  failed : Text → Lookup

pub record Keycloak : Type 0 where
  pub target : (username : Text) → Lookup
  pub delete_otp : (id : Text) → Result Text ℕ

pub data ResetAnswer : Type 0 where
  removed : ℕ → ResetAnswer
  unauthorized bad_request not_found : ResetAnswer
  forbidden service_unavailable : Text → ResetAnswer

module _ (keycloak : Keycloak) (admin_group auditor_group : Text) where
  -- From a target on. The list has the accounts whose credential was asked to be deleted.
  unfoldable pub reset_target : Caller → Target → List Text × ResetAnswer
  reset_target caller target =
      elim (may_reset_second_factor (to_lower caller.sub) target.id target.groups admin_group
        auditor_group) [
          | err why ↦ ([], forbidden why)
          | ok u ↦ elim (keycloak.delete_otp target.id) [
            | ok n ↦ (target.id ∷ [], removed n)
            | err why ↦ (target.id ∷ [], service_unavailable why)
          ]
        ]

  unfoldable pub reset_second_factor : Headers → (username : Text) → List Text × ResetAnswer
  reset_second_factor headers username = elim (caller_from headers) [
    | none ↦ ([], unauthorized)
    | some caller ↦
        let name = trim username in
        if is_empty name || ltb 255 (length name)
        then ([], bad_request)
        else elim (keycloak.target name) [
          | missing ↦ ([], not_found)
          | failed why ↦ ([], service_unavailable why)
          | found target ↦ reset_target caller target
        ]
  ]

  may_reset-ok :
      (caller_sub target_sub : Text) (groups : List Text) (u : Unit {0})
      → may_reset_second_factor caller_sub target_sub groups admin_group auditor_group ≡ ok u
      → (caller_sub ≢ target_sub)
        × (in_group groups admin_group ≡ false)
        × (in_group groups auditor_group ≡ false)
  unfolding may_reset_second_factor
  may_reset-ok caller_sub target_sub groups u h =
      (λ e. absurd (ground (arith, text_eq_iff caller_sub target_sub)), ground arith, ground arith)

  reset_target-deletes :
      (caller : Caller) (target : Target) (id : Text)
      → In id (reset_target caller target).0
      → (target.id ≡ id)
        × (to_lower caller.sub ≢ target.id)
        × (in_group target.groups admin_group ≡ false)
        × (in_group target.groups auditor_group ≡ false)
  unfolding reset_target
  reset_target-deletes caller target id m =
      elim (Result-cases (
        may_reset_second_factor (to_lower caller.sub) target.id target.groups admin_group
          auditor_group)) [
            | inr (why, e) ↦ let n : In id [] = rw (e, reset_target) at m in elim n [ ]
            | inl (u, e) ↦
                let gates = may_reset-ok (to_lower caller.sub) target.id target.groups u e in
                elim (Result-cases (keycloak.delete_otp target.id)) [
                  | inl (n, f) ↦
                      let k : In id (target.id ∷ []) = rw (e, f, reset_target) at m in
                      elim k [ inl s ↦ (s, gates.0, gates.1, gates.2) | inr o ↦ elim o [ ] ]
                  | inr (why, f) ↦
                      let k : In id (target.id ∷ []) = rw (e, f, reset_target) at m in
                      elim k [ inl s ↦ (s, gates.0, gates.1, gates.2) | inr o ↦ elim o [ ] ]
                ]
          ]

  Lookup-cases :
      (l : Lookup)
      → ((target : Target) × (l ≡ found target)) ⊎ (l ≡ missing) ⊎ ((why : Text) × (l ≡ failed why))
  Lookup-cases (found target) = inl (target, refl)
  Lookup-cases missing = inr (inl refl)
  Lookup-cases (failed why) = inr (inr (why, refl))

  -- A credential is deleted only for a caller who is identified, and only that of the account that
  -- Keycloak found under the name, which is not the caller's own and in neither group of the management
  -- plane: where the groups cannot be read, nothing is deleted.
  pub reset_second_factor-deletes :
      (headers : Headers) (username id : Text)
      → In id (reset_second_factor headers username).0
      → (caller : Caller) × (target : Target) × (caller_from headers ≡ some caller)
        × (keycloak.target (trim username) ≡ found target)
        × (target.id ≡ id)
        × (to_lower caller.sub ≢ target.id)
        × (in_group target.groups admin_group ≡ false)
        × (in_group target.groups auditor_group ≡ false)
  unfolding reset_second_factor
  reset_second_factor-deletes headers username id m = elim (Option-cases (caller_from headers)) [
    | inl e ↦ let n : In id [] = rw (e, reset_second_factor) at m in elim n [ ]
    | inr (caller, e) ↦
        let name = trim username in
        elim (Bool-cases (is_empty name || ltb 255 (length name))) [
          | inl f ↦ let n : In id [] = rw (e, f, reset_second_factor) at m in elim n [ ]
          | inr f ↦ elim (Lookup-cases (keycloak.target name)) [
            | inr (inl g) ↦ let n : In id [] = rw (e, f, g, reset_second_factor) at m in elim n [ ]
            | inr (inr (why, g)) ↦
                let n : In id [] = rw (e, f, g, reset_second_factor) at m in elim n [ ]
            | inl (target, g) ↦
                let n : In id (reset_target caller target).0 =
                  rw (e, f, g, reset_second_factor) at m in
                let (same, self, admin, auditor) = reset_target-deletes caller target id n in
                (caller, target, e, g, same, self, admin, auditor)
          ]
        ]
  ]
