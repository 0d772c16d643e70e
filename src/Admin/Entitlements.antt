-- ===== src/Admin/Entitlements.antt =====
-- backend/src/admin.rs: `create_entitlement`, up to the row that it hands to the database.
use open_berat.Base.{
  ℕ, false, ◌&&◌, not, [], ◌∷◌, Option, some, if◌then◌else◌, Result, ok, err, Text, codes, text_eq,
  text_eq_iff, contains, any, is_empty, trim, split, split_on, ◌≡◌, inl, inr, refl, sym, ap, ◌∙◌,
  arith, Bool-cases, Result-cases, subst, true, ◌⊎◌, any_elim, text_eq_sound,
}
use open_berat.Policy.Types.{Instant}
use open_berat.Store.Channel.{Uuid}
use open_berat.Validate.Pattern.{validate_path_pattern}
use open_berat.Session.Logout.{or_default, group_names}
use open_berat.Cache.Types.{Externals, Identity}
use open_berat.Decide.Request.{groups_of}

pub record NewEntitlement : Type 0 where
  pub application_id : Option Uuid
  pub subject_type : Text
  pub subject_id : Text
  pub effect : Text
  pub path_pattern : Text
  pub expires_at : Option Instant

-- The row to insert, with the subject trimmed; `err` is the text of the 400.
unfoldable pub create_entitlement : NewEntitlement → Result Text NewEntitlement
create_entitlement new =
    let subject_id = trim new.subject_id in
    if not (any (λ t. text_eq t new.subject_type) (codes "ad_group" ∷ codes "user" ∷ []))
    then err (codes "subject_type must be ad_group or user")
    else if not (any (λ e. text_eq e new.effect) (codes "allow" ∷ codes "deny" ∷ []))
    then err (codes "effect must be allow or deny")
    else if is_empty subject_id
    then err (codes "subject_id is required")
    else if text_eq new.subject_type (codes "ad_group") && contains b',' subject_id
    then err (codes "an AD group name cannot contain a comma")
    else elim (validate_path_pattern new.path_pattern) [
      | err why ↦ err why
      | ok u ↦ ok (record new { subject_id = subject_id })
    ]

err-absurd : (why : Text) {row : NewEntitlement} → ok row ≡ err why → ⊥
err-absurd why h = ground arith

ok-injective : (a b : NewEntitlement) → ◌≡◌ {A = Result Text NewEntitlement} (ok a) (ok b) → a ≡ b
ok-injective a b h = ground arith

split-plain : (c : ℕ) (s : Text) → contains c s ≡ false → split_on c s ≡ s ∷ []
unfolding split
split-plain c [] h = refl
split-plain c (d ∷ s) h = let rest = split-plain c s (ground arith) in ground arith

-- A name without a comma that is not empty is one that the header of groups can carry.
group_names-plain :
    (s : Text) → contains b',' s ≡ false → is_empty s ≡ false → group_names s ≡ s ∷ []
unfolding group_names
group_names-plain s h k = rw (split-plain b',' s h, k) refl

-- What the checks leave of a request that passes them all.
create_entitlement-made :
    (new row : NewEntitlement)
    → create_entitlement new ≡ ok row
    → (record new { subject_id = trim new.subject_id } ≡ row)
      × (is_empty (trim new.subject_id) ≡ false)
      × ((text_eq new.subject_type (codes "ad_group") && contains b',' (trim new.subject_id))
          ≡ false)
      × (validate_path_pattern new.path_pattern ≡ ok tt)
      × (any (λ t. text_eq t new.effect) (codes "allow" ∷ codes "deny" ∷ []) ≡ true)
unfolding create_entitlement
create_entitlement-made new row h =
    let subject = trim new.subject_id in
    elim (Bool-cases
      (any (λ t. text_eq t new.subject_type) (codes "ad_group" ∷ codes "user" ∷ []))) [
        | inr a ↦ absurd (err-absurd _ (sym (rw (a, create_entitlement) at h)))
        | inl a ↦
            elim (Bool-cases
              (any (λ t. text_eq t new.effect) (codes "allow" ∷ codes "deny" ∷ []))) [
                | inr b ↦ absurd (err-absurd _ (sym (rw (a, b, create_entitlement) at h)))
                | inl b ↦ elim (Bool-cases (is_empty subject)) [
                  | inl c ↦ absurd (err-absurd _ (sym (rw (a, b, c, create_entitlement) at h)))
                  | inr c ↦
                      elim (Bool-cases
                        (text_eq new.subject_type (codes "ad_group") && contains b',' subject)) [
                          | inl d ↦
                              absurd (err-absurd _ (sym (rw (a, b, c, d, create_entitlement) at h)))
                          | inr d ↦ elim (Result-cases (validate_path_pattern new.path_pattern)) [
                            | inr (w, e) ↦
                                absurd
                                  (err-absurd _ (sym (rw (a, b, c, d, e, create_entitlement) at h)))
                            | inl (u, e) ↦ (
                              ok-injective _ _ (rw (a, b, c, d, e, create_entitlement) at h),
                              c,
                              d,
                              e,
                              b,
                            )
                          ]
                        ]
                ]
              ]
      ]

-- What is stored has one of the two effects that the schema knows.
pub create_entitlement-effect :
    (new row : NewEntitlement)
    → create_entitlement new ≡ ok row
    → (row.effect ≡ codes "allow") ⊎ (row.effect ≡ codes "deny")
create_entitlement-effect new row h =
    let (same, filled, plain, pattern, effect) = create_entitlement-made new row h in
    let (e, m, q) =
      any_elim (λ t. text_eq t new.effect) (codes "allow" ∷ codes "deny" ∷ []) effect in
    let it : e ≡ row.effect =
      text_eq_sound e new.effect q ∙ ap (λ (r : NewEntitlement). r.effect) same in
    elim m [
      | inl a ↦ inl (sym it ∙ sym a)
      | inr (inl d) ↦ inr (sym it ∙ sym d)
      | inr (inr n) ↦ elim n [ ]
    ]

-- A rule for an AD group is stored under its trimmed name, with a pattern that passes. Where oauth2-proxy
-- sends just this name in the header of groups, and `to_str` can read the header (it holds visible ASCII
-- only), the groups that the rules are loaded for are this one: no comma or blank cuts the name.
pub create_entitlement-groups_of :
    (new row : NewEntitlement) (x : Externals) (identity : Identity)
    → create_entitlement new ≡ ok row
    → row.subject_type ≡ codes "ad_group"
    → x.to_str identity.groups ≡ some row.subject_id
    → (row.subject_id ≡ trim new.subject_id)
      × (groups_of x identity ≡ row.subject_id ∷ [])
      × (validate_path_pattern row.path_pattern ≡ ok tt)
unfolding create_entitlement groups_of
create_entitlement-groups_of new row x identity h k read =
    let (same, filled, plain, pattern, effect) = create_entitlement-made new row h in
    let group : new.subject_type ≡ codes "ad_group" =
      ap (λ (r : NewEntitlement). r.subject_type) same ∙ k in
    let is_group = (text_eq_iff new.subject_type (codes "ad_group")).1 group in
    let named : group_names row.subject_id ≡ row.subject_id ∷ [] =
      subst (λ (r : NewEntitlement). group_names r.subject_id ≡ r.subject_id ∷ []) same
        (group_names-plain (trim new.subject_id) (ground arith) filled) in
    (
      sym (ap (λ (r : NewEntitlement). r.subject_id) same),
      ap (λ t. group_names (or_default t)) read ∙ named,
      subst (λ (r : NewEntitlement). validate_path_pattern r.path_pattern ≡ ok tt) same pattern,
    )
