-- ===== src/Admin/Guard.antt =====
-- backend/src/admin.rs: `guard`, and with it `policy::may_manage` of backend/src/policy.rs.
use open_berat.Base.{
  Bool, true, false, ◌&&◌, not, List, [], ◌∷◌, none, some, if◌then◌else◌, Text, text_eq,
  text_eq_iff, text_eq_refl, any_intro, any_elim, In, ◌≡◌, ◌≢◌, ◌↔◌, ◌⊎◌, inl, inr, refl, arith,
  Bool-cases, Option-cases, subst, text_eq_sound,
}
use open_berat.Policy.Groups.{in_group, may_manage}
use open_berat.Session.Logout.{Headers, Caller, caller_from, from_portal}

pub data Method : Type 0 where
  get head other : Method

-- `matches!(*request.method(), Method::GET | Method::HEAD)`
unfoldable pub reads : Method → Bool
reads get = true
reads head = true
reads other = false

-- What the guard does with a request: it answers it, or lets it on to its handler.
pub data Passage : Type 0 where
  unauthorized forbidden next : Passage

unfoldable pub guard : (admin_group auditor_group portal_origin : Text) → Headers → Method → Passage
guard admin_group auditor_group portal_origin headers method = elim (caller_from headers) [
  | none ↦ unauthorized
  | some caller ↦
      if not (may_manage caller.groups admin_group auditor_group (reads method))
      then forbidden
      else if not (reads method) && not (from_portal headers portal_origin)
      then forbidden
      else next
]

-- A group that is configured empty has no members; any other has those that name it.
pub in_group_iff :
    (groups : List Text) (group : Text)
    → (in_group groups group ≡ true) ↔ ((group ≢ []) × In group groups)
unfolding in_group
in_group_iff groups [] = (λ h. absurd (ground arith), λ (n, m). absurd (n refl))
in_group_iff groups (c ∷ group) = (
  λ h.
      let (g, m, e) = any_elim (λ g. text_eq g (c ∷ group)) groups h in
      (λ k. absurd (ground arith), subst (λ t. In t groups) (text_eq_sound g (c ∷ group) e) m),
  λ (n, m). any_intro (λ g. text_eq g (c ∷ group)) (c ∷ group) groups m (text_eq_refl (c ∷ group)),
)

-- What a request must have to reach a handler.
abbrev pub MayPass :
    (admin_group auditor_group portal_origin : Text) → Headers → Method → Caller → Type 0
MayPass admin_group auditor_group portal_origin headers method caller =
    (((admin_group ≢ []) × In admin_group caller.groups)
      ⊎ ((reads method ≡ true) × (auditor_group ≢ []) × In auditor_group caller.groups))
    × ((reads method ≡ true) ⊎ (headers.origin ≡ some portal_origin))

module _ (admin_group auditor_group portal_origin : Text) (headers : Headers)
    (method : Method) where
  may_manage-cases :
      (groups : List Text)
      → may_manage groups admin_group auditor_group (reads method) ≡ true
      → ((admin_group ≢ []) × In admin_group groups)
        ⊎ ((reads method ≡ true) × (auditor_group ≢ []) × In auditor_group groups)
  unfolding may_manage
  may_manage-cases groups h = elim (Bool-cases (in_group groups admin_group)) [
    | inl e ↦ inl ((in_group_iff groups admin_group).0 e)
    | inr e ↦
        let (n, m) = (in_group_iff groups auditor_group).0 (ground arith) in
        inr (ground arith, n, m)
  ]

  may_manage_intro :
      (groups : List Text)
      → ((admin_group ≢ []) × In admin_group groups)
        ⊎ ((reads method ≡ true) × (auditor_group ≢ []) × In auditor_group groups)
      → may_manage groups admin_group auditor_group (reads method) ≡ true
  unfolding may_manage
  may_manage_intro groups (inl p) = let e = (in_group_iff groups admin_group).1 p in ground arith
  may_manage_intro groups (inr (r, n, m)) =
      let e = (in_group_iff groups auditor_group).1 (n, m) in ground arith

  from_portal_iff :
      (from_portal headers portal_origin ≡ true) ↔ (headers.origin ≡ some portal_origin)
  unfolding from_portal
  from_portal_iff = elim (Option-cases headers.origin) [
    | inl e ↦ ground arith
    | inr (origin, e) ↦ ground (arith, text_eq_iff origin portal_origin)
  ]

  -- A request reaches a handler of the management plane exactly if its caller is identified, is in the
  -- admin group or, for a read, in the auditor group, neither of them configured empty, and anything
  -- but a read comes from the portal's own origin.
  pub guard-next_iff : (guard admin_group auditor_group portal_origin headers method ≡ next) ↔ (
      (caller : Caller) × (caller_from headers ≡ some caller)
      × MayPass admin_group auditor_group portal_origin headers method caller)
  unfolding guard
  guard-next_iff = (passes, λ (caller, e, p). admits caller e p.0 p.1)
    where
      passes :
          guard admin_group auditor_group portal_origin headers method ≡ next
          → (caller : Caller) × (caller_from headers ≡ some caller)
            × MayPass admin_group auditor_group portal_origin headers method caller
      passes h = elim (Option-cases (caller_from headers)) [
        | inl e ↦ absurd (ground arith)
        | inr (caller, e) ↦ (
          caller,
          e,
          (
            may_manage-cases caller.groups (ground arith),
            elim (Bool-cases (reads method)) [
              | inl r ↦ inl r
              | inr r ↦ inr (from_portal_iff.0 (ground arith))
            ],
          ),
        )
      ]

      admits :
          (caller : Caller)
          → caller_from headers ≡ some caller
          → ((admin_group ≢ []) × In admin_group caller.groups)
            ⊎ ((reads method ≡ true) × (auditor_group ≢ []) × In auditor_group caller.groups)
          → (reads method ≡ true) ⊎ (headers.origin ≡ some portal_origin)
          → guard admin_group auditor_group portal_origin headers method ≡ next
      admits caller e p (inl r) = let f = may_manage_intro caller.groups p in ground arith
      admits caller e p (inr o) =
          let f = may_manage_intro caller.groups p in let g = from_portal_iff.1 o in ground arith
