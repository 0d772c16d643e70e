-- ===== src/Policy/Groups.antt =====
-- backend/src/policy.rs: the guards of the management plane (`in_group`, `may_manage`,
-- `may_reset_second_factor`).
use open_berat.Base.{
  Bool, ◌&&◌, ◌||◌, not, List, if◌then◌else◌, Result, ok, err, Text, codes, is_empty, text_eq, any,
}

unfoldable pub in_group : (groups : List Text) → (group : Text) → Bool
in_group groups group = not (is_empty group) && any (λ g. text_eq g group) groups

unfoldable pub may_manage : (groups : List Text) → (admin_group auditor_group : Text) → Bool → Bool
may_manage groups admin_group auditor_group reads =
    in_group groups admin_group || (reads && in_group groups auditor_group)

unfoldable pub may_reset_second_factor :
    (caller_sub target_sub : Text) (target_groups : List Text) (admin_group auditor_group : Text)
    → Result Text (Unit {0})
may_reset_second_factor caller_sub target_sub target_groups admin_group auditor_group =
    if text_eq caller_sub target_sub
    then err (codes "an admin cannot reset their own second factor")
    else if in_group target_groups admin_group || in_group target_groups auditor_group
    then err (
        codes
          "a management-plane account's second factor is reset at the Keycloak console, not here")
    else ok tt
