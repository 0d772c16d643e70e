-- ===== src/Policy/Types.antt =====
-- backend/src/policy.rs: the effects, the rules, the reasons for a refusal and the decisions.
use Prim.Native.Nat.{ℕ}
use open_berat.Base.{◌≡◌, ap, some, arith, get_elem?, List, [], ◌∷◌, Option, Text, codes}

pub data Effect : Type 0 where
  allow deny : Effect

-- An instant (`DateTime<Utc>`) is a count from an epoch before every instant in use.
abbrev pub Instant : Type 0
Instant = ℕ

pub record Rule : Type 0 where
  pub effect : Effect
  pub path_pattern : Text
  pub expires_at : Option Instant

pub data Deny : Type 0 where
  malformed_uri application_disabled explicit_deny no_matching_grant : Deny
  missing_context ambiguous_session store_unavailable auth_unavailable : Deny

pub data Decision : Type 0 where
  allow : Decision
  deny : Deny → Decision

-- `Deny::ALL`
unfoldable pub all_reasons : List Deny
all_reasons =
    malformed_uri ∷ application_disabled ∷ explicit_deny ∷ no_matching_grant ∷ missing_context
    ∷ ambiguous_session ∷ store_unavailable ∷ auth_unavailable ∷ []

-- `reason as usize`: the place of the constructor in the declaration.
unfoldable pub discriminant : Deny → ℕ
discriminant malformed_uri = 0
discriminant application_disabled = 1
discriminant explicit_deny = 2
discriminant no_matching_grant = 3
discriminant missing_context = 4
discriminant ambiguous_session = 5
discriminant store_unavailable = 6
discriminant auth_unavailable = 7

unfoldable pub as_str : Deny → Text
as_str malformed_uri = codes "malformed_uri"
as_str application_disabled = codes "application_disabled"
as_str explicit_deny = codes "explicit_deny"
as_str no_matching_grant = codes "no_matching_grant"
as_str missing_context = codes "missing_context"
as_str ambiguous_session = codes "ambiguous_session"
as_str store_unavailable = codes "store_unavailable"
as_str auth_unavailable = codes "auth_unavailable"

-- The columns of the audit record: the decision, and its reason.
unfoldable pub as_pair : Decision → Text × Text
as_pair Decision.allow = (codes "allow", codes "allowed")
as_pair (Decision.deny reason) = (codes "deny", as_str reason)

-- `Deny::ALL` lists every reason at the place of its discriminant: the metrics index by one and
-- read the names by the other.
pub all_reasons-discriminant : (d : Deny) → get_elem? all_reasons (discriminant d) ≡ some d
unfolding all_reasons discriminant
all_reasons-discriminant d = ground arith

pub discriminant-injective : (d e : Deny) → discriminant d ≡ discriminant e → d ≡ e
discriminant-injective d e h =
    ground
      (arith, all_reasons-discriminant d, all_reasons-discriminant e, ap (get_elem? all_reasons) h)
