-- ===== src/Tests/Directory.antt =====
-- The client of Keycloak against a server with fixed answers.
use open_berat.Base.{
  false, ℕ, Bool, true, false, List, [], ◌∷◌, map, Option, none, some, Result, Text, codes, text_eq,
  In, ◌≡◌, ◌⊎◌, inl, inr, refl,
}
use open_berat.Base.Assoc.{lookup, text_Eq}
use open_berat.Admin.Reset.{ResetAnswer, reset_second_factor}
use open_berat.Keycloak.Gate.{client}
use open_berat.Tests.{headers}
use open_berat.Keycloak.Client.{
  Resource, users, groups, group_members, user_groups, user_groups_count, user_credentials, Request,
  token, logout, get, delete_credential, Reply, answered, Server, Crates, Why, is_success,
  read_token, read_value, parsed, access_token, get_token, get_value, elements, text_at,
}
use open_berat.Keycloak.Reset.{otp_ids, delete_all, delete_otp}
use open_berat.Keycloak.Credentials.{Held, IsOtp, delete_otp-only}
use open_berat.Keycloak.Directory
use open_berat.Keycloak.Directory.{User}

-- As much of JSON as the answers below need.
data Json : Type 0 where
  missing : Json
  text : Text → Json
  number : ℕ → Json
  object : List (Text × Text) → Json
  count : ℕ → Json
  array : List (List (Text × Text)) → Json

abbrev text_or : Option Text → Json
text_or none = missing
text_or (some t) = text t

abbrev member_of : Json → Text → Json
member_of (object fields) name = text_or (lookup name fields)
member_of (count n) name = number n
member_of _ name = missing

abbrev string_in : Json → Option Text
string_in (text t) = some t
string_in _ = none

abbrev number_in : Json → Option ℕ
number_in (number n) = some n
number_in _ = none

abbrev array_in : Json → Option (List Json)
array_in (array os) = some (map object os)
array_in _ = none

abbrev is_text : Json → Text → Bool
is_text (text t) s = text_eq t s
is_text _ s = false

-- A user in one group, with a password and a one-time password.
abbrev bodies : List (Text × Json)
bodies =
    (codes "token", object ((codes "access_token", codes "t") ∷ []))
    ∷ (codes "users", array (((codes "id", codes "5") ∷ (codes "username", codes "ann") ∷ []) ∷ []))
    ∷ (codes "groups", array (((codes "id", codes "8") ∷ (codes "name", codes "admins") ∷ []) ∷ []))
    ∷ (codes "count", count 1)
    ∷ (
      codes "credentials",
      array (
          ((codes "type", codes "password") ∷ [])
          ∷ ((codes "type", codes "otp") ∷ (codes "id", codes "6") ∷ [])
          ∷ []),
    )
    ∷ []

abbrev crates : Crates Json
crates = record {
  parse = λ body. lookup body bodies;
  member = member_of;
  as_str = string_in;
  as_bool = λ v. none;
  as_u64 = number_in;
  as_array = array_in;
  eq_str = is_text;
  parse_uuid = some;
}

abbrev body_of : Resource → Text
body_of users = codes "users"
body_of groups = codes "groups"
body_of (group_members id) = codes "users"
body_of (user_groups id) = codes "groups"
body_of (user_groups_count id) = codes "count"
body_of (user_credentials id) = codes "credentials"

abbrev reply_to : Request → Reply
reply_to token = answered 200 (some (codes "token"))
reply_to (logout bearer sub) = answered 204 none
reply_to (get bearer path query) = answered 200 (some (body_of path))
reply_to (delete_credential bearer id credential) = answered 204 none

abbrev server : Server
server sent request = reply_to request

abbrev reset_run : List Request × Result Why ℕ
reset_run = delete_otp crates server (codes "5") []

deleted_one : In (delete_credential (codes "t") (codes "5") (codes "6")) reset_run.0
unfolding delete_otp delete_all otp_ids get_token get_value read_token read_value parsed
    access_token elements text_at is_success lookup
deleted_one = inr (inr (inl refl))

delete_otp-only_example :
    In (delete_credential (codes "t") (codes "5") (codes "6")) []
    ⊎ ((codes "5" ≡ codes "5")
        × (bearer : Text) × (held : Json) × Held crates server (codes "5") [] bearer held
        × IsOtp crates server held (codes "6"))
delete_otp-only_example =
    delete_otp-only crates server (codes "5") [] (codes "t") (codes "5") (codes "6") deleted_one

abbrev user_ann : User
user_ann = record {
  sub = codes "5";
  username = codes "ann";
  email = [];
  totp = false;
  privileged = true;
}

abbrev described : Why → Text
described why = codes "down"

abbrev ann_reset : List Text × ResetAnswer
ann_reset =
    reset_second_factor (client crates server described [] []) (codes "ops") (codes "audit") headers
      (codes " ann ")
