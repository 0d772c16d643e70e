-- ===== src/Keycloak/Directory.antt =====
-- backend/src/keycloak.rs: `users` and `members`; with them `list_users` of backend/src/admin.rs.
use open_berat.Base.{
  digits, ℕ, ◌*◌, ◌^◌, ◌-◌, Bool, false, List, [], ◌∷◌, ◌++◌, any, find, Option, none, some, Result,
  ok, err, Text, codes, text_eq, is_empty, trim, length, ltb, if◌then◌else◌,
}
use open_berat.Keycloak.Client.{
  Resource, groups, group_members, Request, Server, Crates, Why, Call, after_ok, get_token,
  get_value, elements, text_at,
}
use open_berat.Keycloak.Client
use open_berat.Keycloak.Reset.{filter_map}

-- `to_string` of a `u32`, which has ten digits at most.
abbrev pub to_string : ℕ → Text
to_string n = digits 10 n []

pub record User : Type 0 where
  pub sub : Text
  pub username : Text
  pub email : Text
  pub totp : Bool
  pub privileged : Bool

abbrev pub or_empty : Option Text → Text
or_empty none = []
or_empty (some t) = t

abbrev pub or_false : Option Bool → Bool
or_false none = false
or_false (some b) = b

-- `privileged.contains(&username)`
abbrev pub holds : List Text → Text → Bool
holds names name = any (λ n. text_eq n name) names

module _ {Value : Type 0} (crates : Crates Value) (server : Server) where
  -- The id of the first group of the name, where it is a `Uuid`.
  unfoldable pub group_id : (group : Text) → Value → Option Text
  group_id group found =
      elim (find (λ g. crates.eq_str (crates.member g (codes "name")) group)
        (elements crates server found)) [
          | none ↦ none
          | some g ↦ elim (text_at crates server (codes "id") g) [
            | none ↦ none
            | some id ↦ crates.parse_uuid id
          ]
        ]

  unfoldable pub members_of : (bearer id : Text) → Call Why (List Text)
  members_of bearer id sent =
      after_ok (get_value crates server bearer (group_members id) [] sent) (λ members sent. (
        sent,
        ok (filter_map (text_at crates server (codes "username")) (elements crates server members)),
      ))

  unfoldable pub members : (bearer group : Text) → Call Why (List Text)
  members bearer group sent =
      if is_empty group
      then (sent, ok [])
      else after_ok
          (get_value crates server bearer groups
            ((codes "search", group) ∷ (codes "exact", codes "true") ∷ []) sent)
          (λ found sent. elim (group_id group found) [
            | none ↦ (sent, ok [])
            | some id ↦ members_of bearer id sent
          ])

  -- The projection of one user.
  unfoldable pub user_from : (privileged : List Text) → Value → Option User
  user_from privileged user = elim (text_at crates server (codes "username") user) [
    | none ↦ none
    | some username ↦ elim (text_at crates server (codes "id") user) [
      | none ↦ none
      | some sub ↦ some (record {
        sub = sub;
        username = username;
        email = or_empty (text_at crates server (codes "email") user);
        totp = or_false (crates.as_bool (crates.member user (codes "totp")));
        privileged = holds privileged username;
      })
    ]
  ]

  abbrev pub page_query : (search : Text) → (first max : ℕ) → List (Text × Text)
  page_query search first max =
      (codes "first", to_string first)
      ∷ (codes "max", to_string max)
      ∷ (if is_empty search then [] else (codes "search", search) ∷ [])

  unfoldable pub users :
      (search : Text) → (first max : ℕ) → (admin_group auditor_group : Text) → Call Why (List User)
  users search first max admin_group auditor_group sent =
      after_ok (get_token crates server sent) (λ bearer sent.
        after_ok (get_value crates server bearer Client.users (page_query search first max) sent)
          (λ listed sent. after_ok (members bearer admin_group sent) (λ admins sent.
            after_ok (members bearer auditor_group sent) (λ auditors sent. (
              sent,
              ok (filter_map (user_from (admins ++ auditors)) (elements crates server listed)),
            )))))

-- `admin::PAGE`
abbrev pub page_size : ℕ
page_size = 50

pub data UsersAnswer : Type 0 where
  bad_request : UsersAnswer
  service_unavailable : Why → UsersAnswer
  listed : List User → UsersAnswer

abbrev pub users_answer : Result Why (List User) → UsersAnswer
users_answer (ok us) = listed us
users_answer (err why) = service_unavailable why

-- `query.page.saturating_mul(PAGE)`
unfoldable pub saturating_mul : ℕ → ℕ → ℕ
saturating_mul a b = if ltb (a * b) (2 ^ 32) then a * b else 2 ^ 32 - 1

unfoldable pub list_users :
    {Value : Type 0}
    → Crates Value
    → Server
    → (admin_group auditor_group : Text) → (search : Text) → (page : ℕ) → List Request
    → List Request × UsersAnswer
list_users crates server admin_group auditor_group search page sent =
    let name = trim search in
    if ltb 100 (length name)
    then (sent, bad_request)
    else (let (sent', found) =
          users crates server name (saturating_mul page page_size) page_size admin_group
            auditor_group sent in
        (sent', users_answer found))
