-- ===== src/Keycloak/Reset.antt =====
-- backend/src/keycloak.rs: `target` and `delete_otp`, the two calls of a second-factor reset.
use open_berat.Base.{
  ℕ, Bool, false, List, [], ◌∷◌, ◌++◌, filter, Option, none, some, ok, err, Text, codes, ◌==◌,
  length, if◌then◌else◌, In, ◌≡◌, inl, inr, refl, ap, ◌∙◌, Option-cases,
}
use open_berat.Admin.Reset.{Target}
use open_berat.Keycloak.Client.{
  users, user_groups, user_groups_count, user_credentials, delete_credential, no_answer, answered,
  Server, Crates, Why, unanswered, refused, miscounted, not_a_uuid, is_success, Call, after_ok,
  get_token, get_value, elements, text_at,
}

-- `iter.filter_map(f).collect()`
abbrev pub filter_map {ℓ κ} : {A : Type ℓ} {B : Type κ} → (A → Option B) → List A → List B
filter_map f [] = []
filter_map f (x ∷ xs) = let rest = filter_map f xs in elim (f x) [ none ↦ rest | some y ↦ y ∷ rest ]

pub filter_map-In {ℓ κ} :
    {A : Type ℓ} {B : Type κ} (f : A → Option B) (b : B) (xs : List A)
    → In b (filter_map f xs)
    → (a : A) × In a xs × (f a ≡ some b)
filter_map-In f b [] m = elim m [ ]
filter_map-In f b (x ∷ xs) m = elim (Option-cases (f x)) [
  | inl e ↦ let (a, k, h) = filter_map-In f b xs (rw (e, In) at m) in (a, inr k, h)
  | inr (y, e) ↦
      let m' : In b (y ∷ filter_map f xs) = rw (e, In) at m in
      elim m' [
        | inl s ↦ (x, inl refl, e ∙ ap some s)
        | inr k ↦ let (a, i, h) = filter_map-In f b xs k in (a, inr i, h)
      ]
]

-- `GROUPS_READ`
abbrev pub groups_read : Text
groups_read = codes "1000"

module _ {Value : Type 0} (crates : Crates Value) (server : Server) where
  -- The id of the first user of an answer.
  unfoldable pub first_id : Value → Option Text
  first_id found = elim (elements crates server found) [
    | [] ↦ none
    | user ∷ rest ↦ text_at crates server (codes "id") user
  ]

  -- Whether Keycloak's own count of the groups is a number, and this one.
  unfoldable pub counts : Value → ℕ → Bool
  counts v n = elim (crates.as_u64 (crates.member v (codes "count"))) [
    | none ↦ false
    | some m ↦ m == n
  ]

  unfoldable pub group_list : Value → List Text
  group_list v = filter_map (text_at crates server (codes "name")) (elements crates server v)

  -- From the id of the user on.
  unfoldable pub target_groups : (bearer id : Text) → Call Why (Option Target)
  target_groups bearer id sent =
      after_ok
        (get_value crates server bearer (user_groups id) ((codes "max", groups_read) ∷ []) sent)
        (λ listed sent.
          after_ok (get_value crates server bearer (user_groups_count id) [] sent) (λ counted sent.
            let groups = group_list listed in
            (
              sent,
              if counts counted (length groups)
                  then ok (some (record { id = id; groups = groups }))
                  else err (miscounted (length groups)),
            )))

  unfoldable pub target : (username : Text) → Call Why (Option Target)
  target username sent = after_ok (get_token crates server sent) (λ bearer sent.
      after_ok
        (get_value crates server bearer users
          ((codes "username", username) ∷ (codes "exact", codes "true") ∷ []) sent)
        (λ found sent. elim (first_id found) [
          | none ↦ (sent, ok none)
          | some id ↦ elim (crates.parse_uuid id) [
            | none ↦ (sent, err not_a_uuid)
            | some uuid ↦ target_groups bearer uuid sent
          ]
        ]))

  -- The ids of the credentials of type `otp`.
  unfoldable pub otp_ids : Value → List Text
  otp_ids held = filter_map crates.parse_uuid (
      filter_map (text_at crates server (codes "id")) (
        filter (λ c. crates.eq_str (crates.member c (codes "type")) (codes "otp"))
          (elements crates server held)))

  -- The loop over them: it stops at the first that Keycloak does not delete.
  unfoldable pub delete_all : (bearer id : Text) → List Text → Call Why (Unit {0})
  delete_all bearer id [] sent = (sent, ok tt)
  delete_all bearer id (credential ∷ otp) sent =
      let rest = delete_all bearer id otp (sent ++ delete_credential bearer id credential ∷ []) in
      elim (server sent (delete_credential bearer id credential)) [
        | no_answer ↦ (sent ++ delete_credential bearer id credential ∷ [], err unanswered)
        | answered status body ↦
            if is_success status
            then rest
            else (sent ++ delete_credential bearer id credential ∷ [], err (refused status))
      ]

  unfoldable pub delete_otp : (id : Text) → Call Why ℕ
  delete_otp id sent = after_ok (get_token crates server sent) (λ bearer sent.
      after_ok (get_value crates server bearer (user_credentials id) [] sent) (λ held sent.
        let otp = otp_ids held in
        after_ok (delete_all bearer id otp sent) (λ u sent. (sent, ok (length otp)))))
