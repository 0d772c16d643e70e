-- ===== src/Keycloak/Client.antt =====
-- backend/src/keycloak.rs: the requests, `token`, `get` and `logout_all`.
use open_berat.Base.{
  ℕ, Bool, ◌&&◌, List, [], ◌∷◌, ◌++◌, Option, none, some, Result, ok, err, Text, codes, leb, ltb,
  ◌==◌, if◌then◌else◌, In, ◌≡◌, ◌⊎◌, inl, inr, refl, arith,
}

-- The path of a read behind `admin/realms/{realm}/`; an id is the text of a `Uuid`.
pub data Resource : Type 0 where
  users groups : Resource
  group_members user_groups user_groups_count user_credentials : (id : Text) → Resource

-- What is sent. All but the first carry the token of the service account.
pub data Request : Type 0 where
  token : Request
  logout : (bearer sub : Text) → Request
  get : (bearer : Text) → Resource → (query : List (Text × Text)) → Request
  delete_credential : (bearer id credential : Text) → Request

-- No answer in time, or the status of one with its body, where that can be read.
pub data Reply : Type 0 where
  no_answer : Reply
  answered : (status : ℕ) → (body : Option Text) → Reply

-- Keycloak is any function of the requests sent before.
abbrev pub Server : Type 0
Server = List Request → Request → Reply

-- What is used of `serde_json` and of `uuid`: a text parsed, a member (`null` where there is none), the views of
-- a value, the comparison with a text, and the text of the `Uuid` that a text is parsed to.
pub record Crates (Value : Type 0) : Type 0 where
  pub parse : Text → Option Value
  pub member : Value → Text → Value
  pub as_str : Value → Option Text
  pub as_bool : Value → Option Bool
  pub as_u64 : Value → Option ℕ
  pub as_array : Value → Option (List Value)
  pub eq_str : Value → Text → Bool
  pub parse_uuid : Text → Option Text

-- Why a call failed; the code has a text for each.
pub data Why : Type 0 where
  unanswered unreadable no_access_token not_a_uuid : Why
  refused : (status : ℕ) → Why
  miscounted : (listed : ℕ) → Why

pub data LogoutError : Type 0 where
  no_such_user : LogoutError
  unavailable : Why → LogoutError

-- `StatusCode::is_success`
unfoldable pub is_success : ℕ → Bool
is_success status = leb 200 status && ltb status 300

-- A call answers with the requests sent so far.
abbrev pub Call {ℓ} : Type ℓ → Type ℓ → Type ℓ
Call E A = List Request → List Request × Result E A

-- `?` between two calls.
abbrev pub after_ok {ℓ} :
    {E A B : Type ℓ} → List Request × Result E A → (A → Call E B) → List Request × Result E B
after_ok (sent, ok a) next = next a sent
after_ok (sent, err e) next = (sent, err e)

pub after_ok-ok :
    {A B : Type 0} (p : List Request × Result Why A) (next : A → Call Why B) {b : B}
    → (after_ok p next).1 ≡ ok b
    → (a : A) × (p.1 ≡ ok a) × ((next a p.0).1 ≡ ok b) × ((after_ok p next).0 ≡ (next a p.0).0)
after_ok-ok (sent, ok a) next h = (a, refl, h, refl)
after_ok-ok (sent, err e) next h = absurd (ground arith)

-- A request behind two calls is one of the first, or the first has succeeded and it is one of both.
pub after_ok-In :
    {A B : Type 0} (r : Request) (p : List Request × Result Why A) (next : A → Call Why B)
    → In r (after_ok p next).0
    → In r p.0 ⊎ ((a : A) × (p.1 ≡ ok a) × In r (next a p.0).0)
after_ok-In r (sent, ok a) next m = inr (a, refl, m)
after_ok-In r (sent, err e) next m = inl m

module _ {Value : Type 0} (crates : Crates Value) (server : Server) where
  -- The body of an answer, parsed.
  unfoldable pub parsed : Option Text → Result Why Value
  parsed none = err unreadable
  parsed (some body) = elim (crates.parse body) [ none ↦ err unreadable | some v ↦ ok v ]

  unfoldable pub access_token : (body : Text) → Result Why Text
  access_token body = elim (crates.parse body) [
    | none ↦ err no_access_token
    | some v ↦ elim (crates.as_str (crates.member v (codes "access_token"))) [
      | none ↦ err no_access_token
      | some t ↦ ok t
    ]
  ]

  -- The body is read before the status is looked at.
  unfoldable pub read_token : Reply → Result Why Text
  read_token no_answer = err unanswered
  read_token (answered status none) = err unreadable
  read_token (answered status (some body)) =
      if is_success status then access_token body else err (refused status)

  unfoldable pub get_token : Call Why Text
  get_token sent = (sent ++ token ∷ [], read_token (server sent token))

  unfoldable pub read_value : Reply → Result Why Value
  read_value no_answer = err unanswered
  read_value (answered status body) =
      if is_success status then parsed body else err (refused status)

  unfoldable pub get_value :
      (bearer : Text) → Resource → (query : List (Text × Text)) → Call Why Value
  get_value bearer path query sent =
      (sent ++ get bearer path query ∷ [], read_value (server sent (get bearer path query)))

  unfoldable pub read_logout : Reply → Result LogoutError (Unit {0})
  read_logout no_answer = err (unavailable unanswered)
  read_logout (answered status body) =
      if is_success status
      then ok tt
      else if status == 404
      then err no_such_user
      else err (unavailable (refused status))

  unfoldable pub logout_all : (sub : Text) → Call LogoutError (Unit {0})
  logout_all sub sent =
      let (sent', bearer) = get_token sent in
      elim bearer [
        | err why ↦ (sent', err (unavailable why))
        | ok t ↦ (sent' ++ logout t sub ∷ [], read_logout (server sent' (logout t sub)))
      ]

  -- `value.as_array().into_iter().flatten()`
  unfoldable pub elements : Value → List Value
  elements v = elim (crates.as_array v) [ none ↦ [] | some vs ↦ vs ]

  -- `value[name].as_str()`
  unfoldable pub text_at : Text → Value → Option Text
  text_at name v = crates.as_str (crates.member v name)
