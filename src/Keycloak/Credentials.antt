-- ===== src/Keycloak/Credentials.antt =====
-- backend/src/keycloak.rs: which credentials `delete_otp` asks Keycloak to delete, and when it says that it has.
use open_berat.Base.{
  ℕ, true, List, [], ◌∷◌, ◌++◌, map, Option, some, ok, Text, codes, In, In-append_inv,
  In-filter_inv, In-map_inv, ◌≡◌, ◌⊎◌, inl, inr, refl, arith, Bool-cases, subst,
}
use open_berat.Keycloak.Client.{
  user_credentials, Request, token, get, delete_credential, Reply, no_answer, answered, Server,
  Crates, is_success, after_ok-In, get_token, get_value, read_token, read_value, elements, text_at,
}
use open_berat.Keycloak.Reset.{filter_map-In, otp_ids, delete_all, delete_otp}

module _ {Value : Type 0} (crates : Crates Value) (server : Server) where
  -- The requests that delete the credentials of a list.
  abbrev pub deletions : (bearer id : Text) → List Text → List Request
  deletions bearer id otp = map (delete_credential bearer id) otp

  -- Keycloak has confirmed the deletions, one after the other.
  abbrev pub Confirmed : List Request → List Request → Type 0
  Confirmed sent [] = Unit
  Confirmed sent (r ∷ rs) =
      ((status : ℕ) × (body : Option Text) × (server sent r ≡ answered status body)
        × (is_success status ≡ true))
      × Confirmed (sent ++ r ∷ []) rs

  Reply-cases :
      (r : Reply)
      → (r ≡ no_answer) ⊎ ((status : ℕ) × (body : Option Text) × (r ≡ answered status body))
  Reply-cases no_answer = inl refl
  Reply-cases (answered status body) = inr (status, body, refl)

  -- The loop sends a prefix of the deletions.
  delete_all-In :
      (bearer id : Text) (otp : List Text) (sent : List Request) (r : Request)
      → In r (delete_all crates server bearer id otp sent).0
      → In r sent ⊎ In r (deletions bearer id otp)
  unfolding delete_all
  delete_all-In bearer id [] sent r m = inl m
  delete_all-In bearer id (c ∷ otp) sent r m =
      let this = delete_credential bearer id c in
      let now : In r (sent ++ this ∷ []) → In r sent ⊎ In r (deletions bearer id (c ∷ otp)) = λ k.
        elim (In-append_inv r sent (this ∷ []) k) [
          | inl s ↦ inl s
          | inr (inl s) ↦ inr (inl s)
          | inr (inr s) ↦ elim s [ ]
        ] in
      elim (Reply-cases (server sent this)) [
        | inl e ↦ now (rw (e, delete_all) at m)
        | inr (status, body, e) ↦ elim (Bool-cases (is_success status)) [
          | inr f ↦ now (rw (e, f, delete_all) at m)
          | inl f ↦
              elim (delete_all-In bearer id otp (sent ++ this ∷ []) r
                (rw (e, f, delete_all) at m)) [ inl k ↦ now k | inr k ↦ inr (inr k) ]
        ]
      ]

  abbrev pub asked : (bearer id : Text) → List Request → List Request
  asked bearer id sent = (sent ++ token ∷ []) ++ get bearer (user_credentials id) [] ∷ []

  -- The answer to the read of the credentials.
  abbrev pub Held : (id : Text) → List Request → (bearer : Text) → Value → Type 0
  Held id sent bearer held =
      (read_token crates server (server sent token) ≡ ok bearer)
      × (read_value crates server
            (server (sent ++ token ∷ []) (get bearer (user_credentials id) []))
          ≡ ok held)

  -- A credential of an answer that is of the type `otp`, under this id.
  abbrev pub IsOtp : Value → (credential : Text) → Type 0
  IsOtp held credential =
      (v : Value) × (t : Text) × In v (elements crates server held)
      × (crates.eq_str (crates.member v (codes "type")) (codes "otp") ≡ true)
      × (text_at crates server (codes "id") v ≡ some t)
      × (crates.parse_uuid t ≡ some credential)

  otp_ids-IsOtp : (held : Value) (c : Text) → In c (otp_ids crates server held) → IsOtp held c
  unfolding otp_ids
  otp_ids-IsOtp held c m =
      let (t, k, p) = filter_map-In crates.parse_uuid c _ m in
      let (v, i, e) = filter_map-In (text_at crates server (codes "id")) t _ k in
      let (there, otp) =
        In-filter_inv (λ c. crates.eq_str (crates.member c (codes "type")) (codes "otp")) v
          (elements crates server held) i in
      (v, t, there, otp, e, p)

  deletions-In :
      (bearer id : Text) (otp : List Text) (b i c : Text)
      → In (delete_credential b i c) (deletions bearer id otp)
      → (id ≡ i) × In c otp
  deletions-In bearer id otp b i c m =
      let (d, k, e) = In-map_inv (delete_credential bearer id) (delete_credential b i c) otp m in
      (ground arith, subst (λ x. In x otp) (ground arith) k)

  before_read :
      (r q : Request) (sent : List Request) → In r (sent ++ q ∷ []) → (q ≡ r → ⊥) → In r sent
  before_read r q sent k n = elim (In-append_inv r sent (q ∷ []) k) [
    | inl s ↦ s
    | inr (inl s) ↦ absurd (n s)
    | inr (inr s) ↦ elim s [ ]
  ]

  before_reads :
      (b i c bearer id : Text) (sent : List Request)
      → In (delete_credential b i c) (asked bearer id sent)
      → In (delete_credential b i c) sent
  before_reads b i c bearer id sent k =
      let r = delete_credential b i c in
      before_read r token sent
        (before_read r (get bearer (user_credentials id) []) (sent ++ token ∷ []) k
          (λ e. ground arith))
        (λ e. ground arith)

  after_reads :
      (b i c bearer id : Text) (sent : List Request) (held : Value)
      → Held id sent bearer held
      → In
          (delete_credential b i c)
          (delete_all crates server bearer id (otp_ids crates server held) (asked bearer id sent)).0
      → In (delete_credential b i c) sent
        ⊎ ((id ≡ i) × (bearer : Text) × (held : Value) × Held id sent bearer held × IsOtp held c)
  after_reads b i c bearer id sent held h m =
      let otp = otp_ids crates server held in
      elim (delete_all-In bearer id otp (asked bearer id sent) (delete_credential b i c) m) [
        | inl k ↦ inl (before_reads b i c bearer id sent k)
        | inr k ↦
            let (same, there) = deletions-In bearer id otp b i c k in
            inr (same, bearer, held, h, otp_ids-IsOtp held c there)
      ]

  -- Whatever Keycloak answers, also where the reset fails half way: a deletion that it sends is of a credential of
  -- this account, and of one that Keycloak listed as a one-time password.
  pub delete_otp-only :
      (id : Text) (sent : List Request) (b i c : Text)
      → In (delete_credential b i c) (delete_otp crates server id sent).0
      → In (delete_credential b i c) sent
        ⊎ ((id ≡ i) × (bearer : Text) × (held : Value) × Held id sent bearer held × IsOtp held c)
  unfolding delete_otp get_token get_value
  delete_otp-only id sent b i c m =
      let r = delete_credential b i c in
      elim (after_ok-In r (get_token crates server sent) _ m) [
        | inl k ↦ inl (before_read r token sent k (λ e. ground arith))
        | inr (bearer, t, m1) ↦
            elim (after_ok-In r
              (get_value crates server bearer (user_credentials id) [] (sent ++ token ∷ [])) _ m1) [
                | inl k ↦ inl (before_reads b i c bearer id sent k)
                | inr (held, h, m2) ↦
                    let otp = otp_ids crates server held in
                    elim (after_ok-In r
                      (delete_all crates server bearer id otp (asked bearer id sent)) _ m2) [
                        | inl k ↦ after_reads b i c bearer id sent held (t, h) k
                        | inr (u, d, k) ↦ after_reads b i c bearer id sent held (t, h) k
                      ]
              ]
      ]
