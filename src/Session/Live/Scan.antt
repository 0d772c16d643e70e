-- ===== src/Session/Live/Scan.antt =====
-- backend/src/session.rs: what a scan that comes to its end finds, while the sets stand still.
use open_berat.Base.{
  ℕ, zero, suc, ◌<◌, ◌≤◌, Bool, true, false, ◌&&◌, List, [], ◌∷◌, ◌++◌, Option, none, some, Text,
  text_eq, text_eq_iff, text_eq_refl, text_eq_sound, any, any_intro, any_elim, strip_prefix, ltb,
  ◌==◌, if◌then◌else◌, ◌≡◌, ◌↔◌, In, inl, inr, refl, sym, ap, ◌∙◌, arith, Bool-cases, Option-cases,
  List-cases, Bool_ext, subst,
}
use open_berat.Base.Assoc.{lookup, insert, lookup-insert, text_Eq}
use open_berat.Base.Weights.{Distinct, insert-Distinct}
use open_berat.Base.Splitting.{strip_prefix-eq_some, strip_prefix-append}
use open_berat.Session.Ticket.{index_prefix, index_key}
use open_berat.Session.Live.{Redis, Found, count_key, count_keys, scan_from, live}

-- How many of the members of a set exist.
abbrev pub alive_of : (List Text → ℕ) → List Text → ℕ
alive_of count [] = 0
alive_of count (m ∷ ms) = count (m ∷ ms)

foreign_key :
    (key sub : Text) → strip_prefix index_prefix key ≡ none → text_eq key (index_key sub) ≡ false
foreign_key key sub e = elim (Bool-cases (text_eq key (index_key sub))) [
  | inr f ↦ f
  | inl f ↦
      let it : strip_prefix index_prefix (index_key sub) ≡ none =
        rw (text_eq_sound key (index_key sub) f) at e in
      absurd (ground (arith, strip_prefix-append index_prefix sub))
]

own_key :
    (key s sub : Text)
    → strip_prefix index_prefix key ≡ some s
    → text_eq key (index_key sub) ≡ text_eq s sub
own_key key s sub e =
    let it : key ≡ index_key s = strip_prefix-eq_some index_prefix key s e in
    Bool_ext (text_eq key (index_key sub)) (text_eq s sub)
      (λ f.
        let same : key ≡ index_key sub = text_eq_sound key (index_key sub) f in
        let at_sub : strip_prefix index_prefix (index_key sub) ≡ some s = rw same at e in
        let eq : s ≡ sub = ground (arith, strip_prefix-append index_prefix sub) in
        (text_eq_iff s sub).1 eq)
      (λ f. (text_eq_iff key (index_key sub)).1 (it ∙ ap index_key (text_eq_sound s sub f)))

insert_if :
    (b : Bool) (s sub : Text) (n : ℕ) (found : Found)
    → lookup sub (if b then insert s n found else found)
      ≡ (if text_eq s sub && b then some n else lookup sub found)
insert_if true s sub n found = lookup-insert s sub n found ∙ ground arith
insert_if false s sub n found = ground arith

found_when :
    (b : Bool) (n k : ℕ)
    → (if b && ltb 0 n then some n else none) ≡ some k
    → (b ≡ true) × ((n ≡ k) × (0 < k))
found_when b n k h = ground arith

insert_if-Distinct :
    (b : Bool) (s : Text) (n : ℕ) (found : Found)
    → Distinct found
    → Distinct (if b then insert s n found else found)
insert_if-Distinct true s n found d = insert-Distinct s n found d
insert_if-Distinct false s n found d = d

module _ (scan : (i cursor : ℕ) → Option (ℕ × List Text)) (sets : Text → List Text)
    (count : List Text → ℕ) where
  -- Redis with the sets and the sessions as they stand; only the scan moves.
  abbrev pub steady : ℕ → Redis
  steady i = record {
    scan = scan i;
    smembers = λ key. some (sets key);
    exists = λ members. some (count members);
  }

  -- A scan from a turn and a cursor on that comes to its end: the keys it gives, and in how many turns.
  pub data Scan : (i cursor : ℕ) → List Text → ℕ → Type 0 where
    ends : {i cursor : ℕ} {keys : List Text} → scan i cursor ≡ some (0, keys) → Scan i cursor keys 1
    goes :
        {i cursor next n : ℕ} {keys rest : List Text}
        → scan i cursor ≡ some (next, keys)
        → (next == 0) ≡ false
        → Scan (suc i) next rest n
        → Scan i cursor (keys ++ rest) (suc n)

  -- The number of live sessions of a subject.
  abbrev pub alive : Text → ℕ
  alive sub = alive_of count (sets (index_key sub))

  unfoldable pub tally_key : Text → Found → Found
  tally_key key found = elim (strip_prefix index_prefix key) [
    | none ↦ found
    | some sub ↦ if ltb 0 (alive sub) then insert sub (alive sub) found else found
  ]

  unfoldable pub tally : List Text → Found → Found
  tally [] found = found
  tally (key ∷ keys) found = tally keys (tally_key key found)

  tally-append :
      (keys rest : List Text) (found : Found)
      → tally (keys ++ rest) found ≡ tally rest (tally keys found)
  unfolding tally
  tally-append [] rest found = refl
  tally-append (key ∷ keys) rest found = tally-append keys rest (tally_key key found)

  count_key-tally :
      (i : ℕ) (key : Text) (found : Found)
      → count_key (steady i) key found ≡ some (tally_key key found)
  unfolding count_key tally_key
  count_key-tally i key found = elim (Option-cases (strip_prefix index_prefix key)) [
    | inl e ↦ rw (e, count_key, tally_key) refl
    | inr (sub, e) ↦
        let it : key ≡ index_key sub = strip_prefix-eq_some index_prefix key sub e in
        elim (List-cases (sets key)) [
          | inl f ↦
              let g : sets (index_key sub) ≡ [] = rw it at f in
              rw (e, f, g, count_key, tally_key) refl
          | inr (m, ms, f) ↦
              let g : sets (index_key sub) ≡ m ∷ ms = rw it at f in
              rw (e, f, g, count_key, tally_key) refl
        ]
  ]

  count_keys-tally :
      (i : ℕ) (keys : List Text) (found : Found)
      → count_keys (steady i) keys found ≡ some (tally keys found)
  unfolding count_keys tally
  count_keys-tally i [] found = refl
  count_keys-tally i (key ∷ keys) found =
      rw (count_key-tally i key found, count_keys) (count_keys-tally i keys (tally_key key found))

  scan_from-tally :
      {i cursor n : ℕ} {keys : List Text} (fuel : ℕ) (found : Found)
      → Scan i cursor keys n
      → n ≤ fuel
      → scan_from steady fuel i cursor found ≡ some (tally keys found)
  unfolding scan_from
  scan_from-tally zero found (ends e) h = absurd (omega arith)
  scan_from-tally zero found (goes e k s) h = absurd (omega arith)
  scan_from-tally (suc fuel) found (ends {i} {cursor} {keys} e) h =
      rw (e, scan_from, count_keys-tally i keys found) refl
  scan_from-tally (suc fuel) found (goes {i} {cursor} {next} {n} {keys} {rest} e k s) h =
      rw (e, scan_from, count_keys-tally i keys found, k)
        (scan_from-tally fuel (tally keys found) s (omega arith)
          ∙ ap some (sym (tally-append keys rest found)))

  tally_key-lookup :
      (key sub : Text) (found : Found)
      → lookup sub (tally_key key found) ≡ (
          if text_eq key (index_key sub) && ltb 0 (alive sub)
          then some (alive sub)
          else lookup sub found)
  unfolding tally_key
  tally_key-lookup key sub found = elim (Option-cases (strip_prefix index_prefix key)) [
    | inl e ↦ rw (e, tally_key, foreign_key key sub e) refl
    | inr (s, e) ↦
        rw (e, tally_key, own_key key s sub e)
          (insert_if (ltb 0 (alive s)) s sub (alive s) found ∙ elim (Bool-cases (text_eq s sub)) [
            | inl f ↦ rw (text_eq_sound s sub f) refl
            | inr f ↦ rw f refl
          ])
  ]

  tally-lookup :
      (keys : List Text) (sub : Text) (found : Found)
      → lookup sub (tally keys found) ≡ (
          if any (λ key. text_eq key (index_key sub)) keys && ltb 0 (alive sub)
          then some (alive sub)
          else lookup sub found)
  unfolding tally
  tally-lookup [] sub found = refl
  tally-lookup (key ∷ keys) sub found =
      tally-lookup keys sub (tally_key key found) ∙ ground (arith, tally_key-lookup key sub found)

  tally_key-Distinct :
      (key : Text) (found : Found) → Distinct found → Distinct (tally_key key found)
  unfolding tally_key
  tally_key-Distinct key found d = elim (Option-cases (strip_prefix index_prefix key)) [
    | inl e ↦ rw (e, tally_key) d
    | inr (s, e) ↦ rw (e, tally_key) (insert_if-Distinct (ltb 0 (alive s)) s (alive s) found d)
  ]

  tally-Distinct : (keys : List Text) (found : Found) → Distinct found → Distinct (tally keys found)
  unfolding tally tally_key
  tally-Distinct [] found d = d
  tally-Distinct (key ∷ keys) found d =
      tally-Distinct keys (tally_key key found) (tally_key-Distinct key found d)

  -- While the sets and the sessions stand still, a scan that comes to its end in as many turns as there is fuel
  -- for gives every subject once at most, and a subject with a number exactly if one of the replies named its
  -- set, as often as it may, and that number of the keys in it exist, more than none.
  pub live-lookup :
      (fuel n : ℕ) (keys : List Text)
      → Scan 0 0 keys n
      → n ≤ fuel
      → (found : Found) × (live steady fuel ≡ some found)
        × Distinct found
        × ((sub : Text) (k : ℕ)
            → (lookup sub found ≡ some k) ↔ (In (index_key sub) keys × (alive sub ≡ k) × (0 < k)))
  unfolding live lookup
  live-lookup fuel n keys s h = (
    tally keys [],
    scan_from-tally fuel [] s h,
    tally-Distinct keys [] tt,
    λ sub k. (forth sub k, λ (m, e, p). back sub k m e p),
  )
    where
      forth :
          (sub : Text) (k : ℕ)
          → lookup sub (tally keys []) ≡ some k
          → In (index_key sub) keys × (alive sub ≡ k) × (0 < k)
      forth sub k e =
          let (seen, alike) =
            found_when (any (λ key. text_eq key (index_key sub)) keys) (alive sub) k
              (sym (tally-lookup keys sub []) ∙ e) in
          let (key, m, same) = any_elim (λ key. text_eq key (index_key sub)) keys seen in
          (subst (λ t. In t keys) (text_eq_sound key (index_key sub) same) m, alike.0, alike.1)

      back :
          (sub : Text) (k : ℕ)
          → In (index_key sub) keys
          → alive sub ≡ k
          → 0 < k
          → lookup sub (tally keys []) ≡ some k
      back sub k m e p =
          let there =
            any_intro (λ key. text_eq key (index_key sub)) (index_key sub) keys m
              (text_eq_refl (index_key sub)) in
          tally-lookup keys sub [] ∙ rw there (ground arith)
