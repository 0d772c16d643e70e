-- ===== src/Cache/Coherence.antt =====
-- backend/src/cache.rs: `by_sub` lists exactly the keys of the live entries under their owners, and
-- every operation keeps it so.
use open_berat.Base.{
  ℕ, Bool, false, ◌&&◌, ◌||◌, not, List, [], ◌∷◌, Option, none, some, ◌≡◌, ◌≢◌, refl, sym, ap, ◌∙◌,
  arith, List-cases, text_eq_refl, text_eq_sound, Bool-cases, Option-cases, inl, inr, Text, text_eq,
  All,
}
use open_berat.Base.Assoc.{
  lookup, remove, insert, add, discard, member, member-add, member-discard, lookup-remove,
  lookup-insert, text_Eq,
}
use open_berat.Policy.Types.{Instant}
use open_berat.Cache.Cookie.{Key, key_eq, key_eq_iff, key_Eq}
use open_berat.Cache.Types.{Externals, Cached, Entry, Cache}
use open_berat.Cache.Ops.{or_none, forget_sub, let_go, evict, evict_all, place}

-- Whether the key is listed under the subject, and whether its live entry is the subject's.
abbrev pub tracked : Key → Text → List (Text × List Key) → Bool
tracked k s by_sub = member k (or_none (lookup s by_sub))

abbrev pub owns : Option Entry → Text → Bool
owns none s = false
owns (some entry) s = text_eq entry.sub s

abbrev pub owned : Key → Text → List (Key × Entry) → Bool
owned k s entries = owns (lookup k entries) s

abbrev NoEmpty : List (Text × List Key) → Type 0
NoEmpty = All (λ p. p.1 ≢ [])

-- The well-formed states: the two maps agree, and no subject is kept without a key.
pub record IsCoherent (c : Cache) : Type 0 where
  pub agree : (k : Key) (s : Text) → tracked k s c.by_sub ≡ owned k s c.entries
  pub no_empty : NoEmpty c.by_sub

lookup-forget_sub_ne :
    (s0 s : Text) (k0 : Key) (m : List (Text × List Key))
    → text_eq s0 s ≡ false
    → lookup s (forget_sub s0 k0 m) ≡ lookup s m
unfolding forget_sub
lookup-forget_sub_ne s0 s k0 m n = elim (Option-cases (lookup s0 m)) [
  | inl e ↦ rw (e, forget_sub)
  | inr (keys, e) ↦ elim (List-cases (discard k0 keys)) [
    | inl d ↦ rw (e, d, forget_sub) (rw (lookup-remove s0 s m, n))
    | inr (k, ks, d) ↦ rw (e, d, forget_sub) (rw (lookup-insert s0 s (k ∷ ks) m, n))
  ]
]

tracked-forget_sub_self :
    (s0 : Text) (k0 k : Key) (m : List (Text × List Key))
    → tracked k s0 (forget_sub s0 k0 m) ≡ (tracked k s0 m && not (key_eq k0 k))
unfolding forget_sub member
tracked-forget_sub_self s0 k0 k m = elim (Option-cases (lookup s0 m)) [
  | inl e ↦ ground arith
  | inr (keys, e) ↦ elim (List-cases (discard k0 keys)) [
    | inl d ↦ ground (arith, lookup-remove s0 s0 m, member-discard k0 k keys, text_eq_refl s0)
    | inr (j, ks, d) ↦ ground (
      arith,
      lookup-insert s0 s0 (j ∷ ks) m,
      member-discard k0 k keys,
      text_eq_refl s0,
      ap (member k) d,
    )
  ]
]

tracked-forget_sub :
    (s0 s : Text) (k0 k : Key) (m : List (Text × List Key))
    → tracked k s (forget_sub s0 k0 m) ≡ (tracked k s m && not (text_eq s0 s && key_eq k0 k))
tracked-forget_sub s0 s k0 k m = elim (Bool-cases (text_eq s0 s)) [
  | inl e ↦ rw (← text_eq_sound s0 s e, text_eq_refl s0) (tracked-forget_sub_self s0 k0 k m)
  | inr n ↦ rw (lookup-forget_sub_ne s0 s k0 m n, n) (ground arith)
]

owned-remove :
    (k0 k : Key) (s : Text) (m : List (Key × Entry))
    → owned k s (remove k0 m) ≡ (owned k s m && not (key_eq k0 k))
owned-remove k0 k s m = ground (arith, lookup-remove k0 k m)

-- The owner of a key that leaves is the one that it leaves.
owned-let_go :
    (key k : Key) (s : Text) (entry : Entry) (m : List (Key × Entry))
    → lookup key m ≡ some entry
    → (owned k s m && not (text_eq entry.sub s && key_eq key k))
      ≡ (owned k s m && not (key_eq key k))
owned-let_go key k s entry m found = elim (Bool-cases (key_eq key k)) [
  | inr n ↦ rw n (ground arith)
  | inl e ↦ rw (e, ← (key_eq_iff key k).0 e, found) (ground arith)
]

NoEmpty-remove : (s : Text) (m : List (Text × List Key)) → NoEmpty m → NoEmpty (remove s m)
unfolding remove
NoEmpty-remove s [] h = tt
NoEmpty-remove s ((j, ks) ∷ m) (p, h) = elim (Bool-cases (text_eq j s)) [
  | inl e ↦ rw e (NoEmpty-remove s m h)
  | inr e ↦ rw e (p, NoEmpty-remove s m h)
]

NoEmpty-insert :
    (s : Text) (k : Key) (ks : List Key) (m : List (Text × List Key))
    → NoEmpty m
    → NoEmpty (insert s (k ∷ ks) m)
unfolding insert
NoEmpty-insert s k ks m h = (λ e. cc, NoEmpty-remove s m h)

NoEmpty-forget_sub :
    (s : Text) (k : Key) (m : List (Text × List Key)) → NoEmpty m → NoEmpty (forget_sub s k m)
unfolding forget_sub
NoEmpty-forget_sub s k m h = elim (Option-cases (lookup s m)) [
  | inl e ↦ rw (e, forget_sub) h
  | inr (keys, e) ↦ elim (List-cases (discard k keys)) [
    | inl d ↦ rw (e, d, forget_sub) (NoEmpty-remove s m h)
    | inr (j, ks, d) ↦ rw (e, d, forget_sub) (NoEmpty-insert s j ks m h)
  ]
]

add-is_cons : (k : Key) (ks : List Key) → (j : Key) × (js : List Key) × (add k ks ≡ j ∷ js)
unfolding add
add-is_cons k [] = (k, [], unfold member in refl)
add-is_cons k (j ∷ js) = elim (Bool-cases (member k (j ∷ js))) [
  | inl e ↦ (j, js, rw e)
  | inr e ↦ (k, j ∷ js, rw e)
]

owned-place :
    (key k : Key) (s : Text) (entry : Entry) (m : List (Key × Entry))
    → lookup key m ≡ none
    → (owned k s m || (text_eq entry.sub s && key_eq key k)) ≡ owned k s (insert key entry m)
owned-place key k s entry m gone = elim (Bool-cases (key_eq key k)) [
  | inr n ↦ rw (lookup-insert key k entry m, n) (ground arith)
  | inl e ↦ rw (lookup-insert key k entry m, e, ← (key_eq_iff key k).0 e, gone) (ground arith)
]

tracked-place :
    (key : Key) (sub : Text) (k : Key) (s : Text) (m : List (Text × List Key))
    → tracked k s (insert sub (add key (or_none (lookup sub m))) m)
      ≡ (tracked k s m || (text_eq sub s && key_eq key k))
tracked-place key sub k s m = elim (Bool-cases (text_eq sub s)) [
  | inr n ↦ rw (lookup-insert sub s _ m, n) (ground arith)
  | inl e ↦
      rw (← text_eq_sound sub s e, lookup-insert sub sub _ m, text_eq_refl sub)
        (ground (arith, member-add key k (or_none (lookup sub m))))
]

module _ (x : Externals) (full : ℕ → Bool) where
  pub let_go-IsCoherent :
      (key : Key) (entry : Entry) (c : Cache)
      → lookup key c.entries ≡ some entry
      → IsCoherent c
      → IsCoherent (let_go x full key entry c)
  unfolding let_go
  let_go-IsCoherent key entry c found v = record {
    agree = λ k s. agreed k s;
    no_empty = NoEmpty-forget_sub entry.sub key c.by_sub v.no_empty;
  }
    where
      agreed :
          (k : Key) (s : Text)
          → tracked k s (forget_sub entry.sub key c.by_sub) ≡ owned k s (remove key c.entries)
      agreed k s =
          tracked-forget_sub entry.sub s key k c.by_sub
          ∙ ap (λ b. b && not (text_eq entry.sub s && key_eq key k)) (v.agree k s)
          ∙ owned-let_go key k s entry c.entries found
          ∙ sym (owned-remove key k s c.entries)

  pub evict-IsCoherent : (key : Key) (c : Cache) → IsCoherent c → IsCoherent (evict x full key c)
  unfolding evict
  evict-IsCoherent key c v = elim (Option-cases (lookup key c.entries)) [
    | inl e ↦ rw (e, evict) v
    | inr (entry, e) ↦ rw (e, evict) (let_go-IsCoherent key entry c e v)
  ]

  pub evict_all-IsCoherent :
      (keys : List Key) (c : Cache) → IsCoherent c → IsCoherent (evict_all x full keys c)
  unfolding evict_all
  evict_all-IsCoherent [] c v = v
  evict_all-IsCoherent (key ∷ keys) c v =
      evict_all-IsCoherent keys (evict x full key c) (evict-IsCoherent key c v)

  pub place-IsCoherent :
      (key : Key) (sub : Text) (cached : Cached) (now : Instant) (c : Cache)
      → lookup key c.entries ≡ none
      → IsCoherent c
      → IsCoherent (place x full key sub cached now c)
  unfolding place
  place-IsCoherent key sub cached now c gone v =
      let (j, js, e) = add-is_cons key (or_none (lookup sub c.by_sub)) in
      record {
        agree = λ k s.
            tracked-place key sub k s c.by_sub
            ∙ ap (λ b. b || (text_eq sub s && key_eq key k)) (v.agree k s)
            ∙ owned-place key k s _ c.entries gone;
        no_empty = rw e (NoEmpty-insert sub j js c.by_sub v.no_empty);
      }
