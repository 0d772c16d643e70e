-- ===== src/Session/Live.antt =====
-- backend/src/session.rs: `Index::live`, the subjects with a session that still exists, by a scan of Redis.
pub mod Scan
use open_berat.Base.{
  ℕ, zero, suc, ◌<◌, ◌≤◌, Bool, true, false, List, [], ◌∷◌, ◌++◌, Option, none, some, Text, codes,
  strip_prefix, ltb, ◌==◌, length, if◌then◌else◌, ◌≡◌, ◌≢◌, ◌↔◌, ◌⊎◌, In, All, inl, inr, refl, sym,
  ap, ◌∙◌, arith, Bool-cases, Option-cases, List-cases,
}
use open_berat.Session.Ticket.{index_prefix}
use open_berat.Base.Assoc.{lookup, insert, lookup-insert, text_Eq}
use open_berat.Base.Splitting.{strip_prefix-eq_some, strip_prefix-append}

-- Redis as the scan finds it: what each call answers, none where it fails. `SCAN` is told the cursor and gives
-- the next one with some keys.
pub record Redis : Type 0 where
  pub scan : (cursor : ℕ) → Option (ℕ × List Text)
  pub smembers : (key : Text) → Option (List Text)
  pub exists : List Text → Option ℕ

abbrev pub Found : Type 0
Found = List (Text × ℕ)

-- One key of a reply.
unfoldable pub count_key : Redis → Text → Found → Option Found
count_key redis key found = elim (strip_prefix index_prefix key) [
  | none ↦ some found
  | some sub ↦ elim (redis.smembers key) [
    | none ↦ none
    | some [] ↦ some found
    | some (m ∷ ms) ↦ elim (redis.exists (m ∷ ms)) [
      | none ↦ none
      | some alive ↦ some (if ltb 0 alive then insert sub alive found else found)
    ]
  ]
]

unfoldable pub count_keys : Redis → List Text → Found → Option Found
count_keys redis [] found = some found
count_keys redis (key ∷ keys) found = elim (count_key redis key found) [
  | none ↦ none
  | some found' ↦ count_keys redis keys found'
]

-- The loop, on fuel; `redis i` answers in its i-th turn.
unfoldable pub scan_from : (redis : ℕ → Redis) → (fuel i cursor : ℕ) → Found → Option Found
scan_from redis zero i cursor found = none
scan_from redis (suc fuel) i cursor found = elim ((redis i).scan cursor) [
  | none ↦ none
  | some (next, keys) ↦ elim (count_keys (redis i) keys found) [
    | none ↦ none
    | some found' ↦ if next == 0 then some found' else scan_from redis fuel (suc i) next found'
  ]
]

unfoldable pub live : (redis : ℕ → Redis) → (fuel : ℕ) → Option Found
live redis fuel = scan_from redis fuel 0 0 []
