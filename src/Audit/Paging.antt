-- ===== src/Audit/Paging.antt =====
-- backend/src/audit.rs: the pages of the audit list, one after the other.
use mathlib.Core.List.{append_assoc}
use open_berat.Base.{
  ℕ, zero, suc, ◌≤◌, Bool, true, false, ◌&&◌, List, [], ◌∷◌, ◌++◌, filter, take, length, All,
  All-In, In, Option, none, some, ok, ◌≡◌, ◌≢◌, refl, sym, ap, ◌∙◌, inl, inr, arith, subst,
  In-filter_inv, List-cases,
}
use open_berat.Base.Sorting.{
  sort, Sorted, sort-Sorted, sort-filter, filter-behind, In-sort_inv, length-sort,
}
use open_berat.Base.Keyed.{Keyed, filter-Keyed, sort-Keyed}
use open_berat.Audit.Rows.{
  AuditRow, AuditQuery, key, newer, newer-IsOrder, newer-total, wanted, past, page_limit,
  page_limit-bounds, select_rows, AuditAnswer, list_audit, listed,
}

-- A query from the row on that a page ended with.
abbrev pub cursor : AuditQuery → AuditRow → AuditQuery
cursor q r = record q { before_ts = some r.ts; before_id = some r.id }

abbrev pub last_row : List AuditRow → Option AuditRow
last_row [] = none
last_row (r ∷ []) = some r
last_row (r ∷ s ∷ rs) = last_row (s ∷ rs)

abbrev rows_in : AuditAnswer → List AuditRow
rows_in (listed rows) = rows
rows_in _ = []

-- A reader who asks for page after page, while rows arrive: `arrivals i` are those of the table that came in
-- before the i-th page, besides the rows that stood in it at the first.
unfoldable pub walk :
    (arrivals : ℕ → List AuditRow) → List AuditRow → (fuel i : ℕ) → AuditQuery → List AuditRow
walk arrivals table zero i q = []
walk arrivals table (suc fuel) i q =
    let page = rows_in (list_audit q (ok (arrivals i ++ table))) in
    elim (last_row page) [
      | none ↦ []
      | some r ↦ page ++ walk arrivals table fuel (suc i) (cursor q r)
    ]

-- All rows of the record that the filters let through, in the order of the list.
unfoldable pub listing : AuditQuery → List AuditRow → List AuditRow
listing q table = sort newer (filter (wanted q) table)

take-nil : (n : ℕ) → ◌≡◌ {A = List AuditRow} (take n []) []
take-nil zero = refl
take-nil (suc n) = refl

last_row-append : (ps : List AuditRow) (r : AuditRow) → last_row (ps ++ r ∷ []) ≡ some r
last_row-append [] r = refl
last_row-append (p ∷ []) r = refl
last_row-append (p ∷ s ∷ ps) r = last_row-append (s ∷ ps) r

-- A page that is not empty, its last row, and what is left.
page_of :
    (n : ℕ) (y : AuditRow) (ys : List AuditRow)
    → 1 ≤ n
    → (ps : List AuditRow) × (r : AuditRow) × (rest : List AuditRow) × (y ∷ ys ≡ ps ++ r ∷ rest)
      × (take n (y ∷ ys) ≡ ps ++ r ∷ [])
      × (length rest ≤ length ys)
page_of zero y ys h = absurd (omega arith)
page_of (suc zero) y ys h = ([], y, ys, refl, refl, omega arith)
page_of (suc (suc n)) y [] h = ([], y, [], refl, refl, omega arith)
page_of (suc (suc n)) y (z ∷ ys) h =
    let (ps, r, rest, e, f, le) = page_of (suc n) z ys (omega arith) in
    (y ∷ ps, r, rest, ap (λ l. y ∷ l) e, ap (λ l. y ∷ l) f, omega arith)

filter-and :
    (p s : AuditRow → Bool) (rows : List AuditRow)
    → filter (λ r. p r && s r) rows ≡ filter p (filter s rows)
filter-and p s [] = refl
filter-and p s (r ∷ rows) = ground (arith, filter-and p s rows)

length-filter : (p : AuditRow → Bool) (rows : List AuditRow) → length (filter p rows) ≤ length rows
length-filter p [] = omega arith
length-filter p (r ∷ rows) = ground (arith, length-filter p rows)

filter-skip :
    (p : AuditRow → Bool) (fresh table : List AuditRow)
    → All (λ r. p r ≡ false) fresh
    → filter p (fresh ++ table) ≡ filter p table
filter-skip p [] table h = refl
filter-skip p (r ∷ fresh) table (e, h) = rw e (filter-skip p fresh table h)

Keyed-middle :
    (xs ys : List AuditRow) (r : AuditRow) → Keyed key (xs ++ r ∷ ys) → All (λ s. key s ≢ key r) ys
Keyed-middle [] ys r (n, k) = n
Keyed-middle (x ∷ xs) ys r (n, k) = Keyed-middle xs ys r k

Sorted-middle :
    (xs ys : List AuditRow) (r : AuditRow)
    → Sorted newer (xs ++ r ∷ ys)
    → All (λ s. newer s r ≡ false) ys
Sorted-middle [] ys r (n, k) = n
Sorted-middle (x ∷ xs) ys r (n, k) = Sorted-middle xs ys r k

behind-All :
    (r : AuditRow) (ys : List AuditRow)
    → All (λ s. key s ≢ key r) ys
    → All (λ s. newer s r ≡ false) ys
    → All (λ s. newer r s ≡ true) ys
behind-All r [] n k = tt
behind-All r (s ∷ ys) (n, ns) (k, ks) = (newer-total r s k n, behind-All r ys ns ks)

past-cursor : (q : AuditQuery) (r s : AuditRow) → past (cursor q r) s ≡ newer r s
unfolding past newer
past-cursor q r s = refl

-- Rows that arrived are newer than those that stood there.
abbrev pub Fresh : (table fresh : List AuditRow) → Type 0
Fresh table fresh = All (λ s. All (λ r. newer s r ≡ true) table) fresh

module _ (q : AuditQuery) (table : List AuditRow) (keyed : Keyed key table) where
  Fresh-out :
      (r : AuditRow) (fresh : List AuditRow)
      → In r table
      → Fresh table fresh
      → All (λ s. (past (cursor q r) s && wanted q s) ≡ false) fresh
  Fresh-out r [] m f = tt
  Fresh-out r (s ∷ fresh) m (n, f) =
      let older = newer-IsOrder.asym s r (All-In (λ t. newer s t ≡ true) r table n m) in
      (ground (arith, past-cursor q r s), Fresh-out r fresh m f)

  In-middle : (xs ys : List AuditRow) (r : AuditRow) → In r (xs ++ r ∷ ys)
  In-middle [] ys r = inl refl
  In-middle (x ∷ xs) ys r = inr (In-middle xs ys r)

  -- The page behind a row of the listing.
  select_rows-cursor :
      (xs ys fresh : List AuditRow) (r : AuditRow)
      → listing q table ≡ xs ++ r ∷ ys
      → Fresh table fresh
      → select_rows (cursor q r) (fresh ++ table) ≡ take (page_limit q.limit) ys
  unfolding select_rows wanted listing past newer
  select_rows-cursor xs ys fresh r e f =
      let there =
        (In-filter_inv (wanted q) r table
          (In-sort_inv newer r _ (subst (In r) (sym e) (In-middle xs ys r)))).0 in
      let sorted =
        subst (Sorted newer) e (sort-Sorted newer newer-IsOrder (filter (wanted q) table)) in
      let keys =
        subst (Keyed key) e (sort-Keyed key newer _ (filter-Keyed key (wanted q) table keyed)) in
      ap (take (page_limit q.limit)) (
        ap (sort newer) (
          filter-skip (λ s. past (cursor q r) s && wanted q s) fresh table
            (Fresh-out r fresh there f)
          ∙ filter-and (newer r) (wanted q) table)
        ∙ sort-filter newer newer-IsOrder (newer r) (filter (wanted q) table)
        ∙ ap (filter (newer r)) e
        ∙ filter-behind newer newer-IsOrder xs ys r sorted
            (behind-All r ys (Keyed-middle xs ys r keys) (Sorted-middle xs ys r sorted)))

  list_audit-cursor :
      (r : AuditRow) (rows : List AuditRow)
      → rows_in (list_audit (cursor q r) (ok rows)) ≡ select_rows (cursor q r) rows
  unfolding list_audit
  list_audit-cursor r rows = refl

  -- One page more of the walk.
  walk-page :
      (arrivals : ℕ → List AuditRow) (fuel i : ℕ) (query : AuditQuery) (ps : List AuditRow)
      (r : AuditRow)
      → rows_in (list_audit query (ok (arrivals i ++ table))) ≡ ps ++ r ∷ []
      → walk arrivals table (suc fuel) i query
        ≡ (ps ++ r ∷ []) ++ walk arrivals table fuel (suc i) (cursor query r)
  unfolding walk
  walk-page arrivals fuel i query ps r e =
      rw (e, walk, last_row-append ps r)
        (ap (λ l. l ++ walk arrivals table fuel (suc i) (cursor query r)) e)

  walk-end :
      (arrivals : ℕ → List AuditRow) (fuel i : ℕ) (query : AuditQuery)
      → rows_in (list_audit query (ok (arrivals i ++ table))) ≡ []
      → walk arrivals table fuel i query ≡ []
  unfolding walk
  walk-end arrivals zero i query e = refl
  walk-end arrivals (suc fuel) i query e = rw (e, walk) refl

  walk-rest :
      (arrivals : ℕ → List AuditRow)
      → ((j : ℕ) → Fresh table (arrivals j))
      → (fuel i : ℕ) (xs ys : List AuditRow) (r : AuditRow) → listing q table ≡ xs ++ r ∷ ys
      → length ys ≤ fuel
      → walk arrivals table fuel i (cursor q r) ≡ ys
  walk-rest arrivals f fuel i xs [] r e h = walk-end arrivals fuel i (cursor q r) (
      list_audit-cursor r _
      ∙ select_rows-cursor xs [] (arrivals i) r e (f i)
      ∙ take-nil (page_limit q.limit))
  walk-rest arrivals f zero i xs (y ∷ ys) r e h = absurd (omega arith)
  walk-rest arrivals f (suc fuel) i xs (y ∷ ys) r e h =
      let (ps, s, rest, split, page, le) =
        page_of (page_limit q.limit) y ys (page_limit-bounds q.limit).0 in
      let reached : listing q table ≡ (xs ++ r ∷ ps) ++ s ∷ rest =
        e ∙ ap (λ l. xs ++ r ∷ l) split ∙ sym (append_assoc xs (r ∷ ps) (s ∷ rest)) in
      walk-page arrivals fuel i (cursor q r) ps s
        (list_audit-cursor r _ ∙ select_rows-cursor xs (y ∷ ys) (arrivals i) r e (f i) ∙ page)
      ∙ ap (λ l. (ps ++ s ∷ []) ++ l)
          (walk-rest arrivals f fuel (suc i) (xs ++ r ∷ ps) rest s reached (omega arith))
      ∙ append_assoc ps (s ∷ []) rest
      ∙ sym split

  length-listing : length (listing q table) ≤ length table
  unfolding listing
  length-listing =
      omega (arith, length-sort newer (filter (wanted q) table), length-filter (wanted q) table)

  first_page :
      (arrivals : ℕ → List AuditRow)
      → q.before_ts ≡ none
      → q.before_id ≡ none
      → arrivals 0 ≡ []
      → rows_in (list_audit q (ok (arrivals 0 ++ table)))
        ≡ take (page_limit q.limit) (listing q table)
  unfolding list_audit select_rows past listing
  first_page arrivals n m a = rw (n, m, a) refl

  -- Whatever the limit, a reader who follows the cursor from page to page, while newer rows arrive, reads
  -- exactly the rows that the filters let through at the first page, each once and newest first.
  pub walk-listing :
      (arrivals : ℕ → List AuditRow) (fuel : ℕ)
      → q.before_ts ≡ none
      → q.before_id ≡ none
      → arrivals 0 ≡ []
      → ((j : ℕ) → Fresh table (arrivals j))
      → length table ≤ fuel
      → walk arrivals table fuel 0 q ≡ listing q table
  walk-listing arrivals zero n m a f h = elim (List-cases (listing q table)) [
    | inl e ↦
        walk-end arrivals zero 0 q (
          first_page arrivals n m a
          ∙ ap (take (page_limit q.limit)) e
          ∙ take-nil (page_limit q.limit))
        ∙ sym e
    | inr (y, ys, e) ↦
        let size : length (listing q table) ≡ suc (length ys) = ap length e in
        let few = length-listing in absurd (omega arith)
  ]
  walk-listing arrivals (suc fuel) n m a f h = elim (List-cases (listing q table)) [
    | inl e ↦
        walk-end arrivals (suc fuel) 0 q (
          first_page arrivals n m a
          ∙ ap (take (page_limit q.limit)) e
          ∙ take-nil (page_limit q.limit))
        ∙ sym e
    | inr (y, ys, e) ↦
        let (ps, s, rest, split, page, le) =
          page_of (page_limit q.limit) y ys (page_limit-bounds q.limit).0 in
        let few = length-listing in
        let size : length (listing q table) ≡ suc (length ys) = ap length e in
        let shorter : length rest ≤ fuel = omega arith in
        walk-page arrivals fuel 0 q ps s
          (first_page arrivals n m a ∙ ap (take (page_limit q.limit)) e ∙ page)
        ∙ ap (λ l. (ps ++ s ∷ []) ++ l) (walk-rest arrivals f fuel 1 ps rest s (e ∙ split) shorter)
        ∙ append_assoc ps (s ∷ []) rest
        ∙ sym (e ∙ split)
  ]
