-- ===== src/Cache/Ops.antt =====
-- backend/src/cache.rs: the operations of the cache, each on the state behind the mutex. `now` is the
-- clock, and `full` what the audit channel answers.
use open_berat.Base.{
  ℕ, zero, suc, ◌+◌, ◌-◌, ◌%◌, ◌^◌, Bool, true, false, ◌&&◌, not, List, [], ◌∷◌, map, Option, none,
  some, if◌then◌else◌, ltb, leb, Text, is_empty, length, filter,
}
use open_berat.Base.Assoc.{lookup, remove, insert, add, discard}
use open_berat.Policy.Types.{Instant, Decision}
use open_berat.Store.Channel.{IpAddr, AuditEvent, Audit, record_event}
use open_berat.Cache.Cookie.{Key, key_Eq}
use open_berat.Cache.Types.{
  ttl, capacity, Externals, Cached, Outcome, Counters, Entry, Cache, outcome_Eq, nat_Eq,
}
use open_berat.Base.Assoc.{text_Eq}

-- `Cache::new`
unfoldable pub new_cache : Audit → Cache
new_cache audit = record { entries = []; by_sub = []; audit = audit; subscribed = false }

abbrev pub or_none : Option (List Key) → List Key
or_none none = []
or_none (some keys) = keys

-- `forget_sub`
unfoldable pub forget_sub : (sub : Text) → Key → List (Text × List Key) → List (Text × List Key)
forget_sub sub key by_sub = elim (lookup sub by_sub) [
  | none ↦ by_sub
  | some keys ↦ elim (discard key keys) [
    | [] ↦ remove sub by_sub
    | k ∷ ks ↦ insert sub (k ∷ ks) by_sub
  ]
]

module _ (x : Externals) (full : ℕ → Bool) where
  -- `header_string`
  unfoldable pub header_string : Text → Option Text
  header_string value = elim (x.to_str value) [
    | none ↦ none
    | some s ↦ if is_empty s then none else some s
  ]

  -- The event that `flush` records for one total of an entry.
  unfoldable pub summary : Entry → Outcome × Counters → AuditEvent
  summary entry ((decision, src_ip), counters) = record {
    application_id = entry.cached.application_id;
    application_slug = entry.slug;
    actor_sub = entry.sub;
    actor_name = header_string entry.cached.identity.username;
    decision = decision;
    count = counters.count;
    first_seen = counters.first_seen;
    last_seen = counters.last_seen;
    distinct_path = length counters.distinct % 2 ^ 32;
    first_path = counters.first_path;
    src_ip = src_ip;
    request_id = counters.request_id;
  }

  unfoldable pub record_all : List AuditEvent → Audit → Audit
  record_all [] audit = audit
  record_all (event ∷ events) audit = record_all events (record_event full event audit)

  unfoldable pub flush : Entry → Audit → Audit
  flush entry audit = record_all (map (summary entry) entry.counters) audit

  -- The three steps that `insert` and `evict` make for an entry that leaves: out of `entries`, out of
  -- `by_sub`, and its totals to the audit channel.
  unfoldable pub let_go : Key → Entry → Cache → Cache
  let_go key entry c = record c {
    entries = remove key c.entries;
    by_sub = forget_sub entry.sub key c.by_sub;
    audit = flush entry c.audit;
  }

  unfoldable pub evict : Key → Cache → Cache
  evict key c = elim (lookup key c.entries) [ none ↦ c | some entry ↦ let_go key entry c ]

  unfoldable pub evict_all : List Key → Cache → Cache
  evict_all [] c = c
  evict_all (key ∷ keys) c = evict_all keys (evict key c)

  unfoldable pub get : Key → Instant → Cache → Option Cached
  get key now c = if not c.subscribed then none else elim (lookup key c.entries) [
    | none ↦ none
    | some entry ↦ if ltb (now - entry.inserted) ttl then some entry.cached else none
  ]

  -- `iter().min_by_key(inserted)`: the first of the oldest.
  unfoldable pub oldest_from : Key → Instant → List (Key × Entry) → Key
  oldest_from key inserted [] = key
  oldest_from key inserted ((k, entry) ∷ entries) =
      if ltb entry.inserted inserted
      then oldest_from k entry.inserted entries
      else oldest_from key inserted entries

  unfoldable pub oldest : List (Key × Entry) → Option Key
  oldest [] = none
  oldest ((key, entry) ∷ entries) = some (oldest_from key entry.inserted entries)

  -- The loop of `insert` over the bound. The fuel is a bound on the number of entries.
  unfoldable pub shrink : (fuel : ℕ) → Cache → Cache
  shrink zero c = c
  shrink (suc fuel) c = elim (ltb capacity (length c.entries)) [
    | false ↦ c
    | true ↦ elim (oldest c.entries) [
      | none ↦ c
      | some key ↦ elim (lookup key c.entries) [
        | none ↦ c
        | some entry ↦ shrink fuel (let_go key entry c)
      ]
    ]
  ]

  -- The entry and the mark of its owner, once an older entry of the key is gone.
  unfoldable pub place : Key → (sub : Text) → Cached → Instant → Cache → Cache
  place key sub cached now c = record c {
    by_sub = insert sub (add key (or_none (lookup sub c.by_sub))) c.by_sub;
    entries =
        insert key
          (record { sub = sub; slug = key.slug; cached = cached; inserted = now; counters = [] })
          c.entries;
  }

  -- `Cache::insert`
  unfoldable pub insert_entry : Key → (sub : Text) → Cached → Instant → Cache → Cache
  insert_entry key sub cached now c =
      let placed = place key sub cached now (evict key c) in shrink (length placed.entries) placed

  -- One decision more in the totals of an entry.
  abbrev fresh : Text → Option Text → Instant → Counters
  fresh path request_id now = record {
    count = 0;
    first_seen = now;
    last_seen = now;
    first_path = path;
    request_id = request_id;
    distinct = [];
  }

  unfoldable pub bump : ℕ → Instant → Counters → Counters
  bump hash now counters = record counters {
    count = (counters.count + 1) % 2 ^ 32;
    last_seen = now;
    distinct = add hash counters.distinct;
  }

  unfoldable pub counters_at : Outcome → Text → Option Text → Instant → Entry → Counters
  counters_at outcome path request_id now entry = elim (lookup outcome entry.counters) [
    | none ↦ fresh path request_id now
    | some counters ↦ counters
  ]

  unfoldable pub count_in : Outcome → Text → Option Text → Instant → Entry → Entry
  count_in outcome path request_id now entry = record entry {
    counters =
        insert outcome (bump (x.hash_path path) now (counters_at outcome path request_id now entry))
          entry.counters;
  }

  -- `Cache::count`
  unfoldable pub count :
      Key
      → Decision
      → (path : Text) → Option IpAddr
      → (request_id : Option Text) → Instant
      → Cache
      → Cache × Bool
  count key decision path src_ip request_id now c = elim (lookup key c.entries) [
    | none ↦ (c, false)
    | some entry ↦ (
      record c {
        entries = insert key (count_in (decision, src_ip) path request_id now entry) c.entries;
      },
      true,
    )
  ]

  -- The keys that `sweep` collects under its first lock.
  unfoldable pub expired_keys : Instant → List (Key × Entry) → List Key
  expired_keys now entries = map (λ e. e.0) (filter (λ e. leb ttl (now - e.1.inserted)) entries)

  unfoldable pub sweep : Instant → Cache → Cache
  sweep now c = evict_all (expired_keys now c.entries) c

  unfoldable pub drop_sub : (sub : Text) → Cache → Cache
  drop_sub sub c = evict_all (or_none (lookup sub c.by_sub)) c

  unfoldable pub flush_all : Cache → Cache
  flush_all c = evict_all (map (λ e. e.0) c.entries) c

  unfoldable pub set_subscribed : Bool → Cache → Cache
  set_subscribed live c =
      let emptied = if live && not c.subscribed then flush_all c else c in
      record emptied { subscribed = live }
