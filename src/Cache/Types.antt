-- ===== src/Cache/Types.antt =====
-- backend/src/cache.rs: the state of the cache, behind its mutex.
use open_berat.Base.{
  ℕ, ◌*◌, ◌^◌, Bool, true, false, ◌&&◌, List, Option, none, some, ◌≡◌, ◌↔◌, ◌==◌, ==_iff, Text,
  arith,
}
use open_berat.Base.Assoc.{Eq}
use open_berat.Policy.Types.{Instant, Rule, Decision, discriminant, discriminant-injective}
use open_berat.Store.Channel.{Uuid, IpAddr, Audit}
use open_berat.Cache.Cookie.{Key}

-- 30 seconds, in nanoseconds.
abbrev pub ttl : ℕ
ttl = 30 * 10 ^ 9

abbrev pub capacity : ℕ
capacity = 10000

-- What the cache takes of other crates: SHA-256, the hash of a path, and `HeaderValue::to_str`. A
-- header value is its bytes.
pub record Externals : Type 0 where
  pub digest : Text → Text
  pub hash_path : Text → ℕ
  pub to_str : Text → Option Text

pub record Identity : Type 0 where
  pub sub : Text
  pub username : Text
  pub email : Text
  pub groups : Text

pub record Cached : Type 0 where
  pub identity : Identity
  pub rules : List Rule
  pub enabled : Bool
  pub application_id : Option Uuid

-- The key of a total: the outcome and the source address.
abbrev pub Outcome : Type 0
Outcome = Decision × Option IpAddr

-- `count` is the bit pattern of an `i32`.
pub record Counters : Type 0 where
  pub count : ℕ
  pub first_seen : Instant
  pub last_seen : Instant
  pub first_path : Text
  pub request_id : Option Text
  pub distinct : List ℕ

pub record Entry : Type 0 where
  pub sub : Text
  pub slug : Text
  pub cached : Cached
  pub inserted : Instant
  pub counters : List (Outcome × Counters)

-- The maps of `Inner`, the audit channel and the flag of the subscription.
pub record Cache : Type 0 where
  pub entries : List (Key × Entry)
  pub by_sub : List (Text × List Key)
  pub audit : Audit
  pub subscribed : Bool

-- The derived equalities of the keys.
abbrev pub decision_eq : Decision → Decision → Bool
decision_eq Decision.allow Decision.allow = true
decision_eq Decision.allow (Decision.deny e) = false
decision_eq (Decision.deny d) Decision.allow = false
decision_eq (Decision.deny d) (Decision.deny e) = discriminant d == discriminant e

abbrev pub address_eq : Option IpAddr → Option IpAddr → Bool
address_eq none none = true
address_eq none (some b) = false
address_eq (some a) none = false
address_eq (some a) (some b) = a == b

abbrev pub outcome_eq : Outcome → Outcome → Bool
outcome_eq (d, a) (e, b) = decision_eq d e && address_eq a b

pub decision_eq_iff : (d e : Decision) → (decision_eq d e ≡ true) ↔ (d ≡ e)
decision_eq_iff Decision.allow Decision.allow = ground arith
decision_eq_iff Decision.allow (Decision.deny e) = ground arith
decision_eq_iff (Decision.deny d) Decision.allow = ground arith
decision_eq_iff (Decision.deny d) (Decision.deny e) = ground (arith, discriminant-injective d e)

address_eq_iff : (a b : Option IpAddr) → (address_eq a b ≡ true) ↔ (a ≡ b)
address_eq_iff a b = ground arith

pub outcome_eq_iff : (j k : Outcome) → (outcome_eq j k ≡ true) ↔ (j ≡ k)
outcome_eq_iff (d, a) (e, b) = ground (arith, decision_eq_iff d e, address_eq_iff a b)

instance abbrev pub outcome_Eq : Eq Outcome
outcome_Eq = record { beq = outcome_eq; beq_iff = outcome_eq_iff }

instance abbrev pub nat_Eq : Eq ℕ
nat_Eq = record { beq = ◌==◌; beq_iff = ==_iff }
