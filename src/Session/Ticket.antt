-- ===== src/Session/Ticket.antt =====
-- backend/src/session.rs: the session key in a cookie (`session_key`, `decode`, `index_key`).
use open_berat.Base.{
  ℕ, true, [], ◌∷◌, ◌++◌, Option, none, some, ◌≡◌, ◌≢◌, arith, if◌then◌else◌, Text, codes, before,
  strip_prefix, starts_with, All, ==_iff, ==_refl,
}
use open_berat.Base.Utf8.{from_utf8}

-- The decoders of the `base64` crate that are tried, in this order.
pub record Base64 : Type 0 where
  pub url_safe_no_pad : Text → Option Text
  pub standard_no_pad : Text → Option Text
  pub standard : Text → Option Text

infixl 5 ◌>>=◌
abbrev pub ◌>>=◌ : {A B : Type 0} → Option A → (A → Option B) → Option B
none >>= f = none
some a >>= f = f a

abbrev or_else : {A : Type 0} → Option A → Option A → Option A
or_else (some a) o = some a
or_else none o = o

module _ (engine : Base64) where
  unfoldable pub decode : Text → Option Text
  decode value =
      or_else (or_else (engine.url_safe_no_pad value) (engine.standard_no_pad value))
        (engine.standard value)

  -- `key.starts_with(..).then_some(key)`
  abbrev own_key : (prefix key : Text) → Option Text
  own_key prefix key = if starts_with prefix key then some key else none

  unfoldable pub session_key : (cookie_value cookie_name : Text) → Option Text
  session_key cookie_value cookie_name = do
    signed ← decode (before b'|' cookie_value)
    ticket ← from_utf8 signed
    rest ← strip_prefix (codes "v2.") ticket
    handle ← decode (before b'.' rest)
    key ← from_utf8 handle
    own_key (cookie_name ++ codes "-") key

  -- Whatever the cookie holds, what comes out is a key of the proxy's own.
  pub session_key-starts_with :
      (cookie_value cookie_name key : Text)
      → session_key cookie_value cookie_name ≡ some key
      → starts_with (cookie_name ++ codes "-") key ≡ true
  unfolding session_key
  session_key-starts_with cookie_value cookie_name key h = ground arith

  before-append : (c : ℕ) (s t : Text) → All (λ d. d ≢ c) s → before c (s ++ c ∷ t) ≡ s
  unfolding before
  before-append c [] t h = rw (==_refl c)
  before-append c (d ∷ s) t (n, h) = ground (arith, before-append c s t h, ==_iff d c)

  -- The signature behind the `|` plays no part in the session key, for a ticket without a `|` of
  -- its own: a refreshed cookie names the same session.
  pub session_key-signature :
      (ticket signature signature' cookie_name : Text)
      → All (λ c. c ≢ b'|') ticket
      → session_key (ticket ++ b'|' ∷ signature) cookie_name
        ≡ session_key (ticket ++ b'|' ∷ signature') cookie_name
  unfolding session_key
  session_key-signature ticket signature signature' cookie_name h =
      rw (before-append b'|' ticket signature h, before-append b'|' ticket signature' h)

-- `INDEX_PREFIX` and `index_key`
abbrev pub index_prefix : Text
index_prefix = codes "openberat:sessions:"

abbrev pub index_key : (sub : Text) → Text
index_key sub = index_prefix ++ sub
