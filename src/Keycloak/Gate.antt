-- ===== src/Keycloak/Gate.antt =====
-- backend/src/admin.rs over backend/src/keycloak.rs: the reset of a second factor with this client.
use open_berat.Base.{ℕ, List, Option, none, some, Result, ok, err, Text}
use open_berat.Admin.Reset.{Target, Lookup, found, missing, failed, Keycloak}
use open_berat.Keycloak.Client.{Request, Server, Crates, Why}
use open_berat.Keycloak.Reset.{target, delete_otp}

-- What the handler sees of an answer; `describe` has the text of an error.
unfoldable pub lookup_of : (describe : Why → Text) → Result Why (Option Target) → Lookup
lookup_of describe (ok none) = missing
lookup_of describe (ok (some t)) = found t
lookup_of describe (err why) = failed (describe why)

unfoldable pub removal_of : (describe : Why → Text) → Result Why ℕ → Result Text ℕ
removal_of describe (ok n) = ok n
removal_of describe (err why) = err (describe why)

module _ {Value : Type 0} (crates : Crates Value) (server : Server) (describe : Why → Text) where
  -- The client as the handler has it: `sent` stands before the lookup, `later` before the removal.
  unfoldable pub client : (sent later : List Request) → Keycloak
  client sent later = record {
    target = λ username. lookup_of describe (target crates server username sent).1;
    delete_otp = λ id. removal_of describe (delete_otp crates server id later).1;
  }
