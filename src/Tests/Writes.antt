-- ===== src/Tests/Writes.antt =====
-- The handlers that write the tables, and the shutdown.
use mathlib.Core.List.{foldl}
use open_berat.Base.{zero, ◌+◌, true, List, [], ◌∷◌, Option, none, some, ◌≡◌, refl, arith, codes}
use open_berat.Store.Tables.{Tables}
use open_berat.Store.Writer.{Database, shut_down}
use open_berat.Admin.Failure.{StoreError, other}
use open_berat.Admin.Writes.{Write}
use open_berat.Admin.Integrity.{IsSound, written, written-IsSound}
use open_berat.Cache.Ops
use open_berat.Cache.Ops.{new_cache}
use open_berat.Cache.Reachable.{apply}
use open_berat.Cache.Ledger.{open_channel}
use open_berat.Cache.Conservation.{counted}
use open_berat.Cache.Shutdown.{in_rows, lost, shut_down_lem}
use open_berat.Tests.{externals, silent, some_ops}
use open_berat.Tests.Management.{parse, origin}

abbrev empty_tables : Tables
empty_tables = record { applications = []; entitlements = [] }

empty_tables-IsSound : IsSound parse origin empty_tables
empty_tables-IsSound = record { slugs = tt; hostnames = tt; rows = tt; effects = tt }

-- An application, one that the database faults, a rule for all applications, and the application deleted.
abbrev some_writes : List (Option StoreError × Write)
some_writes =
    (
      none,
      Write.create_application 7 (record {
        slug = codes "wiki";
        name = codes "Wiki";
        icon = none;
        upstream_url = codes "http://wiki-app:8080";
        external_hostname = codes "Wiki.example";
        enabled = true;
      }),
    )
    ∷ (some other, Write.delete_application 7)
    ∷ (
      none,
      Write.create_entitlement 1 (record {
        application_id = none;
        subject_type = codes "ad_group";
        subject_id = codes "staff";
        effect = codes "allow";
        path_pattern = [];
        expires_at = none;
      }),
    )
    ∷ (none, Write.delete_application 7)
    ∷ []

written-IsSound_example : IsSound parse origin (written parse origin empty_tables some_writes)
written-IsSound_example = written-IsSound parse origin empty_tables some_writes empty_tables-IsSound

-- A database that takes the first row and no other.
abbrev one_row : Database
one_row zero = some (1, 50)
one_row _ = none

shut_down_lem_example :
    in_rows
        (shut_down externals open_channel one_row
          (foldl (apply externals open_channel) (new_cache silent) some_ops)).0
      + lost one_row 0
          (Ops.flush_all externals open_channel
            (foldl (apply externals open_channel) (new_cache silent) some_ops)).audit.sent
    ≡ counted externals (new_cache silent) some_ops
shut_down_lem_example = shut_down_lem externals some_ops one_row silent refl (omega arith)
