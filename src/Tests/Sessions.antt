-- ===== src/Tests/Sessions.antt =====
-- The middleware that indexes sessions at a concrete input.
use open_berat.Base.{
  true, some, Text, codes, split, before, split_once, strip_prefix, starts_with, trim_end,
  trim_start, is_whitespace, trim, ◌≡◌, refl,
}
use open_berat.Base.Utf8.{encode_char, encode, lead, finish, continue, decode_from, from_utf8}
use open_berat.Cache.Cookie.{is_chunk, scan_cookie, scan_cookies, session_cookie}
use open_berat.Session.Ticket.{decode, session_key}
use open_berat.Session.World.{sadd, after}
use open_berat.Session.Logout.{Caller, caller_from, group_names, from_portal, derived_key}
use open_berat.Session.Indexed.{index_session}
use open_berat.Policy.Groups.{in_group, may_manage}
use open_berat.Admin.Guard.{other, reads, guard, MayPass}
use open_berat.Admin.Plane.{management, next, management-MayPass}
use open_berat.Tests.{services, engine, headers, world}

abbrev admins : Text
admins = codes "admins"

abbrev auditors : Text
auditors = codes "audit"

abbrev origin : Text
origin = codes "https://portal.example"

-- The cookie of the request names a session, which the index takes, and the caller is an admin.
goes_on : (management services engine admins auditors origin headers other world).1 ≡ next
unfolding split before split_once strip_prefix starts_with trim_end trim_start is_whitespace trim
    encode_char encode lead finish continue decode_from from_utf8 is_chunk scan_cookie scan_cookies
    session_cookie decode session_key derived_key index_session management guard reads may_manage
    in_group from_portal caller_from group_names
goes_on = refl

management-MayPass_example :
    (caller : Caller) × (key : Text) × (caller_from headers ≡ some caller)
    × MayPass admins auditors origin headers other caller
    × (derived_key engine headers.cookie ≡ some key)
    × (services.succeeds world.calls (sadd caller.sub key) ≡ true)
    × ((management services engine admins auditors origin headers other world).0
        ≡ after (sadd caller.sub key) world)
management-MayPass_example =
    management-MayPass services engine admins auditors origin headers other world goes_on
