-- ===== src/Admin/Plane.antt =====
-- backend/src/api.rs (`router`) and backend/src/admin.rs (`routes`): the two layers before every handler of the
-- management plane, the index of the session and behind it the guard.
use open_berat.Base.{
  true, false, some, Text, is_empty, ◌≡◌, refl, ap, ◌∙◌, inl, inr, arith, Bool-cases,
}
use open_berat.Session.Ticket.{Base64}
use open_berat.Session.World.{sadd, Services, World, after}
use open_berat.Session.Logout.{Headers, Caller, or_default, caller_from, derived_key}
use open_berat.Session.Indexed
use open_berat.Session.Indexed.{index_session, index_session-next}
use open_berat.Admin.Guard
use open_berat.Admin.Guard.{Method, guard, MayPass, guard-next_iff}

pub data Passage : Type 0 where
  service_unavailable unauthorized forbidden next : Passage

abbrev pub past_guard : Guard.Passage → Passage
past_guard Guard.Passage.unauthorized = unauthorized
past_guard Guard.Passage.forbidden = forbidden
past_guard Guard.Passage.next = next

abbrev pub past_index : Indexed.Passage → Guard.Passage → Passage
past_index Indexed.Passage.service_unavailable g = service_unavailable
past_index Indexed.Passage.next g = past_guard g

module _ (services : Services) (engine : Base64) (admin_group auditor_group portal_origin : Text)
    (headers : Headers) (method : Method) where
  unfoldable pub management : World → World × Passage
  management w =
      let (w', indexed) = index_session services engine headers w in
      (w', past_index indexed (guard admin_group auditor_group portal_origin headers method))

  past_index-next :
      (i : Indexed.Passage) (g : Guard.Passage)
      → past_index i g ≡ next
      → (i ≡ Indexed.Passage.next) × (g ≡ Guard.Passage.next)
  past_index-next Indexed.Passage.service_unavailable g h = absurd (ground arith)
  past_index-next Indexed.Passage.next Guard.Passage.unauthorized h = absurd (ground arith)
  past_index-next Indexed.Passage.next Guard.Passage.forbidden h = absurd (ground arith)
  past_index-next Indexed.Passage.next Guard.Passage.next h = (refl, refl)

  caller_from-sub :
      (caller : Caller)
      → caller_from headers ≡ some caller
      → (is_empty (or_default headers.subject) ≡ false) × (or_default headers.subject ≡ caller.sub)
  unfolding caller_from
  caller_from-sub caller e = elim (Bool-cases (is_empty (or_default headers.subject))) [
    | inl f ↦ absurd (ground arith)
    | inr f ↦ (f, ground arith)
  ]

  -- A request that reaches a handler of the management plane has an identified caller who may pass the guard, and
  -- the index of the kill switch has taken the session of its cookie under this caller, by the one call made.
  pub management-MayPass :
      (w : World)
      → (management w).1 ≡ next
      → (caller : Caller) × (key : Text) × (caller_from headers ≡ some caller)
        × MayPass admin_group auditor_group portal_origin headers method caller
        × (derived_key engine headers.cookie ≡ some key)
        × (services.succeeds w.calls (sadd caller.sub key) ≡ true)
        × ((management w).0 ≡ after (sadd caller.sub key) w)
  unfolding management
  management-MayPass w h =
      let (i, g) =
        past_index-next (index_session services engine headers w).1
          (guard admin_group auditor_group portal_origin headers method) h in
      let (caller, c, p) =
        (guard-next_iff admin_group auditor_group portal_origin headers method).0 g in
      let (filled, sub) = caller_from-sub caller c in
      elim (index_session-next services engine headers w i) [
        | inl (e, same) ↦ absurd (ground arith)
        | inr (key, d, s, made) ↦
            let s' : services.succeeds w.calls (sadd caller.sub key) ≡ true = rw sub at s in
            (caller, key, c, p, d, s', made ∙ ap (λ t. after (sadd t key) w) sub)
      ]
