-- ===== src/Session/Revoked.antt =====
-- What is revoked after any calls and messages, in any order.
use sync_ai_final.Base.{
  if◌then◌else◌, ◌==◌, nat_eq, list_eqb, list_eqb_iff, list_eq, option_eq, pair_eq, any, contains,
  Text, nonempty, Dict, get, get-insert, ℕ, ◌≡◌, refl, ◌∙◌, Bool, true, false, ◌&&◌, ◌||◌, List, [],
  ◌∷◌, arith,
}
use sync_ai_final.Models.{Time}
use sync_ai_final.Store.{or_empty}
use sync_ai_final.Session.{
  SessionCache, Event, token_revoked, session_revoked, add_revoked, remember, expire, is_revoked,
  apply_event,
}

abbrev pub new_cache : ℕ → SessionCache
new_cache ttl = record {
  ttl_seconds = ttl;
  entries = [];
  revoked_jtis = [];
  revoked_principals = [];
}

-- A call or a message, with the time of the clock.
pub data Turn : Type 0 where
  remembered : Time → Text → Text → Text → Turn
  asked : Time → Text → Text → Text → Turn
  received : Event → Turn

unfoldable pub turn : Turn → SessionCache → SessionCache
turn (remembered now tenant jti principal) c = remember now tenant jti principal c
turn (asked now tenant jti principal) c = (is_revoked now tenant jti principal c).1
turn (received e) c = apply_event e c

unfoldable pub run : List Turn → SessionCache → SessionCache
run [] c = c
run (t ∷ ts) c = run ts (turn t c)

session_not_token : list_eqb session_revoked token_revoked ≡ false
unfolding list_eqb
session_not_token = refl

module _ (tenant_id : Text) where
  -- The message revokes the token of the tenant.
  abbrev pub revokes_token : Text → Turn → Bool
  revokes_token jti (remembered now t j p) = false
  revokes_token jti (asked now t j p) = false
  revokes_token jti (received e) =
      e.event_type == token_revoked && e.tenant_id == tenant_id && e.jti == jti

  abbrev pub revokes_principal : Text → Turn → Bool
  revokes_principal principal (remembered now t j p) = false
  revokes_principal principal (asked now t j p) = false
  revokes_principal principal (received e) =
      e.event_type == session_revoked && e.tenant_id == tenant_id && e.principal_id == principal

  abbrev listed : Text → Dict Text (List Text) → Bool
  listed x d = contains (or_empty (get tenant_id d)) x

  listed-add_revoked :
      (t x y : Text) (d : Dict Text (List Text))
      → listed y (add_revoked t x d) ≡ (listed y d || (t == tenant_id && x == y))
  unfolding add_revoked
  listed-add_revoked t x y d =
      let old = or_empty (get t d) in
      ground (
        arith,
        get-insert t tenant_id (if contains old x then old else x ∷ old) d,
        list_eqb_iff t tenant_id,
        list_eqb_iff x y,
      )

  module _ (known : nonempty tenant_id ≡ true) where
    jtis-turn :
        (jti : Text) (t : Turn) (c : SessionCache)
        → nonempty jti ≡ true
        → listed jti (turn t c).revoked_jtis ≡ (listed jti c.revoked_jtis || revokes_token jti t)
    unfolding turn remember is_revoked expire apply_event
    jtis-turn jti (remembered now t j p) c h = ground arith
    jtis-turn jti (asked now t j p) c h = ground arith
    jtis-turn jti (received e) c h = ground (
      arith,
      known,
      listed-add_revoked e.tenant_id e.jti jti c.revoked_jtis,
      list_eqb_iff e.tenant_id tenant_id,
      list_eqb_iff e.jti jti,
    )

    principals-turn :
        (principal : Text) (t : Turn) (c : SessionCache)
        → nonempty principal ≡ true
        → listed principal (turn t c).revoked_principals
          ≡ (listed principal c.revoked_principals || revokes_principal principal t)
    unfolding turn remember is_revoked expire apply_event
    principals-turn principal (remembered now t j p) c h = ground arith
    principals-turn principal (asked now t j p) c h = ground arith
    principals-turn principal (received e) c h = ground (
      arith,
      known,
      listed-add_revoked e.tenant_id e.principal_id principal c.revoked_principals,
      list_eqb_iff e.tenant_id tenant_id,
      list_eqb_iff e.principal_id principal,
      list_eqb_iff e.event_type session_revoked,
      session_not_token,
    )

    jtis-run :
        (jti : Text) (ts : List Turn) (c : SessionCache)
        → nonempty jti ≡ true
        → listed jti (run ts c).revoked_jtis
          ≡ (listed jti c.revoked_jtis || any (revokes_token jti) ts)
    unfolding run
    jtis-run jti [] c h = ground arith
    jtis-run jti (t ∷ ts) c h = jtis-run jti ts (turn t c) h ∙ ground (arith, jtis-turn jti t c h)

    principals-run :
        (principal : Text) (ts : List Turn) (c : SessionCache)
        → nonempty principal ≡ true
        → listed principal (run ts c).revoked_principals
          ≡ (listed principal c.revoked_principals || any (revokes_principal principal) ts)
    unfolding run
    principals-run principal [] c h = ground arith
    principals-run principal (t ∷ ts) c h =
        principals-run principal ts (turn t c) h ∙ ground (arith, principals-turn principal t c h)

    -- After any calls and messages on a new cache, a session of a named tenant is revoked exactly if some
    -- message revoked its token or its principal in the tenant, however long ago and whatever came between;
    -- a session with no token id, or no principal, is not revoked by it.
    pub is_revoked-run :
        (now : Time) (jti principal : Text) (ttl : ℕ) (ts : List Turn)
        → (is_revoked now tenant_id jti principal (run ts (new_cache ttl))).0 ≡ (
            (nonempty jti && any (revokes_token jti) ts)
            || (nonempty principal && any (revokes_principal principal) ts))
    unfolding is_revoked expire get
    is_revoked-run now jti principal ttl ts =
        ground (arith, jtis-run jti ts (new_cache ttl), principals-run principal ts (new_cache ttl))
