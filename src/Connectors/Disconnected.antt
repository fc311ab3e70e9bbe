-- ===== src/Connectors/Disconnected.antt =====
-- A connector that was disconnected.
use sync_ai_final.Base.{
  if◌then◌else◌, Option-cases, ◌==◌, nat_eq, list_eqb, list_eqb_iff, list_eq, option_eq, pair_eq,
  eqb_refl, any, Text, nonempty, Dict, get-insert, ◌≡◌, refl, inl, inr, Bool, true, false, not,
  ◌&&◌, none, some, List, [], ◌∷◌, arith,
}
use sync_ai_final.Models.{Time}
use sync_ai_final.Connectors.{
  Status, Client, not_connected, empty_status, get_status_raw, get_status, is_disconnected,
  put_status, clear_status, StatusUpdate, updated_status, set_status,
}

-- A call, on the key of its tenant, source and user.
pub data StatusCall : Type 0 where
  cleared : Text → StatusCall
  updated : Time → Text → StatusUpdate → StatusCall

unfoldable pub status_call : StatusCall → Client → Client
status_call (cleared key) client = (clear_status key client).1
status_call (updated now key u) client = (set_status now key u client).1

unfoldable pub status_calls : List StatusCall → Client → Client
status_calls [] client = client
status_calls (c ∷ cs) client = status_calls cs (status_call c client)

-- The call forces a status other than `not_connected` on the key.
abbrev pub reconnects : Text → StatusCall → Bool
reconnects key (cleared k) = false
reconnects key (updated now k u) =
    k == key
    && u.force
    && elim u.connection_status [ none ↦ false | some s ↦ nonempty s && not (s == not_connected) ]

is_disconnected-put_status :
    (key k : Text) (s : Status) (redis : Dict Text Status)
    → is_disconnected key (put_status k s (some redis)) ≡ (
        if k == key then s.connection_status == not_connected else is_disconnected key (some redis))
unfolding is_disconnected get_status_raw
is_disconnected-put_status key k s redis = ground (arith, get-insert k key s redis)

same_not_connected : list_eqb not_connected not_connected ≡ true
same_not_connected = eqb_refl not_connected

not_connected-get_status :
    (key : Text) (client : Client)
    → is_disconnected key client ≡ true
    → ((get_status key client).connection_status == not_connected) ≡ true
unfolding is_disconnected get_status
not_connected-get_status key client h = elim (Option-cases (get_status_raw key client)) [
  | inl e ↦ ground (arith, e, h)
  | inr (s, e) ↦ ground (arith, e, h)
]

-- An update that goes through leaves the status at `not_connected`, or reconnects.
not_connected-updated_status :
    (now : Time) (key : Text) (u : StatusUpdate) (current : Status)
    → (current.connection_status == not_connected) ≡ true
    → reconnects key (updated now key u) ≡ false
    → (not u.force && not (u.connection_status == some not_connected)) ≡ false
    → ((updated_status now u current).connection_status == not_connected) ≡ true
not_connected-updated_status now key u current h q through =
    ground (arith, h, q, through, eqb_refl key, same_not_connected)

no_client : (key : Text) → is_disconnected key none ≡ false
unfolding is_disconnected get_status_raw
no_client key = refl

is_disconnected-status_call :
    (key : Text) (c : StatusCall) (client : Client)
    → is_disconnected key client ≡ true
    → reconnects key c ≡ false
    → is_disconnected key (status_call c client) ≡ true
unfolding status_call clear_status set_status
is_disconnected-status_call key c none h q = ground (arith, h, no_client key)
is_disconnected-status_call key (cleared k) (some redis) h q =
    ground (arith, h, same_not_connected, is_disconnected-put_status key k empty_status redis)
is_disconnected-status_call key (updated now k u) (some redis) h q =
    let current = get_status k (some redis) in
    ground (
      arith,
      h,
      q,
      list_eqb_iff k key,
      not_connected-get_status key (some redis) h,
      not_connected-updated_status now key u (get_status key (some redis)),
      is_disconnected-put_status key k (updated_status now u current) redis,
    )

-- A connector that was disconnected stays so, whatever calls follow for it or for others, as long as
-- none of them forces another status on it: an update that is not forced, or gives no status, does not
-- reconnect it.
pub is_disconnected-status_calls :
    (key : Text) (cs : List StatusCall) (client : Client)
    → is_disconnected key client ≡ true
    → any (reconnects key) cs ≡ false
    → is_disconnected key (status_calls cs client) ≡ true
unfolding status_calls
is_disconnected-status_calls key [] client h q = h
is_disconnected-status_calls key (c ∷ cs) client h q =
    is_disconnected-status_calls key cs (status_call c client)
      (is_disconnected-status_call key c client h (ground (arith, q))) (ground (arith, q))
