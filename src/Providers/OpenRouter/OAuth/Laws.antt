-- ===== src/Providers/OpenRouter/OAuth/Laws.antt =====
-- The verifier is used once, and a key is stored only when an exchange gave one.
use fleet_agent.Base.{
  String, ◌≡◌, refl, true, false, Option, none, some, is_empty, trim, Result, ok, err, arith,
  eq_refl, Bool-cases, Option-cases, ◌⊎◌, inl, inr,
}
use fleet_agent.Browser.{Tab, TextStore, get_item, set_item, remove_item, lookup, remove}
use fleet_agent.Browser.Laws.{lookup-remove}
use fleet_agent.Providers.Auth.{get_api_key}
use fleet_agent.Providers.Auth.Laws.{CanStore, IsSplit, set_api_key_lem}
use fleet_agent.Providers.OpenRouter.{config, verifier_key}
use fleet_agent.Providers.OpenRouter.OAuth.{
  OAuthError, missing_verifier, missing_key, network_failed, exchange_failed, Redirect, lost,
  refused, dropped, started, Answer, body, Start, nothing_to_do, exchanging, failed,
  has_oauth_callback_pending, initiate_oauth, begin_exchange, finish_exchange,
  finalize_oauth_callback,
}

-- Once an exchange has begun, the verifier is gone: no callback is pending, and a second exchange is
-- refused before it sends anything. The verifier that was sent is the one that was stored.
pub begin_exchange-once :
    (t t' : Tab) (verifier : String)
    → begin_exchange t ≡ ok (t', verifier)
    → (get_item t.session verifier_key ≡ some (some verifier))
      × (has_oauth_callback_pending t' ≡ false)
      × (begin_exchange t' ≡ err missing_verifier)
unfolding begin_exchange has_oauth_callback_pending get_item remove_item
begin_exchange-once t t' v h = (
  ground arith,
  ground (arith, lookup-remove verifier_key verifier_key t.session.items),
  ground (arith, lookup-remove verifier_key verifier_key t.session.items),
)

-- A flow that was started sends the verifier that it was started with, and no other.
initiate-begin :
    (verifier challenge url : String) (t t' : Tab) (r : Option Redirect)
    → t.window ≡ true
    → t.session.readable ≡ true
    → is_empty verifier ≡ false
    → initiate_oauth verifier challenge url t ≡ ok (t', r)
    → (has_oauth_callback_pending t' ≡ true)
      × (t'' : Tab) × (begin_exchange t' ≡ ok (t'', verifier))
unfolding initiate_oauth begin_exchange has_oauth_callback_pending get_item set_item remove_item
    lookup
initiate-begin v c u t t' r w s n h = (
  ground arith,
  record t' { session = record (t'.session) { items = remove verifier_key t'.session.items } },
  ground (arith, eq_refl verifier_key),
)

pending_dropped :
    (t : Tab) (s : TextStore)
    → remove_item t.session verifier_key ≡ some s
    → has_oauth_callback_pending (record t { session = s }) ≡ false
unfolding has_oauth_callback_pending remove_item get_item
pending_dropped t s h = ground (arith, lookup-remove verifier_key verifier_key t.session.items)

pending_without_window : (t : Tab) → t.window ≡ false → has_oauth_callback_pending t ≡ false
unfolding has_oauth_callback_pending
pending_without_window t h = rw h

-- The tab that `finalizeOAuthCallback` leaves, unless it throws.
abbrev pub left_by : Start → Option Tab
left_by (nothing_to_do t) = some t
left_by (exchanging t code verifier) = some t
left_by (failed e) = none

dropped-not_pending :
    (t t' : Tab)
    → left_by (dropped t (remove_item t.session verifier_key)) ≡ some t'
    → has_oauth_callback_pending t' ≡ false
dropped-not_pending t t' h = elim (Option-cases (remove_item t.session verifier_key)) [
  | inl e ↦ cc
  | inr (s, e) ↦ ground (arith, pending_dropped t s e)
]

begun :
    (r : Result OAuthError (Tab × String))
    → ((e : OAuthError) × (r ≡ err e)) ⊎ ((t : Tab) × (v : String) × (r ≡ ok (t, v)))
begun (err e) = inl (e, refl)
begun (ok (t, v)) = inr (t, v, refl)

started-not_pending :
    (code : String) (t t' : Tab)
    → left_by (started code (begin_exchange t)) ≡ some t'
    → has_oauth_callback_pending t' ≡ false
started-not_pending code t t' h = elim (begun (begin_exchange t)) [
  | inl (e, ended) ↦ ground arith
  | inr (u, v, began) ↦ ground (arith, begin_exchange-once t u v began)
]

-- Whatever the address holds, no callback is pending after `finalizeOAuthCallback`: the verifier was
-- sent, or dropped, or there was none.
finalize-not_pending :
    (code : Option String) (t t' : Tab)
    → left_by (finalize_oauth_callback code t) ≡ some t'
    → has_oauth_callback_pending t' ≡ false
unfolding finalize_oauth_callback
finalize-not_pending none t t' h =
    ground (arith, dropped-not_pending t t', pending_without_window t)
finalize-not_pending (some code) t t' h =
    ground
      (arith, dropped-not_pending t t', started-not_pending code t t', pending_without_window t)

config-IsSplit : IsSplit config
config-IsSplit = record { key-model = refl; key-enabled = refl; model-enabled = refl }

-- In a tab that takes writes, a key is returned only if the answer holds one, and then it is stored
-- without its margin; on every other answer the tab stays as it is.
finish_exchange_lem :
    (a : Answer) (t : Tab)
    → t.window ≡ true
    → t.local.readable ≡ true
    → ((k v : String) → t.local.accepts k v ≡ true)
    → ((key : String) × (a ≡ body (some key))
        × (is_empty key ≡ false)
        × ((finish_exchange a t).1 ≡ ok key)
        × (get_api_key config (finish_exchange a t).0 ≡ some (trim key)))
      ⊎ ((e : OAuthError) × (finish_exchange a t ≡ (t, err e)))
unfolding finish_exchange
finish_exchange_lem lost t w r acc = inr (network_failed, refl)
finish_exchange_lem (refused status) t w r acc = inr (exchange_failed status, refl)
finish_exchange_lem (body none) t w r acc = inr (missing_key, refl)
finish_exchange_lem (body (some key)) t w r acc = elim (Bool-cases (is_empty key)) [
  | inl e ↦ inr (missing_key, rw e)
  | inr e ↦
      let can : CanStore t config.storage_key (trim key) = record {
        window = w;
        readable = r;
        accepted = acc config.storage_key (trim key);
      } in
      inl (key, refl, e, rw e, rw e ((set_api_key_lem config key t config-IsSplit can).0))
]
