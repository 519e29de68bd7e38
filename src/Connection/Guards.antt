-- ===== src/Connection/Guards.antt =====
-- What a client that has to authenticate and has not may change, through `onClientMessage` of
-- src/adapters/web-socket-adapter.ts, and what one that is over its limits may.
use nostream.Prelude.{
  ◌≡◌, refl, ap, ◌∙◌, inl, inr, Bool, true, false, not, ◌&&◌, ◌||◌, some, List, [], ◌∷◌, ◌++◌,
  arith, Bool-cases,
}
use mathlib.Core.List.{append_assoc}
use nostream.Prelude.Text.{Text, text}
use nostream.Action.{Action, done, catch, pure, ◌>>=◌}
use nostream.Event.{Event}
use nostream.Settings.{RateLimit, chain}
use nostream.Messages.{
  IncomingMessage, event_in, auth_in, req_in, close_in, OutgoingMessage, ok_out, auth_out,
  create_command_result, create_auth_message,
}
use nostream.Adapter.{Adapter, send_message, set_new_auth_challenge}
use nostream.Adapter.Laws.{send_message-sent}
use nostream.World.{World}
use nostream.Strategies.Effects.{Outcome-cases}
use nostream.EventHandler.{Context, listed_in}
use nostream.EventHandler.Ends.{SameState}
use nostream.Connection.{
  Peer, Decoded, valid, malformed, message_limits, list_of, message_limit_loop,
  is_message_rate_limited, demand_authentication, is_authentication_required, handle_message,
  unless_required, on_decoded, on_limited, on_client_message, message_limit_key,
}
use nostream.Connection.Untouched.{
  Untouched, SameState-Untouched, handle_unsubscribe-Untouched, handle_subscribe-Untouched,
  handle_auth-Untouched, sent-broadcasts,
}

sent-challenge :
    (m : OutgoingMessage) (a : Adapter) → (send_message m a).auth_challenge ≡ a.auth_challenge
unfolding send_message
sent-challenge m a = ground arith

-- A handler that only logs ends where the body has ended.
pub logged : {W : Type 0} (m : Action W (Unit {0})) (w : W) → (catch m (λ _. pure tt) w).1 ≡ (m w).1
logged m w = elim (Outcome-cases (m w).0) [ inl (a, h) ↦ rw h | inr (t, h) ↦ rw h ]

module _ {D C : Type 0} (context : Context D C) (peer : Peer) where
  message_limit_loop-SameState :
      (address : Text) (limited : Bool) (limits : List RateLimit) (w : World D C)
      → SameState w (message_limit_loop context peer address limited limits w).1
  unfolding message_limit_loop
  message_limit_loop-SameState address limited [] w = record { adapter = refl; db = refl }
  message_limit_loop-SameState address limited (l ∷ limits) w =
      let hit = context.limiter.hit (message_limit_key address l) 1 l.period l.rate w.cache in
      elim (Outcome-cases hit.0) [
        | inr (t, h) ↦ rw h (record { adapter = refl; db = refl })
        | inl (b, h) ↦
            let rest =
              message_limit_loop-SameState address (limited || b) limits
                (record w { cache = hit.1 }) in
            rw h (record { adapter = rest.adapter; db = rest.db })
      ]

  pub is_message_rate_limited-SameState :
      (w : World D C) → SameState w (is_message_rate_limited context peer w).1
  unfolding is_message_rate_limited
  is_message_rate_limited-SameState w =
      let limits = message_limits context.settings in
      elim (Bool-cases (listed_in (chain (λ l. l.ip_whitelist) limits) w.adapter.client_address)) [
        | inl h ↦ rw h (record { adapter = refl; db = refl })
        | inr h ↦ rw h (
            message_limit_loop-SameState w.adapter.client_address false
              (list_of (chain (λ l. l.rate_limits) limits)) w)
      ]

  demand_authentication-Untouched :
      (e : Event) (w : World D C) → Untouched w (demand_authentication context peer e w).1
  unfolding demand_authentication set_new_auth_challenge
  demand_authentication-Untouched e w = record {
    db = refl;
    broadcasts = sent-broadcasts _ _ ∙ sent-broadcasts _ _;
  }

  is_required :
      (w : World D C)
      → context.settings.authentication_enabled ≡ true
      → w.adapter.authenticated ≡ false
      → (not w.adapter.authenticated && context.settings.authentication_enabled) ≡ true
  is_required w on out = ground arith

  on_valid-Untouched :
      (m : IncomingMessage) (w : World D C)
      → context.settings.authentication_enabled ≡ true
      → w.adapter.authenticated ≡ false
      → Untouched w (on_decoded context peer (valid m) w).1
  unfolding on_decoded is_authentication_required unless_required handle_message
  on_valid-Untouched (auth_in e) w on out = handle_auth-Untouched context e w
  on_valid-Untouched (req_in id filters) w on out =
      handle_subscribe-Untouched peer.ramda context.settings context.events id filters w
  on_valid-Untouched (close_in id) w on out = handle_unsubscribe-Untouched id w
  on_valid-Untouched (event_in e) w on out =
      rw (is_required w on out)
        (unfold demand_authentication in demand_authentication-Untouched e w)

  on_decoded-Untouched :
      (d : Decoded) (w : World D C)
      → context.settings.authentication_enabled ≡ true
      → w.adapter.authenticated ≡ false
      → Untouched w (on_decoded context peer d w).1
  on_decoded-Untouched (valid m) w on out = on_valid-Untouched m w on out
  on_decoded-Untouched (malformed reason) w on out =
      unfold on_decoded in record { db = refl; broadcasts = sent-broadcasts _ w.adapter }

  on_limited-Untouched :
      (raw : Text) (limited : Bool) (w : World D C)
      → context.settings.authentication_enabled ≡ true
      → w.adapter.authenticated ≡ false
      → Untouched w (on_limited context peer raw limited w).1
  unfolding on_limited
  on_limited-Untouched raw true w on out = record {
    db = refl;
    broadcasts = sent-broadcasts _ w.adapter;
  }
  on_limited-Untouched raw false w on out = on_decoded-Untouched (peer.decode raw) w on out

  -- Where authentication is enabled, a client that has not authenticated can store nothing and have
  -- nothing broadcast, whatever message it sends and whatever is thrown on the way: neither the
  -- database nor what the connection has broadcast changes.
  pub on_client_message-Untouched :
      (raw : Text) (w : World D C)
      → context.settings.authentication_enabled ≡ true
      → w.adapter.authenticated ≡ false
      → Untouched w (on_client_message context peer raw w).1
  unfolding on_client_message
  on_client_message-Untouched raw w on out =
      let u = record w { adapter = record w.adapter { alive = true } } in
      let r = is_message_rate_limited context peer u in
      let same = is_message_rate_limited-SameState u in
      let out' = ap (λ a. a.authenticated) same.adapter ∙ out in
      let limits = SameState-Untouched same in
      let answered =
        elim (Outcome-cases r.0)
          as (λ _.
            Untouched w
              ((is_message_rate_limited context peer >>= on_limited context peer raw) u).1) [
                | inr (t, h) ↦ rw h (record { db = limits.db; broadcasts = limits.broadcasts })
                | inl (b, h) ↦
                    let rest = on_limited-Untouched raw b r.1 on out' in
                    rw h (record {
                      db = rest.db ∙ limits.db;
                      broadcasts = rest.broadcasts ∙ limits.broadcasts;
                    })
              ] in
      let ends = logged (is_message_rate_limited context peer >>= on_limited context peer raw) u in
      record {
        db = ap (λ v. v.db) ends ∙ answered.db;
        broadcasts = ap (λ v. v.adapter.broadcasts) ends ∙ answered.broadcasts;
      }

  -- Where authentication is enabled, an EVENT from a client that has not authenticated and whose
  -- connection is open is answered by exactly two messages, an OK with `false` and an AUTH with a
  -- new challenge, and that challenge, with the time of the clock, is the one that the connection
  -- now waits for.
  pub on_decoded-challenges :
      (e : Event) (w : World D C)
      → context.settings.authentication_enabled ≡ true
      → w.adapter.authenticated ≡ false
      → w.adapter.client.is_open ≡ true
      → let r = on_decoded context peer (valid (event_in e)) w in
        let challenge = peer.random w.ticks in
        (r.0 ≡ done tt)
        × (r.1.adapter.client.sent
            ≡ w.adapter.client.sent
              ++ ok_out e.id false (text "rejected: unauthorized") ∷ auth_out challenge ∷ [])
        × (r.1.adapter.auth_challenge
            ≡ some (record { created_at = context.host.clock w.ticks; challenge = challenge }))
        × (r.1.db ≡ w.db)
  unfolding on_decoded is_authentication_required unless_required demand_authentication
      set_new_auth_challenge create_command_result create_auth_message
  on_decoded-challenges e w on out up =
      let h = is_required w on out in
      let challenge = peer.random w.ticks in
      let a = set_new_auth_challenge (context.host.clock w.ticks) challenge w.adapter in
      let refusal = ok_out e.id false (text "rejected: unauthorized") in
      let one = send_message-sent refusal a up in
      let two = send_message-sent (auth_out challenge) (send_message refusal a) one.0 in
      (
        rw h,
        rw h (
            two.1
            ∙ ap (λ l. l ++ auth_out challenge ∷ []) one.1
            ∙ append_assoc w.adapter.client.sent (refusal ∷ []) (auth_out challenge ∷ [])),
        rw h (sent-challenge _ _ ∙ sent-challenge _ a),
        rw h,
      )
