-- ===== src/EventHandler/Accepted.antt =====
-- What becomes of an event: it is refused with one message, or it passes every test and its
-- strategy runs. The tests themselves change neither the connection nor the database.
use nostream.Prelude.{
  ◌+◌, ◌≡◌, refl, inl, inr, true, false, Option, none, arith, Bool-cases, Option-cases,
}
use mathlib.Core.Path.{subst}
use nostream.Prelude.Text.{Text, text, ===_iff}
use nostream.Event.{Event}
use nostream.Event.Auth.{is_signed_auth_event}
use nostream.Event.Expiration.{is_expired_event, add_expiration_metadata}
use nostream.Messages.{reason_text}
use nostream.World.{World}
use nostream.Strategies.{signed_auth, event_strategy, signed_auth_event_strategy}
use nostream.EventHandler.{
  Context, serialize_event, is_event_id_valid, is_event_signature_valid, is_event_valid,
  is_auth_event_valid,
}
use nostream.EventHandler.Stages.{
  reject, unless_refused, limit, refuse_expired, check_expired, handle_event, handle_auth,
}
use nostream.EventHandler.Ends.{Ends, refused, Ends-weaken, PassedShared, limit-Ends}

module _ {D C : Type 0} (context : Context D C) where
  -- What the tests of `EventMessageHandler` ask for: the id is the hash of what it stands for, the
  -- signature is good, the event has not expired at the time of the first reading of the clock, and
  -- with its expiration marked it passes the tests that both handlers share.
  pub record PassedEvent (e : Event) (w : World D C) : Type 0 where
    pub id : e.id ≡ context.host.hash (serialize_event e)
    pub signature : context.host.verify e.sig e.id e.pubkey ≡ true
    pub fresh : is_expired_event context.host.number (context.host.clock w.ticks) e ≡ false
    pub shared :
        PassedShared context
          (add_expiration_metadata context.host.number e)
          (record w { ticks = w.ticks + 1 })

  is_event_valid_iff :
      (e : Event)
      → is_event_valid context.host e ≡ none
      → (e.id ≡ context.host.hash (serialize_event e))
        × (context.host.verify e.sig e.id e.pubkey ≡ true)
  unfolding is_event_valid is_event_id_valid is_event_signature_valid
  is_event_valid_iff e h =
      ((===_iff e.id (context.host.hash (serialize_event e))).0 (ground arith), ground arith)

  add_expiration_metadata-id :
      (e : Event) → (add_expiration_metadata context.host.number e).id ≡ e.id
  unfolding add_expiration_metadata
  add_expiration_metadata-id e = ground arith

  marked-Ends :
      (e : Event) (w : World D C)
      → let marked = add_expiration_metadata context.host.number e in
        Ends context e.id marked
          (event_strategy marked)
          (PassedShared context marked w)
          w
          (limit context marked (event_strategy marked) w)
  marked-Ends e w =
      let marked = add_expiration_metadata context.host.number e in
      subst
        (λ id.
          Ends context id marked (event_strategy marked) (PassedShared context marked w) w
            (limit context marked (event_strategy marked) w))
        (add_expiration_metadata-id e) (limit-Ends context marked (event_strategy marked) w)

  check_expired-Ends :
      (e : Event) (w : World D C)
      → let marked = add_expiration_metadata context.host.number e in
        Ends context e.id marked
          (event_strategy marked)
          ((is_expired_event context.host.number (context.host.clock w.ticks) e ≡ false)
            × PassedShared context marked (record w { ticks = w.ticks + 1 }))
          w
          (check_expired context e w)
  unfolding check_expired refuse_expired reject
  check_expired-Ends e w =
      let marked = add_expiration_metadata context.host.number e in
      elim (Bool-cases (is_expired_event context.host.number (context.host.clock w.ticks) e)) [
        | inl expired ↦ refused (text "event is expired") (rw expired) (rw expired) (rw expired)
        | inr fresh ↦ rw fresh (
            Ends-weaken context (record { adapter = refl; db = refl }) (λ p. (refl, p))
              (marked-Ends e (record w { ticks = w.ticks + 1 })))
      ]

  -- An EVENT message is handled in one of three ways. It is refused: one OK message with the
  -- event's id, `false` and a reason is emitted, and connection and database are otherwise as
  -- before. Or the limiter or the users' repository throws, and both are as before. Or the event
  -- passes every test (its id is its hash, the signature is good, it has not expired, no limit is
  -- exceeded, the settings accept it and its author is admitted), and all that happens, from a
  -- state with the same connection and database, is the strategy for its kind.
  pub handle_event-Ends :
      (remote_address : Option Text) (event : Event) (w : World D C)
      → let e = record event { remote_address = remote_address } in
        let marked = add_expiration_metadata context.host.number e in
        Ends context event.id marked
          (event_strategy marked)
          (PassedEvent e w)
          w
          (handle_event context remote_address event w)
  unfolding handle_event unless_refused reject
  handle_event-Ends remote_address event w =
      let e = record event { remote_address = remote_address } in
      elim (Option-cases (is_event_valid context.host e)) [
        | inr (reason, h) ↦ refused (reason_text reason) (rw h) (rw h) (rw h)
        | inl h ↦
            let (id, signature) = is_event_valid_iff e h in
            rw h (
              Ends-weaken context (record { adapter = refl; db = refl })
                (λ p. record { id = id; signature = signature; fresh = p.0; shared = p.1 })
                (check_expired-Ends e w))
      ]

  -- What the tests of `AuthEventMessageHandler` ask for. Expiration is not among them.
  pub record PassedAuth (e : Event) (w : World D C) : Type 0 where
    pub id : e.id ≡ context.host.hash (serialize_event e)
    pub signature : context.host.verify e.sig e.id e.pubkey ≡ true
    pub signed_auth : is_signed_auth_event e ≡ true
    pub shared : PassedShared context e w

  is_auth_event_valid_iff :
      (e : Event)
      → is_auth_event_valid context.host e ≡ none
      → (is_event_valid context.host e ≡ none) × (is_signed_auth_event e ≡ true)
  unfolding is_auth_event_valid
  is_auth_event_valid_iff e h = (ground arith, ground arith)

  -- An AUTH message is handled in one of the same three ways, where the tests ask for an AUTH event
  -- with a challenge and a relay in place of the expiration, and the strategy is the one that
  -- answers the connection's challenge.
  pub handle_auth-Ends :
      (e : Event) (w : World D C)
      → Ends context e.id e signed_auth (PassedAuth e w) w (handle_auth context e w)
  unfolding handle_auth unless_refused reject signed_auth_event_strategy
  handle_auth-Ends e w = elim (Option-cases (is_auth_event_valid context.host e)) [
    | inr (reason, h) ↦ refused (reason_text reason) (rw h) (rw h) (rw h)
    | inl h ↦
        let (valid, signed) = is_auth_event_valid_iff e h in
        let (id, signature) = is_event_valid_iff e valid in
        rw h (
          Ends-weaken context (record { adapter = refl; db = refl })
            (λ p. record { id = id; signature = signature; signed_auth = signed; shared = p })
            (limit-Ends context e signed_auth w))
  ]
