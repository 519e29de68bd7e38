-- ===== src/Strategies/Authentication.antt =====
-- Which strategies of src/handlers/event-strategies authenticate a connection, and when.
use nostream.Prelude.{
  ℕ, ◌+◌, ◌<◌, ◌≡◌, refl, sym, ◌∙◌, ◌↔◌, inl, inr, Bool, true, false, ◌&&◌, Option, none, some,
  arith, ltb,
}
use nostream.Event.{Event}
use nostream.Event.Auth.{is_valid_signed_auth_event}
use nostream.Adapter.{
  Adapter, Challenge, emit, listen, message, broadcast, send_message, on_broadcast,
  set_client_to_authenticated,
}
use nostream.Repository.{EventRepository}
use nostream.World.{World}
use nostream.Strategies.{
  Strategy, signed_auth, execute, execute_signed_auth, permitted_challenge_response_time_delay_ms,
  answer_verified, answer_challenge,
}
use nostream.Strategies.Observed.{execute-view}

message-authenticated : (m : _) (a : Adapter) → (emit (message m) a).authenticated ≡ a.authenticated
unfolding emit listen send_message
message-authenticated m a = ground arith

broadcast-authenticated :
    (e : Event) (a : Adapter) → (emit (broadcast e) a).authenticated ≡ a.authenticated
unfolding emit listen on_broadcast
broadcast-authenticated e a = ground arith

module _ {D C : Type 0} (repository : EventRepository D) (clock : ℕ → ℕ) where
  -- The event answers the challenge that the connection was sent, in time.
  pub record Answers (e : Event) (w : World D C) : Type 0 where
    pub challenge : Challenge
    pub outstanding : w.adapter.auth_challenge ≡ some challenge
    pub valid : is_valid_signed_auth_event e challenge.challenge ≡ true
    pub in_time : clock w.ticks < challenge.created_at + permitted_challenge_response_time_delay_ms

  answer_verified-authenticated :
      (e : Event) (verified : Bool) (w : World D C)
      → w.adapter.authenticated ≡ false
      → (answer_verified repository clock e verified w).1.adapter.authenticated ≡ verified
  unfolding set_client_to_authenticated
  answer_verified-authenticated e true w h = message-authenticated _ _
  answer_verified-authenticated e false w h = message-authenticated _ w.adapter ∙ h

  abbrev is_answer : Event → Challenge → World D C → Bool
  is_answer e c w =
      is_valid_signed_auth_event e c.challenge
      && ltb (clock w.ticks) (c.created_at + permitted_challenge_response_time_delay_ms)

  answer_challenge_iff :
      (e : Event) (o : Option Challenge) (w : World D C)
      → w.adapter.authenticated ≡ false
      → ((answer_challenge repository clock e o w).1.adapter.authenticated ≡ true)
        ↔ ((c : Challenge) × (o ≡ some c) × (is_answer e c w ≡ true))
  answer_challenge_iff e none w off =
      (λ on. absurd (ground arith), λ a. absurd (ground (arith, a.1)))
  answer_challenge_iff e (some c) w off =
      let answered =
        answer_verified-authenticated e (is_answer e c w) (record w { ticks = w.ticks + 1 }) off in
      (λ on. (c, refl, sym answered ∙ on), λ (d, h, is_ok). answered ∙ ground arith)

  execute_signed_auth_iff :
      (e : Event) (w : World D C)
      → w.adapter.authenticated ≡ false
      → ((execute_signed_auth repository clock e w).1.adapter.authenticated ≡ true) ↔ Answers e w
  unfolding execute_signed_auth
  execute_signed_auth_iff e w off =
      let answered = answer_challenge_iff e w.adapter.auth_challenge w off in
      (
        λ on.
            let (c, h, is_ok) = answered.0 on in
            record { challenge = c; outstanding = h; valid = ground arith; in_time = ground arith },
        λ a. answered.1 (a.challenge, a.outstanding, ground (arith, a.valid, a.in_time)),
      )

  -- On a connection that is not authenticated, a strategy authenticates it exactly when it is the
  -- one for signed AUTH events and the event is a valid answer to the outstanding challenge, given
  -- less than ten minutes after the challenge was set.
  pub execute_authenticates_iff :
      (s : Strategy) (e : Event) (w : World D C)
      → w.adapter.authenticated ≡ false
      → ((execute repository clock s e w).1.adapter.authenticated ≡ true)
        ↔ ((s ≡ signed_auth) × Answers e w)
  unfolding execute
  execute_authenticates_iff s e w off = (
    λ on.
        elim (execute-view (λ a. a.authenticated) message-authenticated broadcast-authenticated
          repository clock s e w) [
            | inl h ↦ (h, (execute_signed_auth_iff e w off).0 (rw h at on))
            | inr h ↦ absurd (ground arith)
          ],
    λ (h, a). rw h ((execute_signed_auth_iff e w off).1 a),
  )
