-- ===== src/EventHandler/Ends.antt =====
-- The steps that the two handlers of src/handlers/event-message-handler.ts and
-- auth-event-message-handler.ts share, and how each of them may end.
use nostream.Prelude.{
  ◌+◌, ◌≡◌, refl, ◌∙◌, ap, inl, inr, Bool, true, false, ◌||◌, Option, none, some, List, [], ◌∷◌,
  Bool-cases, Option-cases,
}
use nostream.Prelude.Text.{Text, text}
use nostream.Action.{Outcome, done, failed, Thrown}
use nostream.Event.{Event}
use nostream.Settings.{event_limits, EventRateLimit}
use nostream.Limits.{Reason, can_accept_event}
use nostream.Messages.{create_command_result, reason_text}
use nostream.Adapter.{emit, message}
use nostream.World.{World}
use nostream.Strategies.{Strategy}
use nostream.EventHandler.{
  Context, rate_limit_loop, is_rate_limited, kinds_apply, rate_limits_of, is_exempt, rate_limit_key,
}
use nostream.EventHandler.Admission.{is_user_admitted}
use nostream.EventHandler.Stages.{
  reject, unless_refused, unless_limited, run_strategy, admit, accept, limit,
}
use nostream.Strategies.Effects.{Outcome-cases}

module _ {D C : Type 0} where
  -- The connection and the database are as before.
  pub record SameState (w v : World D C) : Type 0 where
    pub adapter : v.adapter ≡ w.adapter
    pub db : v.db ≡ w.db

abbrev pub Ran : Type 0 → Type 0 → Type 0
Ran D C = Outcome (Unit {0}) × World D C

module _ {D C : Type 0} (context : Context D C) where
  -- How the handling of an event with the id `id` from the state `w` may end with `r`, where
  -- `Passed` is what the tests ask for, and `e` is what the strategy is given.
  pub data Ends (id : Text) (e : Event) (strategy : Strategy) (Passed : Type 0) (w : World D C)
      (r : Ran D C) : Type 0 where
    -- One message says that the event is refused, and nothing else has changed.
    refused :
        (reason : Text)
        → r.0 ≡ done tt
        → r.1.adapter ≡ emit (message (create_command_result id false reason)) w.adapter
        → r.1.db ≡ w.db
        → Ends id e strategy Passed w r
    -- The limiter or the repository of users has thrown.
    broken : (t : Thrown) → r.0 ≡ failed t → SameState w r.1 → Ends id e strategy Passed w r
    -- Every test is passed, and what happens is what the strategy does.
    ran :
        (v : World D C)
        → SameState w v
        → Passed
        → r ≡ run_strategy context e strategy v
        → Ends id e strategy Passed w r

  -- More has been asked before, in a state with the same connection and database.
  pub Ends-weaken :
      {id : Text} {e : Event} {strategy : Strategy} {P Q : Type 0} {w v : World D C} {r : Ran D C}
      → SameState w v
      → (P → Q)
      → Ends id e strategy P v r
      → Ends id e strategy Q w r
  Ends-weaken s f (refused reason a b c) = refused reason a (rw b (rw s.adapter)) (c ∙ s.db)
  Ends-weaken s f (broken t a b) =
      broken t a (record { adapter = b.adapter ∙ s.adapter; db = b.db ∙ s.db })
  Ends-weaken s f (ran u a p b) =
      ran u (record { adapter = a.adapter ∙ s.adapter; db = a.db ∙ s.db }) (f p) b

  admit-Ends :
      (e : Event) (strategy : Strategy) (w : World D C)
      → Ends e.id e strategy
          (is_user_admitted context e w.db ≡ done none)
          w
          (admit context e strategy w)
  unfolding admit unless_refused reject
  admit-Ends e strategy w = elim (Outcome-cases (is_user_admitted context e w.db)) [
    | inr (t, h) ↦ broken t (rw h) (record { adapter = rw h; db = rw h })
    | inl (none, h) ↦ ran w (record { adapter = refl; db = refl }) h (rw h)
    | inl (some reason, h) ↦ refused (reason_text reason) (rw h) (rw h) (rw h)
  ]

  abbrev acceptable : Event → World D C → Option Reason
  acceptable e w =
      can_accept_event context.relay_pubkey (context.host.clock w.ticks)
        (event_limits context.settings) e

  accept-Ends :
      (e : Event) (strategy : Strategy) (w : World D C)
      → Ends e.id e strategy
          ((acceptable e w ≡ none) × (is_user_admitted context e w.db ≡ done none))
          w
          (accept context e strategy w)
  unfolding accept unless_refused reject
  accept-Ends e strategy w = elim (Option-cases (acceptable e w)) [
    | inl h ↦ rw h (
        Ends-weaken (record { adapter = refl; db = refl }) (λ p. (refl, p))
          (admit-Ends e strategy (record w { ticks = w.ticks + 1 })))
    | inr (reason, h) ↦ refused (reason_text reason) (rw h) (rw h) (rw h)
  ]

  abbrev hit_of : Event → EventRateLimit → World D C → Outcome Bool × C
  hit_of e l w = context.limiter.hit (rate_limit_key e l) 1 l.period l.rate w.cache

  -- The limiter works on the cache alone.
  rate_limit_loop-SameState :
      (e : Event) (limited : Bool) (limits : List EventRateLimit) (w : World D C)
      → SameState w (rate_limit_loop context e limited limits w).1
  unfolding rate_limit_loop
  rate_limit_loop-SameState e limited [] w = record { adapter = refl; db = refl }
  rate_limit_loop-SameState e limited (l ∷ limits) w = elim (Bool-cases (kinds_apply e l.kinds)) [
    | inr skip ↦ rw skip (rate_limit_loop-SameState e limited limits w)
    | inl applies ↦ rw applies (elim (Outcome-cases (hit_of e l w).0) [
      | inr (t, h) ↦ rw h (record { adapter = refl; db = refl })
      | inl (b, h) ↦
          let rest =
            rate_limit_loop-SameState e (limited || b) limits
              (record w { cache = (hit_of e l w).1 }) in
          rw h (record { adapter = rest.adapter; db = rest.db })
    ])
  ]

  is_rate_limited-SameState :
      (e : Event) (w : World D C) → SameState w (is_rate_limited context e w).1
  unfolding is_rate_limited
  is_rate_limited-SameState e w =
      elim (Bool-cases
        (is_exempt context e w.adapter.client_address (event_limits context.settings))) [
          | inl exempt ↦ rw exempt (record { adapter = refl; db = refl })
          | inr asked ↦ rw asked (
              rate_limit_loop-SameState e false
                (rate_limits_of context (event_limits context.settings).rate_limits) w)
        ]

  -- What the tests that both handlers share ask for. `w` is the state in which the limits are
  -- asked, and `v` the one after it.
  abbrev pub PassedShared : Event → World D C → Type 0
  PassedShared e w =
      let v = (is_rate_limited context e w).1 in
      ((is_rate_limited context e w).0 ≡ done false)
      × (acceptable e v ≡ none)
      × (is_user_admitted context e v.db ≡ done none)

  pub limit-Ends :
      (e : Event) (strategy : Strategy) (w : World D C)
      → Ends e.id e strategy (PassedShared e w) w (limit context e strategy w)
  unfolding limit unless_limited reject
  limit-Ends e strategy w =
      let same = is_rate_limited-SameState e w in
      elim (Outcome-cases (is_rate_limited context e w).0) [
        | inr (t, h) ↦ broken t (rw h) (record { adapter = rw h same.adapter; db = rw h same.db })
        | inl (false, h) ↦ rw h (
            Ends-weaken same (λ p. (refl, p.0, p.1))
              (accept-Ends e strategy (is_rate_limited context e w).1))
        | inl (true, h) ↦
            refused (text "rate-limited: slow down") (rw h) (rw h (ap (emit _) same.adapter))
              (rw h same.db)
      ]
