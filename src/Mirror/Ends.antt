-- ===== src/Mirror/Ends.antt =====
-- What the mirroring worker of src/app/static-mirroring-worker.ts stores and sends on.
use nostream.Prelude.{
  ℕ, ◌+◌, ◌/◌, ◌-◌, ◌≡◌, ◌≢◌, refl, sym, ◌∙◌, ◌⊎◌, true, false, not, ◌&&◌, ◌++◌, ◌==◌, [], ◌∷◌,
  Option, some, arith, inl, inr, Bool-cases, Option-cases,
}
use mathlib.Core.Path.{subst}
use nostream.Prelude.Text.{Text, ◌===◌, ===_iff}
use nostream.Action.{done}
use nostream.Event.{Event}
use nostream.Event.Expiration.{is_expired_event, add_expiration_metadata}
use nostream.EventHandler.{is_event_id_valid, is_event_signature_valid}
use nostream.Strategies.Effects.{Outcome-cases}
use nostream.Mirror.{
  MirrorContext, MirrorState, matches, can_accept, is_author_admitted, store, store_if,
  after_expiration, on_event, on_parsed, on_message,
}

module _ {D : Type 0} (context : MirrorContext D) where
  -- Nothing is stored or sent, and the time from which the mirror is asked again stays.
  pub record Kept (w v : MirrorState D) : Type 0 where
    pub db : v.db ≡ w.db
    pub since : v.since ≡ w.since
    pub sent : v.sent ≡ w.sent

  -- What the worker asks of an event before it stores it, in the state `w`.
  pub record Mirrored (e : Event) (w : MirrorState D) : Type 0 where
    pub matching : matches context e ≡ true
    pub id : is_event_id_valid context.host e ≡ true
    pub signature : is_event_signature_valid context.host e ≡ true
    pub fresh : is_expired_event context.host.number (context.host.clock w.ticks) e ≡ false
    pub accepted :
        can_accept context
          (context.host.clock (w.ticks + 1))
          (add_expiration_metadata context.host.number e)
        ≡ true
    pub admitted :
        is_author_admitted context (add_expiration_metadata context.host.number e) w.db ≡ done true

  -- The event is stored at the clock's reading `tick`, and sent on if it was new and the process is a
  -- worker.
  pub record Mirrors (e : Event) (tick : ℕ) (w v : MirrorState D) : Type 0 where
    pub db : v.db ≡ (context.events.create e w.db).1
    pub since : v.since ≡ context.host.clock tick / 1000 - 30
    pub sent :
        (((context.events.create e w.db).0 ≢ 0)
          × (context.is_worker ≡ true)
          × (v.sent ≡ w.sent ++ (e, context.config.address) ∷ []))
        ⊎ ((((context.events.create e w.db).0 ≡ 0) ⊎ (context.is_worker ≡ false))
            × (v.sent ≡ w.sent))

  untold :
      (count : ℕ)
      → (not (count == 0) && context.is_worker) ≡ false
      → (count ≡ 0) ⊎ (context.is_worker ≡ false)
  untold count h = elim (Bool-cases (count == 0)) [
    | inl z ↦ inl (ground arith)
    | inr n ↦ inr (ground arith)
  ]

  store-Mirrors :
      (e : Event) (w : MirrorState D) (tick : ℕ)
      → Mirrors e tick w (store context e (record w { ticks = tick }))
  unfolding store
  store-Mirrors e w tick =
      let count = (context.events.create e w.db).0 in
      elim (Bool-cases (not (count == 0) && context.is_worker)) [
        | inl y ↦
            rw y (record { db = refl; since = refl; sent = inl (ground arith, ground arith, refl) })
        | inr n ↦ rw n (record { db = refl; since = refl; sent = inr (untold count n, refl) })
      ]

  -- How a message may end.
  pub data MirrorEnds (parsed : Option (Text × Event)) (w v : MirrorState D) : Type 0 where
    kept :
        ((e : Event) → parsed ≡ some (context.subscription_id, e) → ¬ Mirrored e w)
        → Kept w v
        → MirrorEnds parsed w v
    stored :
        (e : Event)
        → parsed ≡ some (context.subscription_id, e)
        → Mirrored e w
        → Mirrors (add_expiration_metadata context.host.number e) (w.ticks + 1 + 1) w v
        → MirrorEnds parsed w v

  abbrev same : {w : MirrorState D} {n : ℕ} → Kept w (record w { ticks = n })
  same = record { db = refl; since = refl; sent = refl }

  after_expiration_lem :
      (e : Event) (w : MirrorState D)
      → (¬ (
            (can_accept context (context.host.clock w.ticks) e ≡ true)
            × (is_author_admitted context e w.db ≡ done true))
          × Kept w (after_expiration context e w))
        ⊎ ((can_accept context (context.host.clock w.ticks) e ≡ true)
            × (is_author_admitted context e w.db ≡ done true)
            × (after_expiration context e w ≡ store context e (record w { ticks = w.ticks + 1 })))
  unfolding after_expiration store_if
  after_expiration_lem e w = elim (Bool-cases (can_accept context (context.host.clock w.ticks) e)) [
    | inr h ↦ inl (λ (a, _). absurd (ground (arith, h, a)), rw h same)
    | inl h ↦ elim (Outcome-cases (is_author_admitted context e w.db)) [
      | inr (t, a) ↦ inl (λ (_, b). absurd (ground (arith, a, b)), rw (h, a) same)
      | inl (false, a) ↦ inl (λ (_, b). absurd (ground (arith, a, b)), rw (h, a) same)
      | inl (true, a) ↦ inr (h, a, rw (h, a))
    ]
  ]

  -- The tests before the one for expiration, and that one.
  on_event_lem :
      (e : Event) (w : MirrorState D)
      → (¬ Mirrored e w × Kept w (on_event context e w))
        ⊎ ((matches context e ≡ true)
            × ((is_event_id_valid context.host e && is_event_signature_valid context.host e) ≡ true)
            × (is_expired_event context.host.number (context.host.clock w.ticks) e ≡ false)
            × (on_event context e w
                ≡ after_expiration context
                    (add_expiration_metadata context.host.number e)
                    (record w { ticks = w.ticks + 1 })))
  unfolding on_event
  on_event_lem e w = elim (Bool-cases (matches context e)) [
    | inr h ↦ inl (λ m. absurd (ground (arith, h, m.matching)), rw h same)
    | inl h ↦
        elim (Bool-cases
          (is_event_id_valid context.host e && is_event_signature_valid context.host e)) [
            | inr v ↦ inl (λ m. absurd (ground (arith, v, m.id, m.signature)), rw (h, v) same)
            | inl v ↦
                elim (Bool-cases
                  (is_expired_event context.host.number (context.host.clock w.ticks) e)) [
                    | inl x ↦ inl (λ m. absurd (ground (arith, x, m.fresh)), rw (h, v, x) same)
                    | inr x ↦ inr (h, v, x, rw (h, v, x))
                  ]
          ]
  ]

  -- The event that has been parsed is the only one there is.
  kept_own :
      (e : Event) (w v : MirrorState D)
      → ¬ Mirrored e w
      → Kept w v
      → MirrorEnds (some (context.subscription_id, e)) w v
  kept_own e w v n k = kept (λ f p. let same : e ≡ f = ground arith in rw⁻¹ same n) k

  on_event-MirrorEnds :
      (e : Event) (w : MirrorState D)
      → MirrorEnds (some (context.subscription_id, e)) w (on_event context e w)
  on_event-MirrorEnds e w = elim (on_event_lem e w) [
    | inl (n, k) ↦ kept_own e w (on_event context e w) n k
    | inr (h, v, x, passed) ↦
        let marked = add_expiration_metadata context.host.number e in
        elim (after_expiration_lem marked (record w { ticks = w.ticks + 1 })) [
          | inl (n, k) ↦ rw passed (
              kept_own e w _ (λ m. n (m.accepted, m.admitted))
                (record { db = k.db; since = k.since; sent = k.sent }))
          | inr (accepted, admitted, ends) ↦
              stored e refl
                (record {
                  matching = h;
                  id = ground arith;
                  signature = ground arith;
                  fresh = x;
                  accepted = accepted;
                  admitted = admitted;
                })
                (rw (passed ∙ ends) (store-Mirrors marked w (w.ticks + 1 + 1)))
        ]
  ]

  -- The worker handles a message in one of two ways. If the message is an event of its subscription
  -- that matches the mirror's filters, has a valid id and signature and has not expired, the merged
  -- limits accept it and its author is admitted, then the event, with its expiration marked, is given
  -- to the repository to store, the time to ask from is set to 30 seconds before now, and the event is
  -- sent on, once, if the repository counts it as new and the process is a worker, and else not. In
  -- all other cases nothing is stored or sent, and the time to ask from stays.
  pub on_message-MirrorEnds :
      (raw : Text) (w : MirrorState D) → MirrorEnds (context.parse raw) w (on_message context raw w)
  unfolding on_message on_parsed
  on_message-MirrorEnds raw w = elim (Option-cases (context.parse raw)) [
    | inl h ↦ rw h (kept (λ e p. absurd (ground arith)) same)
    | inr ((id, e), h) ↦ elim (Bool-cases (id === context.subscription_id)) [
      | inr foreign ↦
          rw (h, foreign)
            (kept
              (λ f p.
                let its : id ≡ context.subscription_id = ground arith in
                absurd (ground (arith, foreign, (===_iff id context.subscription_id).1 its)))
              same)
      | inl own ↦
          rw (h, own)
            (subst (λ i. MirrorEnds (some (i, e)) w (on_event context e w))
              (sym ((===_iff id context.subscription_id).0 own)) (on_event-MirrorEnds e w))
    ]
  ]
