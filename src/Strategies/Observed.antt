-- ===== src/Strategies/Observed.antt =====
-- What no strategy of src/handlers/event-strategies changes: whatever messages and broadcasts keep.
use nostream.Prelude.{
  ℕ, zero, suc, ◌+◌, ◌≡◌, refl, ap, ◌∙◌, ◌⊎◌, inl, inr, Bool, true, false, Option, none, some,
  arith, ◌==◌, Bool-cases,
}
use nostream.Prelude.Text.{ends_with}
use nostream.Action.{Thrown, error, other}
use nostream.Event.{Event}
use nostream.Messages.{OutgoingMessage}
use nostream.Adapter.{Adapter, Challenge, emit, message, broadcast, set_client_to_authenticated}
use nostream.Repository.{EventRepository}
use nostream.World.{World}
use nostream.Strategies.{
  Strategy, replaceable, ephemeral, delete, parameterized_replaceable, default, signed_auth,
  execute, execute_default, execute_ephemeral, execute_delete, execute_parameterized_replaceable,
  execute_replaceable, execute_signed_auth, event_ids_to_delete, deduplication_of, duplicate_key,
  on_replaceable_error, delete_ids, answer_verified, announce, answer_challenge,
}
use nostream.Strategies.Effects.{Outcome-cases, announce_done, delete_ids-adapter}

-- A view of the connection that messages and broadcasts keep.
module _ {X : Type 0} (view : Adapter → X)
    (keeps_message : (m : OutgoingMessage) (a : Adapter) → view (emit (message m) a) ≡ view a)
    (keeps_broadcast : (e : Event) (a : Adapter) → view (emit (broadcast e) a) ≡ view a)
    {D C : Type 0} (repository : EventRepository D) (clock : ℕ → ℕ) where
  announce-view :
      (e : Event) (count : ℕ) (w : World D C)
      → view (announce repository clock e count w).1.adapter ≡ view w.adapter
  announce-view e zero w = keeps_message _ w.adapter
  announce-view e (suc n) w = elim (Bool-cases (suc n == 0)) [
    | inl h ↦ absurd (ground arith)
    | inr h ↦ rw h (keeps_broadcast e _ ∙ keeps_message _ w.adapter)
  ]

  on_replaceable_error-view :
      (e : Event) (t : Thrown) (w : World D C)
      → view (on_replaceable_error repository clock e t w).1.adapter ≡ view w.adapter
  on_replaceable_error-view e other w = refl
  on_replaceable_error-view e (error m) w = elim (Bool-cases (ends_with m duplicate_key)) [
    | inl h ↦ rw h (keeps_message _ w.adapter)
    | inr h ↦ rw h (keeps_message _ w.adapter)
  ]

  -- Every strategy but `signed_auth` keeps it.
  pub execute-view :
      (s : Strategy) (e : Event) (w : World D C)
      → (s ≡ signed_auth) ⊎ (view (execute repository clock s e w).1.adapter ≡ view w.adapter)
  unfolding execute
  execute-view default e w = inr (
      unfold execute_default in
      announce-view e (repository.create e w.db).0 (record w { db = (repository.create e w.db).1 }))
  execute-view ephemeral e w =
      inr (unfold execute_ephemeral in keeps_broadcast e _ ∙ keeps_message _ w.adapter)
  execute-view delete e w =
      let r = delete_ids repository clock e (event_ids_to_delete e.tags) w in
      let same = ap view (delete_ids-adapter repository clock e (event_ids_to_delete e.tags) w) in
      inr (
        unfold execute_delete in
        elim (Outcome-cases r.0) [
          | inl (n, h) ↦ rw h (
              announce-view e (repository.create e r.1.db).0
                (record r.1 { db = (repository.create e r.1.db).1 })
              ∙ same)
          | inr (t, h) ↦ rw h same
        ])
  execute-view parameterized_replaceable e w =
      let r = repository.upsert (record e { deduplication = some (deduplication_of e) }) w.db in
      inr (
        unfold execute_parameterized_replaceable in
        elim (Outcome-cases r.0) [
          | inl (n, h) ↦ rw h (announce-view e n (record w { db = r.1 }))
          | inr (t, h) ↦ rw h
        ])
  execute-view replaceable e w =
      let v = record w { db = (repository.upsert e w.db).1 } in
      inr (
        unfold execute_replaceable in
        elim (Outcome-cases (repository.upsert e w.db).0) [
          | inl (n, h) ↦ rw h (rw (announce_done repository clock e n v) (announce-view e n v))
          | inr (t, h) ↦ rw h (on_replaceable_error-view e t v)
        ])
  execute-view signed_auth e w = inl refl

  module _
      (keeps_authenticated : (a : Adapter) → view (set_client_to_authenticated a) ≡ view a) where
    answer_verified-view :
        (e : Event) (verified : Bool) (w : World D C)
        → view (answer_verified repository clock e verified w).1.adapter ≡ view w.adapter
    answer_verified-view e true w = keeps_message _ _ ∙ keeps_authenticated w.adapter
    answer_verified-view e false w = keeps_message _ w.adapter

    answer_challenge-view :
        (e : Event) (o : Option Challenge) (w : World D C)
        → view (answer_challenge repository clock e o w).1.adapter ≡ view w.adapter
    answer_challenge-view e none w = refl
    answer_challenge-view e (some c) w = answer_verified-view e _ (record w { ticks = w.ticks + 1 })

    -- A view that does not tell whether the client has authenticated is kept by all of them.
    pub execute-view_all :
        (s : Strategy) (e : Event) (w : World D C)
        → view (execute repository clock s e w).1.adapter ≡ view w.adapter
    execute-view_all s e w = elim (execute-view s e w) [
      | inr same ↦ same
      | inl auth ↦
          rw auth (
            unfold execute execute_signed_auth in
            answer_challenge-view e w.adapter.auth_challenge w)
    ]
