-- ===== src/Strategies/Effects.antt =====
-- What the strategies of src/handlers/event-strategies do to the connection.
use nostream.Prelude.{
  ℕ, zero, suc, ◌+◌, ◌≡◌, refl, ◌⊎◌, inl, inr, Bool, true, false, Option, none, some, List, [], ◌∷◌,
  arith,
}
use nostream.Prelude.Text.{Text}
use nostream.Action.{Outcome, done, failed, Thrown}
use nostream.Event.{Event}
use nostream.Adapter.{
  Adapter, Challenge, emit, listen, message, send_message, set_client_to_authenticated,
}
use nostream.Repository.{EventRepository}
use nostream.World.{World}
use nostream.Strategies.{delete_ids, answer_verified, announce, answer_challenge}
use nostream.Strategies.Announced.{Announced}

-- The connection after a message, where it is open and listening.
abbrev pub IsUp : Adapter → Type 0
IsUp a = (a.client.is_open ≡ true) × (a.listening ≡ true)

pub Outcome-cases :
    {A : Type 0} (o : Outcome A) → ((a : A) × (o ≡ done a)) ⊎ ((t : Thrown) × (o ≡ failed t))
Outcome-cases (done a) = inl (a, refl)
Outcome-cases (failed t) = inr (t, refl)

pub send_message-broadcasts : (m : _) (a : Adapter) → (emit (message m) a).broadcasts ≡ a.broadcasts
unfolding emit listen send_message
send_message-broadcasts m a = ground arith

module _ {D C : Type 0} (repository : EventRepository D) (clock : ℕ → ℕ) where
  pub announce_done :
      (e : Event) (count : ℕ) (w : World D C) → (announce repository clock e count w).0 ≡ done tt
  announce_done e zero w = refl
  announce_done e (suc n) w = ground arith

  -- The state with which the upsert or the insertion goes on.
  abbrev with_rows : D → World D C → World D C
  with_rows db w = record w { db = db }

  pub delete_ids-adapter :
      (e : Event) (ids : List Text) (w : World D C)
      → (delete_ids repository clock e ids w).1.adapter ≡ w.adapter
  delete_ids-adapter e [] w = refl
  delete_ids-adapter e (id ∷ ids) w =
      elim (Outcome-cases (repository.delete_by_pubkey_and_ids e.pubkey (id ∷ ids) w.db).0) [
        | inl (n, h) ↦ rw h
        | inr (t, h) ↦ rw h
      ]

  answer_verified-broadcasts :
      (e : Event) (verified : Bool) (w : World D C)
      → (answer_verified repository clock e verified w).1.adapter.broadcasts ≡ w.adapter.broadcasts
  unfolding emit listen send_message set_client_to_authenticated
  answer_verified-broadcasts e true w = ground arith
  answer_verified-broadcasts e false w = ground arith

  pub answer_challenge_lem :
      (e : Event) (c : Option Challenge) (w : World D C)
      → (answer_challenge repository clock e c w).1.adapter.broadcasts ≡ w.adapter.broadcasts
  answer_challenge_lem e none w = refl
  answer_challenge_lem e (some c) w =
      answer_verified-broadcasts e _ (record w { ticks = w.ticks + 1 })
