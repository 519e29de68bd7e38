-- ===== src/Strategies/Announced.antt =====
-- What the strategies of src/handlers/event-strategies may broadcast, and why they broadcast nothing.
use nostream.Prelude.{ℕ, ◌≡◌, ◌⊎◌, true, some, [], ◌∷◌, ◌++◌}
use mathlib.Core.Path.{subst}
use nostream.Action.{Outcome, done, failed, Thrown}
use nostream.Event.{Event}
use nostream.Messages.{ok_out}
use nostream.Adapter.{Adapter}
use nostream.Repository.{EventRepository}
use nostream.Strategies.{
  Strategy, replaceable, delete, parameterized_replaceable, default, signed_auth,
  event_ids_to_delete, deduplication_of,
}

-- What a strategy may do to the broadcasts: nothing, for a reason `Why`, or it adds the event, once, at
-- a time when the client has been sent one OK message more, with `true` and no text, and sends nothing
-- afterwards.
pub data Announced (Why : Type 0) (e : Event) (a b : Adapter) : Type 0 where
  silent : Why → b.broadcasts ≡ a.broadcasts → Announced Why e a b
  announced :
      b.broadcasts ≡ a.broadcasts ++ (e, a.client.sent ++ ok_out e.id true [] ∷ []) ∷ []
      → b.client.sent ≡ a.client.sent ++ ok_out e.id true [] ∷ []
      → Announced Why e a b

pub Announced-from :
    {Why : Type 0} {e : Event} {a a' b : Adapter}
    → a ≡ a'
    → Announced Why e a b
    → Announced Why e a' b
Announced-from {Why} {e} {b} same h = subst (λ x. Announced Why e x b) same h

-- No row was written: the count is 0, or the call throws.
abbrev pub Uncounted : Outcome ℕ → Type 0
Uncounted o = (o ≡ done 0) ⊎ ((t : Thrown) × (o ≡ failed t))

module _ {D : Type 0} (repository : EventRepository D) where
  -- The database when a deletion inserts its event: the named events deleted, if it names any.
  abbrev pub Cleared : Event → D → D → Type 0
  Cleared e db after =
      (after ≡ db)
      ⊎ (after ≡ (repository.delete_by_pubkey_and_ids e.pubkey (event_ids_to_delete e.tags) db).1)

  -- Why a strategy broadcasts nothing, by what the repository answers.
  pub data Unwritten (e : Event) (db : D) : Strategy → Type 0 where
    authenticates : Unwritten e db signed_auth
    not_inserted : (repository.create e db).0 ≡ 0 → Unwritten e db default
    not_upserted : Uncounted (repository.upsert e db).0 → Unwritten e db replaceable
    not_upserted_with :
        Uncounted (repository.upsert (record e { deduplication = some (deduplication_of e) }) db).0
        → Unwritten e db parameterized_replaceable
    not_cleared :
        (t : Thrown)
        → (repository.delete_by_pubkey_and_ids e.pubkey (event_ids_to_delete e.tags) db).0
          ≡ failed t
        → Unwritten e db delete
    not_inserted_after :
        (after : D) → Cleared e db after → (repository.create e after).0 ≡ 0 → Unwritten e db delete
