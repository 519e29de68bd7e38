-- ===== src/Strategies.antt =====
-- src/handlers/event-strategies and the two factories of strategies in src/factories.
pub mod Choice
pub mod Deletion
pub mod Announced
pub mod Effects
pub mod Observed
pub mod Authentication
use nostream.Prelude.{
  ℕ, suc, ◌+◌, ◌*◌, Bool, true, false, ◌&&◌, Option, none, some, List, [], ◌∷◌, ◌++◌, leb, ltb,
  ◌==◌, if◌then◌else◌, length, get_elem?, find, all,
}
use nostream.Prelude.Text.{Text, ends_with, text, is_text, ◌===◌}
use nostream.Action.{
  Action, Outcome, done, failed, Thrown, error, other, pure, throw, gets, modify, catch, ◌>>=◌,
  ◌>>◌,
}
use nostream.Event.{Tag, Event, event_tag, deduplication_tag}
use nostream.Event.Kinds.{
  is_replaceable_event, is_ephemeral_event, is_delete_event, is_parameterized_replaceable_event,
}
use nostream.Event.Auth.{is_valid_signed_auth_event}
use nostream.Messages.{create_command_result}
use nostream.Adapter.{
  Adapter, Challenge, AdapterEvent, message, broadcast, set_client_to_authenticated,
}
use nostream.Repository.{EventRepository}
use nostream.World.{World, web_socket_emit, date_now, with_db}

pub data Strategy : Type 0 where
  replaceable : Strategy
  ephemeral : Strategy
  delete : Strategy
  parameterized_replaceable : Strategy
  default : Strategy
  signed_auth : Strategy

-- `eventStrategyFactory`
unfoldable pub event_strategy : Event → Strategy
event_strategy e =
    if is_replaceable_event e
    then replaceable
    else if is_ephemeral_event e
    then ephemeral
    else if is_delete_event e
    then delete
    else if is_parameterized_replaceable_event e
    then parameterized_replaceable
    else default

-- `signedAuthEventStrategyFactory`
unfoldable pub signed_auth_event_strategy : Event → Strategy
signed_auth_event_strategy e = signed_auth

abbrev pub is_lower_hex : ℕ → Bool
is_lower_hex c = if leb c b'9' then leb b'0' c else leb b'a' c && leb c b'f'

-- `/^[0-9a-f]{64}$/`
unfoldable pub is_id : Text → Bool
is_id s = length s == 64 && all is_lower_hex s

abbrev is_id_at : Option Text → Bool
is_id_at none = false
is_id_at (some s) = is_id s

unfoldable pub is_valid_e_tag : Tag → Bool
is_valid_e_tag tag =
    leb 2 (length tag) && (is_text (get_elem? tag 0) event_tag && is_id_at (get_elem? tag 1))

abbrev value_of : Option Text → List Text → List Text
value_of none ids = ids
value_of (some id) ids = id ∷ ids

-- The ids of the events to delete, in the order of the tags.
unfoldable pub event_ids_to_delete : List Tag → List Text
unfolding is_valid_e_tag is_id
event_ids_to_delete [] = []
event_ids_to_delete (tag ∷ tags) =
    let ids = event_ids_to_delete tags in
    if is_valid_e_tag tag then value_of (get_elem? tag 1) ids else ids

abbrev is_deduplication_tag : Tag → Bool
is_deduplication_tag tag = leb 2 (length tag) && is_text (get_elem? tag 0) deduplication_tag

-- `const [, ...deduplication] = event.tags.find(…) ?? [null, '']`
abbrev all_after_first : Option Tag → List Text
all_after_first none = [] ∷ []
all_after_first (some []) = []
all_after_first (some (name ∷ values)) = values

unfoldable pub deduplication_of : Event → List Text
deduplication_of e = all_after_first (find is_deduplication_tag e.tags)

abbrev pub duplicate_key : Text
duplicate_key = text "duplicate key value violates unique constraint \"events_event_id_unique\""

-- Milliseconds.
abbrev pub permitted_challenge_response_time_delay_ms : ℕ
permitted_challenge_response_time_delay_ms = 1000 * 60 * 10

-- Reading the fields of an absent challenge throws a `TypeError`.
abbrev pub type_error : Thrown
type_error = error (text "Cannot destructure property 'challenge'")

-- `eventRepository.create(event)`, which is never rejected.
abbrev create_in_db : {D : Type 0} → EventRepository D → Event → Action D ℕ
create_in_db repository e db = (done (repository.create e db).0, (repository.create e db).1)

module _ {D C : Type 0} (repository : EventRepository D) (clock : ℕ → ℕ) where
  abbrev emit_result : Event → Bool → Text → Action (World D C) (Unit {0})
  emit_result e successful reason =
      web_socket_emit (message (create_command_result e.id successful reason))

  -- What four strategies do with the count of rows written.
  abbrev announce : Event → ℕ → Action (World D C) (Unit {0})
  announce e count =
      emit_result e true (if count == 0 then text "duplicate:" else [])
      >> (if count == 0 then pure tt else web_socket_emit (broadcast e))

  unfoldable pub execute_default : Event → Action (World D C) (Unit {0})
  execute_default e = do count ← with_db (create_in_db repository e); announce e count

  unfoldable pub execute_ephemeral : Event → Action (World D C) (Unit {0})
  execute_ephemeral e = do emit_result e true []; web_socket_emit (broadcast e)

  abbrev delete_ids : Event → List Text → Action (World D C) (Unit {0})
  delete_ids e [] = pure tt
  delete_ids e (id ∷ ids) = do
    count ← with_db (repository.delete_by_pubkey_and_ids e.pubkey (id ∷ ids))
    pure tt

  unfoldable pub execute_delete : Event → Action (World D C) (Unit {0})
  execute_delete e = do
    delete_ids e (event_ids_to_delete e.tags)
    count ← with_db (create_in_db repository e)
    announce e count

  unfoldable pub execute_parameterized_replaceable : Event → Action (World D C) (Unit {0})
  execute_parameterized_replaceable e = do
    count ← with_db (repository.upsert (record e { deduplication = some (deduplication_of e) }))
    announce e count

  abbrev on_replaceable_error : Event → Thrown → Action (World D C) (Unit {0})
  on_replaceable_error e other = pure tt
  on_replaceable_error e (error m) =
      if ends_with m duplicate_key
      then emit_result e false (text "rejected: event already exists")
      else emit_result e false (text "error: ")

  unfoldable pub execute_replaceable : Event → Action (World D C) (Unit {0})
  execute_replaceable e =
      catch (do count ← with_db (repository.upsert e); announce e count) (on_replaceable_error e)

  abbrev pub answer_verified : Event → Bool → Action (World D C) (Unit {0})
  answer_verified e true = do
    modify (λ w. record w { adapter = set_client_to_authenticated w.adapter })
    emit_result e true (text "authentication: succeeded")
  answer_verified e false = emit_result e false (text "authentication: failed")

  abbrev pub answer_challenge : Event → Option Challenge → Action (World D C) (Unit {0})
  answer_challenge e none = throw type_error
  answer_challenge e (some c) = do
    now ← date_now clock
    let verified = is_valid_signed_auth_event e c.challenge
    let in_time = ltb now (c.created_at + permitted_challenge_response_time_delay_ms)
    answer_verified e (verified && in_time)

  unfoldable pub execute_signed_auth : Event → Action (World D C) (Unit {0})
  execute_signed_auth e = do
    challenge ← gets (λ w. w.adapter.auth_challenge)
    answer_challenge e challenge

  unfoldable pub execute : Strategy → Event → Action (World D C) (Unit {0})
  execute replaceable e = execute_replaceable e
  execute ephemeral e = execute_ephemeral e
  execute delete e = execute_delete e
  execute parameterized_replaceable e = execute_parameterized_replaceable e
  execute default e = execute_default e
  execute signed_auth e = execute_signed_auth e
