-- ===== src/Strategies/Choice.antt =====
-- Which strategy an event gets, and the rows that the upserting strategies rely on.
use nostream.Prelude.{ℕ, ◌≤◌, ◌<◌, ◌≡◌, ◌≢◌, ◌↔◌, ◌⊎◌, Bool, true, false, arith}
use nostream.Event.{Event}
use nostream.Event.Kinds.{
  is_replaceable_event, is_ephemeral_event, is_delete_event, is_parameterized_replaceable_event,
}
use nostream.Repository.Table.{is_upsert_kind}
use nostream.Strategies.{
  Strategy, replaceable, ephemeral, delete, parameterized_replaceable, default, event_strategy,
}

-- The strategies that call `upsert`.
abbrev pub is_upserting : Strategy → Bool
is_upserting replaceable = true
is_upserting parameterized_replaceable = true
is_upserting _ = false

-- An event is written by `upsert` exactly when its kind is one for which `upsert` has a conflict
-- target; so a replaceable event never lacks one, and no other event meets it.
pub is_upserting-event_strategy :
    (e : Event) → is_upserting (event_strategy e) ≡ is_upsert_kind e.kind
unfolding event_strategy is_upsert_kind is_replaceable_event is_ephemeral_event is_delete_event
    is_parameterized_replaceable_event
is_upserting-event_strategy e = ground arith

-- The kinds of each strategy.
abbrev pub IsFor : ℕ → Strategy → Type 0
IsFor kind replaceable =
    (kind ≡ 0) ⊎ ((kind ≡ 3) ⊎ ((kind ≡ 41) ⊎ ((10000 ≤ kind) × (kind < 20000))))
IsFor kind ephemeral = (20000 ≤ kind) × (kind < 30000)
IsFor kind delete = kind ≡ 5
IsFor kind parameterized_replaceable = (30000 ≤ kind) × (kind < 40000)
IsFor kind default =
    (kind ≢ 0) × (kind ≢ 3) × (kind ≢ 5) × (kind ≢ 41) × ((kind < 10000) ⊎ (40000 ≤ kind))
IsFor kind _ = ⊥

-- The strategy chosen for an event is the one for its kind: replaceable for 0, 3, 41 and 10000 to
-- 19999, ephemeral for 20000 to 29999, delete for 5, parameterized replaceable for 30000 to 39999,
-- and default for all others.
pub event_strategy_iff : (e : Event) (s : Strategy) → (event_strategy e ≡ s) ↔ IsFor e.kind s
unfolding event_strategy is_replaceable_event is_ephemeral_event is_delete_event
    is_parameterized_replaceable_event
event_strategy_iff e s = (sound e s, complete e s)
  where
    sound : (e : Event) (s : Strategy) → event_strategy e ≡ s → IsFor e.kind s
    sound e replaceable h = ground arith
    sound e ephemeral h = ground arith
    sound e delete h = ground arith
    sound e parameterized_replaceable h = ground arith
    sound e default h = ground arith
    sound e _ h = ground arith

    complete : (e : Event) (s : Strategy) → IsFor e.kind s → event_strategy e ≡ s
    complete e replaceable h = ground arith
    complete e ephemeral h = ground arith
    complete e delete h = ground arith
    complete e parameterized_replaceable h = ground arith
    complete e default h = ground arith
    complete e _ h = absurd h
