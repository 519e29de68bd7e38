-- ===== src/Server/Broadcast.antt =====
-- Whom a broadcast event reaches, through `onBroadcast` of src/adapters/web-socket-server-adapter.ts.
use nostream.Prelude.{
  ℕ, zero, suc, ◌≡◌, refl, ap, ◌∙◌, inl, inr, Bool, true, false, none, some, List, [], ◌∷◌, ◌++◌,
  map, arith, if◌then◌else◌, get_elem?, ◌&&◌, Bool-cases,
}
use nostream.Event.{Event}
use nostream.Adapter.{Adapter, emit, listen, on_send_event}
use nostream.Adapter.Laws.{notifications, on_send_event-sent, on_send_event-subscriptions}
use nostream.Server.{ServerClient, registered, deliver, on_server_broadcast}

-- What a client has after an event was broadcast, where it had `a`: the messages for the event at
-- the end, if it is open and listening, and the same subscriptions.
pub record Reached (e : Event) (a b : Adapter) : Type 0 where
  pub sent : b.client.sent ≡ (
      if a.client.is_open && a.listening
      then a.client.sent ++ notifications e a.subscriptions
      else a.client.sent)
  pub subscriptions : b.subscriptions ≡ a.subscriptions

if_true : {A : Type 0} (b : Bool) (x y : A) → b ≡ true → x ≡ (if b then x else y)
if_true true x y h = refl
if_true false x y h = absurd (ground arith)

deliver-Reached :
    (e : Event) (a : Adapter)
    → (b : Adapter) × (deliver e (registered a) ≡ registered b) × Reached e a b
unfolding deliver emit listen
deliver-Reached e a = elim (Bool-cases a.client.is_open) [
  | inr closed ↦ (a, rw closed, record { sent = rw closed; subscriptions = refl })
  | inl up ↦ elim (Bool-cases a.listening) [
    | inr deaf ↦ (a, rw (up, deaf), record { sent = rw (up, deaf); subscriptions = refl })
    | inl on ↦ (
      on_send_event e a,
      rw (up, on),
      record {
        sent =
            on_send_event-sent e a up
            ∙ if_true (a.client.is_open && a.listening) _ _ (ground arith);
        subscriptions = on_send_event-subscriptions e a;
      },
    )
  ]
]

get_elem?-map {ℓ κ} :
    {A : Type ℓ} {B : Type κ} (f : A → B) (xs : List A) (i : ℕ) (x : A)
    → get_elem? xs i ≡ some x
    → get_elem? (map f xs) i ≡ some (f x)
get_elem?-map f [] i x h = absurd (ground arith)
get_elem?-map f (y ∷ xs) zero x h = ap (λ o. elim o [ none ↦ none | some v ↦ some (f v) ]) h
get_elem?-map f (y ∷ xs) (suc i) x h = get_elem?-map f xs i x h

-- When an event is broadcast, each client that has an adapter keeps its place and its subscriptions.
-- If it is open and listens, it is sent the event once for each subscription of its own that the
-- event matches, and nothing else; if not, it is sent nothing.
pub on_server_broadcast-Reached :
    (e : Event) (clients : List ServerClient) (i : ℕ) (a : Adapter)
    → get_elem? clients i ≡ some (registered a)
    → (b : Adapter) × (get_elem? (on_server_broadcast e clients) i ≡ some (registered b))
      × Reached e a b
unfolding on_server_broadcast
on_server_broadcast-Reached e clients i a h =
    let (b, same, reached) = deliver-Reached e a in
    (b, get_elem?-map (deliver e) clients i (registered a) h ∙ ap some same, reached)
