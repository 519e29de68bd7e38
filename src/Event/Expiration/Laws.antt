-- ===== src/Event/Expiration/Laws.antt =====
-- When an event has expired, and what the handler writes down of its expiration.
use nostream.Prelude.{
  ℕ, ◌*◌, ◌^◌, ◌≤◌, ◌<◌, ◌≡◌, ◌≢◌, ◌↔◌, refl, inl, inr, true, false, Option, none, some, [], ◌∷◌,
  arith, get_elem?, length, find, First, find_iff, Option-cases,
}
use nostream.Prelude.Text.{Text, is_text_iff}
use nostream.Event.{Tag, Event, expiration_tag}
use nostream.Event.Expiration.{
  Number, safe, other, is_expiration_tag, seconds_only, expiration_of, get_event_expiration,
  is_expired_event, add_expiration_metadata,
}

abbrev pub IsExpirationTag : Tag → Type 0
IsExpirationTag tag = (2 ≤ length tag) × (get_elem? tag 0 ≡ some expiration_tag)

is_expiration_tag_iff : (tag : Tag) → (is_expiration_tag tag ≡ true) ↔ IsExpirationTag tag
is_expiration_tag_iff tag =
    let name_iff = is_text_iff (get_elem? tag 0) expiration_tag in
    (λ h. (ground arith, name_iff.0 (ground arith)), λ (long, e). ground (arith, name_iff.1 e))

module _ (number : Text → Number) where
  -- The event's first `expiration` tag has a value that is not empty and reads as `t`, and `t` has
  -- at most ten digits.
  abbrev pub ExpiresAt : Event → ℕ → Type 0
  ExpiresAt event t =
      (tag : Tag) × (raw : Text) × First IsExpirationTag tag event.tags
      × (get_elem? tag 1 ≡ some raw)
      × (raw ≢ [])
      × (number raw ≡ safe t)
      × (t < 10 ^ 10)

  seconds_only_iff :
      (n : Number) (t : ℕ) → (seconds_only n ≡ some t) ↔ ((n ≡ safe t) × (t < 10 ^ 10))
  seconds_only_iff (safe n) t = (λ h. (ground arith, ground arith), λ (e, l). ground arith)
  seconds_only_iff other t = (λ h. absurd (ground arith), λ (e, l). absurd (ground arith))

  expiration_of_sound :
      (o : Option Text) (t : ℕ)
      → expiration_of number o ≡ some t
      → (raw : Text) × (o ≡ some raw) × (raw ≢ []) × (number raw ≡ safe t) × (t < 10 ^ 10)
  expiration_of_sound none t h = absurd (ground arith)
  expiration_of_sound (some []) t h = absurd (ground arith)
  expiration_of_sound (some (c ∷ raw)) t h =
      let (e, l) = (seconds_only_iff (number (c ∷ raw)) t).0 h in (c ∷ raw, refl, λ p. cc, e, l)

  expiration_of_complete :
      (raw : Text) (t : ℕ)
      → raw ≢ []
      → number raw ≡ safe t
      → t < 10 ^ 10
      → expiration_of number (some raw) ≡ some t
  expiration_of_complete [] t f e l = absurd (f refl)
  expiration_of_complete (c ∷ raw) t f e l = (seconds_only_iff (number (c ∷ raw)) t).1 (e, l)

  get_event_expiration_sound :
      (event : Event) (t : ℕ) → get_event_expiration number event ≡ some t → ExpiresAt event t
  unfolding get_event_expiration
  get_event_expiration_sound event t h = elim (Option-cases (find is_expiration_tag event.tags)) [
    | inl missing ↦ absurd (ground arith)
    | inr (tag, found) ↦
        let (raw, value, filled, e, l) = expiration_of_sound (get_elem? tag 1) t (rw found at h) in
        (tag, raw, (find_iff _ _ is_expiration_tag_iff event.tags tag).0 found, value, filled, e, l)
  ]

  get_event_expiration_complete :
      (event : Event) (t : ℕ) → ExpiresAt event t → get_event_expiration number event ≡ some t
  unfolding get_event_expiration
  get_event_expiration_complete event t (tag, raw, first, value, filled, e, l) =
      rw ((find_iff _ _ is_expiration_tag_iff event.tags tag).1 first)
        (rw value (expiration_of_complete raw t filled e l))

  -- `getEventExpiration` returns `t` exactly when the value of the event's first `expiration` tag
  -- (among the tags of length two or more) is not empty and reads as the safe integer `t`, and `t`
  -- has at most ten digits.
  pub get_event_expiration_iff :
      (event : Event) (t : ℕ) → (get_event_expiration number event ≡ some t) ↔ ExpiresAt event t
  get_event_expiration_iff event t =
      (get_event_expiration_sound event t, get_event_expiration_complete event t)

  -- At the time `now_ms`, in milliseconds, an event has expired exactly when it has an expiration
  -- time other than 0 and that many seconds are over.
  pub is_expired_event_iff :
      (now_ms : ℕ) (event : Event)
      → (is_expired_event number now_ms event ≡ true)
        ↔ ((t : ℕ) × ExpiresAt event t × (0 < t) × (t * 1000 ≤ now_ms))
  unfolding is_expired_event
  is_expired_event_iff now_ms event = (
    λ h. elim (Option-cases (get_event_expiration number event)) [
      | inl missing ↦ absurd (ground arith)
      | inr (t, e) ↦ (t, (get_event_expiration_iff event t).0 e, ground arith, ground arith)
    ],
    λ (t, e, p, q). let found = (get_event_expiration_iff event t).1 e in ground arith,
  )

  -- An event that has not expired, and that the handler then marks with an expiration time other
  -- than the one it came with, is marked with a time that is still to come.
  pub add_expiration_metadata-not_expired :
      (now_ms : ℕ) (event : Event) (t : ℕ)
      → event.expiration ≡ none
      → is_expired_event number now_ms event ≡ false
      → (add_expiration_metadata number event).expiration ≡ some t
      → ExpiresAt event t × (now_ms < t * 1000)
  unfolding is_expired_event add_expiration_metadata
  add_expiration_metadata-not_expired now_ms event t fresh h e =
      elim (Option-cases (get_event_expiration number event)) [
        | inl missing ↦ absurd (ground arith)
        | inr (u, found) ↦
            let same : u ≡ t = ground arith in
            ((get_event_expiration_iff event t).0 (rw same at found), ground arith)
      ]
