-- ===== src/Event/Auth/Laws.antt =====
-- Which events answer an authentication challenge.
use nostream.Prelude.{
  ◌≤◌, ◌≡◌, ◌↔◌, refl, inl, inr, Bool, true, false, ◌&&◌, ◌||◌, Option, some, List, [], ◌∷◌, arith,
  leb, any, get_elem?, length, find, Any, any_iff, First, find_iff, Bool-cases, Option-cases,
  eq_of_iff,
}
use nostream.Prelude.Text.{Text, is_text, is_text_iff}
use nostream.Event.{Tag, Event, auth, challenge_tag, relay_tag}
use nostream.Event.Auth.{
  auth_loop, is_signed_auth_event, is_valid_signed_auth_event, is_challenge_tag,
}

-- A tag with a value, under the given name.
abbrev pub IsNamed : Text → Tag → Type 0
IsNamed name tag = (2 ≤ length tag) × (get_elem? tag 0 ≡ some name)

abbrev is_named : Text → Tag → Bool
is_named name tag = leb 2 (length tag) && is_text (get_elem? tag 0) name

is_named_iff : (name : Text) (tag : Tag) → (is_named name tag ≡ true) ↔ IsNamed name tag
is_named_iff name tag =
    let name_iff = is_text_iff (get_elem? tag 0) name in
    (λ h. (ground arith, name_iff.0 (ground arith)), λ (long, e). ground (arith, name_iff.1 e))

not_both : (o : Option Text) → is_text o challenge_tag ≡ true → is_text o relay_tag ≡ true → ⊥
not_both o c r =
    let e = (is_text_iff o challenge_tag).0 c in
    let f = (is_text_iff o relay_tag).0 r in absurd (ground arith)

auth_loop_lem :
    (relay challenge : Bool) (tags : List Tag)
    → (relay && challenge) ≡ false
    → auth_loop relay challenge tags ≡ (
        (relay || any (is_named relay_tag) tags)
        && (challenge || any (is_named challenge_tag) tags))
unfolding auth_loop
auth_loop_lem relay challenge [] h = ground arith
auth_loop_lem relay challenge (tag ∷ tags) h =
    elim (Bool-cases (is_text (get_elem? tag 0) challenge_tag)) [
      | inl c ↦
          let no_relay : is_text (get_elem? tag 0) relay_tag ≡ false =
            eq_of_iff _ false (λ r. absurd (not_both (get_elem? tag 0) c r))
              (λ e. absurd (ground arith)) in
          ground
            (arith, no_relay, auth_loop_lem relay challenge tags h, auth_loop_lem relay true tags)
      | inr c ↦
          ground (arith, auth_loop_lem relay challenge tags h, auth_loop_lem true challenge tags)
    ]

-- An event passes `isSignedAuthEvent` exactly when it is of the kind AUTH and has, in either order,
-- a `challenge` tag and a `relay` tag, each with a value.
pub is_signed_auth_event_iff :
    (event : Event)
    → (is_signed_auth_event event ≡ true) ↔ (
        (event.kind ≡ auth)
        × Any (IsNamed challenge_tag) event.tags
        × Any (IsNamed relay_tag) event.tags)
unfolding is_signed_auth_event
is_signed_auth_event_iff event =
    let loop = auth_loop_lem false false event.tags refl in
    let c = any_iff _ _ (is_named_iff challenge_tag) event.tags in
    let r = any_iff _ _ (is_named_iff relay_tag) event.tags in
    (
      λ h. (ground arith, c.0 (ground (arith, loop)), r.0 (ground (arith, loop))),
      λ (kind, has_c, has_r). ground (arith, loop, c.1 has_c, r.1 has_r),
    )

-- An event answers the challenge exactly when it passes `isSignedAuthEvent` and the value of its
-- first `challenge` tag is the challenge. The value of the `relay` tag plays no part.
pub is_valid_signed_auth_event_iff :
    (event : Event) (challenge : Text)
    → (is_valid_signed_auth_event event challenge ≡ true) ↔ (
        (is_signed_auth_event event ≡ true)
        × ((tag : Tag) × First (IsNamed challenge_tag) tag event.tags
            × (get_elem? tag 1 ≡ some challenge)))
unfolding is_valid_signed_auth_event
is_valid_signed_auth_event_iff event challenge = (
  λ h. elim (Option-cases (find is_challenge_tag event.tags)) [
    | inl missing ↦ absurd (ground arith)
    | inr (tag, found) ↦ (
      ground arith,
      (
        tag,
        (find_iff _ _ (is_named_iff challenge_tag) event.tags tag).0 found,
        (is_text_iff (get_elem? tag 1) challenge).0 (ground arith),
      ),
    )
  ],
  λ (signed, (tag, first, value)).
      let found = (find_iff _ _ (is_named_iff challenge_tag) event.tags tag).1 first in
      ground (arith, found, (is_text_iff (get_elem? tag 1) challenge).1 value),
)
