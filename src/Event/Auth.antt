-- ===== src/Event/Auth.antt =====
-- `isSignedAuthEvent` and `isValidSignedAuthEvent` of src/utils/event.ts.
pub mod Laws
use nostream.Prelude.{
  Bool, true, false, ◌&&◌, Option, none, some, List, [], ◌∷◌, ltb, leb, ◌==◌, if◌then◌else◌, length,
  get_elem?, find,
}
use nostream.Prelude.Text.{Text, is_text}
use nostream.Event.{Tag, Event, auth, challenge_tag, relay_tag}

-- The loop over the tags, from the tag that it has come to. `relay` and `challenge` say what has
-- been seen. One tag may be read by both tests; no tag is both.
auth_loop : Bool → Bool → List Tag → Bool
auth_loop relay challenge [] = false
auth_loop relay challenge (tag ∷ tags) =
    let is_challenge = is_text (get_elem? tag 0) challenge_tag in
    let is_relay = is_text (get_elem? tag 0) relay_tag in
    let skip = auth_loop relay challenge tags in
    let challenge' = if is_challenge then true else challenge in
    let relay' = if is_relay then true else relay in
    let next = auth_loop relay' challenge' tags in
    if ltb (length tag) 2
    then skip
    else if is_challenge && relay
    then true
    else if is_relay && challenge'
    then true
    else next

unfoldable pub is_signed_auth_event : Event → Bool
unfolding auth_loop
is_signed_auth_event event = if event.kind == auth then auth_loop false false event.tags else false

abbrev is_challenge_tag : Tag → Bool
is_challenge_tag tag = leb 2 (length tag) && is_text (get_elem? tag 0) challenge_tag

-- `tag[1] === challenge`; the tag is there whenever the event is a signed AUTH event.
abbrev answers : Text → Option Tag → Bool
answers challenge none = false
answers challenge (some tag) = is_text (get_elem? tag 1) challenge

unfoldable pub is_valid_signed_auth_event : Event → Text → Bool
unfolding is_signed_auth_event
is_valid_signed_auth_event event challenge =
    if is_signed_auth_event event
    then answers challenge (find is_challenge_tag event.tags)
    else false
