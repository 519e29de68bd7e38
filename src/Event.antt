-- ===== src/Event.antt =====
-- Events and filters: src/@types/event.ts, src/@types/base.ts, src/@types/subscription.ts and the
-- constants of src/constants/base.ts. The metadata that the program keeps under symbols are fields;
-- a number that the schemas let through is a natural number.
pub mod Kinds
pub mod Filters
pub mod Auth
pub mod Expiration
use nostream.Prelude.{ℕ, Option, List}
use nostream.Prelude.Text.{Text, text}

-- A tag is its name and the values after it. It may be shorter than two, or empty.
abbrev pub Tag : Type 0
Tag = List Text

pub record Event : Type 0 where
  pub id : Text
  pub pubkey : Text
  pub created_at : ℕ
  pub kind : ℕ
  pub tags : List Tag
  pub sig : Text
  pub content : Text
  -- `ContextMetadataKey`: the address that the event came from.
  pub remote_address : Option Text
  -- `EventExpirationTimeMetadataKey`
  pub expiration : Option ℕ
  -- `EventDeduplicationMetadataKey`
  pub deduplication : Option (List Text)

-- `generic` holds the entries of the filter other than the six that are named here.
pub record SubscriptionFilter : Type 0 where
  pub ids : Option (List Text)
  pub kinds : Option (List ℕ)
  pub since : Option ℕ
  pub until : Option ℕ
  pub authors : Option (List Text)
  pub limit : Option ℕ
  pub generic : List (Text × List Text)

-- `EventKinds | EventKindsRange`
pub data KindItem : Type 0 where
  one : ℕ → KindItem
  range : ℕ → ℕ → KindItem

abbrev pub set_metadata : ℕ
set_metadata = 0

abbrev pub contact_list : ℕ
contact_list = 3

abbrev pub delete : ℕ
delete = 5

abbrev pub channel_metadata : ℕ
channel_metadata = 41

abbrev pub replaceable_first : ℕ
replaceable_first = 10000

abbrev pub replaceable_last : ℕ
replaceable_last = 19999

abbrev pub ephemeral_first : ℕ
ephemeral_first = 20000

abbrev pub auth : ℕ
auth = 22242

abbrev pub ephemeral_last : ℕ
ephemeral_last = 29999

abbrev pub parameterized_replaceable_first : ℕ
parameterized_replaceable_first = 30000

abbrev pub parameterized_replaceable_last : ℕ
parameterized_replaceable_last = 39999

-- `EventTags`
abbrev pub event_tag : Text
event_tag = text "e"

abbrev pub deduplication_tag : Text
deduplication_tag = text "d"

abbrev pub expiration_tag : Text
expiration_tag = text "expiration"

abbrev pub relay_tag : Text
relay_tag = text "relay"

abbrev pub challenge_tag : Text
challenge_tag = text "challenge"
