-- ===== src/Repository.antt =====
-- src/@types/repositories.ts and src/@types/utils.ts: what the handlers are given. The repositories
-- stand on a database and the limiter on a cache, both outside the repository.
pub mod EventRows
pub mod Query
pub mod Table
pub mod Keyed
pub mod Users
pub mod Invoices
use nostream.Prelude.{ℕ, Bool, Option, List}
use nostream.Prelude.Int.{ℤ}
use nostream.Prelude.Text.{Text}
use nostream.Action.{Outcome, Thrown}
use nostream.Event.{Tag, Event, SubscriptionFilter}

-- `event_deduplication`, as JSON: the public key and the kind, or the values of the tag.
pub data Deduplication : Type 0 where
  author_and_kind : Text → ℕ → Deduplication
  values : List Text → Deduplication

-- A row of the table `events`, as `DBEvent` of src/@types/event.ts, with the columns that the
-- repository writes. A column of JSON holds the value that it stands for.
pub record DbEvent : Type 0 where
  pub event_id : List ℕ
  pub event_pubkey : List ℕ
  pub event_kind : ℕ
  pub event_created_at : ℕ
  pub event_content : Text
  pub event_tags : List Tag
  pub event_signature : List ℕ
  pub event_deduplication : Option Deduplication
  pub remote_address : Option Text
  pub expires_at : Option ℕ
  pub deleted_at : Option ℕ

-- A query's rows, in the order in which they come, and what ended the stream if it broke.
pub record Rows : Type 0 where
  pub rows : List DbEvent
  pub broken : Option Thrown

-- `IEventRepository` over a database of type `D`. `create` turns every rejection into the count 0.
pub record EventRepository (D : Type 0) : Type 0 where
  pub create : Event → D → ℕ × D
  pub upsert : Event → D → Outcome ℕ × D
  pub delete_by_pubkey_and_ids : Text → List Text → D → Outcome ℕ × D
  pub find_by_filters : List SubscriptionFilter → D → Outcome Rows

-- `User` of src/@types/user.ts
pub record User : Type 0 where
  pub pubkey : Text
  pub is_admitted : Bool
  pub balance : ℤ

-- `IUserRepository`
pub record UserRepository (D : Type 0) : Type 0 where
  pub find_by_pubkey : Text → D → Outcome (Option User)

-- `IRateLimiter` over a cache of type `C`: the key, the step, the period and the rate.
pub record RateLimiter (C : Type 0) : Type 0 where
  pub hit : Text → ℕ → ℕ → ℕ → C → Outcome Bool × C
