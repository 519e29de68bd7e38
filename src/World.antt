-- ===== src/World.antt =====
-- The state that the handlers of one connection work on, and the actions on it that they share.
use nostream.Prelude.{ℕ, ◌+◌}
use nostream.Action.{Action, done, modify}
use nostream.Adapter.{Adapter, AdapterEvent, emit}

-- `ticks` counts the readings of the clock.
pub record World (D C : Type 0) : Type 0 where
  pub adapter : Adapter
  pub db : D
  pub cache : C
  pub ticks : ℕ

module _ {D C : Type 0} where
  -- `this.webSocket.emit(event, …)`
  abbrev pub web_socket_emit : AdapterEvent → Action (World D C) (Unit {0})
  web_socket_emit e = modify (λ w. record w { adapter = emit e w.adapter })

  -- `Date.now()`, where `clock n` is the time of the reading number `n`, in milliseconds.
  abbrev pub date_now : (ℕ → ℕ) → Action (World D C) ℕ
  date_now clock w = (done (clock w.ticks), record w { ticks = w.ticks + 1 })

  -- An action on the database, an action on the cache.
  abbrev pub with_db : {A : Type 0} → Action D A → Action (World D C) A
  with_db m w = ((m w.db).0, record w { db = (m w.db).1 })

  abbrev pub with_cache : {A : Type 0} → Action C A → Action (World D C) A
  with_cache m w = ((m w.cache).0, record w { cache = (m w.cache).1 })
