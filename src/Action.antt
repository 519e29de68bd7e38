-- ===== src/Action.antt =====
-- Asynchronous methods as actions on the state of a process: an action ends with a value or with
-- something thrown, and what it has written until then stays written.
use nostream.Prelude.Text.{Text}

-- `error m` is an `Error` with the message `m`; anything else that is thrown is `other`.
pub data Thrown : Type 0 where
  error : Text → Thrown
  other : Thrown

pub data Outcome {ℓ} (A : Type ℓ) : Type ℓ where
  done : A → Outcome A
  failed : Thrown → Outcome A

abbrev pub Action : Type 0 → Type 0 → Type 0
Action W A = W → Outcome A × W

module _ {W A : Type 0} where
  abbrev pub pure : A → Action W A
  pure a w = (done a, w)

  abbrev pub throw : Thrown → Action W A
  throw e w = (failed e, w)

  -- An action that reads the state.
  abbrev pub gets : (W → A) → Action W A
  gets f w = (done (f w), w)

-- An action that writes the state.
abbrev pub modify : {W : Type 0} → (W → W) → Action W (Unit {0})
modify f w = (done tt, f w)

module _ {W A B : Type 0} where
  abbrev pub continue : Outcome A → (A → Action W B) → Action W B
  continue (done a) f w = f a w
  continue (failed e) f w = (failed e, w)

  infixl 5 ◌>>=◌
  abbrev pub ◌>>=◌ : Action W A → (A → Action W B) → Action W B
  ◌>>=◌ m f w = continue (m w).0 f (m w).1

  infixl 5 ◌>>◌
  abbrev pub ◌>>◌ : Action W A → Action W B → Action W B
  m >> n = m >>= λ _. n

module _ {W A : Type 0} where
  abbrev recover : Outcome A → (Thrown → Action W A) → Action W A
  recover (done a) handler w = (done a, w)
  recover (failed e) handler w = handler e w

  -- `try { m } catch (e) { handler(e) }`
  abbrev pub catch : Action W A → (Thrown → Action W A) → Action W A
  catch m handler w = recover (m w).0 handler (m w).1
