-- ===== src/Bytes/Bech32.antt =====
-- `fromBech32` and `toBech32` of src/utils/transform.ts.
use nostream.Prelude.{ℕ, not, List, ◌++◌, take, if◌then◌else◌}
use nostream.Prelude.Text.{Text, text, starts_with}
use nostream.Action.{Outcome, done, failed, error}
use nostream.Bytes.{to_buffer, from_buffer}

-- The library `bech32`: a text is a prefix and words of five bits, or is refused.
pub record Bech32Library : Type 0 where
  pub decode : Text → Outcome (Text × List ℕ)
  pub encode : Text → List ℕ → Outcome Text
  pub from_words : List ℕ → Outcome (List ℕ)
  pub to_words : List ℕ → List ℕ

abbrev hex_of : Outcome (List ℕ) → Outcome Text
hex_of (failed t) = failed t
hex_of (done bytes) = done (from_buffer (take 32 bytes))

abbrev checked : Bech32Library → Text → Outcome (Text × List ℕ) → Outcome Text
checked bech32 input (failed t) = failed t
checked bech32 input (done (prefix, words)) =
    if not (starts_with input prefix)
    then failed (error (text "Bech32 invalid prefix: " ++ prefix))
    else hex_of (bech32.from_words words)

unfoldable pub from_bech32 : Bech32Library → Text → Outcome Text
from_bech32 bech32 input = checked bech32 input (bech32.decode input)

unfoldable pub to_bech32 : Bech32Library → Text → Text → Outcome Text
to_bech32 bech32 prefix input = bech32.encode prefix (bech32.to_words (to_buffer input))
