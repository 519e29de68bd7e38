-- ===== src/Controllers/Signed.antt =====
-- The signatures that src/controllers/callbacks/lnbits-callback-controller.ts lets through.
use nostream.Prelude.{
  ℕ, ◌<◌, ◌≡◌, refl, sym, inl, inr, true, false, Option, none, some, List, [], ◌∷◌, ◌++◌, ◌==◌,
  arith, Bool-cases, Option-cases,
}
use mathlib.Core.Path.{subst}
use nostream.Settings.{Settings, Payments}
use nostream.Prelude.Text.{Text, text, ◌===◌, ===_iff}
use nostream.Prelude.Decimal.{read_digits}
use nostream.Action.{done}
use nostream.Strategies.Effects.{Outcome-cases}
use nostream.Bytes.{from_buffer}
use nostream.Controllers.Lnbits.{
  LnbitsContext, string, buffer, split_at_colon, is_hmac, derive_from_secret, lnbits_key,
  parts_valid, is_validated, is_lnbits,
}

split_at_colon-append : (s a b : Text) → split_at_colon s ≡ some (a, b) → s ≡ a ++ b':' ∷ b
unfolding split_at_colon
split_at_colon-append [] a b h = absurd (ground arith)
split_at_colon-append (c ∷ s) a b h = elim (Bool-cases (c == b':')) [
  | inl y ↦ let g = rw y at h in ground (arith, g, y)
  | inr n ↦ elim (Option-cases (split_at_colon s)) [
    | inl e ↦ absurd (ground (arith, rw (n, e) at h))
    | inr ((front, back), e) ↦
        let g = rw (n, e) at h in let ih = split_at_colon-append s front back e in cc (g, ih)
  ]
]

-- The settings of payments name this processor.
abbrev pub HasProcessor : Settings → Text → Type 0
HasProcessor settings name = (p : Payments) × (settings.payments ≡ some p) × (p.processor ≡ name)

module _ {D : Type 0} (context : LnbitsContext D) where
  pub is_lnbits_complete :
      HasProcessor context.service.payments.settings (text "lnbits") → is_lnbits context ≡ true
  unfolding is_lnbits
  is_lnbits_complete (p, e, n) = rw e ((===_iff p.processor (text "lnbits")).1 n)

  pub is_lnbits_lem :
      is_lnbits context ≡ true → HasProcessor context.service.payments.settings (text "lnbits")
  unfolding is_lnbits
  is_lnbits_lem h = elim (Option-cases context.service.payments.settings.payments) [
    | inl n ↦
        let null : (text "null" === text "lnbits") ≡ true = rw n at h in
        let apart : (text "null" === text "lnbits") ≡ false = unfold ◌===◌ in refl in
        absurd (ground (arith, null, apart))
    | inr (p, e) ↦ (p, e, (===_iff p.processor (text "lnbits")).0 (rw e at h))
  ]

  -- The query's `hmac` is a time to come and the time's HMAC, under the key of the callback.
  pub record IsSigned (hmac : Text) : Type 0 where
    pub time : Text
    pub digest : Text
    pub key : List ℕ
    pub parts : hmac ≡ time ++ b':' ∷ digest
    pub is_key :
        derive_from_secret context.hmac_sha256 context.secret (lnbits_key context) ≡ done key
    pub is_digest : digest ≡ from_buffer (context.hmac_sha256 (buffer key) (string time))
    pub is_to_come : context.service.payments.now < read_digits 0 time

  parts_lem :
      (time digest : Text)
      → parts_valid context (some (time, digest)) ≡ done true
      → IsSigned (time ++ b':' ∷ digest)
  parts_lem time digest h = elim (Bool-cases (is_hmac time digest)) [
    | inr n ↦ absurd (ground (arith, rw n at h))
    | inl y ↦
        elim (Outcome-cases
          (derive_from_secret context.hmac_sha256 context.secret (lnbits_key context))) [
            | inr (t, k) ↦ absurd (ground (arith, rw (y, k) at h))
            | inl (key, k) ↦
                let printed = from_buffer (context.hmac_sha256 (buffer key) (string time)) in
                let g = rw (y, k) at h in
                let same : (printed === digest) ≡ true = ground (arith, g) in
                record {
                  time = time;
                  digest = digest;
                  key = key;
                  parts = refl;
                  is_key = k;
                  is_digest = sym ((===_iff printed digest).0 same);
                  is_to_come = ground (arith, g);
                }
          ]
  ]

  pub is_validated_lem :
      (hmac : Option Text)
      → is_validated context hmac ≡ done true
      → (s : Text) × (hmac ≡ some s) × IsSigned s
  unfolding is_validated
  is_validated_lem none h = absurd (ground arith)
  is_validated_lem (some s) h = elim (Option-cases (split_at_colon s)) [
    | inl n ↦ absurd (ground (arith, rw n at h))
    | inr ((time, digest), e) ↦ (
      s,
      refl,
      subst IsSigned (sym (split_at_colon-append s time digest e))
          (parts_lem time digest (rw e at h)),
    )
  ]
