-- ===== src/Repository/Keyed.antt =====
-- Rows with a key, as the repositories of users and invoices in src/repositories find them and write
-- them with `insert … onConflict … merge`.
use nostream.Prelude.{
  ◌≡◌, refl, ap, sym, ◌∙◌, inl, inr, true, Option, none, some, List, [], ◌∷◌, if◌then◌else◌,
  Bool-cases,
}
use nostream.Prelude.Text.{Text, ◌===◌, ===_iff, ===_comm}

module _ {A : Type 0} (key_of : A → Text) where
  unfoldable pub find_row : Text → List A → Option A
  find_row key [] = none
  find_row key (row ∷ rows) =
      let rest = find_row key rows in if key_of row === key then some row else rest

  unfoldable pub put_row : Text → A → (A → A) → List A → List A
  put_row key inserted merge [] = inserted ∷ []
  put_row key inserted merge (row ∷ rows) =
      let rest = put_row key inserted merge rows in
      if key_of row === key then merge row ∷ rows else row ∷ rest

  abbrev pub written : A → (A → A) → Option A → A
  written inserted merge none = inserted
  written inserted merge (some row) = merge row

  equal_turned : (a b c : Text) → (a === b) ≡ true → (c === b) ≡ (a === c)
  equal_turned a b c h = ===_comm c b ∙ ap (λ k. k === c) (sym ((===_iff a b).0 h))

  pub find_row-put_row :
      (key : Text) (inserted : A) (merge : A → A) (other : Text) (rows : List A)
      → key_of inserted ≡ key
      → ((row : A) → key_of (merge row) ≡ key_of row)
      → find_row other (put_row key inserted merge rows) ≡ (
          if other === key
          then some (written inserted merge (find_row key rows))
          else find_row other rows)
  unfolding find_row put_row
  find_row-put_row key inserted merge other [] i m =
      rw (i, ===_comm other key)
        (elim (Bool-cases (key === other)) [ inl y ↦ rw y refl | inr n ↦ rw n refl ])
  find_row-put_row key inserted merge other (row ∷ rows) i m =
      elim (Bool-cases (key_of row === key)) [
        | inl y ↦
            let same = equal_turned (key_of row) key other y in
            elim (Bool-cases (key_of row === other)) [
              | inl s ↦ rw (y, m row, s, same ∙ s) refl
              | inr d ↦ rw (y, m row, d, same ∙ d) refl
            ]
        | inr n ↦ elim (Bool-cases (key_of row === other)) [
          | inl s ↦
              let e = (===_iff (key_of row) other).0 s in
              rw (n, s, ap (λ k. k === key) (sym e) ∙ n) refl
          | inr d ↦ rw (n, d) (find_row-put_row key inserted merge other rows i m)
        ]
      ]
