-- ===== src/Strategies/Deletion.antt =====
-- Which events a deletion names.
use nostream.Prelude.{
  ℕ, ◌≡◌, refl, ap, inl, inr, Any-uncons, ◌∙◌, ◌↔◌, true, List, [], ◌∷◌, some, arith, length,
  get_elem?, Any, here, there, All, Bool-cases, all_iff,
}
use mathlib.Core.Path.{subst}
use nostream.Prelude.Text.{Text, is_text_iff}
use nostream.Bytes.{IsHex}
use nostream.Event.{Tag, event_tag}
use nostream.Strategies.{is_id, is_lower_hex, is_valid_e_tag, event_ids_to_delete}

is_lower_hex_iff : (c : ℕ) → (is_lower_hex c ≡ true) ↔ IsHex c
is_lower_hex_iff c = (λ h. ground arith, λ h. ground arith)

-- Sixty-four lower-case hex digits.
abbrev pub IsId : Text → Type 0
IsId s = (length s ≡ 64) × All IsHex s

is_id_iff : (s : Text) → (is_id s ≡ true) ↔ IsId s
unfolding is_id
is_id_iff s =
    let hex = all_iff IsHex is_lower_hex is_lower_hex_iff s in
    (λ h. (ground arith, hex.0 (ground arith)), λ (l, a). ground (arith, hex.1 a))

-- The tag is an `e` tag whose first value is the id.
abbrev pub Names : Text → Tag → Type 0
Names id tag = (get_elem? tag 0 ≡ some event_tag) × (get_elem? tag 1 ≡ some id) × IsId id

is_valid_e_tag_sound :
    (tag : Tag)
    → is_valid_e_tag tag ≡ true
    → (id : Text) × (get_elem? tag 0 ≡ some event_tag) × (get_elem? tag 1 ≡ some id) × IsId id
unfolding is_valid_e_tag
is_valid_e_tag_sound [] h = absurd (ground arith)
is_valid_e_tag_sound (name ∷ []) h = absurd (ground arith)
is_valid_e_tag_sound (name ∷ id ∷ rest) h = (
  id,
  (is_text_iff (some name) event_tag).0 (ground arith),
  refl,
  (is_id_iff id).0 (ground arith),
)

is_valid_e_tag_complete : (id : Text) (tag : Tag) → Names id tag → is_valid_e_tag tag ≡ true
unfolding is_valid_e_tag
is_valid_e_tag_complete id [] (n, v, i) = absurd (ground arith)
is_valid_e_tag_complete id (name ∷ []) (n, v, i) = absurd (ground arith)
is_valid_e_tag_complete id (name ∷ value ∷ rest) (n, v, i) =
    ground (arith, (is_text_iff (some name) event_tag).1 n, (is_id_iff id).1 i, v)

module _ (id : Text) where
  ids_sound : (tags : List Tag) → Any (λ i. i ≡ id) (event_ids_to_delete tags) → Any (Names id) tags
  unfolding event_ids_to_delete
  ids_sound [] a = elim a [ ]
  ids_sound (tag ∷ tags) a = elim (Bool-cases (is_valid_e_tag tag)) [
    | inr not_valid ↦ there (ids_sound tags (rw not_valid at a))
    | inl valid ↦
        let (i, named, value, good) = is_valid_e_tag_sound tag valid in
        elim (Any-uncons (rw (valid, value) at a)) [
          | inl e ↦ here (named, value ∙ ap some e, subst IsId e good)
          | inr rest ↦ there (ids_sound tags rest)
        ]
  ]

  ids_complete :
      (tags : List Tag) → Any (Names id) tags → Any (λ i. i ≡ id) (event_ids_to_delete tags)
  unfolding event_ids_to_delete
  ids_complete _ (here {x = tag} {xs = tags} n) =
      rw (is_valid_e_tag_complete id tag n, n.1) (here refl)
  ids_complete _ (there {x = tag} {xs = tags} a) = elim (Bool-cases (is_valid_e_tag tag)) [
    | inr not_valid ↦ rw not_valid (ids_complete tags a)
    | inl valid ↦
        let (i, named, value, good) = is_valid_e_tag_sound tag valid in
        rw (valid, value) (there (ids_complete tags a))
  ]

  -- The ids that a delete event has deleted are those that its `e` tags name as first value, as far
  -- as these are 64 lower-case hex digits.
  pub event_ids_to_delete_iff :
      (tags : List Tag) → Any (λ i. i ≡ id) (event_ids_to_delete tags) ↔ Any (Names id) tags
  event_ids_to_delete_iff tags = (ids_sound tags, ids_complete tags)
