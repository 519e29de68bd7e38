-- ===== src/Examples/Limiter.antt =====
-- The sliding window applied to a client that holds one sorted set.
use mathlib.Core.List.{append-nil}
use nostream.Prelude.{
  ℕ, ◌+◌, ◌≡◌, refl, ap, sym, true, not, ◌||◌, some, List, [], ◌∷◌, ◌++◌, map, ltb, filter,
  get_or_default, ◌==◌, if◌then◌else◌,
}
use nostream.Prelude.Int.{ltb_ℤ}
use nostream.Prelude.Text.{Text, text, ◌===◌}
use nostream.Prelude.Decimal.{read_digits, read_digits-decimal}
use nostream.Action.{done}
use nostream.RateLimiter.{Redis, member, hit}
use nostream.RateLimiter.Laws.{Documented}
use nostream.RateLimiter.Window.{Hit, entry, total, within, apart_from, hit-Window}

-- Times rise, and the member that is added last comes last.
abbrev client : Redis (List (Text × ℕ))
client = record {
  number = λ s. some (read_digits 0 s);
  connection = λ w. (done tt, w);
  z_rem_range_by_score =
      λ _ min max w. (done 0, filter (λ (_, score). ltb score min || ltb_ℤ max score) w);
  z_add = λ _ members w. elim members [
    | [] ↦ (done 0, w)
    | (score, value) ∷ _ ↦ (
      done 1,
      filter (λ (other, _). not (other === value)) w ++ (value, get_or_default 0 score) ∷ [],
    )
  ];
  z_range = λ _ _ _ w. (done (map (λ (value, _). value) w), w);
  expire = λ _ seconds w. (done true, if seconds == 0 then [] else w);
}

client-Documented : Documented client (λ w _. w)
client-Documented = record {
  connected = λ _. refl;
  number-decimal = λ n. ap some (read_digits-decimal n);
  removed = λ _ _ _ _. ((0, refl), refl);
  added = λ _ value _ w.
      ((1, refl), (filter (λ (other, _). not (other === value)) w, [], sym (append-nil _), refl));
  listed = λ _ _. (refl, refl);
  expiring = λ _ _ _. ((true, refl), refl);
}

-- One hit is too old, one is the new one again, and one is counted.
abbrev hits : List Hit
hits = (1000, 7) ∷ (61000, 2) ∷ (62000, 3) ∷ []

hit-Window_example :
    ((hit client 62000 (text "k") 3 60000 4 (map entry hits)).0
      ≡ done (ltb 4 (3 + total (apart_from (member 62000 3) (within 62000 60000 hits)))))
    × ((front back : List Hit) × (apart_from (member 62000 3) (within 62000 60000 hits)
          ≡ front ++ back)
        × ((hit client 62000 (text "k") 3 60000 4 (map entry hits)).1
            ≡ (if 60000 == 0 then [] else map entry (front ++ (62000, 3) ∷ back))))
hit-Window_example =
    hit-Window client (λ w _. w) client-Documented 62000 (text "k") 3 60000 4 (map entry hits) hits
      refl
