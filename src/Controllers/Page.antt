-- ===== src/Controllers/Page.antt =====
-- The page that src/controllers/invoices/post-invoice-controller.ts fills in, with `replaceAll` as
-- JavaScript defines it for texts.
use nostream.Prelude.{ℕ, zero, suc, ◌-◌, List, [], ◌∷◌, ◌++◌, ◌==◌, if◌then◌else◌, length}
use nostream.Prelude.Text.{Text, text, starts_with}

-- A replacement with `$$`, `$&`, `` $` `` and `$'` written out: a dollar, the text that was found,
-- the text before it and the text after it.
unfoldable pub expand : Text → Text → Text → Text → Text
expand found before after [] = []
expand found before after (c ∷ []) = c ∷ []
expand found before after (c ∷ d ∷ s) =
    let rest = expand found before after s in
    let next = expand found before after (d ∷ s) in
    if c == b'$'
    then (if d == b'$'
        then b'$' ∷ rest
        else if d == b'&'
        then found ++ rest
        else if d == 96
        then before ++ rest
        else if d == 39
        then after ++ rest
        else c ∷ next)
    else c ∷ next

abbrev rest_after : ℕ → Text → Text
rest_after zero s = s
rest_after (suc n) [] = []
rest_after (suc n) (c ∷ s) = rest_after n s

-- `before` has been read, and of what is left the first `skip` belong to a match.
unfoldable pub replace_from : Text → Text → Text → ℕ → Text → Text
replace_from pattern value before skip [] = []
replace_from pattern value before (suc skip) (c ∷ s) =
    replace_from pattern value (before ++ c ∷ []) skip s
replace_from pattern value before zero (c ∷ s) =
    let inside = replace_from pattern value (before ++ c ∷ []) (length pattern - 1) s in
    let outside = replace_from pattern value (before ++ c ∷ []) 0 s in
    if starts_with (c ∷ s) pattern
    then expand pattern before (rest_after (length pattern) (c ∷ s)) value ++ inside
    else c ∷ outside

-- `s.replaceAll(pattern, value)`, for a pattern that is not empty
unfoldable pub replace_all : Text → Text → Text → Text
replace_all pattern value s = replace_from pattern value [] 0 s

unfoldable pub fill_page : List (Text × Text) → Text → Text
fill_page [] body = body
fill_page ((key, value) ∷ replacements) body =
    fill_page replacements (replace_all (text "{{" ++ (key ++ text "}}")) value body)
