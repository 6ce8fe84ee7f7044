-- ===== src/Common/Split.antt =====
-- split_string of common/stringop.c: the tokens that `strtok` finds.
use swirl.Prelude.{ℕ, ◌≡◌, refl, sym, ap, ◌∙◌, true, false, List, [], ◌∷◌, ◌++◌, if◌then◌else◌}
use mathlib.Core.List.{append-nil, append_assoc}
use swirl.Prelude.Text.{Text, contains_byte}

-- The token read so far, if there is one.
abbrev pub flush : Text → List Text
flush [] = []
flush (c ∷ cs) = (c ∷ cs) ∷ []

-- The tokens of the rest of the text after the bytes `token`.
unfoldable pub tokens : Text → Text → Text → List Text
tokens delims [] token = flush token
tokens delims (c ∷ cs) token =
    let cut = flush token ++ tokens delims cs [] in
    let longer = tokens delims cs (token ++ c ∷ []) in
    if contains_byte delims c then cut else longer

unfoldable pub split_string : Text → Text → List Text
unfolding tokens
split_string str delims = tokens delims str []

-- No byte of the text is a delimiter.
abbrev pub Free : Text → Text → Type 0
Free delims [] = Unit
Free delims (c ∷ cs) = (contains_byte delims c ≡ false) × Free delims cs

-- A text with no delimiter goes on the token.
tokens-Free :
    (delims cs rest token : Text)
    → Free delims cs
    → tokens delims (cs ++ rest) token ≡ tokens delims rest (token ++ cs)
unfolding tokens
tokens-Free delims [] rest token v = rw append-nil
tokens-Free delims (c ∷ cs) rest token (f, v) = rw f (
    tokens-Free delims cs rest (token ++ c ∷ []) v
    ∙ ap (tokens delims rest) (append_assoc token (c ∷ []) cs))

-- The texts with the delimiter between them.
abbrev pub join : ℕ → List Text → Text
join d [] = []
join d (t ∷ []) = t
join d (t ∷ (u ∷ us)) = t ++ (d ∷ join d (u ∷ us))

-- Every text has a byte, and no delimiter.
abbrev pub AllTokens : Text → List Text → Type 0
AllTokens delims [] = Unit
AllTokens delims ([] ∷ ts) = ⊥
AllTokens delims ((c ∷ cs) ∷ ts) = Free delims (c ∷ cs) × AllTokens delims ts

-- Splitting texts that were joined by one of the delimiters gives them back, if they are nonempty
-- and have no delimiters.
pub split_string-join :
    (delims : Text) (d : ℕ) (ts : List Text)
    → contains_byte delims d ≡ true
    → AllTokens delims ts
    → split_string (join d ts) delims ≡ ts
unfolding split_string tokens
split_string-join delims d [] h v = refl
split_string-join delims d ([] ∷ ts) h v = elim v [ ]
split_string-join delims d ((c ∷ cs) ∷ []) h (f, v) =
    ap (λ t. tokens delims t []) (sym (append-nil (c ∷ cs))) ∙ tokens-Free delims (c ∷ cs) [] [] f
split_string-join delims d ((c ∷ cs) ∷ (u ∷ us)) h (f, v) =
    tokens-Free delims (c ∷ cs) (d ∷ join d (u ∷ us)) [] f
    ∙ rw h (ap (λ ts. (c ∷ cs) ∷ ts) (split_string-join delims d (u ∷ us) h v))
