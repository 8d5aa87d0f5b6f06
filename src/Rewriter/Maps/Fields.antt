-- ===== src/Rewriter/Maps/Fields.antt =====
-- zpoline_rewriter/src/maps.rs: how a line falls into its fields, and the addresses into two.
use mathlib.Core.List.{append_assoc, append-nil}
use zpoline_rs.Prelude.{
  ℕ, zero, suc, ◌≡◌, refl, sym, ap, ◌∙◌, false, List, [], ◌∷◌, ◌++◌, ◌==◌, All, replicate,
}
use zpoline_rs.Rewriter.FilePath.{split_on}
use zpoline_rs.Rewriter.Maps.{is_whitespace, keep_word, words_from, split_whitespace, join_spaced}

abbrev pub Clean : List ℕ → Type 0
Clean w = All (λ c. is_whitespace c ≡ false) w

-- A word has a character, and no white space.
abbrev pub IsWord : List ℕ → Type 0
IsWord [] = ⊥
IsWord (c ∷ cs) = Clean (c ∷ cs)

pub words_from-space :
    (pre w rest : List ℕ)
    → Clean w
    → words_from pre (w ++ b' ' ∷ rest) ≡ keep_word (pre ++ w) (words_from [] rest)
unfolding words_from
words_from-space pre [] rest h = ap (λ p. keep_word p (words_from [] rest)) (sym (append-nil pre))
words_from-space pre (c ∷ cs) rest (h, hs) = rw h (
    words_from-space (pre ++ c ∷ []) cs rest hs
    ∙ ap (λ p. keep_word p (words_from [] rest)) (append_assoc pre (c ∷ []) cs))

pub words_from-end : (pre w : List ℕ) → Clean w → words_from pre w ≡ keep_word (pre ++ w) []
unfolding words_from
words_from-end pre [] h = ap (λ p. keep_word p []) (sym (append-nil pre))
words_from-end pre (c ∷ cs) (h, hs) =
    rw h (
      words_from-end (pre ++ c ∷ []) cs hs
      ∙ ap (λ p. keep_word p []) (append_assoc pre (c ∷ []) cs))

pub first_word :
    (w rest : List ℕ) → IsWord w → split_whitespace (w ++ b' ' ∷ rest) ≡ w ∷ split_whitespace rest
first_word [] rest h = absurd h
first_word (c ∷ cs) rest h = words_from-space [] (c ∷ cs) rest h

pub split_whitespace-join_spaced :
    (ws : List (List ℕ)) → All IsWord ws → split_whitespace (join_spaced ws) ≡ ws
unfolding words_from
split_whitespace-join_spaced [] h = refl
split_whitespace-join_spaced ([] ∷ []) (h, hs) = absurd h
split_whitespace-join_spaced ((c ∷ cs) ∷ []) (h, hs) = words_from-end [] (c ∷ cs) h
split_whitespace-join_spaced (w ∷ v ∷ ws) (h, hs) =
    first_word w (join_spaced (v ∷ ws)) h
    ∙ ap (λ xs. w ∷ xs) (split_whitespace-join_spaced (v ∷ ws) hs)

pub skip_spaces :
    (n : ℕ) (rest : List ℕ) → split_whitespace (replicate n b' ' ++ rest) ≡ split_whitespace rest
unfolding words_from
skip_spaces zero rest = refl
skip_spaces (suc n) rest = skip_spaces n rest

abbrev pub Without : ℕ → List ℕ → Type 0
Without c w = All (λ x. (x == c) ≡ false) w

split_on-none : (c : ℕ) (w : List ℕ) → Without c w → split_on c w ≡ w ∷ []
unfolding split_on
split_on-none c [] h = refl
split_on-none c (x ∷ xs) (h, hs) = rw h (rw (split_on-none c xs hs) refl)

pub split_on-two :
    (a b : List ℕ) → Without b'-' a → Without b'-' b → split_on b'-' (a ++ b'-' ∷ b) ≡ a ∷ b ∷ []
unfolding split_on
split_on-two [] b h k = rw (split_on-none b'-' b k) refl
split_on-two (x ∷ xs) b (h, hs) k = rw h (rw (split_on-two xs b hs k) refl)
