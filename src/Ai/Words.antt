-- ===== src/Ai/Words.antt =====
-- The words of a text of apps/api/app/ai/prompt.py that was cut, or joined from words.
use crypto_intelligence_plat.Ai.Sanitize.{join_words, words_of}
use crypto_intelligence_plat.Base.{
  All, List, Str, [], arith, false, is_space, length, max, put_first, refl, suc, take, zero, ℕ,
  ◌++◌, ◌∷◌, ◌≡◌, ◌≤◌,
}

length-put_first : (c : ℕ) (ws : List Str) → length (put_first c ws) ≡ max 1 (length ws)
length-put_first c [] = refl
length-put_first c (w ∷ ws) = omega arith

pub words-take : (n : ℕ) (s : Str) → length (words_of (take n s)) ≤ length (words_of s)
unfolding words_of
words-take zero s = omega arith
words-take (suc n) [] = omega arith
words-take (suc zero) (c ∷ s) = ground (arith, length-put_first c (words_of s))
words-take (suc (suc n)) (c ∷ []) = omega arith
words-take (suc (suc n)) (c ∷ d ∷ s) = ground (
  arith,
  length-put_first c (words_of (d ∷ take n s)),
  length-put_first c (words_of (d ∷ s)),
  words-take (suc n) (d ∷ s),
)

abbrev pub IsWord : Str → Type 0
IsWord w = All (λ c. is_space c ≡ false) w

one_word : (w : Str) → IsWord w → length (words_of w) ≤ 1
unfolding words_of
one_word [] h = omega arith
one_word (c ∷ []) h = ground (arith, h.0)
one_word (c ∷ d ∷ w) h =
    ground (arith, h.0, h.1.0, length-put_first c (words_of (d ∷ w)), one_word (d ∷ w) h.1)

word_ahead : (w t : Str) → IsWord w → length (words_of (w ++ 32 ∷ t)) ≤ suc (length (words_of t))
unfolding words_of
word_ahead [] t h = omega arith
word_ahead (c ∷ []) t h = ground (arith, h.0)
word_ahead (c ∷ d ∷ w) t h =
    ground
      (arith, h.0, h.1.0, length-put_first c (words_of (d ∷ w ++ 32 ∷ t)), word_ahead (d ∷ w) t h.1)

pub words-join : (ws : List Str) → All IsWord ws → length (words_of (join_words ws)) ≤ length ws
unfolding join_words words_of
words-join [] h = omega arith
words-join (w ∷ []) h = one_word w h.0
words-join (w ∷ v ∷ ws) h =
    omega (arith, word_ahead w (join_words (v ∷ ws)) h.0, words-join (v ∷ ws) h.1)
