-- ===== src/Ai/Clean.antt =====
-- What `validate_explanation` of apps/api/app/ai/prompt.py lets through.
use crypto_intelligence_plat.Ai.Characters.{
  All-collapse, All-drop_runs, All-join, All-redact, All-select_met, All-strip, All-strip_tags,
  All-words, if_All,
}
use crypto_intelligence_plat.Ai.Sanitize.{
  ai_error, cleaned, few_chars, few_words, is_control, max_output_chars, max_output_words,
  outside_url, redacted, unless_blank, validate_explanation, without_controls, words_of,
}
use crypto_intelligence_plat.Ai.Words.{IsWord, words-join, words-take}
use crypto_intelligence_plat.Base.{
  All, All-map_of, All-take, Bool, Str, [], arith, false, if_by, if◌then◌else◌, is_empty, is_space,
  length, length-take, ltb, not, not-true, refl, strip, sym, take, true, ℕ, ◌==◌, ◌∷◌, ◌≡◌, ◌≤◌,
}
use crypto_intelligence_plat.Exec.{err, err_not_ok, ok, ok_injective}

-- Neither a control character nor a backtick.
pub record IsPlain (c : ℕ) : Type 0 where
  pub no_control : is_control c ≡ false
  pub no_backtick : (c == 96) ≡ false

abbrev NoControl : ℕ → Type 0
NoControl c = is_control c ≡ false

All-any : (s : Str) → All (λ _. Unit {0}) s
All-any [] = tt
All-any (c ∷ s) = (tt, All-any s)

controls_gone : (s : Str) → All NoControl (without_controls s)
controls_gone s =
    All-map_of (λ c. Unit {0} × (not (is_control c) ≡ true)) NoControl
      (λ c h. not-true (is_control c) h.1) (without_controls s)
      (All-select_met (λ _. Unit {0}) (λ c. not (is_control c)) s (All-any s))

mark_NoControl : All NoControl redacted
mark_NoControl = (refl, (refl, (refl, (refl, (refl, (refl, (refl, (refl, (refl, (refl, tt))))))))))

cleaned-IsPlain : (s : Str) → All IsPlain (cleaned s)
unfolding cleaned
cleaned-IsPlain s = All-strip IsPlain _ (
    All-collapse IsPlain 0 _ (
      All-drop_runs IsPlain false _ (
        All-map_of (λ c. NoControl c × (not (c == 96) ≡ true)) IsPlain
          (λ c h. record { no_control = h.0; no_backtick = not-true (c == 96) h.1 }) _
          (All-select_met NoControl (λ c. not (c == 96)) _
            (All-strip_tags NoControl false _
              (All-redact NoControl mark_NoControl outside_url _ (controls_gone s)))))))

words_plain : (P : ℕ → Type 0) (s : Str) → All P s → All (All P) (words_of s)
words_plain P s h = All-words P s (All-map_of P (λ c. is_space c ≡ false → P c) (λ c k _. k) s h)

words_IsWord : (s : Str) → All IsWord (words_of s)
words_IsWord s =
    All-words (λ c. is_space c ≡ false) s
      (All-map_of (λ _. Unit {0}) (λ c. is_space c ≡ false → is_space c ≡ false) (λ c _ e. e) s
        (All-any s))

few_words-IsPlain : (s : Str) → All IsPlain s → All IsPlain (few_words s)
few_words-IsPlain s h =
    if_All IsPlain (ltb max_output_words (length (words_of s))) _ _
      (All-join IsPlain (record { no_control = refl; no_backtick = refl }) _
        (All-take (All IsPlain) max_output_words (words_of s) (words_plain IsPlain s h)))
      h

few_chars-IsPlain : (s : Str) → All IsPlain s → All IsPlain (few_chars s)
few_chars-IsPlain s h =
    if_All IsPlain (ltb max_output_chars (length s)) _ _ (All-take IsPlain max_output_chars s h) h

few_words-bound : (s : Str) → length (words_of (few_words s)) ≤ 250
few_words-bound s =
    if_by (λ t. length (words_of t) ≤ 250) (ltb max_output_words (length (words_of s))) _ _
      (λ e. omega (
        arith,
        words-join (take max_output_words (words_of s))
            (All-take IsWord max_output_words (words_of s) (words_IsWord s)),
        length-take max_output_words (words_of s),
      ))
      (λ e. ground arith)

few_chars-bound : (s : Str) → length (few_chars s) ≤ 4000
few_chars-bound s =
    if_by (λ t. length t ≤ 4000) (ltb max_output_chars (length s)) _ _
      (λ e. omega (arith, length-take max_output_chars s)) (λ e. ground arith)

few_chars-words : (s : Str) → length (words_of (few_chars s)) ≤ length (words_of s)
few_chars-words s =
    if_by (λ t. length (words_of t) ≤ length (words_of s)) (ltb max_output_chars (length s)) _ _
      (λ e. words-take max_output_chars s) (λ e. omega arith)

-- What an explanation may be.
pub record IsClean (r : Str) : Type 0 where
  pub chars : length r ≤ 4000
  pub words : length (words_of r) ≤ 250
  pub plain : All IsPlain r
  pub not_blank : is_empty (strip r) ≡ false

limited-IsClean :
    (s r : Str) → All IsPlain s → unless_blank (few_chars (few_words s)) ≡ ok r → IsClean r
limited-IsClean s r h e = of_blank (is_empty (strip (few_chars (few_words s)))) refl e
  where
    of_blank :
        (b : Bool)
        → is_empty (strip (few_chars (few_words s))) ≡ b
        → (if b
            then err (ai_error "empty model output after sanitization")
            else ok (few_chars (few_words s)))
          ≡ ok r
        → IsClean r
    of_blank true q k = absurd (err_not_ok k)
    of_blank false q k = rw (sym (ok_injective k)) (record {
      chars = few_chars-bound (few_words s);
      words = omega (arith, few_chars-words (few_words s), few_words-bound s);
      plain = few_chars-IsPlain (few_words s) (few_words-IsPlain s h);
      not_blank = q;
    })

-- An explanation that is returned has at most 4000 characters and 250 words, is not blank, and has
-- no control character and no backtick in it.
pub validate_explanation-IsClean : (output r : Str) → validate_explanation output ≡ ok r → IsClean r
unfolding validate_explanation
validate_explanation-IsClean [] r e = absurd (err_not_ok e)
validate_explanation-IsClean (c ∷ s) r e =
    limited-IsClean (cleaned (c ∷ s)) r (cleaned-IsPlain (c ∷ s)) e
