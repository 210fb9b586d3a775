-- ===== src/Ai/Characters.antt =====
-- The steps of `validate_explanation` in apps/api/app/ai/prompt.py leave the characters alone, or take
-- some of them out.
use crypto_intelligence_plat.Ai.Sanitize.{
  UrlScan, collapse_newlines, drop_runs, first_length, is_markdown, is_url_char, join_words,
  opens_tag, outside_url, redact_urls, redacted, starts_markdown, starts_space, strip_tags,
  url_prefixes, within_url, words_of,
}
use crypto_intelligence_plat.Base.{
  All, All-append, Bool, List, Option, Str, [], false, has_char, if_by, if◌then◌else◌, is_empty,
  is_space, leb, lstrip, none, put_first, rstrip, select, some, strip, suc, true, zero, ℕ, ◌&&◌,
  ◌++◌, ◌+◌, ◌-◌, ◌==◌, ◌||◌, ◌∷◌, ◌≡◌,
}

-- Each step keeps a property of the characters.
module _ (P : ℕ → Type 0) where
  pub All-select_met :
      (p : ℕ → Bool) → (s : Str) → All P s → All (λ c. P c × (p c ≡ true)) (select p s)
  unfolding select
  All-select_met p [] h = tt
  All-select_met p (c ∷ s) h =
      if_by (All (λ c. P c × (p c ≡ true))) (p c) _ _ (λ e. ((h.0, e), All-select_met p s h.1))
        (λ e. All-select_met p s h.1)

  pub if_All : (b : Bool) (s t : Str) → All P s → All P t → All P (if b then s else t)
  if_All true s t hs ht = hs
  if_All false s t hs ht = ht

  All-match :
      (o : Option ℕ) (c : ℕ) (s : Str)
      → All P redacted
      → P c
      → ((mode : UrlScan) → All P (redact_urls mode s))
      → All P (elim o [
        | none ↦ c ∷ redact_urls outside_url s
        | some n ↦ redacted ++ redact_urls (within_url (n - 1)) s
      ])
  All-match none c s mark hc rest = (hc, rest outside_url)
  All-match (some n) c s mark hc rest = All-append P redacted _ mark (rest (within_url (n - 1)))

  pub All-redact :
      All P redacted → (mode : UrlScan) (s : Str) → All P s → All P (redact_urls mode s)
  unfolding redact_urls
  All-redact mark mode [] h = tt
  All-redact mark outside_url (c ∷ s) h =
      All-match (first_length url_prefixes (c ∷ s)) c s mark h.0
        (λ mode. All-redact mark mode s h.1)
  All-redact mark (within_url (suc n)) (c ∷ s) h = All-redact mark (within_url n) s h.1
  All-redact mark (within_url zero) (c ∷ s) h =
      if_All (is_url_char c) _ _ (All-redact mark (within_url zero) s h.1)
        (h.0, All-redact mark outside_url s h.1)

  pub All-strip_tags : (b : Bool) (s : Str) → All P s → All P (strip_tags b s)
  unfolding strip_tags
  All-strip_tags b [] h = tt
  All-strip_tags true (c ∷ s) h =
      if_All (c == 62) _ _ (All-strip_tags false s h.1) (All-strip_tags true s h.1)
  All-strip_tags false (c ∷ s) h =
      if_All ((c == 60) && opens_tag s && has_char 62 s) _ _ (All-strip_tags true s h.1)
        (h.0, All-strip_tags false s h.1)

  pub All-drop_runs : (b : Bool) (s : Str) → All P s → All P (drop_runs b s)
  unfolding drop_runs
  All-drop_runs b [] h = tt
  All-drop_runs b (c ∷ s) h =
      if_All (is_markdown c && (b || starts_markdown s)) _ _ (All-drop_runs (is_markdown c) s h.1)
        (h.0, All-drop_runs (is_markdown c) s h.1)

  pub All-collapse : (n : ℕ) (s : Str) → All P s → All P (collapse_newlines n s)
  unfolding collapse_newlines
  All-collapse n [] h = tt
  All-collapse n (c ∷ s) h =
      if_All (c == 10) _ _
        (if_All (leb 2 n) _ _ (All-collapse (n + 1) s h.1) (h.0, All-collapse (n + 1) s h.1))
        (h.0, All-collapse 0 s h.1)

  All-lstrip : (s : Str) → All P s → All P (lstrip s)
  All-lstrip [] h = tt
  All-lstrip (c ∷ s) h = if_All (is_space c) _ _ (All-lstrip s h.1) h

  All-rstrip : (s : Str) → All P s → All P (rstrip s)
  All-rstrip [] h = tt
  All-rstrip (c ∷ s) h = if_All (is_space c && is_empty (rstrip s)) _ _ tt (h.0, All-rstrip s h.1)

  pub All-strip : (s : Str) → All P s → All P (strip s)
  unfolding strip
  All-strip s h = All-rstrip (lstrip s) (All-lstrip s h)

  All-put_first : (c : ℕ) (ws : List Str) → P c → All (All P) ws → All (All P) (put_first c ws)
  All-put_first c [] hc h = ((hc, tt), tt)
  All-put_first c (w ∷ ws) hc h = ((hc, h.0), h.1)

  pub All-words : (s : Str) → All (λ c. is_space c ≡ false → P c) s → All (All P) (words_of s)
  unfolding words_of
  All-words [] h = tt
  All-words (c ∷ s) h =
      if_by (All (All P)) (is_space c) _ _ (λ e. All-words s h.1)
        (λ e.
          if_by (All (All P)) (starts_space s) _ _ (λ d. ((h.0 e, tt), All-words s h.1))
            (λ d. All-put_first c (words_of s) (h.0 e) (All-words s h.1)))

  pub All-join : P 32 → (ws : List Str) → All (All P) ws → All P (join_words ws)
  unfolding join_words
  All-join space [] h = tt
  All-join space (w ∷ []) h = h.0
  All-join space (w ∷ v ∷ ws) h = All-append P w _ h.0 (space, All-join space (v ∷ ws) h.1)
