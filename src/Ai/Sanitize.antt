-- ===== src/Ai/Sanitize.antt =====
-- apps/api/app/ai/prompt.py: what is taken out of texts. A regular expression is a scan, whose mode
-- says whether it is inside of a match; IGNORECASE lets `i` and `s` match the letters that fold to them.
use Prim.Native.String.{String}
use crypto_intelligence_plat.Base.{
  Bool, List, Option, Str, [], any, codes, false, has_char, if◌then◌else◌, is_empty, is_space, leb,
  length, lower, ltb, none, not, put_first, select, some, strip, suc, take, true, zero, ℕ, ◌&&◌,
  ◌++◌, ◌+◌, ◌-◌, ◌==◌, ◌||◌, ◌∷◌,
}
use crypto_intelligence_plat.Errors.{Exn, ai_provider, app_error, make_error}
use crypto_intelligence_plat.Exec.{Result, err, ok}

abbrev pub max_label_len : ℕ
max_label_len = 64

abbrev pub max_field_len : ℕ
max_field_len = 128

abbrev pub max_output_chars : ℕ
max_output_chars = 4000

abbrev pub max_output_words : ℕ
max_output_words = 250

-- `_CTRL_RE`
abbrev pub is_control : ℕ → Bool
is_control c = leb c 8 || (c == 11) || (c == 12) || (leb 14 c && leb c 31) || (c == 127)

abbrev pub without_controls : Str → Str
without_controls s = select (λ c. not (is_control c)) s

unfoldable pub sanitize_text : ℕ → Option Str → Str
sanitize_text max_len none = []
sanitize_text max_len (some s) = take max_len (without_controls s)

abbrev pub folds_to : ℕ → ℕ → Bool
folds_to p c =
    (lower c == p) || ((p == 105) && ((c == 304) || (c == 305))) || ((p == 115) && (c == 383))

-- `[^\s<>\'\"]`
abbrev pub is_url_char : ℕ → Bool
is_url_char c = not (is_space c || (c == 60) || (c == 62) || (c == 39) || (c == 34))

abbrev pub starts_url_char : Str → Bool
starts_url_char [] = false
starts_url_char (c ∷ _) = is_url_char c

-- The prefix, and at least one character of an address behind it.
abbrev pub prefix_matches : Str → Str → Bool
prefix_matches [] s = starts_url_char s
prefix_matches (p ∷ ps) [] = false
prefix_matches (p ∷ ps) (c ∷ s) = folds_to p c && prefix_matches ps s

abbrev pub first_length : List Str → Str → Option ℕ
first_length [] s = none
first_length (p ∷ ps) s = if prefix_matches p s then some (length p) else first_length ps s

abbrev pub url_prefixes : List Str
url_prefixes =
    codes "http://"
    ∷ codes "https://"
    ∷ codes "www."
    ∷ codes "ftp://"
    ∷ codes "file://"
    ∷ codes "javascript:"
    ∷ codes "data:"
    ∷ []

abbrev pub redacted : Str
redacted = codes "[redacted]"

-- Inside of a match with so many characters of the prefix still to come, or outside. A character that
-- ends an address begins none.
pub data UrlScan : Type 0 where
  outside_url : UrlScan
  within_url : ℕ → UrlScan

unfoldable pub redact_urls : UrlScan → Str → Str
redact_urls mode [] = []
redact_urls outside_url (c ∷ s) = elim (first_length url_prefixes (c ∷ s)) [
  | none ↦ c ∷ redact_urls outside_url s
  | some n ↦ redacted ++ redact_urls (within_url (n - 1)) s
]
redact_urls (within_url (suc n)) (c ∷ s) = redact_urls (within_url n) s
redact_urls (within_url zero) (c ∷ s) =
    let skipped = redact_urls (within_url zero) s in
    let copied = redact_urls outside_url s in if is_url_char c then skipped else c ∷ copied

-- `<[a-zA-Z/]`
abbrev pub opens_tag : Str → Bool
opens_tag [] = false
opens_tag (c ∷ _) = (leb 65 c && leb c 90) || (leb 97 c && leb c 122) || (c == 47)

-- `_HTML_TAG_RE.sub("", s)`; the flag says that a tag is open.
unfoldable pub strip_tags : Bool → Str → Str
strip_tags inside_tag [] = []
strip_tags true (c ∷ s) =
    let behind = strip_tags false s in
    let in_tag = strip_tags true s in if c == 62 then behind else in_tag
strip_tags false (c ∷ s) =
    let copied = strip_tags false s in
    let in_tag = strip_tags true s in
    if (c == 60) && opens_tag s && has_char 62 s then in_tag else c ∷ copied

abbrev pub is_markdown : ℕ → Bool
is_markdown c = any (λ d. c == d) (codes "#*_~`[]>|")

abbrev pub starts_markdown : Str → Bool
starts_markdown [] = false
starts_markdown (c ∷ _) = is_markdown c

-- `_MARKDOWN_RE.sub("", s)`: only a character without a neighbour of its kind stays. The flag says that
-- the one before it was of its kind.
unfoldable pub drop_runs : Bool → Str → Str
drop_runs before [] = []
drop_runs before (c ∷ s) =
    let rest = drop_runs (is_markdown c) s in
    if is_markdown c && (before || starts_markdown s) then rest else c ∷ rest

-- `re.sub(r"\n{3,}", "\n\n", s)`; the number counts the newlines before.
unfoldable pub collapse_newlines : ℕ → Str → Str
collapse_newlines n [] = []
collapse_newlines n (c ∷ s) =
    let further = collapse_newlines (n + 1) s in
    let other = collapse_newlines 0 s in
    if c == 10 then (if leb 2 n then further else c ∷ further) else c ∷ other

abbrev pub starts_space : Str → Bool
starts_space [] = true
starts_space (c ∷ _) = is_space c

-- `s.split()`
unfoldable pub words_of : Str → List Str
words_of [] = []
words_of (c ∷ s) =
    let rest = words_of s in
    if is_space c then rest else if starts_space s then (c ∷ []) ∷ rest else put_first c rest

-- `" ".join(words)`
unfoldable pub join_words : List Str → Str
join_words [] = []
join_words (w ∷ []) = w
join_words (w ∷ v ∷ ws) = w ++ 32 ∷ join_words (v ∷ ws)

abbrev pub few_words : Str → Str
few_words s =
    if ltb max_output_words (length (words_of s))
    then join_words (take max_output_words (words_of s))
    else s

abbrev pub few_chars : Str → Str
few_chars s = if ltb max_output_chars (length s) then take max_output_chars s else s

-- From the text of the model to the text that its words and characters are counted in.
unfoldable pub cleaned : Str → Str
cleaned output = strip (
    collapse_newlines 0 (
      drop_runs false (
        select (λ c. not (c == 96))
          (strip_tags false (redact_urls outside_url (without_controls output))))))

abbrev pub ai_error : String → Exn
ai_error m = app_error (make_error ai_provider m none none)

abbrev pub unless_blank : Str → Result Str
unless_blank s =
    if is_empty (strip s) then err (ai_error "empty model output after sanitization") else ok s

unfoldable pub validate_explanation : Str → Result Str
unfolding cleaned
validate_explanation output =
    if is_empty output
    then err (ai_error "empty model output")
    else unless_blank (few_chars (few_words (cleaned output)))
