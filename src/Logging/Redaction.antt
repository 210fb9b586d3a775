-- ===== src/Logging/Redaction.antt =====
-- What apps/api/app/core/logging.py leaves in the arguments of a record.
use crypto_intelligence_plat.Base.{
  Bool, List, Str, [], all, any, ap, arith, codes, false, if◌then◌else◌, leb, lower, map, not,
  one_of, refl, some, str_eq, true, ℕ, ◌&&◌, ◌+◌, ◌==◌, ◌||◌, ◌∙◌, ◌∷◌, ◌≡◌,
}
use crypto_intelligence_plat.Logging.{
  LogFields, LogKey, LogValue, LogValues, builds, entry, hidden, is_sensitive, leaf, made_mapping,
  mapping, no_entries, no_values, other_key, refuses, retyped, sanitize, sanitize_all,
  sanitize_fields, sensitive_keys, sequence, text_key, value, with_entries, wraps,
}

-- A letter, and the same in lower case.
abbrev same_letter : ℕ → ℕ → Bool
same_letter c d = (c == d) || ((c + 32 == d) && (leb 97 d && leb d 122))

-- The text is the word, in whatever case.
unfoldable spells : Str → Str → Bool
spells [] [] = true
spells (c ∷ s) (d ∷ t) = same_letter c d && spells s t
spells _ _ = false

-- What has to be hidden.
abbrev secret_words : List Str
secret_words =
    codes "authorization"
    ∷ codes "cookie"
    ∷ codes "session"
    ∷ codes "token"
    ∷ codes "bot_token"
    ∷ codes "secret"
    ∷ codes "password"
    ∷ codes "api_key"
    ∷ codes "apikey"
    ∷ codes "x-api-key"
    ∷ codes "init_data"
    ∷ codes "initdata"
    ∷ codes "x-telegram-bot-auth-secret"
    ∷ []

unfoldable pub is_secret : LogKey → Bool
unfolding spells
is_secret (text_key k) = any (spells k) secret_words
is_secret (other_key k) = false

-- `w` is `v` with the mark under each secret key of a dict, at any depth, and otherwise the same.
unfoldable mutual
  pub Masked : LogValue → LogValue → Type 0
  Masked (leaf s) w = w ≡ leaf s
  Masked (sequence t vs) w = (ws : LogValues) × (w ≡ sequence t ws) × MaskedAll vs ws
  Masked (mapping fs) w = (gs : LogFields) × (w ≡ mapping gs) × MaskedFields fs gs

  pub MaskedAll : LogValues → LogValues → Type 0
  MaskedAll no_values ws = ws ≡ no_values
  MaskedAll (value v vs) ws =
      (x : LogValue) × (xs : LogValues) × (ws ≡ value x xs) × Masked v x × MaskedAll vs xs

  pub MaskedFields : LogFields → LogFields → Type 0
  MaskedFields no_entries gs = gs ≡ no_entries
  MaskedFields (entry k v fs) gs =
      (x : LogValue) × (xs : LogFields) × (gs ≡ entry k x xs)
      × (is_secret k ≡ true → x ≡ hidden)
      × (is_secret k ≡ false → Masked v x)
      × MaskedFields fs xs

-- Every list or tuple, at any depth, is of a type that a generator builds.
unfoldable mutual
  pub plain : LogValue → Bool
  plain (leaf s) = true
  plain (sequence builds vs) = all_plain vs
  plain (sequence refuses vs) = false
  plain (sequence (wraps s) vs) = false
  plain (mapping fs) = fields_plain fs

  pub all_plain : LogValues → Bool
  all_plain no_values = true
  all_plain (value v vs) = plain v && all_plain vs

  pub fields_plain : LogFields → Bool
  fields_plain no_entries = true
  fields_plain (entry k v fs) = plain v && fields_plain fs

-- A word without capitals.
abbrev no_capitals : Str → Bool
no_capitals t = all (λ d. not (leb 65 d && leb d 90)) t

lower-spells : (s t : Str) → no_capitals t ≡ true → str_eq (map lower s) t ≡ spells s t
unfolding str_eq lower spells
lower-spells [] [] h = refl
lower-spells [] (d ∷ t) h = refl
lower-spells (c ∷ s) [] h = refl
lower-spells (c ∷ s) (d ∷ t) h = ground (arith, lower-spells s t)

one_of-eq-any :
    (k : Str) (ts : List Str)
    → all no_capitals ts ≡ true
    → one_of (map lower k) ts ≡ any (spells k) ts
one_of-eq-any k [] h = refl
one_of-eq-any k (t ∷ ts) h = ground (arith, lower-spells k t, one_of-eq-any k ts)

-- Looking for a key among the words and among the program's own list.
words_in : (k : Str) → any (spells k) sensitive_keys ≡ any (spells k) secret_words
words_in k = ground arith

sensitive-eq-secret : (k : LogKey) → is_sensitive k ≡ is_secret k
unfolding is_sensitive is_secret
sensitive-eq-secret (text_key k) = one_of-eq-any k sensitive_keys refl ∙ words_in k
sensitive-eq-secret (other_key k) = refl

both : {a b : Bool} → (a && b) ≡ true → (a ≡ true) × (b ≡ true)
both h = ground arith

-- One entry of a dict, once its value and its rest are known.
Masked-entry :
    (b : Bool) (k : LogKey) (v w : LogValue) (fs gs : LogFields)
    → is_secret k ≡ b
    → Masked v w
    → MaskedFields fs gs
    → MaskedFields (entry k v fs) (entry k (if b then hidden else w) gs)
unfolding Masked
Masked-entry true k v w fs gs e m ms =
    (hidden, gs, refl, (λ _. refl), (λ e'. absurd (ground arith)), ms)
Masked-entry false k v w fs gs e m ms = (w, gs, refl, (λ e'. absurd (ground arith)), (λ _. m), ms)

entered :
    (b : Bool) (k : LogKey) (w : LogValue) (gs : LogFields)
    → with_entries k (if b then some hidden else some w) (some gs)
      ≡ some (entry k (if b then hidden else w) gs)
entered true k w gs = refl
entered false k w gs = refl

mutual
  unfolding sanitize plain Masked

  Masked-value :
      (v : LogValue) → plain v ≡ true → (w : LogValue) × (sanitize v ≡ some w) × Masked v w
  Masked-value (leaf s) h = (leaf s, refl, refl)
  Masked-value (sequence builds vs) h =
      let (ws, e, m) = MaskedAll-values vs h in
      (sequence builds ws, ap (retyped builds) e, (ws, refl, m))
  Masked-value (sequence refuses vs) h = absurd (ground arith)
  Masked-value (sequence (wraps s) vs) h = absurd (ground arith)
  Masked-value (mapping fs) h =
      let (gs, e, m) = MaskedFields-fields fs h in (mapping gs, ap made_mapping e, (gs, refl, m))

  MaskedAll-values :
      (vs : LogValues)
      → all_plain vs ≡ true
      → (ws : LogValues) × (sanitize_all vs ≡ some ws) × MaskedAll vs ws
  MaskedAll-values no_values h = (no_values, refl, refl)
  MaskedAll-values (value v vs) h =
      let (hv, hs) = both h in
      let (w, e, m) = Masked-value v hv in
      let (ws, es, ms) = MaskedAll-values vs hs in
      (value w ws, rw (e, es) refl, (w, ws, refl, m, ms))

  MaskedFields-fields :
      (fs : LogFields)
      → fields_plain fs ≡ true
      → (gs : LogFields) × (sanitize_fields fs ≡ some gs) × MaskedFields fs gs
  MaskedFields-fields no_entries h = (no_entries, refl, refl)
  MaskedFields-fields (entry k v fs) h =
      let (hv, hs) = both h in
      let (w, e, m) = Masked-value v hv in
      let (gs, es, ms) = MaskedFields-fields fs hs in
      (
        entry k (if is_secret k then hidden else w) gs,
        rw (sensitive-eq-secret k, e, es) (entered (is_secret k) k w gs),
        Masked-entry (is_secret k) k v w fs gs refl m ms,
      )
