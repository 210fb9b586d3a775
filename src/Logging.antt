-- ===== src/Logging.antt =====
-- apps/api/app/core/logging.py: what is taken out of the arguments of a log record. A value is a dict, a
-- list or a tuple of some type, or something else by its text; a key that is a text is ASCII.
pub mod Redaction
use crypto_intelligence_plat.Base.{
  Bool, List, Option, Str, [], codes, false, if◌then◌else◌, lower, map, none, one_of, some, ◌∷◌,
}

-- What calling the type of a list or a tuple with a generator does: it builds the same kind of
-- sequence (list, tuple), it raises (a named tuple of several fields), or it makes something else.
pub data SeqType : Type 0 where
  builds refuses : SeqType
  wraps : Str → SeqType

-- A key of a dict: a text, or something else by its text.
pub data LogKey : Type 0 where
  text_key other_key : Str → LogKey

mutual
  pub data LogValue : Type 0 where
    leaf : Str → LogValue
    sequence : SeqType → LogValues → LogValue
    mapping : LogFields → LogValue

  pub data LogValues : Type 0 where
    no_values : LogValues
    value : LogValue → LogValues → LogValues

  pub data LogFields : Type 0 where
    no_entries : LogFields
    entry : LogKey → LogValue → LogFields → LogFields

-- `record.args`: a tuple, or the dict that was given as the only argument.
pub data LogArgs : Type 0 where
  positional : LogValues → LogArgs
  by_name : LogFields → LogArgs

-- `_SENSITIVE_KEYS`
abbrev pub sensitive_keys : List Str
sensitive_keys =
    codes "authorization"
    ∷ codes "token"
    ∷ codes "api_key"
    ∷ codes "apikey"
    ∷ codes "secret"
    ∷ codes "password"
    ∷ codes "init_data"
    ∷ codes "initdata"
    ∷ codes "bot_token"
    ∷ codes "cookie"
    ∷ codes "session"
    ∷ codes "x-api-key"
    ∷ codes "x-telegram-bot-auth-secret"
    ∷ []

-- `_is_sensitive`
unfoldable pub is_sensitive : LogKey → Bool
is_sensitive (text_key key) = one_of (map lower key) sensitive_keys
is_sensitive (other_key key) = false

abbrev pub hidden : LogValue
hidden = leaf (codes "***")

-- `type(value)(_sanitize(v) for v in value)`; none where it raises
abbrev pub retyped : SeqType → Option LogValues → Option LogValue
retyped builds none = none
retyped builds (some vs) = some (sequence builds vs)
retyped refuses _ = none
retyped (wraps s) _ = some (leaf s)

abbrev pub made_mapping : Option LogFields → Option LogValue
made_mapping none = none
made_mapping (some fs) = some (mapping fs)

abbrev pub with_values : Option LogValue → Option LogValues → Option LogValues
with_values none _ = none
with_values (some v) none = none
with_values (some v) (some vs) = some (value v vs)

abbrev pub with_entries : LogKey → Option LogValue → Option LogFields → Option LogFields
with_entries k none _ = none
with_entries k (some v) none = none
with_entries k (some v) (some fs) = some (entry k v fs)

-- `_sanitize`, none where it raises
unfoldable mutual
  pub sanitize : LogValue → Option LogValue
  sanitize (leaf s) = some (leaf s)
  sanitize (sequence t vs) = retyped t (sanitize_all vs)
  sanitize (mapping fs) = made_mapping (sanitize_fields fs)

  pub sanitize_all : LogValues → Option LogValues
  sanitize_all no_values = some no_values
  sanitize_all (value v vs) = with_values (sanitize v) (sanitize_all vs)

  pub sanitize_fields : LogFields → Option LogFields
  sanitize_fields no_entries = some no_entries
  sanitize_fields (entry k v fs) =
      let clean = sanitize v in
      with_entries k (if is_sensitive k then some hidden else clean) (sanitize_fields fs)

-- What iterating over a dict yields.
unfoldable pub keys_of : LogFields → LogValues
keys_of no_entries = no_values
keys_of (entry (text_key k) v fs) = value (leaf k) (keys_of fs)
keys_of (entry (other_key k) v fs) = value (leaf k) (keys_of fs)

-- `contextlib.suppress(Exception)` around the assignment
abbrev pub sanitized_or : LogValues → Option LogValues → LogArgs
sanitized_or args none = positional args
sanitized_or args (some clean) = positional clean

-- `_SanitizingFilter.filter` on the arguments of a record; an empty dict is left as it is. The keys of
-- a dict are texts, which `_sanitize` returns.
unfoldable pub filter_args : LogArgs → LogArgs
filter_args (positional args) = sanitized_or args (sanitize_all args)
filter_args (by_name no_entries) = by_name no_entries
filter_args (by_name (entry k v fs)) = positional (keys_of (entry k v fs))
