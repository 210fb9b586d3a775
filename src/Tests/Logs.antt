-- ===== src/Tests/Logs.antt =====
-- The arguments of a log record.
use crypto_intelligence_plat.Base.{codes, lower, refl, str_eq, ◌≡◌}
use crypto_intelligence_plat.Logging.{
  LogValue, LogValues, builds, by_name, entry, filter_args, hidden, is_sensitive, keys_of, leaf,
  mapping, no_entries, no_values, positional, refuses, sanitize, sequence, text_key, value,
}

abbrev a_password : LogValue → LogValue
a_password v = mapping (
    entry (text_key (codes "User")) (leaf (codes "ann"))
      (entry (text_key (codes "Password")) v no_entries))

abbrev noisy : LogValues
noisy = value (a_password (leaf (codes "pw"))) (
    value
      (sequence builds (
        value (mapping (entry (text_key (codes "token")) (sequence builds no_values) no_entries))
          no_values))
      no_values)

abbrev quiet : LogValues
quiet = value (a_password hidden) (
    value
      (sequence builds
        (value (mapping (entry (text_key (codes "token")) hidden no_entries)) no_values))
      no_values)

quietened : filter_args (positional noisy) ≡ positional quiet
unfolding filter_args sanitize is_sensitive str_eq lower
quietened = refl

-- One argument that is a named tuple, and everything is logged as it is.
abbrev with_named_tuple : LogValues
with_named_tuple =
    value (a_password (leaf (codes "pw"))) (value (sequence refuses no_values) no_values)

leaked : filter_args (positional with_named_tuple) ≡ positional with_named_tuple
unfolding filter_args sanitize is_sensitive str_eq lower
leaked = refl

-- Of a dict as the only argument, only the keys are left.
keys_left :
    filter_args (by_name (entry (text_key (codes "user")) (leaf (codes "ann")) no_entries))
    ≡ positional (value (leaf (codes "user")) no_values)
unfolding filter_args keys_of
keys_left = refl
