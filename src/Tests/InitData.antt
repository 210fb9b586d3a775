-- ===== src/Tests/InitData.antt =====
-- Init data of Telegram.
use crypto_intelligence_plat.Base.{
  List, Str, [], arith, codes, delete_where, false, none, pos, refl, some, str_eq, true, ◌-ℤ◌, ◌∷◌,
  ◌≡◌,
}
use crypto_intelligence_plat.Exec.{ok}
use crypto_intelligence_plat.Telegram.{
  InitCodec, VerifiedInitData, check_fields, claim_key, data_check_string, extract_user,
  init_data_replay_key, insert_field, join_fields, sort_fields, str_leb, unique_fields,
  verify_init_data,
}
use crypto_intelligence_plat.Telegram.Replay.{replay-after_expiry}
use crypto_intelligence_plat.Telegram.Signature.{DistinctKeys, IsGenuine, verify_init_data_sound}
use crypto_intelligence_plat.Tests.Data.{toy_sha256}
use crypto_intelligence_plat.Tokens.{JsonFields, field, integer, no_fields, object, text}

abbrev toy_hash : Str
toy_hash = codes "0123456789abcdef0123456789abcdef0123456789abcdef0123456789abcdef"

abbrev toy_fields : List (Str × Str)
toy_fields =
    (codes "user", codes "u") ∷ (codes "auth_date", codes "1030") ∷ (codes "hash", toy_hash) ∷ []

abbrev toy_account : JsonFields
toy_account =
    field (codes "id") (integer (pos 42)) (field (codes "username") (text (codes "ann")) no_fields)

abbrev pub toy_init_codec : InitCodec
toy_init_codec = record {
  check_hash = λ key fields. toy_hash;
  parse_qsl = λ query. some toy_fields;
  loads = λ bytes. some (object toy_account);
  int_of_text = λ digits. some (pos 1030);
  sha256 = toy_sha256;
}

abbrev toy_verified : VerifiedInitData
toy_verified = record {
  user = record {
    id = 42;
    username = some (text (codes "ann"));
    first_name = none;
    last_name = none;
    language_code = none;
    is_premium = false;
  };
  auth_date = pos 1030;
  query_id = none;
  raw = (codes "user", codes "u") ∷ (codes "auth_date", codes "1030") ∷ [];
}

-- The keys in order, a line for each.
in_order : data_check_string toy_verified.raw ≡ codes "auth_date=1030\nuser=u"
unfolding data_check_string join_fields sort_fields insert_field str_leb
in_order = refl

verified_now :
    verify_init_data toy_init_codec (pos 300) 1000 (codes "bot") (codes "user=u") ≡ ok toy_verified
unfolding verify_init_data unique_fields check_fields extract_user delete_where str_eq ◌-ℤ◌
verified_now = refl

verify_init_data_sound_example :
    (fields : List (Str × Str)) × (toy_init_codec.parse_qsl (codes "user=u") ≡ some fields)
    × DistinctKeys fields
    × (received : Str) × IsGenuine toy_init_codec
        (pos 300)
        1000
        (codes "bot")
        fields
        received
        toy_verified
verify_init_data_sound_example =
    verify_init_data_sound toy_init_codec (pos 300) 1000 (codes "bot") (codes "user=u") toy_verified
      verified_now

fresh_claim :
    (claim_key 1000 (init_data_replay_key toy_init_codec (pos 300) toy_verified) []).0 ≡ true
unfolding claim_key
fresh_claim = refl

replay-after_expiry_example :
    (verify_init_data toy_init_codec (pos 300) 1300 (codes "bot") (codes "user=u")
      ≡ ok toy_verified)
    × ((claim_key 1300
          (init_data_replay_key toy_init_codec (pos 300) toy_verified)
          (claim_key 1000 (init_data_replay_key toy_init_codec (pos 300) toy_verified) []).1).0
        ≡ true)
replay-after_expiry_example =
    replay-after_expiry toy_init_codec (pos 300) 1000 (codes "bot") (codes "user=u") toy_verified []
      (omega arith) (omega arith) verified_now fresh_claim
