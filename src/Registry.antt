-- ===== src/Registry.antt =====
-- apps/api/app/providers/registry.py and the constructor of the provider in providers/etherscan.py.
use crypto_intelligence_plat.Base.{Str, false, if◌then◌else◌, is_empty, strip, ℕ}
use crypto_intelligence_plat.Config.{Settings, etherscan, is_dev, mock_chain}
use crypto_intelligence_plat.Errors.{provider_error, provider_permanent}
use crypto_intelligence_plat.Etherscan.{EtherscanCodec}
use crypto_intelligence_plat.Etherscan.Transfers.{Action, etherscan_provider}
use crypto_intelligence_plat.Exec.{Result, err, ok}
use crypto_intelligence_plat.Http.{HttpResponse}
use crypto_intelligence_plat.MockProvider.{mock_provider}
use crypto_intelligence_plat.Provider.{Provider}
use crypto_intelligence_plat.UrlSafety.{UrlCodec, assert_safe_outbound_url}

-- `EtherscanProvider.__init__`: a key, and an override that may be called.
unfoldable pub etherscan_ready : UrlCodec → Settings → Result (Unit {0})
etherscan_ready c s =
    if is_empty s.blockchain_api_key
    then err (provider_error provider_permanent "etherscan requires BLOCKCHAIN_API_KEY")
    else if is_empty (strip s.blockchain_base_url)
    then ok tt
    else assert_safe_outbound_url c (is_dev s) false (strip s.blockchain_base_url)

abbrev pub ready_provider : Provider → Result (Unit {0}) → Result Provider
ready_provider p (ok _) = ok p
ready_provider p (err e) = err e

-- `get_provider`
unfoldable pub get_provider :
    UrlCodec
    → EtherscanCodec
    → (Str → ℕ → ℕ)
    → Settings
    → (Action → Str → Str → Result HttpResponse)
    → Result Provider
unfolding etherscan_ready
get_provider c ec nibble s network = elim s.blockchain_provider [
  | etherscan ↦ ready_provider (etherscan_provider ec nibble s network) (etherscan_ready c s)
  | mock_chain ↦ ok mock_provider
]
