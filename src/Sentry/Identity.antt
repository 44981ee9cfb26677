-- ===== src/Sentry/Identity.antt =====
-- src/sentry/identity.ts: the identities of a launch and of its event, and the fields that are
-- authoritative for it. `digest` and `stringify` are the parameters of `sha256Hex` and
-- `canonicalJson`.
use sentry_forensic_gate.Base.{ℕ, Text, codes, text_eq, to_lower_case, Bool}
use sentry_forensic_gate.Domain.{
  LaunchObserved, LaunchType, standard, agent, kraken_verified, go_pump_me, LaunchEventName,
  token_deployed, kraken_verified_token_deployed, go_pump_me_token_deployed,
}
use sentry_forensic_gate.Evidence.Canonical.{
  Json, num, bigint, str, obj, end, field, sha256_hex, canonical_json,
}

unfoldable pub derive_launch_id : (Json → Text) → ℕ → Text → Text → Text → Text
derive_launch_id digest chain_id factory tx_hash token = sha256_hex digest (
    obj (
      field (codes "kind") (str (codes "SENTRY_LAUNCH_V1")) (
        field (codes "chainId") (num chain_id) (
          field (codes "factory") (str (to_lower_case factory)) (
            field (codes "txHash") (str (to_lower_case tx_hash))
              (field (codes "token") (str (to_lower_case token)) end))))))

unfoldable pub derive_event_id : (Json → Text) → ℕ → Text → Text → ℕ → Text
derive_event_id digest chain_id factory tx_hash log_index = sha256_hex digest (
    obj (
      field (codes "kind") (str (codes "SENTRY_EVENT_V1")) (
        field (codes "chainId") (num chain_id) (
          field (codes "factory") (str (to_lower_case factory)) (
            field (codes "txHash") (str (to_lower_case tx_hash))
              (field (codes "logIndex") (num log_index) end))))))

unfoldable pub normalize_launch_hex : LaunchObserved → LaunchObserved
normalize_launch_hex launch = record launch {
  block_hash = to_lower_case launch.block_hash;
  factory = to_lower_case launch.factory;
  tx_hash = to_lower_case launch.tx_hash;
  token = to_lower_case launch.token;
  creator = to_lower_case launch.creator;
}

abbrev launch_type_text : LaunchType → Text
launch_type_text standard = codes "STANDARD"
launch_type_text agent = codes "AGENT"
launch_type_text kraken_verified = codes "KRAKEN_VERIFIED"
launch_type_text go_pump_me = codes "GO_PUMP_ME"

abbrev event_name_text : LaunchEventName → Text
event_name_text token_deployed = codes "TokenDeployed"
event_name_text kraken_verified_token_deployed = codes "KrakenVerifiedTokenDeployed"
event_name_text go_pump_me_token_deployed = codes "GoPumpMeTokenDeployed"

authority_fields : LaunchObserved → Json
authority_fields v = obj (
    field (codes "launchId") (str v.launch_id) (
      field (codes "eventId") (str v.event_id) (
        field (codes "chainId") (num v.chain_id) (
          field (codes "blockNumber") (bigint v.block_number) (
            field (codes "blockHash") (str v.block_hash) (
              field (codes "factory") (str v.factory) (
                field (codes "txHash") (str v.tx_hash) (
                  field (codes "logIndex") (num v.log_index) (
                    field (codes "token") (str v.token) (
                      field (codes "creator") (str v.creator) (
                        field (codes "tokenId") (bigint v.token_id) (
                          field (codes "name") (str v.name) (
                            field (codes "symbol") (str v.symbol) (
                              field (codes "launchType") (str (launch_type_text v.launch_type)) (
                                field (codes "sourceEvent") (str (event_name_text v.source_event))
                                  end)))))))))))))))

unfoldable pub launch_authority : LaunchObserved → Json
unfolding normalize_launch_hex authority_fields
launch_authority launch = authority_fields (normalize_launch_hex launch)

unfoldable pub same_launch_authority : (Json → Text) → LaunchObserved → LaunchObserved → Bool
unfolding launch_authority
same_launch_authority stringify a b =
    text_eq (canonical_json stringify (launch_authority a))
      (canonical_json stringify (launch_authority b))
