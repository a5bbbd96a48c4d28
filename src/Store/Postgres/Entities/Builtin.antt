-- ===== src/Store/Postgres/Entities/Builtin.antt =====
-- store/known_entities_seed.go: the table of labels that a start applies.
use forensic_listener.Prelude.{String, true, List, [], ◌∷◌}
use forensic_listener.Store.Postgres.Entities.{KnownEntitySeed}

-- Every entry is a contract and a hub.
abbrev hub_contract : String → String → String → String → KnownEntitySeed
hub_contract address name entity_type risk_level = record {
  address = address;
  name = name;
  entity_type = entity_type;
  risk_level = risk_level;
  is_hub = true;
  is_contract = true;
}

-- builtinKnownEntities
abbrev pub builtin_known_entities : List KnownEntitySeed
builtin_known_entities =
    hub_contract "0xdAC17F958D2ee523a2206206994597C13D831ec7" "Tether USD" "stablecoin" "low"
    ∷ hub_contract "0xA0b86991c6218b36c1d19D4a2e9Eb0cE3606eB48" "USD Coin" "stablecoin" "low"
    ∷ hub_contract "0xC02aaA39b223FE8D0A0e5C4F27eAD9083C756Cc2" "Wrapped Ether" "token" "none"
    ∷ hub_contract "0x6B175474E89094C44Da98b954EedeAC495271d0F" "Dai Stablecoin" "stablecoin" "low"
    ∷ hub_contract "0x7a250d5630B4cF539739dF2C5dAcb4c659F2488D" "Uniswap V2 Router" "dex" "low"
    ∷ hub_contract "0xE592427A0AEce92De3Edee1F18E0157C05861564" "Uniswap V3 Router" "dex" "low"
    ∷ hub_contract "0x2260FAC5E5542a773Aa44fBCfeDf7C193bc2C599" "Wrapped Bitcoin" "wrapped_asset"
        "low"
    ∷ hub_contract "0xae7ab96520DE3A18E5e111B5EaAb095312D7fE84" "Lido Staked Ether" "staking" "low"
    ∷ hub_contract "0x514910771AF9Ca656af840dff83E8264EcF986CA" "Chainlink Token" "oracle_token"
        "low"
    ∷ hub_contract "0x9f8F72aA9304c8B593d555F12eF6589cC3A579A2" "Maker" "governance_token" "low"
    ∷ []
