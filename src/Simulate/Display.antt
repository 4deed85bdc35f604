-- ===== src/Simulate/Display.antt =====
-- packages/core/src/auth-popup/sign/consent-display.ts: the rows of a simulated batch.
use avok_js.Base.{
  ℕ, String, to_text, if◌then◌else◌, Option, none, some, ◌or_else◌, List, [], ◌∷◌, ◌++◌, map,
}
use avok_js.Registry.{get_token_profile}
use avok_js.Registry.Profiles.{EvmTokenProfile}
use avok_js.Consent.Lines.{ConsentDisplayLine, info_line, caution_line, danger_line}
use avok_js.Consent.Types.{Viem}
use avok_js.Consent.Display.{text, native_symbol}
use avok_js.Simulate.{
  AssetDelta, native, erc20, erc721, erc1155, AssetDeltaKind, Direction, outgoing, incoming,
  ApprovalGrant, GrantKind, erc20_allowance, erc721_all, SimulationResult, unsimulated, reverted,
  simulated,
}

abbrev verb : Direction → String
verb outgoing = "You send"
verb incoming = "You receive"

-- `${value}` of what may be undefined.
abbrev shown_token : Option String → String
shown_token t = t or_else "undefined"

abbrev shown_id : Option ℕ → String
shown_id none = "undefined"
shown_id (some n) = to_text n

-- `token ? getTokenProfile(chainId, token) : undefined`
abbrev profile_of : ℕ → Option String → Option EvmTokenProfile
profile_of chain_id none = none
profile_of chain_id (some t) = get_token_profile chain_id t

module _ (viem : Viem) where
  delta_line_of : AssetDeltaKind → ℕ → AssetDelta → ConsentDisplayLine
  delta_line_of native chain_id d = info_line (
      text (
        verb d.direction ∷ " " ∷ viem.format_units d.amount 18 ∷ " " ∷ native_symbol chain_id ∷ []))
  delta_line_of erc721 chain_id d = info_line (
      text (
        verb d.direction
        ∷ " NFT #"
        ∷ shown_id d.token_id
        ∷ " of collection "
        ∷ shown_token d.token
        ∷ []))
  delta_line_of erc1155 chain_id d = info_line (
      text (
        verb d.direction
        ∷ " "
        ∷ to_text d.amount
        ∷ " of token #"
        ∷ shown_id d.token_id
        ∷ " in collection "
        ∷ shown_token d.token
        ∷ []))
  delta_line_of erc20 chain_id d = elim (profile_of chain_id d.token) [
    | some p ↦ info_line (
        text (verb d.direction ∷ " " ∷ viem.format_units d.amount p.decimals ∷ " " ∷ p.symbol ∷ []))
    | none ↦ caution_line (
        text (
          verb d.direction
          ∷ " "
          ∷ to_text d.amount
          ∷ " base units of token "
          ∷ shown_token d.token
          ∷ " (unknown token)"
          ∷ []))
  ]

  unfoldable pub asset_delta_line : ℕ → AssetDelta → ConsentDisplayLine
  unfolding delta_line_of
  asset_delta_line chain_id d = delta_line_of d.kind chain_id d

  allowance_text : ℕ → ApprovalGrant → String
  allowance_text chain_id g = elim (get_token_profile chain_id g.token) [
    | some p ↦ text (viem.format_units g.amount p.decimals ∷ " " ∷ p.symbol ∷ [])
    | none ↦ text (to_text g.amount ∷ " base units of token " ∷ g.token ∷ [])
  ]

  grant_line_of : GrantKind → ℕ → ApprovalGrant → ConsentDisplayLine
  unfolding allowance_text
  grant_line_of erc721_all chain_id g =
      if g.approved
      then danger_line (
          text (
            "Approval granted: " ∷ g.spender ∷ " may transfer ALL of your tokens in collection "
            ∷ g.token ∷ []))
      else info_line (
          text (
            "Approval revoked: " ∷ g.spender ∷ " can no longer transfer tokens in collection "
            ∷ g.token ∷ []))
  grant_line_of erc20_allowance chain_id g =
      let base =
        text ("Approval granted: " ∷ g.spender ∷ " may spend " ∷ allowance_text chain_id g ∷ []) in
      if g.unlimited then danger_line (text (base ∷ " — UNLIMITED" ∷ [])) else info_line base

  unfoldable pub approval_grant_line : ℕ → ApprovalGrant → ConsentDisplayLine
  unfolding grant_line_of
  approval_grant_line chain_id g = grant_line_of g.kind chain_id g

  unfoldable pub simulation_display_lines : SimulationResult → ℕ → List ConsentDisplayLine
  unfolding asset_delta_line approval_grant_line
  simulation_display_lines unsimulated chain_id =
      caution_line
        "Not simulated — the details above are decoded from the request, not verified on chain"
      ∷ []
  simulation_display_lines (reverted reason) chain_id =
      danger_line (text ("This transaction would fail on chain: " ∷ reason ∷ [])) ∷ []
  simulation_display_lines (simulated deltas approvals) chain_id =
      map (asset_delta_line chain_id) deltas ++ map (approval_grant_line chain_id) approvals
