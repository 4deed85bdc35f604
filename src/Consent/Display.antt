-- ===== src/Consent/Display.antt =====
-- packages/core/src/auth-popup/sign/consent-display.ts: the decoded request as lines.
use Prim.Native.String
use avok_js.Base.{
  ℕ, String, ◌===◌, to_text, if◌then◌else◌, Bool, true, false, Option, none, some, ◌or_else◌,
  is_some, List, [], ◌∷◌, ◌++◌, flat_map, ◌==◌,
}
use avok_js.Consent.Lines.{ConsentDisplayLine, info_line, caution_line, danger_line}
use avok_js.Consent.Danger.{is_unlimited_amount, big_int}
use avok_js.Consent.Types.{
  Viem, ConsentKind, erc20_transfer, erc20_approve, erc20_increase_allowance, erc20_transfer_from,
  erc721_approve_all, native, ConsentToken, ConsentLine, ConsentView, TxConsent,
}

-- A template, as the list of its pieces.
abbrev pub text : List String → String
text [] = ""
text (p ∷ ps) = String.◌++◌ p (text ps)

chain_names : ℕ → Option String
chain_names id =
    if id == 1
    then some "Ethereum"
    else if id == 10
    then some "Optimism"
    else if id == 8453
    then some "Base"
    else if id == 42161
    then some "Arbitrum"
    else if id == 56
    then some "BNB Chain"
    else if id == 5042002
    then some "Arc"
    else none

pub chain_label : ℕ → String
unfolding chain_names
chain_label id = elim (chain_names id) [
  | none ↦ text ("chain " ∷ to_text id ∷ [])
  | some name ↦ text (name ∷ " (" ∷ to_text id ∷ ")" ∷ [])
]

pub native_symbol : ℕ → String
native_symbol id = if id == 56 then "BNB" else if id == 5042002 then "USDC" else "ETH"

abbrev named_amount : Option String → Option String → Option String
named_amount (some symbol) (some amount) =
    if symbol === "" then none else some (text (amount ∷ " " ∷ symbol ∷ []))
named_amount _ _ = none

-- `t.symbol && t.amount !== undefined`, with what it then reads.
abbrev pub known_amount : ConsentToken → Option String
known_amount t = named_amount t.symbol t.amount

-- The severity of a grant: unlimited is danger, and a token that is not known is caution.
abbrev pub grant_line : Option String → String → String → ConsentDisplayLine
grant_line known base_units base =
    if is_unlimited_amount base_units
    then danger_line (text (base ∷ " — UNLIMITED" ∷ []))
    else if is_some known
    then info_line base
    else caution_line base

abbrev unknown_units : ConsentLine → ConsentToken → String
unknown_units line t =
    text (t.base_units ∷ " base units of token " ∷ line.to ∷ " (unknown token)" ∷ [])

transfer_lines : ConsentLine → ConsentToken → ConsentDisplayLine
transfer_lines line t = elim (known_amount t) [
  | some amount ↦ info_line (text ("Send " ∷ amount ∷ " to " ∷ t.counterparty ∷ []))
  | none ↦ caution_line (text ("Send " ∷ unknown_units line t ∷ " to " ∷ t.counterparty ∷ []))
]

unfoldable pub approve_lines : ConsentLine → ConsentToken → ConsentDisplayLine
approve_lines line t = grant_line (known_amount t) t.base_units (
    text (
      "Approve "
      ∷ t.counterparty
      ∷ " to spend "
      ∷ (known_amount t or_else unknown_units line t)
      ∷ []))

unfoldable pub increase_lines : ConsentLine → ConsentToken → ConsentDisplayLine
increase_lines line t = grant_line (known_amount t) t.base_units (
    text (
      "Increase "
      ∷ t.counterparty
      ∷ "'s allowance by "
      ∷ (known_amount t or_else unknown_units line t)
      ∷ []))

-- The severity goes by the symbol alone.
transfer_from_lines : ConsentLine → ConsentToken → ConsentDisplayLine
transfer_from_lines line t =
    let shown = text (
      "Move "
      ∷ (known_amount t or_else unknown_units line t)
      ∷ " from "
      ∷ (t.from or_else "undefined")
      ∷ " to "
      ∷ t.counterparty
      ∷ []) in
    if (t.symbol or_else "") === "" then caution_line shown else info_line shown

approve_all_lines : ConsentLine → ConsentToken → ConsentDisplayLine
approve_all_lines line t =
    if t.approved or_else false
    then danger_line (
        text (
          "Approve " ∷ t.counterparty ∷ " to transfer ALL of your tokens in collection " ∷ line.to
          ∷ []))
    else info_line (
        text
          ("Revoke " ∷ t.counterparty ∷ "'s approval for all tokens in collection " ∷ line.to ∷ []))

raw_lines : ConsentLine → ConsentDisplayLine
raw_lines line = caution_line (
    text (
      "Unrecognized call to " ∷ line.to ∷ " — value " ∷ line.value_wei ∷ " wei, data " ∷ line.raw
      ∷ []))

module _ (viem : Viem) where
  -- `formatEther`
  abbrev ether : ℕ → String
  ether n = viem.format_units n 18

  -- `formatEther(BigInt(text))`
  abbrev ether_text : String → String
  ether_text wei = ether (big_int wei or_else 0)

  native_lines : ℕ → ConsentLine → ConsentDisplayLine
  native_lines chain_id line = info_line (
      text (
        "Send " ∷ ether_text line.value_wei ∷ " " ∷ native_symbol chain_id ∷ " to " ∷ line.to ∷ []))

  unfoldable pub lines_of_kind :
      ℕ → ConsentLine → ConsentKind → Option ConsentToken → ConsentDisplayLine
  unfolding transfer_lines approve_lines increase_lines transfer_from_lines approve_all_lines
      raw_lines native_lines
  lines_of_kind chain_id line erc20_transfer (some t) = transfer_lines line t
  lines_of_kind chain_id line erc20_approve (some t) = approve_lines line t
  lines_of_kind chain_id line erc20_increase_allowance (some t) = increase_lines line t
  lines_of_kind chain_id line erc20_transfer_from (some t) = transfer_from_lines line t
  lines_of_kind chain_id line erc721_approve_all (some t) = approve_all_lines line t
  lines_of_kind chain_id line native token = native_lines chain_id line
  lines_of_kind chain_id line _ _ = raw_lines line

  -- Each call has exactly one line.
  abbrev pub call_line : ℕ → ConsentLine → ConsentDisplayLine
  call_line chain_id line = lines_of_kind chain_id line line.kind line.token

  unfoldable pub evm_call_lines : ℕ → ConsentLine → List ConsentDisplayLine
  evm_call_lines chain_id line = call_line chain_id line ∷ []

  abbrev is_native : ConsentKind → Bool
  is_native native = true
  is_native _ = false

  fee_line : ℕ → ConsentLine → ConsentDisplayLine
  fee_line chain_id fee = elim fee.token [
    | some t ↦ elim (known_amount t) [
      | some amount ↦
          info_line (text ("Network fee: " ∷ amount ∷ " (repaid to the paymaster)" ∷ []))
      | none ↦ caution_line (text ("Network fee: " ∷ unknown_units fee t ∷ []))
    ]
    | none ↦
        if is_native fee.kind
        then info_line
            (text ("Network fee: " ∷ ether_text fee.value_wei ∷ " " ∷ native_symbol chain_id ∷ []))
        else info_line (text ("Network fee: " ∷ fee.value_wei ∷ " wei to " ∷ fee.to ∷ []))
  ]

  max_fee_line : ℕ → ℕ → ConsentDisplayLine
  max_fee_line chain_id max_fee_wei = info_line (
      text (
        "Network fee: paid by you in "
        ∷ native_symbol chain_id
        ∷ " — at most "
        ∷ ether max_fee_wei
        ∷ ", and only what the transaction actually uses"
        ∷ []))

  fee_lines : ℕ → Option ConsentLine → Option ℕ → List ConsentDisplayLine
  unfolding fee_line max_fee_line
  fee_lines chain_id (some fee) max_fee_wei = fee_line chain_id fee ∷ []
  fee_lines chain_id none (some wei) = max_fee_line chain_id wei ∷ []
  fee_lines chain_id none none = []

  unfoldable pub evm_view_lines : ConsentView → List ConsentDisplayLine
  unfolding fee_lines evm_call_lines
  evm_view_lines view =
      info_line (text ("Chain " ∷ chain_label view.chain_id ∷ []))
      ∷ (flat_map (evm_call_lines view.chain_id) view.calls
          ++ fee_lines view.chain_id view.fee view.max_fee_wei)

  abbrev pub view_of : TxConsent → ConsentView
  view_of t = record {
    chain_id = t.chain_id;
    fee = t.fee;
    max_fee_wei = t.max_fee_wei;
    calls = t.calls;
  }

abbrev pub upgrade_line : String → ℕ → ConsentDisplayLine
upgrade_line delegate chain_id =
    danger_line
      (text ("Authorize account upgrade to " ∷ delegate ∷ " on " ∷ chain_label chain_id ∷ []))

-- `consent.delegation ? [...] : []`
abbrev pub upgrade_lines : Option String → ℕ → List ConsentDisplayLine
upgrade_lines none chain_id = []
upgrade_lines (some d) chain_id = if d === "" then [] else upgrade_line d chain_id ∷ []

abbrev pub sponsored_upgrade : Option String → List ConsentDisplayLine
sponsored_upgrade none = []
sponsored_upgrade (some d) =
    if d === "" then [] else danger_line (text ("Authorize account upgrade to " ∷ d ∷ [])) ∷ []

abbrev pub siwe_order : List (String × String)
siwe_order =
    ("Domain", "domain")
    ∷ ("URI", "uri")
    ∷ ("Statement", "statement")
    ∷ ("Chain", "chainId")
    ∷ ("Nonce", "nonce")
    ∷ ("Issued", "issuedAt")
    ∷ ("Expires", "expirationTime")
    ∷ ("Not before", "notBefore")
    ∷ ("Scheme", "scheme")
    ∷ ("Request id", "requestId")
    ∷ []
