-- ===== src/Consent/Decode.antt =====
-- packages/core/src/auth-popup/sign/consent.ts: decoding a request from the bytes that are signed.
use avok_js.Base.{
  ℕ, ltb, String, ◌===◌, to_text, if◌then◌else◌, ◌&&◌, Option, none, some, List, [], ◌∷◌, Settled,
  fulfilled, ◌>>=◌,
}
use avok_js.Registry.{get_token_profile}
use avok_js.Registry.Profiles.{EvmTokenProfile}
use avok_js.Consent.Types.{
  RawCall, Erc20Call, transfer, approve, transfer_from, other_erc20, ExtraCall,
  set_approval_for_all, increase_allowance, Viem, ConsentKind, erc20_transfer, erc20_approve,
  erc20_increase_allowance, erc20_transfer_from, erc721_approve_all, native, raw, ConsentToken,
  ConsentLine,
}

-- A map over calls that stops at the first throw.
abbrev pub map_settled {ℓ κ} :
    {A : Type ℓ} {B : Type κ} → (A → Settled B) → List A → Settled (List B)
map_settled f [] = fulfilled []
map_settled f (x ∷ xs) = do y ← f x; ys ← map_settled f xs; fulfilled (y ∷ ys)

-- The three fields of a registered token; none of them for another token.
module _ (format_units : ℕ → ℕ → String) where
  abbrev pub with_profile : Option EvmTokenProfile → ℕ → ConsentToken → ConsentToken
  with_profile none amount t = t
  with_profile (some p) amount t = record t {
    symbol = some p.symbol;
    decimals = some p.decimals;
    amount = some (format_units amount p.decimals);
  }

abbrev pub bare_token : ℕ → String → ConsentToken
bare_token amount counterparty = record {
  symbol = none;
  decimals = none;
  amount = none;
  base_units = to_text amount;
  counterparty = counterparty;
  from = none;
  approved = none;
}

abbrev line_of : String → RawCall → ConsentKind → Option ConsentToken → ConsentLine
line_of to call kind token = record {
  to = to;
  value_wei = to_text call.value;
  kind = kind;
  token = token;
  raw = call.bytes;
}

module _ (viem : Viem) where
  -- The line of a call that moves or grants an amount.
  abbrev pub amount_line : ℕ → String → RawCall → ConsentKind → ConsentToken → ℕ → ConsentLine
  amount_line chain_id to call kind token amount =
      line_of to call kind
        (some (with_profile viem.format_units (get_token_profile chain_id to) amount token))

  -- The first `try`: none where the function is another one of the ABI.
  unfoldable pub erc20_line : ℕ → String → RawCall → Erc20Call → Settled (Option ConsentLine)
  erc20_line chain_id to call (transfer recipient amount) = do
    who ← viem.get_address recipient
    fulfilled (some (amount_line chain_id to call erc20_transfer (bare_token amount who) amount))
  erc20_line chain_id to call (approve spender amount) = do
    who ← viem.get_address spender
    fulfilled (some (amount_line chain_id to call erc20_approve (bare_token amount who) amount))
  erc20_line chain_id to call (transfer_from from dest amount) = do
    who ← viem.get_address dest
    owner ← viem.get_address from
    fulfilled (
        some (
          amount_line chain_id to call erc20_transfer_from
            (record (bare_token amount who) { from = some owner }) amount))
  erc20_line chain_id to call other_erc20 = fulfilled none

  -- The second `try`.
  unfoldable pub extra_line : ℕ → String → RawCall → ExtraCall → Settled (Option ConsentLine)
  extra_line chain_id to call (set_approval_for_all operator approved) = do
    who ← viem.get_address operator
    fulfilled (
        some (
          line_of to call erc721_approve_all
            (some (record (bare_token 0 who) { approved = some approved }))))
  extra_line chain_id to call (increase_allowance spender amount) = do
    who ← viem.get_address spender
    fulfilled (
        some (amount_line chain_id to call erc20_increase_allowance (bare_token amount who) amount))

  -- Neither: a transfer of native value, or bytes that are shown raw.
  unfoldable pub plain_line : String → RawCall → ConsentLine
  plain_line to call =
      if ltb 0 call.value && call.bytes === "0x"
      then line_of to call native none
      else line_of to call raw none

  unfoldable pub or_extra : ℕ → String → RawCall → Settled (Option ConsentLine) → ConsentLine
  or_extra chain_id to call (fulfilled (some line)) = line
  or_extra chain_id to call _ = plain_line to call

  unfoldable pub or_erc20 : ℕ → String → RawCall → Settled (Option ConsentLine) → ConsentLine
  unfolding or_extra extra_line plain_line
  or_erc20 chain_id to call (fulfilled (some line)) = line
  or_erc20 chain_id to call _ =
      or_extra chain_id to call (viem.decode_extra call.bytes >>= extra_line chain_id to call)

  unfoldable pub decode_call : ℕ → RawCall → Settled ConsentLine
  unfolding or_erc20 erc20_line
  decode_call chain_id call = do
    to ← viem.get_address call.to
    fulfilled
        (or_erc20 chain_id to call (viem.decode_erc20 call.bytes >>= erc20_line chain_id to call))
