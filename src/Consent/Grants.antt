-- ===== src/Consent/Grants.antt =====
-- packages/core/src/auth-popup/sign/danger.ts: the grade of a call that grants an allowance.
use avok_js.Base.{
  ℕ, ◌≤◌, ◌↔◌, ◌≡◌, refl, arith, String, to_text, Option, none, some, fulfilled, rejected, Failure,
}
use avok_js.Registry.{get_token_profile}
use avok_js.Registry.Profiles.{EvmTokenProfile}
use avok_js.Consent.Lines.{danger, Severity}
use avok_js.Consent.Danger.{unlimited_uint160_threshold}
use avok_js.Consent.Danger.Amounts.{is_unlimited_amount-to_text}
use avok_js.Consent.Types.{
  RawCall, Viem, erc20_approve, erc20_increase_allowance, approve, increase_allowance, ConsentLine,
  ConsentToken,
}
use avok_js.Consent.Decode.{
  decode_call, amount_line, bare_token, with_profile, or_erc20, or_extra, erc20_line, extra_line,
}
use avok_js.Consent.Display.{
  known_amount, call_line, lines_of_kind, grant_line, approve_lines, increase_lines,
}

-- `approve`, or `increaseAllowance` where the data is no call of `erc20Abi`.
pub data GrantsAllowance (viem : Viem) (spender : String) (amount : ℕ) (bytes : String)
    : Type 0 where
  by_approve :
      viem.decode_erc20 bytes ≡ fulfilled (approve spender amount)
      → GrantsAllowance viem spender amount bytes
  by_increase :
      {f : Failure}
      → viem.decode_erc20 bytes ≡ rejected f
      → viem.decode_extra bytes ≡ fulfilled (increase_allowance spender amount)
      → GrantsAllowance viem spender amount bytes

grant_line-danger :
    (known : Option String) (n : ℕ) (base : String)
    → ((grant_line known (to_text n) base).severity ≡ danger) ↔ (unlimited_uint160_threshold ≤ n)
grant_line-danger known n base = let e = is_unlimited_amount-to_text n in ground (arith, e)

module _ (viem : Viem) where
  abbrev severity_of : ℕ → ConsentLine → Severity
  severity_of chain_id l = (call_line viem chain_id l).severity

  abbrev granted : Option EvmTokenProfile → ℕ → String → ConsentToken
  granted p amount who = with_profile viem.format_units p amount (bare_token amount who)

  approve_lines-danger :
      (p : Option EvmTokenProfile) (l : ConsentLine) (amount : ℕ) (who : String)
      → ((approve_lines l (granted p amount who)).severity ≡ danger)
        ↔ (unlimited_uint160_threshold ≤ amount)
  unfolding approve_lines
  approve_lines-danger none l amount who =
      grant_line-danger (known_amount (granted none amount who)) amount _
  approve_lines-danger (some p) l amount who =
      grant_line-danger (known_amount (granted (some p) amount who)) amount _

  increase_lines-danger :
      (p : Option EvmTokenProfile) (l : ConsentLine) (amount : ℕ) (who : String)
      → ((increase_lines l (granted p amount who)).severity ≡ danger)
        ↔ (unlimited_uint160_threshold ≤ amount)
  unfolding increase_lines
  increase_lines-danger none l amount who =
      grant_line-danger (known_amount (granted none amount who)) amount _
  increase_lines-danger (some p) l amount who =
      grant_line-danger (known_amount (granted (some p) amount who)) amount _

  -- A call that grants an allowance is shown at danger exactly when the amount is 2 ^ 159 or more,
  -- for a registered token and for any other, and whether it sets the allowance or raises it.
  pub allowance_danger :
      (chain_id : ℕ) (c : RawCall) (spender who to : String) (amount : ℕ)
      → GrantsAllowance viem spender amount c.bytes
      → viem.get_address spender ≡ fulfilled who
      → viem.get_address c.to ≡ fulfilled to
      → (l : ConsentLine) × (decode_call viem chain_id c ≡ fulfilled l)
        × ((severity_of chain_id l ≡ danger) ↔ (unlimited_uint160_threshold ≤ amount))
  unfolding decode_call or_erc20 or_extra erc20_line extra_line lines_of_kind
  allowance_danger chain_id c spender who to amount (by_approve e) w t =
      let l = amount_line viem chain_id to c erc20_approve (bare_token amount who) amount in
      (
        l,
        rw t (rw e (rw w refl)),
        approve_lines-danger (get_token_profile chain_id to) l amount who,
      )
  allowance_danger chain_id c spender who to amount (by_increase e g) w t =
      let l =
        amount_line viem chain_id to c erc20_increase_allowance (bare_token amount who) amount in
      (
        l,
        rw t (rw e (rw g (rw w refl))),
        increase_lines-danger (get_token_profile chain_id to) l amount who,
      )
