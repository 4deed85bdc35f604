-- ===== src/Consent/Format.antt =====
-- packages/core/src/auth-popup/sign/consent-display.ts: the whole approval screen of a request.
use Prim.Native.Char.{Char, code}
use avok_js.Base.{
  ℕ, ◌==◌, String, ◌===◌, if◌then◌else◌, Option, none, some, List, [], ◌∷◌, ◌++◌, map, flat_map,
}
use avok_js.Registry.{lookup}
use avok_js.Consent.Lines.{ConsentDisplayLine, info_line, danger_line}
use avok_js.Consent.Danger.{is_unlimited_amount, dangerous_primary_type}
use avok_js.Consent.Types.{
  Viem, Domain, LabelledValue, GenericTypedDataView, SignConsent, typed_data, typed_data_generic,
  message, siwe, transaction, send, sponsored, user_op, authorization,
}
use avok_js.Consent.Display.{
  text, chain_label, evm_view_lines, view_of, upgrade_line, upgrade_lines, sponsored_upgrade,
  siwe_order,
}

-- `s.split("\n")`: a piece more than there are line breaks.
abbrev push_char : Char → List String → List String
push_char c [] = String.◌∷◌ c "" ∷ []
push_char c (l ∷ ls) = String.◌∷◌ c l ∷ ls

unfoldable pub split_lines : String → List String
split_lines String.[] = "" ∷ []
split_lines (String.◌∷◌ c s) =
    let rest = split_lines s in if code c == 10 then "" ∷ rest else push_char c rest

abbrev siwe_line : List (String × String) → String × String → List ConsentDisplayLine
siwe_line fields (label, key) = elim (lookup key fields) [
  | none ↦ []
  | some v ↦ info_line (text (label ∷ ": " ∷ v ∷ [])) ∷ []
]

abbrev resource_lines : Option String → List ConsentDisplayLine
resource_lines none = []
resource_lines (some r) = info_line "Resources:" ∷ map info_line (split_lines r)

unfoldable pub siwe_lines : List (String × String) → List ConsentDisplayLine
siwe_lines fields =
    flat_map (siwe_line fields) siwe_order ++ resource_lines (lookup "resources" fields)

-- `if (s) ...`: the lines of a text that is there and is not empty.
abbrev when_named : Option String → (String → ConsentDisplayLine) → List ConsentDisplayLine
when_named none line = []
when_named (some s) line = if s === "" then [] else line s ∷ []

abbrev version_suffix : Option String → String
version_suffix none = ""
version_suffix (some v) = if v === "" then "" else text (" v" ∷ v ∷ [])

abbrev chain_lines : Option ℕ → List ConsentDisplayLine
chain_lines none = []
chain_lines (some id) = info_line (text ("Chain " ∷ chain_label id ∷ [])) ∷ []

abbrev danger_lines : Option String → List ConsentDisplayLine
danger_lines none = []
danger_lines (some reason) = danger_line reason ∷ []

unfoldable pub domain_lines : Domain → List ConsentDisplayLine
domain_lines d =
    when_named d.name (λ n. info_line (text ("From: " ∷ n ∷ version_suffix d.version ∷ [])))
    ++ (chain_lines d.chain_id
        ++ when_named d.verifying_contract (λ a. info_line (text ("Contract: " ∷ a ∷ []))))

abbrev pub field_line : LabelledValue → ConsentDisplayLine
field_line f =
    let shown = text (f.label ∷ ": " ∷ f.value ∷ []) in
    if is_unlimited_amount f.value then danger_line shown else info_line shown

unfoldable pub generic_lines : GenericTypedDataView → List ConsentDisplayLine
generic_lines v =
    danger_lines (dangerous_primary_type v.primary_type)
    ++ (info_line "Sign structured data"
        ∷ info_line (text ("Type: " ∷ v.primary_type ∷ []))
        ∷ (domain_lines v.domain ++ (info_line "" ∷ map field_line v.fields)))

module _ (viem : Viem) where
  unfoldable pub format_consent_display : SignConsent → List ConsentDisplayLine
  unfolding evm_view_lines siwe_lines generic_lines
  format_consent_display (message m) = info_line "Sign message:" ∷ info_line m ∷ []
  format_consent_display (typed_data view) = evm_view_lines viem view
  format_consent_display (transaction t) = evm_view_lines viem (view_of viem t)
  format_consent_display (authorization chain_id implementation) =
      upgrade_line implementation chain_id ∷ []
  format_consent_display (send t delegation) =
      upgrade_lines delegation t.chain_id ++ evm_view_lines viem (view_of viem t)
  format_consent_display (sponsored view delegation) =
      sponsored_upgrade delegation ++ evm_view_lines viem view
  format_consent_display (user_op chain_id lines delegation) =
      upgrade_lines delegation chain_id
      ++ evm_view_lines viem
          (record { chain_id = chain_id; fee = none; max_fee_wei = none; calls = lines })
  format_consent_display (siwe fields) = siwe_lines fields
  format_consent_display (typed_data_generic v) = generic_lines v
