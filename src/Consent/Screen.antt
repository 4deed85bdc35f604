-- ===== src/Consent/Screen.antt =====
-- packages/core/src/auth-popup/sign/consent.ts: the approval screen of a transaction.
use avok_js.Base.{
  ℕ, suc, zero, ◌≡◌, String, some, List, [], ◌∷◌, ◌++◌, get_elem?, flat_map, ◌or_else◌, Settled,
  fulfilled, >>=-eq-fulfilled, fulfilled-injective, ap, ◌∙◌, sym,
}
use avok_js.Consent.Types.{RawCall, Viem, ConsentLine, Transaction, sign_transaction, SignConsent}
use avok_js.Consent.Decode.{map_settled, decode_call}
use avok_js.Consent.Request.{
  unwrap_wallet_batch, call_lines, decode_tx_consent, decode_sign_consent, tx_call,
}
use avok_js.Consent.Display.{view_of, evm_call_lines, evm_view_lines, call_line}
use avok_js.Consent.Format.{format_consent_display}

get_elem?-append {ℓ} :
    {A : Type ℓ} (xs ys : List A) (i : ℕ) {x : A}
    → get_elem? xs i ≡ some x
    → get_elem? (xs ++ ys) i ≡ some x
get_elem?-append [] ys i h = cc
get_elem?-append (x ∷ xs) ys zero h = h
get_elem?-append (x ∷ xs) ys (suc i) h = get_elem?-append xs ys i h

map_settled-get_elem? {ℓ κ} :
    {A : Type ℓ} {B : Type κ} (f : A → Settled B) (xs : List A) (i : ℕ) {ys : List B} {x : A}
    → map_settled f xs ≡ fulfilled ys
    → get_elem? xs i ≡ some x
    → (y : B) × (f x ≡ fulfilled y) × (get_elem? ys i ≡ some y)
map_settled-get_elem? f [] i h k = cc
map_settled-get_elem? f (x ∷ xs) zero h k =
    let (y, a, b) = >>=-eq-fulfilled (f x) _ h in
    let (zs, c, d) = >>=-eq-fulfilled (map_settled f xs) _ b in (y, cc, cc)
map_settled-get_elem? f (x ∷ xs) (suc i) h k =
    let (y, a, b) = >>=-eq-fulfilled (f x) _ h in
    let (zs, c, d) = >>=-eq-fulfilled (map_settled f xs) _ b in
    let (w, e, g) = map_settled-get_elem? f xs i c k in
    (w, e, sym (ap (λ ys. get_elem? ys (suc i)) (fulfilled-injective d)) ∙ g)

module _ (viem : Viem) where
  get_elem?-flat_map :
      (chain_id : ℕ) (ls : List ConsentLine) (i : ℕ) {l : ConsentLine}
      → get_elem? ls i ≡ some l
      → get_elem? (flat_map (evm_call_lines viem chain_id) ls) i ≡ some (call_line viem chain_id l)
  unfolding evm_call_lines
  get_elem?-flat_map chain_id [] i h = cc
  get_elem?-flat_map chain_id (x ∷ xs) zero h = cc
  get_elem?-flat_map chain_id (x ∷ xs) (suc i) h = get_elem?-flat_map chain_id xs i h

  abbrev pub tx_bytes : Transaction → String
  tx_bytes tx = tx.bytes or_else "0x"

  -- Each call of the wallet batch that a transaction carries has its own line on the approval screen,
  -- in the order of the batch, and it is the line that the call decodes to.
  pub batch_calls_shown :
      (tx : Transaction) (batch : List RawCall) (i : ℕ) (c : RawCall) (v : SignConsent)
      → unwrap_wallet_batch viem (tx_bytes tx) ≡ some batch
      → get_elem? batch i ≡ some c
      → decode_sign_consent viem (sign_transaction tx) ≡ fulfilled v
      → (l : ConsentLine) × (decode_call viem (tx.chain_id or_else 0) c ≡ fulfilled l)
        × (get_elem? (format_consent_display viem v) (suc i)
            ≡ some (call_line viem (tx.chain_id or_else 0) l))
  unfolding decode_sign_consent decode_tx_consent call_lines format_consent_display evm_view_lines
  batch_calls_shown tx batch i c v u k h =
      let (t, a, b) = >>=-eq-fulfilled (decode_tx_consent viem tx) _ h in
      let (to, d, e) = >>=-eq-fulfilled (viem.get_address _) _ a in
      let (ls, f, g) = >>=-eq-fulfilled (call_lines viem _ _ _) _ e in
      let lines = ap (call_lines viem (tx.chain_id or_else 0) (tx_call viem to tx)) (sym u) ∙ f in
      let (l, j, m) = map_settled-get_elem? (decode_call viem _) batch i lines k in
      (
        l,
        j,
        ap (λ w. get_elem? (format_consent_display viem w) (suc i)) (sym (fulfilled-injective b))
            ∙ ap (λ w. get_elem? (evm_view_lines viem (view_of viem w)) (suc i))
                (sym (fulfilled-injective g))
            ∙ get_elem?-append _ _ i (get_elem?-flat_map (tx.chain_id or_else 0) ls i m),
      )
