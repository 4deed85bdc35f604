-- ===== src/Recovery/Guardians.antt =====
-- packages/core/src/evm/guardian-reads.ts, and packages/core/src/vault/recover: approve.ts and flow.ts, what
-- is read of a wallet's guardians and what a guardian signs. The RPC's answers, the wallets and the name
-- resolver are arguments.
use Prim.Native.String
use avok_js.Base.{
  ℕ, String, ◌===◌, if◌then◌else◌, Bool, true, false, Option, none, some, List, Settled, fulfilled,
  ◌>>=◌, throw,
}

pub record GuardianConfig : Type 0 where
  pub guardians : List String
  pub threshold : ℕ
  pub recovery_delay_seconds : ℕ
  pub guardian_op_delay_seconds : ℕ

pub record PendingRecovery : Type 0 where
  pub promote_key : String
  pub nonce : ℕ
  pub approvals : ℕ
  pub ready_at : ℕ

pub record GuardianState : Type 0 where
  pub config : GuardianConfig
  pub pending : Option PendingRecovery

abbrev pub zero_address : String
zero_address = "0x0000000000000000000000000000000000000000"

-- `readGuardianState`, of what the two reads settle with.
unfoldable pub read_guardian_state :
    Settled GuardianConfig → Settled PendingRecovery → Settled GuardianState
read_guardian_state config pending = do
  c ← config
  p ← pending
  fulfilled
      (record { config = c; pending = if p.promote_key === zero_address then none else some p })

-- The `types` and the primary type are constants of the code.
pub record RecoveryApprovalTypedData : Type 0 where
  pub name : String
  pub version : String
  pub chain_id : ℕ
  pub verifying_contract : String
  pub promote_key : String
  pub nonce : ℕ

unfoldable pub recovery_approval_typed_data :
    (wallet : String)
    → (chain_id : ℕ) → (promote_key : String) → (nonce : ℕ) → RecoveryApprovalTypedData
recovery_approval_typed_data wallet chain_id promote_key nonce = record {
  name = "Avok Guardians";
  version = "1";
  chain_id = chain_id;
  verifying_contract = wallet;
  promote_key = promote_key;
  nonce = nonce;
}

pub record GuardianApproval : Type 0 where
  pub guardian : String
  pub promote_key : String
  pub nonce : ℕ
  pub signature : String

abbrev pub approval :
    (guardian promote_key : String) → (nonce : ℕ) → (signature : String) → GuardianApproval
approval guardian promote_key nonce signature = record {
  guardian = guardian;
  promote_key = promote_key;
  nonce = nonce;
  signature = signature;
}

-- `approveAsConnectedGuardian`, of what the wallet's `signTypedData` settles with.
abbrev pub approve_as_connected_guardian :
    (guardian promote_key : String) → (nonce : ℕ) → Settled String → Settled GuardianApproval
approve_as_connected_guardian guardian promote_key nonce signed =
    signed >>= λ s. fulfilled (approval guardian promote_key nonce s)

-- `approveWithImportedKey`, of the address of the key and its signature.
abbrev pub approve_with_imported_key :
    (promote_key : String) → (nonce : ℕ) → Settled (String × String) → Settled GuardianApproval
approve_with_imported_key promote_key nonce made =
    made >>= λ (guardian, s). fulfilled (approval guardian promote_key nonce s)

-- viem's `isAddress` and `getAddress`.
pub record AddressTests : Type 0 where
  pub is_address : String → Bool
  pub get_address : String → Settled String

abbrev pub resolved_wallet : AddressTests → String → Option String → Settled String
resolved_wallet t name none =
    throw (String.◌++◌ "Could not resolve \"" (String.◌++◌ name "\" to a wallet address"))
resolved_wallet t name (some address) = t.get_address address

-- `enterWallet`, with what the resolver answers for a name.
unfoldable pub enter_wallet :
    AddressTests → (name_or_address : String) → Settled (Option String) → Settled String
enter_wallet t name_or_address resolved =
    if t.is_address name_or_address
    then t.get_address name_or_address
    else (resolved >>= resolved_wallet t name_or_address)

pub record VetoView : Type 0 where
  pub pending : Option PendingRecovery
  pub can_veto : Bool

abbrev pub veto_of : Option PendingRecovery → VetoView
veto_of none = record { pending = none; can_veto = false }
veto_of (some p) = record { pending = some p; can_veto = true }

unfoldable pub veto_view : Settled GuardianState → Settled VetoView
veto_view read = read >>= λ g. fulfilled (veto_of g.pending)
