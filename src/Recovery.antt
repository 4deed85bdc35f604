-- ===== src/Recovery.antt =====
-- packages/core/src/auth-popup/recover/ceremony.ts: the recovery screen. Its methods wait for promises and may
-- be called again meanwhile, so a call is an event that starts a job, and the settling of what a job waits for
-- is another event, in any order. The screen keeps the closure's state, the jobs in flight and the trace of
-- what was read, minted and asked for, newest first.
pub mod Guardians
pub mod Founded
pub mod Safety
use Prim.Native.String
use avok_js.Base.{
  ℕ, zero, suc, String, ◌===◌, to_lower_case, if◌then◌else◌, Bool, Option, none, some, List, [],
  ◌∷◌, ◌++◌, get_elem?, any, Settled, fulfilled, rejected,
}
use avok_js.Recovery.Guardians.{
  GuardianConfig, PendingRecovery, GuardianApproval, RecoveryApprovalTypedData,
  recovery_approval_typed_data, approve_as_connected_guardian, approve_with_imported_key,
  GuardianState,
}

-- What was read of one wallet.
pub record Snapshot : Type 0 where
  pub wallet : String
  pub config : GuardianConfig
  pub pending : Option PendingRecovery

abbrev pub snapshot_of : String → GuardianState → Snapshot
snapshot_of wallet g = record { wallet = wallet; config = g.config; pending = g.pending }

-- The members of the approving step, without its error.
pub record Approving : Type 0 where
  pub snapshot : Snapshot
  pub promote_key : String

pub data RecoverState : Type 0 where
  enter resolving : RecoverState
  guardian_state : Snapshot → RecoverState
  approving : Approving → (error : Option String) → RecoverState
  submitted : GuardianApproval → RecoverState
  error : (message : String) → RecoverState

-- `nonceFor`
abbrev pub nonce_for : Option PendingRecovery → ℕ
nonce_for none = 0
nonce_for (some pending) = pending.nonce

-- What a method that is under way waits for.
pub data Job : Type 0 where
  entering : Job
  reading : (wallet : String) → Job
  minting : Snapshot → Job
  connecting : Approving → Job
  signing : Approving → (guardian : String) → Job
  importing : Approving → Job

pub data Happening : Type 0 where
  guardians_read : Snapshot → Happening
  key_minted : String → Happening
  signature_asked : (guardian : String) → RecoveryApprovalTypedData → Happening
  import_asked : RecoveryApprovalTypedData → Happening

pub record Screen : Type 0 where
  pub state : RecoverState
  pub jobs : List Job
  pub trace : List Happening

abbrev pub start : Screen
start = record { state = enter; jobs = []; trace = [] }

abbrev pub moved : RecoverState → Screen → Screen
moved state s = record s { state = state }

abbrev pub waits : Job → Screen → Screen
waits j s = record s { jobs = j ∷ s.jobs }

abbrev pub noted : Happening → Screen → Screen
noted h s = record s { trace = h ∷ s.trace }

abbrev pub no_guardians : String
no_guardians = "This wallet has no guardians configured — recovery is not available."

abbrev pub begin_with : Snapshot → List String → Screen → Screen
begin_with sn [] s = moved (error no_guardians) s
begin_with sn (g ∷ gs) s = waits (minting sn) s

-- `beginApproval`, up to its first wait; it throws in any other step.
unfoldable pub begin_approval : RecoverState → Screen → Screen
begin_approval (guardian_state sn) s = begin_with sn sn.config.guardians s
begin_approval _ s = s

-- `approveWithConnectedGuardian`, up to its first wait.
unfoldable pub approve_with_connected_guardian : RecoverState → Screen → Screen
approve_with_connected_guardian (approving a e) s = waits (connecting a) s
approve_with_connected_guardian _ s = s

abbrev pub is_guardian : GuardianConfig → String → Bool
is_guardian config guardian = any (λ g. to_lower_case g === to_lower_case guardian) config.guardians

module _ (chain_id : ℕ) where
  abbrev pub typed_data_of : Approving → RecoveryApprovalTypedData
  typed_data_of a =
      recovery_approval_typed_data a.snapshot.wallet chain_id a.promote_key
        (nonce_for a.snapshot.pending)

  -- `approveWithImportedKey`, up to its first wait.
  unfoldable pub approve_with_imported : RecoverState → Screen → Screen
  approve_with_imported (approving a e) s =
      noted (import_asked (typed_data_of a)) (waits (importing a) s)
  approve_with_imported _ s = s

  pub data Outcome : Type 0 where
    wallet_entered : Settled String → Outcome
    state_read : Settled GuardianState → Outcome
    minted : Settled String → Outcome
    connected : Settled String → Outcome
    signed : Settled String → Outcome
    imported : Settled (String × String) → Outcome

  unfoldable pub on_entered : Settled String → Screen → Screen
  on_entered (fulfilled wallet) s = waits (reading wallet) s
  on_entered (rejected e) s = moved (error e.message) s

  unfoldable pub on_read : String → Settled GuardianState → Screen → Screen
  on_read wallet (fulfilled g) s =
      noted (guardians_read (snapshot_of wallet g))
        (moved (guardian_state (snapshot_of wallet g)) s)
  on_read wallet (rejected e) s = moved (error e.message) s

  -- A rejection leaves the step.
  unfoldable pub on_minted : Snapshot → Settled String → Screen → Screen
  on_minted sn (fulfilled address) s =
      noted (key_minted address)
        (moved (approving (record { snapshot = sn; promote_key = address }) none) s)
  on_minted sn (rejected e) s = s

  abbrev pub not_a_guardian : String → String
  not_a_guardian guardian = String.◌++◌ guardian " is not a guardian of this wallet"

  unfoldable pub on_connected : Approving → Settled String → Screen → Screen
  on_connected a (fulfilled guardian) s =
      if is_guardian a.snapshot.config guardian
      then noted (signature_asked guardian (typed_data_of a)) (waits (signing a guardian) s)
      else moved (approving a (some (not_a_guardian guardian))) s
  on_connected a (rejected e) s = moved (approving a (some e.message)) s

  abbrev pub on_approval : Approving → Settled GuardianApproval → Screen → Screen
  on_approval a (fulfilled approval) s = moved (submitted approval) s
  on_approval a (rejected e) s = moved (approving a (some e.message)) s

  abbrev pub as_entered : Outcome → Option (Settled String)
  as_entered (wallet_entered r) = some r
  as_entered _ = none

  abbrev pub as_read : Outcome → Option (Settled GuardianState)
  as_read (state_read r) = some r
  as_read _ = none

  abbrev pub as_minted : Outcome → Option (Settled String)
  as_minted (minted r) = some r
  as_minted _ = none

  abbrev pub as_connected : Outcome → Option (Settled String)
  as_connected (connected r) = some r
  as_connected _ = none

  abbrev pub as_signed : Outcome → Option (Settled String)
  as_signed (signed r) = some r
  as_signed _ = none

  abbrev pub as_imported : Outcome → Option (Settled (String × String))
  as_imported (imported r) = some r
  as_imported _ = none

  -- Of an outcome that the job does not wait for, nothing.
  abbrev pub answered : {A : Type 0} → Option A → (A → Screen → Screen) → Screen → Screen
  answered none f s = s
  answered (some r) f s = f r s

  abbrev pub on_signed : Approving → String → Settled String → Screen → Screen
  on_signed a guardian r s =
      on_approval a
        (approve_as_connected_guardian guardian a.promote_key (nonce_for a.snapshot.pending) r) s

  abbrev pub on_imported : Approving → Settled (String × String) → Screen → Screen
  on_imported a r s =
      on_approval a (approve_with_imported_key a.promote_key (nonce_for a.snapshot.pending) r) s

  unfoldable pub resume : Job → Outcome → Screen → Screen
  unfolding on_entered on_read on_minted on_connected
  resume entering o s = answered (as_entered o) on_entered s
  resume (reading wallet) o s = answered (as_read o) (on_read wallet) s
  resume (minting sn) o s = answered (as_minted o) (on_minted sn) s
  resume (connecting a) o s = answered (as_connected o) (on_connected a) s
  resume (signing a guardian) o s = answered (as_signed o) (on_signed a guardian) s
  resume (importing a) o s = answered (as_imported o) (on_imported a) s

  pub data Event : Type 0 where
    call_enter_wallet call_begin_approval call_connected_guardian call_imported_key : Event
    settled : (job : ℕ) → Outcome → Event

  abbrev pub without_job : ℕ → List Job → List Job
  without_job i [] = []
  without_job zero (j ∷ js) = js
  without_job (suc i) (j ∷ js) = j ∷ without_job i js

  abbrev pub resumed : Option Job → Outcome → Screen → Screen
  resumed none o s = s
  resumed (some j) o s = resume j o s

  unfoldable pub step : Screen → Event → Screen
  unfolding begin_approval approve_with_connected_guardian approve_with_imported resume
  step s call_enter_wallet = waits entering (moved resolving s)
  step s call_begin_approval = begin_approval s.state s
  step s call_connected_guardian = approve_with_connected_guardian s.state s
  step s call_imported_key = approve_with_imported s.state s
  step s (settled i o) = resumed (get_elem? s.jobs i) o (record s { jobs = without_job i s.jobs })

  unfoldable pub run : Screen → List Event → Screen
  unfolding step
  run s [] = s
  run s (e ∷ es) = run (step s e) es
