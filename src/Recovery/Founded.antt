-- ===== src/Recovery/Founded.antt =====
-- packages/core/src/auth-popup/recover/ceremony.ts: what the steps and the jobs of the recovery screen rest on.
use avok_js.Base.{
  ℕ, zero, suc, ◌≡◌, ◌≢◌, refl, subst, true, Option, none, some, List, [], ◌∷◌, get_elem?, Any,
  there, All,
}
use avok_js.Recovery.Guardians.{
  GuardianApproval, PendingRecovery, RecoveryApprovalTypedData, recovery_approval_typed_data,
}
use avok_js.Recovery.{
  Approving, RecoverState, enter, resolving, guardian_state, approving, submitted, error, Job,
  entering, reading, minting, connecting, signing, importing, Happening, guardians_read, key_minted,
  signature_asked, import_asked, Screen, moved, waits, noted, is_guardian, typed_data_of,
  without_job, nonce_for,
}

abbrev pub Happened : Happening → List Happening → Type 0
Happened h trace = Any (λ g. g ≡ h) trace

some-injective : {A : Type 0} {a b : A} → some a ≡ some b → a ≡ b
some-injective h = cc

-- The wallet's guardians were read, there are some, and this key was minted.
pub record IsFounded (a : Approving) (trace : List Happening) : Type 0 where
  pub was_read : Happened (guardians_read a.snapshot) trace
  pub has_guardians : a.snapshot.config.guardians ≢ []
  pub was_minted : Happened (key_minted a.promote_key) trace

-- The nonce of the recovery that was read as pending; 0 where none is pending, which no read names.
abbrev pub NonceOf : Option PendingRecovery → ℕ → Type 0
NonceOf none nonce = nonce ≡ 0
NonceOf (some pending) nonce = nonce ≡ pending.nonce

nonce_for-NonceOf : (pending : Option PendingRecovery) → NonceOf pending (nonce_for pending)
nonce_for-NonceOf none = refl
nonce_for-NonceOf (some pending) = refl

module _ (chain_id : ℕ) where
  -- The data to sign are for the wallet that was read, on this chain, with the key and the nonce.
  pub record AsksFor (a : Approving) (d : RecoveryApprovalTypedData) : Type 0 where
    pub for_wallet : d.verifying_contract ≡ a.snapshot.wallet
    pub on_chain : d.chain_id ≡ chain_id
    pub for_key : d.promote_key ≡ a.promote_key
    pub with_nonce : NonceOf a.snapshot.pending d.nonce

  pub typed_data_of-AsksFor : (a : Approving) → AsksFor a (typed_data_of chain_id a)
  unfolding recovery_approval_typed_data
  typed_data_of-AsksFor a = record {
    for_wallet = refl;
    on_chain = refl;
    for_key = refl;
    with_nonce = nonce_for-NonceOf a.snapshot.pending;
  }

  abbrev pub IsGrounded : Happening → List Happening → Type 0
  IsGrounded (signature_asked guardian data_) older =
      (a : Approving) × IsFounded a older
      × (is_guardian a.snapshot.config guardian ≡ true)
      × AsksFor a data_
  IsGrounded (import_asked data_) older = (a : Approving) × IsFounded a older × AsksFor a data_
  IsGrounded _ older = Unit

  abbrev pub EachGrounded : List Happening → Type 0
  EachGrounded [] = Unit
  EachGrounded (h ∷ trace) = IsGrounded h trace × EachGrounded trace

  -- An approval carries the key and the nonce of data that a guardian was asked to sign; by its address, if
  -- a connected guardian was.
  abbrev pub Backs : GuardianApproval → Happening → Type 0
  Backs p (signature_asked guardian data_) =
      (p.guardian ≡ guardian) × (p.promote_key ≡ data_.promote_key) × (p.nonce ≡ data_.nonce)
  Backs p (import_asked data_) = (p.promote_key ≡ data_.promote_key) × (p.nonce ≡ data_.nonce)
  Backs p _ = ⊥

  abbrev pub IsBacked : RecoverState → List Happening → Type 0
  IsBacked (submitted p) trace = Any (Backs p) trace
  IsBacked _ trace = Unit

  abbrev pub StateOk : RecoverState → List Happening → Type 0
  StateOk (guardian_state sn) trace = Happened (guardians_read sn) trace
  StateOk (approving a e) trace = IsFounded a trace
  StateOk (submitted p) trace = Any (Backs p) trace
  StateOk _ trace = Unit

  abbrev pub JobOk : List Happening → Job → Type 0
  JobOk trace entering = Unit
  JobOk trace (reading wallet) = Unit
  JobOk trace (minting sn) = Happened (guardians_read sn) trace × (sn.config.guardians ≢ [])
  JobOk trace (connecting a) = IsFounded a trace
  JobOk trace (signing a guardian) =
      IsFounded a trace × Happened (signature_asked guardian (typed_data_of chain_id a)) trace
  JobOk trace (importing a) =
      IsFounded a trace × Happened (import_asked (typed_data_of chain_id a)) trace

  pub record Invariant (s : Screen) : Type 0 where
    pub state_ok : StateOk s.state s.trace
    pub jobs_ok : All (JobOk s.trace) s.jobs
    pub trace_ok : EachGrounded s.trace

  pub IsFounded-later :
      (h : Happening) (a : Approving) (trace : List Happening)
      → IsFounded a trace
      → IsFounded a (h ∷ trace)
  IsFounded-later h a trace f = record {
    was_read = there f.was_read;
    has_guardians = f.has_guardians;
    was_minted = there f.was_minted;
  }

  state_later :
      (h : Happening) (st : RecoverState) (trace : List Happening)
      → StateOk st trace
      → StateOk st (h ∷ trace)
  state_later h enter trace k = tt
  state_later h resolving trace k = tt
  state_later h (guardian_state sn) trace k = there k
  state_later h (approving a e) trace k = IsFounded-later h a trace k
  state_later h (submitted p) trace k = there k
  state_later h (error m) trace k = tt

  job_later :
      (h : Happening) (j : Job) (trace : List Happening) → JobOk trace j → JobOk (h ∷ trace) j
  job_later h entering trace k = tt
  job_later h (reading w) trace k = tt
  job_later h (minting sn) trace (k, l) = (there k, l)
  job_later h (connecting a) trace k = IsFounded-later h a trace k
  job_later h (signing a g) trace (k, l) = (IsFounded-later h a trace k, there l)
  job_later h (importing a) trace (k, l) = (IsFounded-later h a trace k, there l)

  jobs_later :
      (h : Happening) (js : List Job) (trace : List Happening)
      → All (JobOk trace) js
      → All (JobOk (h ∷ trace)) js
  jobs_later h [] trace k = tt
  jobs_later h (j ∷ js) trace (k, ks) = (job_later h j trace k, jobs_later h js trace ks)

  pub noted-Invariant :
      (h : Happening) (s : Screen) → IsGrounded h s.trace → Invariant s → Invariant (noted h s)
  noted-Invariant h s g i = record {
    state_ok = state_later h s.state s.trace i.state_ok;
    jobs_ok = jobs_later h s.jobs s.trace i.jobs_ok;
    trace_ok = (g, i.trace_ok);
  }

  pub moved-Invariant :
      (st : RecoverState) (s : Screen) → StateOk st s.trace → Invariant s → Invariant (moved st s)
  moved-Invariant st s k i = record { state_ok = k; jobs_ok = i.jobs_ok; trace_ok = i.trace_ok }

  pub waits-Invariant :
      (j : Job) (s : Screen) → JobOk s.trace j → Invariant s → Invariant (waits j s)
  waits-Invariant j s k i = record {
    state_ok = i.state_ok;
    jobs_ok = (k, i.jobs_ok);
    trace_ok = i.trace_ok;
  }

  pub without_job-ok :
      (n : ℕ) (js : List Job) (trace : List Happening)
      → All (JobOk trace) js
      → All (JobOk trace) (without_job chain_id n js)
  without_job-ok n [] trace k = tt
  without_job-ok zero (j ∷ js) trace (k, ks) = ks
  without_job-ok (suc n) (j ∷ js) trace (k, ks) = (k, without_job-ok n js trace ks)

  pub job_at-ok :
      (n : ℕ) (js : List Job) (j : Job) (trace : List Happening)
      → All (JobOk trace) js
      → get_elem? js n ≡ some j
      → JobOk trace j
  job_at-ok n [] j trace k h = cc
  job_at-ok zero (i ∷ js) j trace (k, ks) h = subst (JobOk trace) (some-injective h) k
  job_at-ok (suc n) (i ∷ js) j trace (k, ks) h = job_at-ok n js j trace ks h
