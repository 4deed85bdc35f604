-- ===== src/Recovery/Safety.antt =====
-- packages/core/src/auth-popup/recover/ceremony.ts: what a guardian is asked to sign.
use avok_js.Base.{
  ℕ, ◌≡◌, refl, sym, ◌∙◌, subst, String, Option, none, some, List, [], ◌∷◌, get_elem?, Any, here,
  there, Settled, fulfilled, rejected, Bool-cases, inl, inr,
}
use avok_js.Recovery.Guardians.{
  GuardianApproval, GuardianState, recovery_approval_typed_data, approval,
}
use avok_js.Recovery.{
  Snapshot, snapshot_of, Approving, RecoverState, enter, resolving, guardian_state, approving,
  submitted, error, nonce_for, Job, entering, reading, minting, connecting, signing, importing,
  Happening, guardians_read, key_minted, signature_asked, import_asked, Screen, start, begin_with,
  begin_approval, approve_with_connected_guardian, is_guardian, typed_data_of,
  approve_with_imported, Outcome, on_entered, on_read, on_minted, on_connected, resume, Event,
  call_enter_wallet, call_begin_approval, call_connected_guardian, call_imported_key, settled,
  resumed, step, run, on_signed, on_imported, answered, as_entered, as_read, as_minted,
  as_connected, as_signed, as_imported,
}
use avok_js.Recovery.Founded.{
  IsFounded-later, Happened, IsFounded, EachGrounded, Backs, IsBacked, StateOk, JobOk, Invariant,
  noted-Invariant, moved-Invariant, waits-Invariant, without_job-ok, job_at-ok,
  typed_data_of-AsksFor,
}

module _ (chain_id : ℕ) where
  begun-Invariant :
      (sn : Snapshot) (gs : List String) (s : Screen)
      → sn.config.guardians ≡ gs
      → Happened (guardians_read sn) s.trace
      → Invariant chain_id s
      → Invariant chain_id (begin_with sn gs s)
  begun-Invariant sn [] s e r i = moved-Invariant chain_id (error _) s tt i
  begun-Invariant sn (g ∷ gs) s e r i =
      waits-Invariant chain_id (minting sn) s (r, λ h. let k = sym e ∙ h in cc) i

  begin_approval-Invariant :
      (st : RecoverState) (s : Screen)
      → StateOk chain_id st s.trace
      → Invariant chain_id s
      → Invariant chain_id (begin_approval st s)
  unfolding begin_approval
  begin_approval-Invariant (guardian_state sn) s k i = begun-Invariant sn _ s refl k i
  begin_approval-Invariant enter s k i = i
  begin_approval-Invariant resolving s k i = i
  begin_approval-Invariant (approving a e) s k i = i
  begin_approval-Invariant (submitted p) s k i = i
  begin_approval-Invariant (error m) s k i = i

  connect-Invariant :
      (st : RecoverState) (s : Screen)
      → StateOk chain_id st s.trace
      → Invariant chain_id s
      → Invariant chain_id (approve_with_connected_guardian st s)
  unfolding approve_with_connected_guardian
  connect-Invariant (approving a e) s k i = waits-Invariant chain_id (connecting a) s k i
  connect-Invariant (guardian_state sn) s k i = i
  connect-Invariant enter s k i = i
  connect-Invariant resolving s k i = i
  connect-Invariant (submitted p) s k i = i
  connect-Invariant (error m) s k i = i

  import-Invariant :
      (st : RecoverState) (s : Screen)
      → StateOk chain_id st s.trace
      → Invariant chain_id s
      → Invariant chain_id (approve_with_imported chain_id st s)
  unfolding approve_with_imported
  import-Invariant (approving a e) s k i =
      let asked =
        noted-Invariant chain_id (import_asked (typed_data_of chain_id a)) s
          (a, k, typed_data_of-AsksFor chain_id a) i in
      waits-Invariant chain_id (importing a) _ (IsFounded-later chain_id _ a s.trace k, here refl)
        asked
  import-Invariant (guardian_state sn) s k i = i
  import-Invariant enter s k i = i
  import-Invariant resolving s k i = i
  import-Invariant (submitted p) s k i = i
  import-Invariant (error m) s k i = i

  read-Invariant :
      (w : String) (r : Settled GuardianState) (s : Screen)
      → Invariant chain_id s
      → Invariant chain_id (on_read chain_id w r s)
  unfolding on_read
  read-Invariant w (fulfilled g) s i =
      let noted_first = noted-Invariant chain_id (guardians_read (snapshot_of w g)) s tt i in
      moved-Invariant chain_id (guardian_state _) _ (here refl) noted_first
  read-Invariant w (rejected e) s i = moved-Invariant chain_id (error _) s tt i

  minted-Invariant :
      (sn : Snapshot) (r : Settled String) (s : Screen)
      → JobOk chain_id s.trace (minting sn)
      → Invariant chain_id s
      → Invariant chain_id (on_minted chain_id sn r s)
  unfolding on_minted
  minted-Invariant sn (fulfilled address) s (read, nonempty) i =
      let noted_first = noted-Invariant chain_id (key_minted address) s tt i in
      moved-Invariant chain_id (approving _ none) _
        (record { was_read = there read; has_guardians = nonempty; was_minted = here refl })
        noted_first
  minted-Invariant sn (rejected e) s k i = i

  connected-Invariant :
      (a : Approving) (r : Settled String) (s : Screen)
      → IsFounded a s.trace
      → Invariant chain_id s
      → Invariant chain_id (on_connected chain_id a r s)
  unfolding on_connected
  connected-Invariant a (fulfilled guardian) s f i =
      elim (Bool-cases (is_guardian a.snapshot.config guardian)) [
        | inl e ↦ rw e (
            let asked =
              noted-Invariant chain_id (signature_asked guardian (typed_data_of chain_id a)) s
                (a, f, e, typed_data_of-AsksFor chain_id a) i in
            waits-Invariant chain_id (signing a guardian) _
              (IsFounded-later chain_id _ a s.trace f, here refl) asked)
        | inr e ↦ rw e (moved-Invariant chain_id (approving a _) s f i)
      ]
  connected-Invariant a (rejected e) s f i = moved-Invariant chain_id (approving a _) s f i

  backed_by :
      (h : Happening) (p : GuardianApproval) (trace : List Happening)
      → Backs chain_id p h
      → Happened h trace
      → Any (Backs chain_id p) trace
  backed_by h p [] b a = elim a [ ]
  backed_by h p (g ∷ trace) b (here e) = here (subst (Backs chain_id p) (sym e) b)
  backed_by h p (g ∷ trace) b (there a) = there (backed_by h p trace b a)

  signed-Invariant :
      (a : Approving) (guardian : String) (r : Settled String) (s : Screen)
      → JobOk chain_id s.trace (signing a guardian)
      → Invariant chain_id s
      → Invariant chain_id (on_signed chain_id a guardian r s)
  unfolding recovery_approval_typed_data
  signed-Invariant a guardian (fulfilled x) s (f, asked) i =
      let p = approval guardian a.promote_key (nonce_for a.snapshot.pending) x in
      moved-Invariant chain_id (submitted p) s
        (backed_by (signature_asked guardian (typed_data_of chain_id a)) p s.trace
          (refl, refl, refl) asked)
        i
  signed-Invariant a guardian (rejected e) s (f, asked) i =
      moved-Invariant chain_id (approving a _) s f i

  imported-Invariant :
      (a : Approving) (r : Settled (String × String)) (s : Screen)
      → JobOk chain_id s.trace (importing a)
      → Invariant chain_id s
      → Invariant chain_id (on_imported chain_id a r s)
  unfolding recovery_approval_typed_data
  imported-Invariant a (fulfilled (g, x)) s (f, asked) i =
      let p = approval g a.promote_key (nonce_for a.snapshot.pending) x in
      moved-Invariant chain_id (submitted p) s
        (backed_by (import_asked (typed_data_of chain_id a)) p s.trace (refl, refl) asked) i
  imported-Invariant a (rejected e) s (f, asked) i = moved-Invariant chain_id (approving a _) s f i

  entered-Invariant :
      (r : Settled String) (s : Screen)
      → Invariant chain_id s
      → Invariant chain_id (on_entered chain_id r s)
  unfolding on_entered
  entered-Invariant (fulfilled w) s i = waits-Invariant chain_id (reading w) s tt i
  entered-Invariant (rejected e) s i = moved-Invariant chain_id (error _) s tt i

  answered-Invariant :
      {A : Type 0} (m : Option A) (f : A → Screen → Screen) (s : Screen)
      → ((r : A) → Invariant chain_id (f r s))
      → Invariant chain_id s
      → Invariant chain_id (answered chain_id m f s)
  answered-Invariant none f s k i = i
  answered-Invariant (some r) f s k i = k r

  resume-Invariant :
      (j : Job) (o : Outcome chain_id) (s : Screen)
      → JobOk chain_id s.trace j
      → Invariant chain_id s
      → Invariant chain_id (resume chain_id j o s)
  unfolding resume
  resume-Invariant entering o s k i =
      answered-Invariant (as_entered chain_id o) (on_entered chain_id) s
        (λ r. entered-Invariant r s i) i
  resume-Invariant (reading w) o s k i =
      answered-Invariant (as_read chain_id o) (on_read chain_id w) s (λ r. read-Invariant w r s i) i
  resume-Invariant (minting sn) o s k i =
      answered-Invariant (as_minted chain_id o) (on_minted chain_id sn) s
        (λ r. minted-Invariant sn r s k i) i
  resume-Invariant (connecting a) o s k i =
      answered-Invariant (as_connected chain_id o) (on_connected chain_id a) s
        (λ r. connected-Invariant a r s k i) i
  resume-Invariant (signing a g) o s k i =
      answered-Invariant (as_signed chain_id o) (on_signed chain_id a g) s
        (λ r. signed-Invariant a g r s k i) i
  resume-Invariant (importing a) o s k i =
      answered-Invariant (as_imported chain_id o) (on_imported chain_id a) s
        (λ r. imported-Invariant a r s k i) i

  resumed-Invariant :
      (m : Option Job) (o : Outcome chain_id) (s : Screen)
      → ((j : Job) → m ≡ some j → JobOk chain_id s.trace j)
      → Invariant chain_id s
      → Invariant chain_id (resumed chain_id m o s)
  resumed-Invariant none o s k i = i
  resumed-Invariant (some j) o s k i = resume-Invariant j o s (k j refl) i

  step-Invariant :
      (s : Screen) (e : Event chain_id)
      → Invariant chain_id s
      → Invariant chain_id (step chain_id s e)
  unfolding step
  step-Invariant s call_enter_wallet i =
      waits-Invariant chain_id entering _ tt (moved-Invariant chain_id resolving s tt i)
  step-Invariant s call_begin_approval i = begin_approval-Invariant s.state s i.state_ok i
  step-Invariant s call_connected_guardian i = connect-Invariant s.state s i.state_ok i
  step-Invariant s call_imported_key i = import-Invariant s.state s i.state_ok i
  step-Invariant s (settled n o) i =
      resumed-Invariant (get_elem? s.jobs n) o _
        (λ j h. job_at-ok chain_id n s.jobs j s.trace i.jobs_ok h)
        (record {
          state_ok = i.state_ok;
          jobs_ok = without_job-ok chain_id n s.jobs s.trace i.jobs_ok;
          trace_ok = i.trace_ok;
        })

  run-Invariant :
      (s : Screen) (es : List (Event chain_id))
      → Invariant chain_id s
      → Invariant chain_id (run chain_id s es)
  unfolding run
  run-Invariant s [] i = i
  run-Invariant s (e ∷ es) i = run-Invariant (step chain_id s e) es (step-Invariant s e i)

  submitted-IsBacked :
      (st : RecoverState) (trace : List Happening)
      → StateOk chain_id st trace
      → IsBacked chain_id st trace
  submitted-IsBacked (submitted p) trace k = k
  submitted-IsBacked enter trace k = tt
  submitted-IsBacked resolving trace k = tt
  submitted-IsBacked (guardian_state sn) trace k = tt
  submitted-IsBacked (approving a e) trace k = tt
  submitted-IsBacked (error m) trace k = tt

  -- Whatever is called on the screen and whatever settles, in any order: a connected wallet is asked to sign
  -- only as a guardian of the wallet that was read, and it and an imported key sign only for a wallet that
  -- was read and has guardians, on this chain, the key that was minted and the nonce of the recovery that
  -- was read as pending, or 0 where none was; and an approval that is submitted carries the key and the
  -- nonce that a guardian was asked to sign.
  pub recovery_grounded :
      (es : List (Event chain_id))
      → EachGrounded chain_id (run chain_id start es).trace
        × IsBacked chain_id (run chain_id start es).state (run chain_id start es).trace
  recovery_grounded es =
      let i = run-Invariant start es (record { state_ok = tt; jobs_ok = tt; trace_ok = tt }) in
      (i.trace_ok, submitted-IsBacked _ _ i.state_ok)
