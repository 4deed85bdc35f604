-- ===== src/Ceremony/Gate.antt =====
-- packages/core/src/auth-popup/ceremony.ts: the order of screens, approvals, gestures and signatures.
use avok_js.Base.{
  String, ◌≡◌, refl, ◌≢◌, Bool, true, false, Bool-cases, inl, inr, Option, none, some, List, ◌∷◌,
  ◌++◌, append_assoc, arith, not, ◌or_else◌, Option-cases, ap, ℕ, [], ◌||◌, Settled, fulfilled,
  rejected, Failure,
}
use avok_js.Ceremony.Types.{
  Rendering, ChannelResult, signed, user_rejected, authorized, MessageData, MessageEvent, Transport,
  to_opener, to_callback, Job, Phase, idle, simulating, deciding, signing, reading_account,
  waiting_for_passkey, approved, Page, Event, message, simulated, decided, signature_settled,
  account_settled, AuthPopupAccount,
}
use avok_js.Ceremony.{
  accept, handler, on_simulated, on_decision, on_signed, on_account, step, run, start, reply,
  assigned, result_url, unhandled, retry, not_connected, is_request, simulated_job,
  is_terminal_signing_failure,
}
use avok_js.Ceremony.Safety.{
  IsDecoded, IsSigned, IsGated, IsHonest, HonestView, PhaseHolds, IsSafe, show-IsSafe,
  drive_request-IsSafe,
}

module _ (r : Rendering) where
  open r use {Request, Payload, Simulation, Signature}

  accept-IsSafe :
      (origin : String) (m : MessageData r) (p : Page r)
      → IsSafe r p
      → IsSafe r (accept r origin m p)
  unfolding accept
  accept-IsSafe origin m p s = elim (Bool-cases (not (is_request r m) || p.pending)) [
    | inl e ↦ rw e s
    | inr e ↦ rw e (
        drive_request-IsSafe r m (to_opener origin) (record p { pending = true })
          (record { gated = s.gated; holds = s.holds }))
  ]

  handler-IsSafe : (e : MessageEvent r) (p : Page r) → IsSafe r p → IsSafe r (handler r e p)
  unfolding handler
  handler-IsSafe e p s = ground (
    arith,
    accept-IsSafe e.origin e.message (record p { pinned_origin = some e.origin })
        (record { gated = s.gated; holds = s.holds }),
    accept-IsSafe (p.pinned_origin or_else "") e.message p s,
  )

  assigned_signed-IsSafe :
      (u : Settled String) (uri : String) (s : Signature) (failed : Failure → Page r → Page r)
      (p : Page r)
      → IsGated r p.trace
      → IsSigned r p.trace
      → ((f : Failure) → IsSafe r (failed f p))
      → IsSafe r (assigned r u (signed s) uri failed p)
  unfolding assigned
  assigned_signed-IsSafe (fulfilled url) uri s failed p g h k = record {
    gated = (h, g);
    holds = tt;
  }
  assigned_signed-IsSafe (rejected f) uri s failed p g h k = k f

  reply_signed-IsSafe :
      (t : Transport r) (s : Signature) (failed : Failure → Page r → Page r) (p : Page r)
      → IsGated r p.trace
      → IsSigned r p.trace
      → ((f : Failure) → IsSafe r (failed f p))
      → IsSafe r (reply r t (signed s) failed p)
  unfolding reply
  reply_signed-IsSafe (to_callback uri) s failed p g h k =
      assigned_signed-IsSafe (r.signed_url s uri) uri s failed p g h k
  reply_signed-IsSafe (to_opener origin) s failed p g h k = elim (Option-cases p.opener) [
    | inl e ↦ rw e (record { gated = g; holds = tt })
    | inr (w, e) ↦ rw e (record { gated = (h, g); holds = tt })
  ]

  assigned_other-IsSafe :
      (u : Settled String) (uri : String) (result : ChannelResult r)
      (failed : Failure → Page r → Page r) (p : Page r)
      → ((s : Signature) → result ≢ signed s)
      → IsGated r p.trace
      → ((f : Failure) → IsSafe r (failed f p))
      → IsSafe r (assigned r u result uri failed p)
  unfolding assigned
  assigned_other-IsSafe (rejected f) uri result failed p other g k = k f
  assigned_other-IsSafe (fulfilled url) uri (signed s) failed p other g k = absurd (other s refl)
  assigned_other-IsSafe (fulfilled url) uri user_rejected failed p other g k = record {
    gated = g;
    holds = tt;
  }
  assigned_other-IsSafe (fulfilled url) uri (authorized a proof) failed p other g k = record {
    gated = g;
    holds = tt;
  }

  reply_other-IsSafe :
      (t : Transport r) (result : ChannelResult r) (failed : Failure → Page r → Page r) (p : Page r)
      → ((s : Signature) → result ≢ signed s)
      → IsGated r p.trace
      → ((f : Failure) → IsSafe r (failed f p))
      → IsSafe r (reply r t result failed p)
  unfolding reply
  reply_other-IsSafe (to_callback uri) result failed p other g k =
      assigned_other-IsSafe (result_url r result uri) uri result failed p other g k
  reply_other-IsSafe (to_opener origin) (signed s) failed p other g k = absurd (other s refl)
  reply_other-IsSafe (to_opener origin) user_rejected failed p other g k =
      elim (Option-cases p.opener) [
        | inl e ↦ rw e (record { gated = g; holds = tt })
        | inr (w, e) ↦ rw e (record { gated = g; holds = tt })
      ]
  reply_other-IsSafe (to_opener origin) (authorized a proof) failed p other g k =
      elim (Option-cases p.opener) [
        | inl e ↦ rw e (record { gated = g; holds = tt })
        | inr (w, e) ↦ rw e (record { gated = g; holds = tt })
      ]

  simulated_job-IsDecoded :
      (j : Job r) (payload : Payload) (s : Settled Simulation)
      → IsDecoded r j
      → IsDecoded r (simulated_job r j payload s)
  unfolding simulated_job
  simulated_job-IsDecoded j payload (fulfilled s) d = record {
    first = d.first;
    rest = d.rest;
    simulated_lines = d.simulated_lines ++ r.simulation_lines s payload;
    decoded = d.decoded;
    shown = rw d.shown (append_assoc (d.first ∷ d.rest) d.simulated_lines _);
  }
  simulated_job-IsDecoded j payload (rejected f) d = record {
    first = d.first;
    rest = d.rest;
    simulated_lines = d.simulated_lines ++ r.simulation_lines r.unsimulated payload;
    decoded = d.decoded;
    shown = rw d.shown (append_assoc (d.first ∷ d.rest) d.simulated_lines _);
  }

  on_simulated-IsSafe :
      (s : Settled Simulation) (ph : Phase r) (p : Page r)
      → p.phase ≡ ph
      → IsGated r p.trace
      → PhaseHolds r ph p.trace
      → IsSafe r (on_simulated r s ph p)
  unfolding on_simulated
  on_simulated-IsSafe s (simulating j payload) p e g h =
      show-IsSafe r (simulated_job r j payload s) p g (λ _. simulated_job-IsDecoded j payload s h.0)
  on_simulated-IsSafe s idle p e g h = record { gated = g; holds = rw e h }
  on_simulated-IsSafe s _ p e g h = record { gated = g; holds = rw e h }

  approve-IsSafe :
      (j : Job r) (p : Page r)
      → IsGated r p.trace
      → PhaseHolds r (deciding j) p.trace
      → j.reject_only ≡ false
      → IsSafe r (on_decision r true (deciding j) p)
  unfolding on_decision
  approve-IsSafe j p g (decoded, (earlier, order)) open_screen = record {
    gated = (
      record {
        job = j;
        earlier = earlier;
        order = ap (λ t. waiting_for_passkey ∷ approved j ∷ t) order;
        request_shown = refl;
        same_credential = refl;
        approvable = open_screen;
        decoded = decoded open_screen;
      },
      g,
    );
    holds = (
      record { request = j.request; credential = j.credential_id; earlier = _; order = refl },
      decoded open_screen,
    );
  }

  on_decision-IsSafe :
      (b : Bool) (ph : Phase r) (p : Page r)
      → p.phase ≡ ph
      → IsGated r p.trace
      → PhaseHolds r ph p.trace
      → IsHonest r (decided b) ph
      → IsSafe r (on_decision r b ph p)
  unfolding on_decision
  on_decision-IsSafe true (deciding j) p e g h honest = approve-IsSafe j p g h honest
  on_decision-IsSafe false (deciding j) p e g h honest =
      reply_other-IsSafe j.transport user_rejected (unhandled r) p (λ s. cc) g
        (λ f. record { gated = g; holds = tt })
  on_decision-IsSafe true _ p e g h honest = record { gated = g; holds = rw e h }
  on_decision-IsSafe false _ p e g h honest = record { gated = g; holds = rw e h }

  retry-IsSafe :
      (j : Job r) (f : Failure) (p : Page r)
      → IsGated r p.trace
      → IsDecoded r j
      → IsSafe r (retry r j f p)
  unfolding retry
  retry-IsSafe j f p g d =
      show-IsSafe r
        (record j {
          error = some f.message;
          reject_only = j.reject_only || is_terminal_signing_failure f;
        })
        p g
        (λ _. record {
          first = d.first;
          rest = d.rest;
          simulated_lines = d.simulated_lines;
          decoded = d.decoded;
          shown = d.shown;
        })

  on_signed-IsSafe :
      (s : Settled Signature) (ph : Phase r) (p : Page r)
      → p.phase ≡ ph
      → IsGated r p.trace
      → PhaseHolds r ph p.trace
      → IsSafe r (on_signed r s ph p)
  unfolding on_signed
  on_signed-IsSafe (fulfilled s) (signing j) p e g h =
      reply_signed-IsSafe j.transport s (retry r j) p g h.0 (λ f. retry-IsSafe j f p g h.1)
  on_signed-IsSafe (rejected f) (signing j) p e g h = retry-IsSafe j f p g h.1
  on_signed-IsSafe (fulfilled s) _ p e g h = record { gated = g; holds = rw e h }
  on_signed-IsSafe (rejected f) _ p e g h = record { gated = g; holds = rw e h }

  on_account-IsSafe :
      (a : Settled (AuthPopupAccount × String)) (ph : Phase r) (p : Page r)
      → p.phase ≡ ph
      → IsGated r p.trace
      → PhaseHolds r ph p.trace
      → IsSafe r (on_account r a ph p)
  unfolding on_account
  on_account-IsSafe (fulfilled (account, proof)) (reading_account t) p e g h =
      reply_other-IsSafe t (authorized account proof) (not_connected r) p (λ s. cc) g
        (λ f. record { gated = g; holds = tt })
  on_account-IsSafe (rejected f) (reading_account t) p e g h = record { gated = g; holds = tt }
  on_account-IsSafe (fulfilled (account, proof)) _ p e g h = record { gated = g; holds = rw e h }
  on_account-IsSafe (rejected f) _ p e g h = record { gated = g; holds = rw e h }

  step-IsSafe :
      (p : Page r) (e : Event r) → IsHonest r e p.phase → IsSafe r p → IsSafe r (step r p e)
  unfolding step
  step-IsSafe p (message e) honest s = handler-IsSafe e p s
  step-IsSafe p (simulated x) honest s = on_simulated-IsSafe x p.phase p refl s.gated s.holds
  step-IsSafe p (decided b) honest s = on_decision-IsSafe b p.phase p refl s.gated s.holds honest
  step-IsSafe p (signature_settled x) honest s = on_signed-IsSafe x p.phase p refl s.gated s.holds
  step-IsSafe p (account_settled a) honest s = on_account-IsSafe a p.phase p refl s.gated s.holds

  run-IsSafe :
      (p : Page r) (es : List (Event r)) → HonestView r p es → IsSafe r p → IsSafe r (run r p es)
  unfolding run
  run-IsSafe p [] honest s = s
  run-IsSafe p (e ∷ es) (h, honest) s = run-IsSafe (step r p e) es honest (step-IsSafe p e h s)

  start-IsSafe : (opener : Option ℕ) (own_origin : String) → IsSafe r (start r opener own_origin)
  unfolding start
  start-IsSafe none own_origin = record { gated = tt; holds = tt }
  start-IsSafe (some w) own_origin = record { gated = tt; holds = tt }

  -- Whatever messages and outcomes arrive, in any order, under a view that never approves a
  -- reject-only screen: each passkey gesture comes straight after the approval of a screen that showed
  -- that very request decoded, with its lines first and the simulation's after them, and each
  -- signature that is sent comes straight after a gesture.
  pub signed_after_approval :
      (opener : Option ℕ) (own_origin : String) (es : List (Event r))
      → HonestView r (start r opener own_origin) es
      → IsGated r (run r (start r opener own_origin) es).trace
  signed_after_approval opener own_origin es honest =
      (run-IsSafe (start r opener own_origin) es honest (start-IsSafe opener own_origin)).gated
