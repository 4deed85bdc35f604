-- ===== src/Ceremony/Replies.antt =====
-- packages/core/src/auth-popup/ceremony.ts: where the driver's replies go, and how many it sends.
use avok_js.Base.{
  ℕ, ◌≤◌, ◌≡◌, ◌≢◌, ◌⊎◌, inl, inr, refl, arith, Bool, true, false, ◌or_else◌, ===_iff, String,
  Option, none, some, List, [], ◌∷◌, sym, ◌∙◌, Settled, fulfilled, rejected, Failure,
}
use avok_js.Ceremony.Types.{
  AuthPopupAccount, Rendering, ChannelResult, signed, user_rejected, authorized, MessageData,
  not_an_object, an_object, MessageEvent, Transport, to_opener, to_callback, Job, Phase, idle,
  simulating, deciding, signing, reading_account, done, Page, Event, message, simulated, decided,
  signature_settled, account_settled,
}
use avok_js.Ceremony.{
  simulate_or_show, show_decoded, show, run_sign, run_authorize, drive_request, accept, handler,
  on_simulated, on_decision, on_signed, on_account, step, run, start, reply, simulated_job,
  same_source, assigned, result_url, unhandled, retry, not_connected,
}
use avok_js.Ceremony.Answers.{
  replies, PostsGoTo, budget, Answers, Waits, show-Answers, reply-Answers, handler-Answers,
}

module _ (r : Rendering) where
  open r use {Request, Payload, Simulation, Signature}

  on_simulated-Answers :
      (s : Settled Simulation) (ph : Phase r) (p : Page r)
      → p.phase ≡ ph
      → Answers r p
      → Answers r (on_simulated r s ph p)
  unfolding on_simulated simulated_job
  on_simulated-Answers (fulfilled s) (simulating j payload) p e a =
      show-Answers r _ p (omega (arith, few_at)) a.targets (rw e at a.bound)
    where
      few_at : replies r p.trace ≤ budget r (simulating j payload)
      few_at = rw e at a.few
  on_simulated-Answers (rejected f) (simulating j payload) p e a =
      show-Answers r _ p (omega (arith, few_at)) a.targets (rw e at a.bound)
    where
      few_at : replies r p.trace ≤ budget r (simulating j payload)
      few_at = rw e at a.few
  on_simulated-Answers (fulfilled s) _ p e a = a
  on_simulated-Answers (rejected f) _ p e a = a

  on_decision-Answers :
      (b : Bool) (ph : Phase r) (p : Page r)
      → p.phase ≡ ph
      → Answers r p
      → Answers r (on_decision r b ph p)
  unfolding on_decision
  on_decision-Answers true (deciding j) p e a = record {
    few = rw e at a.few;
    targets = a.targets;
    bound = rw e at a.bound;
  }
  on_decision-Answers false (deciding j) p e a =
      let few_at : replies r p.trace ≤ budget r (deciding j) = rw e at a.few in
      reply-Answers r j.transport user_rejected (unhandled r) p (omega arith) a.targets
        (rw e at a.bound) (λ f. record { few = omega arith; targets = a.targets; bound = tt })
  on_decision-Answers true _ p e a = a
  on_decision-Answers false _ p e a = a

  retry-Answers :
      (j : Job r) (f : Failure) (p : Page r)
      → p.phase ≡ signing j
      → Answers r p
      → Answers r (retry r j f p)
  unfolding retry
  retry-Answers j f p e a =
      let few_at : replies r p.trace ≤ budget r (signing j) = rw e at a.few in
      show-Answers r _ p (omega arith) a.targets (rw e at a.bound)

  on_signed-Answers :
      (s : Settled Signature) (ph : Phase r) (p : Page r)
      → p.phase ≡ ph
      → Answers r p
      → Answers r (on_signed r s ph p)
  unfolding on_signed
  on_signed-Answers (fulfilled s) (signing j) p e a =
      let few_at : replies r p.trace ≤ budget r (signing j) = rw e at a.few in
      reply-Answers r j.transport (signed s) (retry r j) p (omega arith) a.targets (rw e at a.bound)
        (λ f. retry-Answers j f p e a)
  on_signed-Answers (rejected f) (signing j) p e a = retry-Answers j f p e a
  on_signed-Answers (fulfilled s) _ p e a = a
  on_signed-Answers (rejected f) _ p e a = a

  on_account-Answers :
      (x : Settled (AuthPopupAccount × String)) (ph : Phase r) (p : Page r)
      → p.phase ≡ ph
      → Answers r p
      → Answers r (on_account r x ph p)
  unfolding on_account
  on_account-Answers (fulfilled (account, proof)) (reading_account t) p e a =
      let few_at : replies r p.trace ≤ budget r (reading_account t) = rw e at a.few in
      reply-Answers r t (authorized account proof) (not_connected r) p (omega arith) a.targets
        (rw e at a.bound) (λ f. record { few = omega arith; targets = a.targets; bound = tt })
  on_account-Answers (rejected f) (reading_account t) p e a =
      let few_at : replies r p.trace ≤ budget r (reading_account t) = rw e at a.few in
      record { few = omega arith; targets = a.targets; bound = tt }
  on_account-Answers (fulfilled (account, proof)) _ p e a = a
  on_account-Answers (rejected f) _ p e a = a

  -- Only the handler touches `pending`, and outside a request nothing else happens.
  pending-assigned :
      (u : Settled String) (x : ChannelResult r) (uri : String) (failed : Failure → Page r → Page r)
      (p : Page r)
      → ((f : Failure) → (failed f p).pending ≡ p.pending)
      → (assigned r u x uri failed p).pending ≡ p.pending
  unfolding assigned
  pending-assigned (fulfilled url) x uri failed p k = refl
  pending-assigned (rejected f) x uri failed p k = k f

  pending-reply :
      (t : Transport r) (x : ChannelResult r) (failed : Failure → Page r → Page r) (p : Page r)
      → ((f : Failure) → (failed f p).pending ≡ p.pending)
      → (reply r t x failed p).pending ≡ p.pending
  unfolding reply
  pending-reply (to_opener origin) x failed p k = refl
  pending-reply (to_callback uri) x failed p k =
      pending-assigned (result_url r x uri) x uri failed p k

  pending-drive_request :
      (m : MessageData r) (t : Transport r) (p : Page r)
      → (drive_request r m t p).pending ≡ p.pending
  unfolding drive_request run_sign show_decoded simulate_or_show show run_authorize
  pending-drive_request not_an_object t p = refl
  pending-drive_request (an_object kind nonce req c) t p = ground arith

  handler-Waits : (e : MessageEvent r) (p : Page r) → Waits r p → Waits r (handler r e p)
  unfolding handler accept
  handler-Waits e p w = ground (
    arith,
    pending-drive_request e.message (to_opener e.origin)
        (record p { pinned_origin = some e.origin; pending = true }),
    pending-drive_request e.message (to_opener (p.pinned_origin or_else ""))
        (record p { pending = true }),
  )

  on_simulated-Waits :
      (s : Settled Simulation) (ph : Phase r) (p : Page r)
      → p.phase ≡ ph
      → Waits r p
      → Waits r (on_simulated r s ph p)
  unfolding on_simulated show
  on_simulated-Waits s (simulating j payload) p e w = λ h. cc (e, w h)
  on_simulated-Waits s idle p e w = w
  on_simulated-Waits s _ p e w = w

  on_decision-Waits :
      (b : Bool) (ph : Phase r) (p : Page r)
      → p.phase ≡ ph
      → Waits r p
      → Waits r (on_decision r b ph p)
  unfolding on_decision
  on_decision-Waits true (deciding j) p e w = λ h. cc (e, w h)
  on_decision-Waits false (deciding j) p e w =
      λ h. cc (e, w (sym (pending-reply j.transport user_rejected (unhandled r) p (λ f. refl)) ∙ h))
  on_decision-Waits true _ p e w = w
  on_decision-Waits false _ p e w = w

  on_signed-Waits :
      (s : Settled Signature) (ph : Phase r) (p : Page r)
      → p.phase ≡ ph
      → Waits r p
      → Waits r (on_signed r s ph p)
  unfolding on_signed retry show
  on_signed-Waits (fulfilled s) (signing j) p e w =
      λ h. cc (e, w (sym (pending-reply j.transport (signed s) (retry r j) p (λ f. refl)) ∙ h))
  on_signed-Waits (rejected f) (signing j) p e w = λ h. cc (e, w h)
  on_signed-Waits (fulfilled s) _ p e w = w
  on_signed-Waits (rejected f) _ p e w = w

  on_account-Waits :
      (x : Settled (AuthPopupAccount × String)) (ph : Phase r) (p : Page r)
      → p.phase ≡ ph
      → Waits r p
      → Waits r (on_account r x ph p)
  unfolding on_account
  on_account-Waits (fulfilled (account, proof)) (reading_account t) p e w = λ h.
      cc (
        e,
        w (sym (pending-reply t (authorized account proof) (not_connected r) p (λ f. refl)) ∙ h),
      )
  on_account-Waits (rejected f) (reading_account t) p e w = λ h. cc (e, w h)
  on_account-Waits (fulfilled (account, proof)) _ p e w = w
  on_account-Waits (rejected f) _ p e w = w

  step-Answers :
      (p : Page r) (e : Event r)
      → Waits r p
      → Answers r p
      → Waits r (step r p e) × Answers r (step r p e)
  unfolding step
  step-Answers p (message e) w a = (handler-Waits e p w, handler-Answers r e p w a)
  step-Answers p (simulated s) w a =
      (on_simulated-Waits s p.phase p refl w, on_simulated-Answers s p.phase p refl a)
  step-Answers p (decided b) w a =
      (on_decision-Waits b p.phase p refl w, on_decision-Answers b p.phase p refl a)
  step-Answers p (signature_settled s) w a =
      (on_signed-Waits s p.phase p refl w, on_signed-Answers s p.phase p refl a)
  step-Answers p (account_settled x) w a =
      (on_account-Waits x p.phase p refl w, on_account-Answers x p.phase p refl a)

  run-Answers :
      (p : Page r) (es : List (Event r)) → Waits r p → Answers r p → Answers r (run r p es)
  unfolding run
  run-Answers p [] w a = a
  run-Answers p (e ∷ es) w a =
      let (w', a') = step-Answers p e w a in run-Answers (step r p e) es w' a'

  start-Answers : (opener : Option ℕ) (own_origin : String) → Answers r (start r opener own_origin)
  unfolding start
  start-Answers none own_origin = record { few = omega arith; targets = tt; bound = tt }
  start-Answers (some w) own_origin = record { few = omega arith; targets = tt; bound = tt }

  budget-le-one : (ph : Phase r) → budget r ph ≤ 1
  budget-le-one done = omega arith
  budget-le-one _ = omega arith

  -- Whatever messages and outcomes arrive, in any order: the popup replies r at most once, and every
  -- reply is targeted at the origin that it has pinned.
  pub one_reply_to_pinned :
      (opener : Option ℕ) (own_origin : String) (es : List (Event r))
      → (replies r (run r (start r opener own_origin) es).trace ≤ 1)
        × PostsGoTo r
            (run r (start r opener own_origin) es).pinned_origin
            (run r (start r opener own_origin) es).trace
  unfolding start
  one_reply_to_pinned opener own_origin es =
      let a =
        run-Answers (start r opener own_origin) es (λ h. refl) (start-Answers opener own_origin) in
      (omega (arith, a.few, budget-le-one (run r (start r opener own_origin) es).phase), a.targets)

  pinned-assigned :
      (u : Settled String) (x : ChannelResult r) (uri : String) (failed : Failure → Page r → Page r)
      (p : Page r)
      → ((f : Failure) → (failed f p).pinned_origin ≡ p.pinned_origin)
      → (assigned r u x uri failed p).pinned_origin ≡ p.pinned_origin
  unfolding assigned
  pinned-assigned (fulfilled url) x uri failed p k = refl
  pinned-assigned (rejected f) x uri failed p k = k f

  pinned-reply :
      (t : Transport r) (x : ChannelResult r) (failed : Failure → Page r → Page r) (p : Page r)
      → ((f : Failure) → (failed f p).pinned_origin ≡ p.pinned_origin)
      → (reply r t x failed p).pinned_origin ≡ p.pinned_origin
  unfolding reply
  pinned-reply (to_opener origin) x failed p k = refl
  pinned-reply (to_callback uri) x failed p k =
      pinned-assigned (result_url r x uri) x uri failed p k

  pinned-drive_request :
      (m : MessageData r) (t : Transport r) (p : Page r)
      → (drive_request r m t p).pinned_origin ≡ p.pinned_origin
  unfolding drive_request run_sign show_decoded simulate_or_show show run_authorize
  pinned-drive_request not_an_object t p = refl
  pinned-drive_request (an_object kind nonce req c) t p = ground arith

  pinned-step :
      (p : Page r) (e : Event r) (origin : String)
      → p.pinned_origin ≡ some origin
      → (step r p e).pinned_origin ≡ some origin
  unfolding step handler accept on_simulated on_decision on_signed on_account show retry
  pinned-step p (message e) origin h =
      ground
        (arith, pinned-drive_request e.message (to_opener origin) (record p { pending = true }))
  pinned-step p (simulated s) origin h = ground arith
  pinned-step p (decided b) origin h =
      ground
        (arith, λ (j : Job r). pinned-reply j.transport user_rejected (unhandled r) p (λ f. refl))
  pinned-step p (signature_settled (fulfilled s)) origin h =
      ground (arith, λ (j : Job r). pinned-reply j.transport (signed s) (retry r j) p (λ f. refl))
  pinned-step p (signature_settled (rejected s)) origin h = ground arith
  pinned-step p (account_settled (fulfilled (a, proof))) origin h = ground (
    arith,
    λ (t : Transport r). pinned-reply t (authorized a proof) (not_connected r) p (λ f. refl),
  )
  pinned-step p (account_settled (rejected f)) origin h = ground arith

  -- Once an origin is pinned it stays, whatever arrives.
  pub pinned_for_good :
      (p : Page r) (es : List (Event r)) (origin : String)
      → p.pinned_origin ≡ some origin
      → (run r p es).pinned_origin ≡ some origin
  unfolding run
  pinned_for_good p [] origin h = h
  pinned_for_good p (e ∷ es) origin h =
      pinned_for_good (step r p e) es origin (pinned-step p e origin h)

  -- A message from another window than the opener, or, once an origin is pinned, from another
  -- origin, leaves the page as it was.
  pub foreign_message_ignored :
      (p : Page r) (e : MessageEvent r)
      → (same_source e.source p.opener ≡ false)
        ⊎ ((origin : String) × (p.pinned_origin ≡ some origin) × (e.origin ≢ origin))
      → step r p (message e) ≡ p
  unfolding step handler accept
  foreign_message_ignored p e (inl other) = ground arith
  foreign_message_ignored p e (inr (origin, pinned, other)) =
      ground (arith, ===_iff e.origin origin)
