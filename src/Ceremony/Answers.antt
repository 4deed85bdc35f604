-- ===== src/Ceremony/Answers.antt =====
-- packages/core/src/auth-popup/ceremony.ts: the replies that each state owes.
use avok_js.Base.{
  ℕ, suc, ◌≤◌, ◌≡◌, inl, inr, refl, arith, true, false, not, ◌||◌, ◌===◌, ◌or_else◌, Bool-cases,
  Option-cases, String, Option, none, some, List, [], ◌∷◌, Value, str, Failure, Settled, fulfilled,
  rejected,
}
use avok_js.Ceremony.Types.{
  Rendering, ChannelResult, signed, user_rejected, authorized, MessageData, not_an_object,
  an_object, MessageEvent, Transport, to_opener, to_callback, Job, Phase, idle, simulating,
  deciding, signing, reading_account, done, Effect, post, assign, Page,
}
use avok_js.Consent.Lines.{ConsentDisplayLine}
use avok_js.Ceremony.{
  is_kind, is_request, undecodable, simulate_or_show, show_decoded, show, run_sign, run_authorize,
  drive_request, accept, handler, reply, assigned, result_url,
}

module _ (r : Rendering) where
  open r use {Request, Payload, Simulation, Signature}

  abbrev pub replies : List (Effect r) → ℕ
  replies [] = 0
  replies (post result target ∷ t) = suc (replies t)
  replies (assign result uri ∷ t) = suc (replies t)
  replies (_ ∷ t) = replies t

  -- Every reply that was posted had this target.
  abbrev pub PostsGoTo : Option String → List (Effect r) → Type 0
  PostsGoTo origin [] = Unit
  PostsGoTo origin (post result target ∷ t) = (origin ≡ some target) × PostsGoTo origin t
  PostsGoTo origin (_ ∷ t) = PostsGoTo origin t

  abbrev IsBound : Option String → Transport r → Type 0
  IsBound pinned (to_opener origin) = pinned ≡ some origin
  IsBound pinned (to_callback uri) = Unit

  abbrev BoundPhase : Option String → Phase r → Type 0
  BoundPhase pinned (simulating j payload) = IsBound pinned j.transport
  BoundPhase pinned (deciding j) = IsBound pinned j.transport
  BoundPhase pinned (signing j) = IsBound pinned j.transport
  BoundPhase pinned (reading_account t) = IsBound pinned t
  BoundPhase pinned _ = Unit

  abbrev pub budget : Phase r → ℕ
  budget done = 1
  budget _ = 0

  pub record Answers (p : Page r) : Type 0 where
    pub few : replies p.trace ≤ budget p.phase
    pub targets : PostsGoTo p.pinned_origin p.trace
    pub bound : BoundPhase p.pinned_origin p.phase

  -- Between requests the page is idle, so a new one begins with nothing sent.
  abbrev pub Waits : Page r → Type 0
  Waits p = p.pending ≡ false → p.phase ≡ idle

  pub show-Answers :
      (j : Job r) (p : Page r)
      → replies p.trace ≡ 0
      → PostsGoTo p.pinned_origin p.trace
      → IsBound p.pinned_origin j.transport
      → Answers (show r j p)
  unfolding show
  show-Answers j p few targets bound = record {
    few = omega arith;
    targets = targets;
    bound = bound;
  }

  assigned-Answers :
      (u : Settled String) (result : ChannelResult r) (uri : String)
      (failed : Failure → Page r → Page r) (p : Page r)
      → replies p.trace ≡ 0
      → PostsGoTo p.pinned_origin p.trace
      → ((f : Failure) → Answers (failed f p))
      → Answers (assigned r u result uri failed p)
  unfolding assigned
  assigned-Answers (fulfilled url) result uri failed p few targets k = record {
    few = omega arith;
    targets = targets;
    bound = tt;
  }
  assigned-Answers (rejected f) result uri failed p few targets k = k f

  pub reply-Answers :
      (t : Transport r) (result : ChannelResult r) (failed : Failure → Page r → Page r) (p : Page r)
      → replies p.trace ≡ 0
      → PostsGoTo p.pinned_origin p.trace
      → IsBound p.pinned_origin t
      → ((f : Failure) → Answers (failed f p))
      → Answers (reply r t result failed p)
  unfolding reply
  reply-Answers (to_callback uri) result failed p few targets bound k =
      assigned-Answers (result_url r result uri) result uri failed p few targets k
  reply-Answers (to_opener origin) (authorized a proof) failed p few targets bound k =
      elim (Option-cases p.opener) [
        | inl e ↦ rw e (record { few = omega arith; targets = targets; bound = tt })
        | inr (w, e) ↦ rw e (record { few = omega arith; targets = (bound, targets); bound = tt })
      ]
  reply-Answers (to_opener origin) user_rejected failed p few targets bound k =
      elim (Option-cases p.opener) [
        | inl e ↦ rw e (record { few = omega arith; targets = targets; bound = tt })
        | inr (w, e) ↦ rw e (record { few = omega arith; targets = (bound, targets); bound = tt })
      ]
  reply-Answers (to_opener origin) (signed s) failed p few targets bound k =
      elim (Option-cases p.opener) [
        | inl e ↦ rw e (record { few = omega arith; targets = targets; bound = tt })
        | inr (w, e) ↦ rw e (record { few = omega arith; targets = (bound, targets); bound = tt })
      ]

  module _ (p : Page r) (few : replies p.trace ≡ 0)
      (targets : PostsGoTo p.pinned_origin p.trace) where
    simulate_or_show-Answers :
        (o : Settled (Option Payload)) (j : Job r)
        → IsBound p.pinned_origin j.transport
        → Answers (simulate_or_show r o j p)
    unfolding simulate_or_show
    simulate_or_show-Answers (rejected f) j bound = record {
      few = omega arith;
      targets = targets;
      bound = tt;
    }
    simulate_or_show-Answers (fulfilled none) j bound = show-Answers j p few targets bound
    simulate_or_show-Answers (fulfilled (some payload)) j bound = record {
      few = omega arith;
      targets = targets;
      bound = bound;
    }

    show_decoded-Answers :
        (d : Settled (List ConsentDisplayLine)) (req : Request) (c : Option String)
        (t : Transport r)
        → IsBound p.pinned_origin t
        → Answers (show_decoded r d req c t p)
    unfolding show_decoded
    show_decoded-Answers (rejected f) req c t bound =
        show-Answers (undecodable r req c t f.message) p few targets bound
    show_decoded-Answers (fulfilled []) req c t bound =
        show-Answers (undecodable r req c t _) p few targets bound
    show_decoded-Answers (fulfilled (l ∷ ls)) req c t bound =
        simulate_or_show-Answers (r.payload_for req) _ bound

    run_authorize-Answers :
        (nonce : Value) (t : Transport r)
        → IsBound p.pinned_origin t
        → Answers (run_authorize r nonce t p)
    unfolding run_authorize
    run_authorize-Answers (str nonce) t bound = elim (Bool-cases (nonce === "")) [
      | inl e ↦ rw e (record { few = omega arith; targets = targets; bound = tt })
      | inr e ↦ rw e (record { few = omega arith; targets = targets; bound = bound })
    ]
    run_authorize-Answers _ t bound = record { few = omega arith; targets = targets; bound = tt }

    drive_request-Answers :
        (m : MessageData r) (t : Transport r)
        → Answers p
        → IsBound p.pinned_origin t
        → Answers (drive_request r m t p)
    unfolding drive_request run_sign
    drive_request-Answers not_an_object t a bound = a
    drive_request-Answers (an_object kind nonce req c) t a bound =
        elim (Bool-cases (is_kind kind "authorize")) [
          | inl e ↦ rw e (run_authorize-Answers nonce t bound)
          | inr e ↦ rw e (show_decoded-Answers (r.decode req) req c t bound)
        ]

  PostsGoTo-of_none : (o : Option String) (t : List (Effect r)) → PostsGoTo none t → PostsGoTo o t
  PostsGoTo-of_none o [] h = tt
  PostsGoTo-of_none o (post result target ∷ t) h = cc (h.0)
  PostsGoTo-of_none o (assign result uri ∷ t) h = PostsGoTo-of_none o t h
  PostsGoTo-of_none o (_ ∷ t) h = PostsGoTo-of_none o t h

  IsBound-of_none : (o : Option String) (t : Transport r) → IsBound none t → IsBound o t
  IsBound-of_none o (to_opener origin) h = cc
  IsBound-of_none o (to_callback uri) h = tt

  BoundPhase-of_none : (o : Option String) (ph : Phase r) → BoundPhase none ph → BoundPhase o ph
  BoundPhase-of_none o (simulating j payload) h = IsBound-of_none o j.transport h
  BoundPhase-of_none o (deciding j) h = IsBound-of_none o j.transport h
  BoundPhase-of_none o (signing j) h = IsBound-of_none o j.transport h
  BoundPhase-of_none o (reading_account t) h = IsBound-of_none o t h
  BoundPhase-of_none o idle h = tt
  BoundPhase-of_none o done h = tt

  -- The first message pins its sender's origin; nothing had been posted before.
  pin-Answers :
      (origin : String) (p : Page r)
      → p.pinned_origin ≡ none
      → Answers p
      → Answers (record p { pinned_origin = some origin })
  pin-Answers origin p e a = record {
    few = a.few;
    targets = PostsGoTo-of_none (some origin) p.trace (rw e at a.targets);
    bound = BoundPhase-of_none (some origin) p.phase (rw e at a.bound);
  }

  few-idle : (p : Page r) → p.phase ≡ idle → Answers p → replies p.trace ≡ 0
  few-idle p e a = let h : replies p.trace ≤ budget idle = rw e at a.few in omega arith

  accept-Answers :
      (origin : String) (m : MessageData r) (p : Page r)
      → p.pinned_origin ≡ some origin
      → Waits p
      → Answers p
      → Answers (accept r origin m p)
  unfolding accept
  accept-Answers origin m p e w a = elim (Bool-cases (not (is_request r m) || p.pending)) [
    | inl refused ↦ rw refused a
    | inr taken ↦ rw taken (
        drive_request-Answers (record p { pending = true }) (few-idle p (w (ground arith)) a)
          a.targets m (to_opener origin)
          (record { few = a.few; targets = a.targets; bound = a.bound }) e)
  ]

  pub handler-Answers :
      (e : MessageEvent r) (p : Page r) → Waits p → Answers p → Answers (handler r e p)
  unfolding handler
  handler-Answers e p w a = ground (
    arith,
    pin-Answers e.origin p,
    accept-Answers e.origin e.message (record p { pinned_origin = some e.origin }) refl w,
    accept-Answers (p.pinned_origin or_else "") e.message p,
  )
