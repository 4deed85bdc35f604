-- ===== src/Ceremony/Safety.antt =====
-- packages/core/src/auth-popup/ceremony.ts: the order of the effects in the trace, up to the first screen.
use avok_js.Base.{
  String, ◌≡◌, refl, true, false, Bool-cases, inl, inr, Option, none, some, List, ◌∷◌, ◌++◌,
  append-nil, sym, Value, str, ◌===◌, [], Settled, fulfilled, rejected,
}
use avok_js.Ceremony.Types.{
  Rendering, signed, MessageData, not_an_object, an_object, Transport, Job, Phase, simulating,
  deciding, signing, Effect, waiting_for_passkey, show_consent, approved, sign_with, post, assign,
  Page, Event, decided,
}
use avok_js.Consent.Lines.{ConsentDisplayLine}
use avok_js.Ceremony.{
  is_kind, undecodable, show, simulate_or_show, run_sign, run_authorize, drive_request, step,
  show_decoded,
}

module _ (r : Rendering) where
  open r use {Request, Payload, Simulation, Signature}

  -- The lines begin with what the request decodes to, which is not empty.
  pub record IsDecoded (j : Job r) : Type 0 where
    pub first : ConsentDisplayLine
    pub rest : List ConsentDisplayLine
    pub simulated_lines : List ConsentDisplayLine
    pub decoded : r.decode j.request ≡ fulfilled (first ∷ rest)
    pub shown : j.lines ≡ (first ∷ rest) ++ simulated_lines

  -- The gesture for a request comes straight after the approval of a screen for that request, which
  -- showed it decoded and could be approved.
  pub record IsApproved (request : Request) (credential : Option String) (before : List (Effect r))
      : Type 0 where
    pub job : Job r
    pub earlier : List (Effect r)
    pub order : before ≡ waiting_for_passkey ∷ approved job ∷ show_consent job ∷ earlier
    pub request_shown : job.request ≡ request
    pub same_credential : job.credential_id ≡ credential
    pub approvable : job.reject_only ≡ false
    pub decoded : IsDecoded job

  -- A signature goes out straight after the gesture.
  pub record IsSigned (before : List (Effect r)) : Type 0 where
    pub request : Request
    pub credential : Option String
    pub earlier : List (Effect r)
    pub order : before ≡ sign_with request credential ∷ earlier

  abbrev pub IsGated : List (Effect r) → Type 0
  IsGated [] = Unit
  IsGated (sign_with request credential ∷ t) = IsApproved request credential t × IsGated t
  IsGated (post (signed s) target ∷ t) = IsSigned t × IsGated t
  IsGated (assign (signed s) uri ∷ t) = IsSigned t × IsGated t
  IsGated (_ ∷ t) = IsGated t

  -- The view's contract: a screen that can only be rejected resolves to false.
  abbrev pub IsHonest : Event r → Phase r → Type 0
  IsHonest (decided true) (deciding j) = j.reject_only ≡ false
  IsHonest _ _ = Unit

  abbrev pub HonestView : Page r → List (Event r) → Type 0
  HonestView p [] = Unit
  HonestView p (e ∷ es) = IsHonest e p.phase × HonestView (step r p e) es

  abbrev pub PhaseHolds : Phase r → List (Effect r) → Type 0
  PhaseHolds (simulating j payload) t = IsDecoded j × (j.reject_only ≡ false)
  PhaseHolds (deciding j) t =
      (j.reject_only ≡ false → IsDecoded j)
      × ((earlier : List (Effect r)) × (t ≡ show_consent j ∷ earlier))
  PhaseHolds (signing j) t = IsSigned t × IsDecoded j
  PhaseHolds _ t = Unit

  pub record IsSafe (p : Page r) : Type 0 where
    pub gated : IsGated p.trace
    pub holds : PhaseHolds p.phase p.trace

  pub show-IsSafe :
      (j : Job r) (p : Page r)
      → IsGated p.trace
      → (j.reject_only ≡ false → IsDecoded j)
      → IsSafe (show r j p)
  unfolding show
  show-IsSafe j p g d = record { gated = g; holds = (d, (p.trace, refl)) }

  undecodable-IsSafe :
      (req : Request) (c : Option String) (t : Transport r) (why : String) (p : Page r)
      → IsGated p.trace
      → IsSafe (show r (undecodable r req c t why) p)
  undecodable-IsSafe req c t why p g = show-IsSafe (undecodable r req c t why) p g (λ e. cc)

  simulate_or_show-IsSafe :
      (o : Settled (Option Payload)) (j : Job r) (p : Page r)
      → IsGated p.trace
      → j.reject_only ≡ false
      → IsDecoded j
      → IsSafe (simulate_or_show r o j p)
  unfolding simulate_or_show
  simulate_or_show-IsSafe (rejected f) j p g e d = record { gated = g; holds = tt }
  simulate_or_show-IsSafe (fulfilled none) j p g e d = show-IsSafe j p g (λ _. d)
  simulate_or_show-IsSafe (fulfilled (some payload)) j p g e d = record {
    gated = g;
    holds = (d, e);
  }

  show_decoded-IsSafe :
      (d : Settled (List ConsentDisplayLine)) (req : Request) (c : Option String) (t : Transport r)
      (p : Page r)
      → r.decode req ≡ d
      → IsGated p.trace
      → IsSafe (show_decoded r d req c t p)
  unfolding show_decoded
  show_decoded-IsSafe (rejected f) req c t p e g = undecodable-IsSafe req c t f.message p g
  show_decoded-IsSafe (fulfilled []) req c t p e g = undecodable-IsSafe req c t _ p g
  show_decoded-IsSafe (fulfilled (l ∷ ls)) req c t p e g =
      simulate_or_show-IsSafe (r.payload_for req) _ p g refl (record {
        first = l;
        rest = ls;
        simulated_lines = [];
        decoded = e;
        shown = sym (append-nil (l ∷ ls));
      })

  run_sign-IsSafe :
      (req : Request) (c : Option String) (t : Transport r) (p : Page r)
      → IsGated p.trace
      → IsSafe (run_sign r req c t p)
  unfolding run_sign
  run_sign-IsSafe req c t p g = show_decoded-IsSafe (r.decode req) req c t p refl g

  run_authorize-IsSafe :
      (nonce : Value) (t : Transport r) (p : Page r)
      → IsGated p.trace
      → IsSafe (run_authorize r nonce t p)
  unfolding run_authorize
  run_authorize-IsSafe (str nonce) t p g = elim (Bool-cases (nonce === "")) [
    | inl e ↦ rw e (record { gated = g; holds = tt })
    | inr e ↦ rw e (record { gated = g; holds = tt })
  ]
  run_authorize-IsSafe _ t p g = record { gated = g; holds = tt }

  pub drive_request-IsSafe :
      (m : MessageData r) (t : Transport r) (p : Page r) → IsSafe p → IsSafe (drive_request r m t p)
  unfolding drive_request
  drive_request-IsSafe not_an_object t p s = s
  drive_request-IsSafe (an_object kind nonce req c) t p s =
      elim (Bool-cases (is_kind kind "authorize")) [
        | inl e ↦ rw e (run_authorize-IsSafe nonce t p s.gated)
        | inr e ↦ rw e (run_sign-IsSafe req c t p s.gated)
      ]
