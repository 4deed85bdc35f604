-- ===== src/Ceremony/Retry.antt =====
-- packages/core/src/auth-popup/ceremony.ts: the consent loop after a gesture that fails.
use avok_js.Ceremony.Safety.{HonestView}
use avok_js.Base.{
  ℕ, ◌≡◌, refl, arith, true, false, ◌||◌, String, Option, none, some, List, [], ◌∷◌, ◌++◌, All, str,
  ===_iff, ◌≢◌, undefined, Failure, fulfilled, rejected,
}
use avok_js.Ceremony.Types.{
  Rendering, signed, an_object, to_opener, Job, deciding, done, sign_with, post, close, Page, Event,
  message, decided, signature_settled, Effect,
}
use avok_js.Consent.Lines.{ConsentDisplayLine}
use avok_js.Ceremony.{
  is_terminal_signing_failure, on_decision, on_signed, show, retry, reply, step, run, start,
  handler, accept, drive_request, run_sign, show_decoded, simulate_or_show,
}

module _ (r : Rendering) where
  open r use {Request, Signature}

  -- The user approves, and the gesture fails in this way each time.
  abbrev pub attempts : List Failure → List (Event r)
  attempts [] = []
  attempts (f ∷ fs) = decided true ∷ signature_settled (rejected f) ∷ attempts fs

  abbrev pub IsTransient : Failure → Type 0
  IsTransient f = is_terminal_signing_failure f ≡ false

  pub record EndsSigned (request : Request) (credential : Option String) (origin : String)
      (s : Signature) (p : Page r) : Type 0 where
    pub over : p.phase ≡ done
    pub earlier : List (Effect r)
    pub sent : p.trace ≡ close ∷ post (signed s) origin ∷ sign_with request credential ∷ earlier

  abbrev pub until_signed : List Failure → Signature → List (Event r)
  until_signed fs s = attempts fs ++ decided true ∷ signature_settled (fulfilled s) ∷ []

  retried :
      (fs : List Failure) (p : Page r) (j : Job r) (s : Signature) (origin : String) (w : ℕ)
      → p.phase ≡ deciding j
      → p.opener ≡ some w
      → j.transport ≡ to_opener origin
      → EndsSigned j.request j.credential_id origin s (run r p (until_signed fs s))
  unfolding run step on_decision on_signed reply retry show
  retried [] p j s origin w ph op to =
      rw ph (rw to (rw op (record { over = refl; earlier = _; sent = refl })))
  retried (f ∷ fs) p j s origin w ph op to = rw ph (
      retried fs _
        (record j {
          error = some f.message;
          reject_only = j.reject_only || is_terminal_signing_failure f;
        })
        s origin w refl op to)

  retried-HonestView :
      (fs : List Failure) (p : Page r) (j : Job r) (s : Signature)
      → p.phase ≡ deciding j
      → j.reject_only ≡ false
      → All IsTransient fs
      → HonestView r p (until_signed fs s)
  unfolding step on_decision on_signed retry show
  retried-HonestView [] p j s ph open_screen transient = rw ph (open_screen, (tt, tt))
  retried-HonestView (f ∷ fs) p j s ph open_screen (t, transient) = rw ph (
    open_screen,
    (
      tt,
      retried-HonestView fs _
          (record j {
            error = some f.message;
            reject_only = j.reject_only || is_terminal_signing_failure f;
          })
          s refl (rw (open_screen, t)) transient,
    ),
  )

  abbrev pub sign_message : ℕ → String → Request → Option String → Event r
  sign_message w origin request credential = message (record {
    source = some w;
    origin = origin;
    message = an_object (str "sign") undefined request credential;
  })

  abbrev first_job :
      Request → Option String → String → ConsentDisplayLine → List ConsentDisplayLine → Job r
  first_job request credential origin line lines = record {
    request = request;
    credential_id = credential;
    transport = to_opener origin;
    lines = line ∷ lines;
    reject_only = false;
    error = none;
  }

  module _ (w : ℕ) (own_origin origin : String) (request : Request) (credential : Option String)
      (line : ConsentDisplayLine) (lines : List ConsentDisplayLine) where
    shown_first :
        origin ≢ ""
        → origin ≢ "null"
        → r.decode request ≡ fulfilled (line ∷ lines)
        → r.payload_for request ≡ fulfilled none
        → ((step r (start r (some w) own_origin) (sign_message w origin request credential)).phase
            ≡ deciding (first_job request credential origin line lines))
          × ((step r
                (start r (some w) own_origin)
                (sign_message w origin request credential)).opener
              ≡ some w)
    unfolding step start handler accept drive_request run_sign show_decoded simulate_or_show show
    shown_first a b c d = ground (arith, ===_iff origin "", ===_iff origin "null")

    -- A request that decodes and carries no call is signed and answered at its origin, however often
    -- the gesture fails in a way that can be retried, if the user goes on approving; the view keeps its
    -- contract on the way.
    pub sign_request_served :
        (fs : List Failure) (s : Signature)
        → origin ≢ ""
        → origin ≢ "null"
        → r.decode request ≡ fulfilled (line ∷ lines)
        → r.payload_for request ≡ fulfilled none
        → All IsTransient fs
        → HonestView r
            (start r (some w) own_origin)
            (sign_message w origin request credential ∷ until_signed fs s)
          × EndsSigned request credential origin s (
              run r
                (start r (some w) own_origin)
                (sign_message w origin request credential ∷ until_signed fs s))
    unfolding run
    sign_request_served fs s a b c d transient =
        let (ph, op) = shown_first a b c d in
        let p = step r (start r (some w) own_origin) (sign_message w origin request credential) in
        let j = first_job request credential origin line lines in
        ((tt, retried-HonestView fs p j s ph refl transient), retried fs p j s origin w ph op refl)
