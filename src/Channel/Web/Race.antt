-- ===== src/Channel/Web/Race.antt =====
-- packages/core/src/channel/channels/web.ts: a reply that is queued when the popup is seen closed.
use avok_js.Base.{
  ℕ, ◌≡◌, refl, sym, ap, ◌∙◌, arith, String, ◌===◌, ===_iff, true, false, ◌||◌, Bool-cases, inl,
  inr, Option, none, some, List, [], ◌∷◌, Value, str, fulfilled,
}
use avok_js.Channel.Web.{
  WindowMessage, Channel, cleanup, kind_of, is_text, is_reply, is_foreign, handler, on_tick, Event,
  message, tick, deferred_check, step, run, opened,
}
use avok_js.Channel.Web.Live.{IsLive, run-opened-IsLive}
use avok_js.Channel.Web.Replies.{kept-by, step-keeps}

run-keeps :
    (c : Channel) (es : List Event)
    → ((run c es).popup ≡ c.popup) × ((run c es).expected_origin ≡ c.expected_origin)
unfolding run
run-keeps c [] = (refl, refl)
run-keeps c (e ∷ es) =
    let (a, b) = run-keeps (step c e) es in let (d, f) = step-keeps c e in (a ∙ d, b ∙ f)

other_text : (s : String) → ((s === "sign") || (s === "authorize")) ≡ true → (s === "ready") ≡ false
other_text s h = elim (Bool-cases (s === "sign")) [
  | inl e ↦ ap (λ t. t === "ready") ((===_iff s "sign").0 e)
  | inr e ↦
      let f : (s === "authorize") ≡ true = ap (λ b. b || (s === "authorize")) (sym e) ∙ h in
      ap (λ t. t === "ready") ((===_iff s "authorize").0 f)
]

not_ready :
    (o : Option Value)
    → (is_text o "sign" || is_text o "authorize") ≡ true
    → is_text o "ready" ≡ false
not_ready (some (str s)) h = other_text s h
not_ready _ h = refl

open_until : (c : Channel) → IsLive c → c.outcome ≡ none → c.settled ≡ false
open_until c l h = elim (Bool-cases c.settled) [
  | inr e ↦ e
  | inl e ↦ let (_, _, _, o) = l.over e in cc
]

reply_taken :
    (c : Channel) (m : WindowMessage)
    → c.settled ≡ false
    → c.listening ≡ true
    → c.outcome ≡ none
    → m.source ≡ c.popup
    → m.origin ≡ c.expected_origin
    → is_reply m.contents ≡ true
    → (step c (message m)).outcome ≡ some (fulfilled m.contents)
unfolding step handler cleanup
reply_taken c m u l o s g r =
    let n = not_ready (kind_of m.contents) r in
    let f : is_foreign m c ≡ false = ground (arith, ===_iff m.origin c.expected_origin) in
    ground arith

tick-keeps :
    (c : Channel)
    → ((step c (tick true)).settled ≡ c.settled)
      × ((step c (tick true)).listening ≡ c.listening)
      × ((step c (tick true)).outcome ≡ c.outcome)
unfolding step on_tick
tick-keeps c = (ground arith, ground arith, ground arith)

-- While the promise of an opened channel is open: where the poll finds the popup closed, and a reply of the
-- popup is taken before the check that the poll deferred, the channel resolves to the reply and is not
-- rejected as closed.
pub reply_beats_close :
    (popup : ℕ) (origin : String) (es : List Event) (m : WindowMessage)
    → (run (opened popup origin) es).outcome ≡ none
    → m.source ≡ popup
    → m.origin ≡ origin
    → is_reply m.contents ≡ true
    → (run (run (opened popup origin) es) (tick true ∷ message m ∷ deferred_check ∷ [])).outcome
      ≡ some (fulfilled m.contents)
unfolding run
reply_beats_close popup origin es m o s g r =
    let c = run (opened popup origin) es in
    let l = run-opened-IsLive popup origin es in
    let u = open_until c l o in
    let (_, listening, _) = l.waiting u in
    let (a, b) = run-keeps (opened popup origin) es in
    let (a', b') = step-keeps c (tick true) in
    let (d, e, f) = tick-keeps c in
    let taken =
      reply_taken (step c (tick true)) m (d ∙ u) (e ∙ listening) (f ∙ o) (s ∙ sym (a' ∙ a))
        (g ∙ sym (b' ∙ b)) r in
    kept-by (step (step c (tick true)) (message m)) deferred_check (fulfilled m.contents) taken
