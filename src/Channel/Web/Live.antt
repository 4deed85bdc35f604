-- ===== src/Channel/Web/Live.antt =====
-- packages/core/src/channel/channels/web.ts: the listener and the timers of the popup channel, until it is settled and after.
use avok_js.Base.{
  ℕ, suc, ◌≡◌, refl, arith, String, if◌then◌else◌, zero, throw, Bool, true, false, Bool-cases, inl,
  inr, none, is_some, List, [], ◌∷◌, Value, Settled, fulfilled,
}
use avok_js.Channel.Web.{
  WindowMessage, Channel, settle, cleanup, kind_of, is_text, is_foreign, asked_again, answered,
  dispatched, is_reply, handler, on_timeout, on_tick, on_deferred, Event, message, timeout, tick,
  deferred_check, run_deferred, step, run, opened, timeout_reason, closed_reason,
}

-- Before the promise is settled everything is armed; after it everything is released.
pub record IsLive (c : Channel) : Type 0 where
  pub waiting : c.settled ≡ false → (c.timer ≡ true) × (c.listening ≡ true) × (c.outcome ≡ none)
  pub over :
      c.settled ≡ true
      → (c.timer ≡ false) × (c.listening ≡ false) × (c.polling ≡ false) × (is_some c.outcome ≡ true)

-- The first settlement, with its cleanup.
settled-IsLive :
    (r : Settled Value) (c : Channel)
    → c.settled ≡ false
    → c.outcome ≡ none
    → IsLive (settle r (cleanup c))
unfolding cleanup
settled-IsLive r c e f = record { waiting = λ h. ground arith; over = λ h. ground arith }

armed : (c : Channel) → IsLive c → c.listening ≡ true → c.settled ≡ false
armed c l h = elim (Bool-cases c.settled) [ inr e ↦ e | inl e ↦ let (_, f, _, _) = l.over e in cc ]

ticking : (c : Channel) → IsLive c → c.timer ≡ true → c.settled ≡ false
ticking c l h = elim (Bool-cases c.settled) [
  | inr e ↦ e
  | inl e ↦ let (f, _, _, _) = l.over e in cc
]

if-IsLive :
    (b : Bool) (x y : Channel)
    → (b ≡ true → IsLive x)
    → (b ≡ false → IsLive y)
    → IsLive (if b then x else y)
if-IsLive true x y h k = h refl
if-IsLive false x y h k = k refl

unsettled-outcome : (c : Channel) → IsLive c → c.settled ≡ false → c.outcome ≡ none
unsettled-outcome c l e = let (_, _, o) = l.waiting e in o

dispatched-IsLive :
    (v : Value) (c : Channel) → IsLive c → c.settled ≡ false → IsLive (dispatched v c)
dispatched-IsLive v c l u =
    if-IsLive (is_text (kind_of v) "ready") (asked_again c) (if is_reply v then answered v c else c)
      (λ _. record { waiting = l.waiting; over = l.over })
      (λ _.
        if-IsLive (is_reply v) (answered v c) c
          (λ _. settled-IsLive (fulfilled v) c u (unsettled-outcome c l u)) (λ _. l))

handler-IsLive :
    (e : WindowMessage) (c : Channel) → IsLive c → c.settled ≡ false → IsLive (handler e c)
unfolding handler
handler-IsLive e c l u =
    if-IsLive (is_foreign e c) c (dispatched e.contents c) (λ _. l)
      (λ _. dispatched-IsLive e.contents c l u)

deferred-IsLive : (n : ℕ) (c : Channel) → IsLive c → IsLive (run_deferred n c)
unfolding on_deferred
deferred-IsLive zero c l = l
deferred-IsLive (suc n) c l =
    let d : IsLive (record c { deferred = n }) = record { waiting = l.waiting; over = l.over } in
    let gone = settle (throw closed_reason) (cleanup (record c { deferred = n })) in
    if-IsLive c.settled (record c { deferred = n }) gone (λ _. d)
      (λ u.
        settled-IsLive (throw closed_reason) (record c { deferred = n }) u
          (unsettled-outcome c l u))

tick-IsLive : (b : Bool) (c : Channel) → IsLive c → IsLive (on_tick b c)
unfolding on_tick
tick-IsLive false c l = l
tick-IsLive true c l = record {
  waiting = l.waiting;
  over = λ h. let (f, g, _, o) = l.over h in (f, g, refl, o);
}

timeout-IsLive :
    (c : Channel) → IsLive c → c.timer ≡ true → IsLive (on_timeout (record c { timer = false }))
unfolding on_timeout
timeout-IsLive c l h =
    let u = ticking c l h in
    settled-IsLive (throw timeout_reason) (record c { timer = false }) u (unsettled-outcome c l u)

step-IsLive : (c : Channel) (e : Event) → IsLive c → IsLive (step c e)
unfolding step
step-IsLive c (message e) l =
    if-IsLive c.listening (handler e c) c (λ h. handler-IsLive e c l (armed c l h)) (λ _. l)
step-IsLive c timeout l =
    if-IsLive c.timer (on_timeout (record c { timer = false })) c (timeout-IsLive c l) (λ _. l)
step-IsLive c (tick b) l = if-IsLive c.polling (on_tick b c) c (λ _. tick-IsLive b c l) (λ _. l)
step-IsLive c deferred_check l = deferred-IsLive c.deferred c l

run-IsLive : (c : Channel) (es : List Event) → IsLive c → IsLive (run c es)
unfolding run
run-IsLive c [] l = l
run-IsLive c (e ∷ es) l = run-IsLive (step c e) es (step-IsLive c e l)

begun-IsLive : (popup : ℕ) (origin : String) → IsLive (opened popup origin)
begun-IsLive popup origin = record { waiting = λ h. (refl, refl, refl); over = λ h. cc }

-- Whatever tasks run, in any order: while the promise of an opened channel is open, its timeout and its
-- listener are armed; once it is settled it has an outcome, and its timeout, its listener and its poll are
-- all released.
pub run-opened-IsLive :
    (popup : ℕ) (origin : String) (es : List Event) → IsLive (run (opened popup origin) es)
run-opened-IsLive popup origin es = run-IsLive (opened popup origin) es (begun-IsLive popup origin)

settled-after :
    (r : Settled Value) (c : Channel)
    → c.settled ≡ false
    → c.outcome ≡ none
    → is_some (settle r (cleanup c)).outcome ≡ true
unfolding cleanup
settled-after r c u e = ground arith

timed_out : (c : Channel) → IsLive c → is_some (step c timeout).outcome ≡ true
unfolding step on_timeout
timed_out c l = elim (Bool-cases c.settled) [
  | inl e ↦ let (f, _, _, o) = l.over e in ground arith
  | inr u ↦
      let (f, _, o) = l.waiting u in
      let g = settled-after (throw timeout_reason) (record c { timer = false }) u o in ground arith
]

-- The timeout settles whatever is still open: when it has run, an opened channel has an outcome.
pub timeout_settles :
    (popup : ℕ) (origin : String) (es : List Event)
    → is_some (step (run (opened popup origin) es) timeout).outcome ≡ true
timeout_settles popup origin es =
    timed_out (run (opened popup origin) es) (run-opened-IsLive popup origin es)
