-- ===== src/Channel/Web/Replies.antt =====
-- packages/core/src/channel/channels/web.ts: what the popup channel settles with.
use avok_js.Base.{
  ℕ, suc, ◌≡◌, refl, sym, ap, ◌∙◌, subst, arith, String, ===_iff, zero, true, false, Bool-cases,
  ◌⊎◌, inl, inr, Option-cases, some, List, [], ◌∷◌, Any, here, there, Value, Settled, fulfilled,
}
use avok_js.Channel.Web.{
  WindowMessage, Channel, cleanup, kind_of, is_text, is_foreign, answered, dispatched, is_reply,
  handler, on_timeout, on_tick, on_deferred, Event, message, timeout, tick, deferred_check,
  run_deferred, step, run, opened,
}

kept-by_deferred :
    (n : ℕ) (c : Channel) (r : Settled Value)
    → c.outcome ≡ some r
    → (run_deferred n c).outcome ≡ some r
unfolding cleanup on_deferred
kept-by_deferred zero c r h = h
kept-by_deferred (suc n) c r h = ground arith

pub kept-by :
    (c : Channel) (e : Event) (r : Settled Value) → c.outcome ≡ some r → (step c e).outcome ≡ some r
unfolding step handler cleanup on_timeout on_tick on_deferred
kept-by c (message e) r h = ground arith
kept-by c timeout r h = ground arith
kept-by c (tick b) r h = ground arith
kept-by c deferred_check r h = kept-by_deferred c.deferred c r h

-- Once the promise is settled, nothing that happens changes its outcome.
pub outcome_final :
    (c : Channel) (es : List Event) (r : Settled Value)
    → c.outcome ≡ some r
    → (run c es).outcome ≡ some r
unfolding run
outcome_final c [] r h = h
outcome_final c (e ∷ es) r h = outcome_final (step c e) es r (kept-by c e r h)

abbrev pub IsReplyTo : ℕ → String → Value → Event → Type 0
IsReplyTo popup origin v (message m) =
    (m.source ≡ popup) × (m.origin ≡ origin) × (m.contents ≡ v) × (is_reply v ≡ true)
IsReplyTo popup origin v _ = ⊥

deferred-keeps :
    (n : ℕ) (c : Channel)
    → ((run_deferred n c).popup ≡ c.popup)
      × ((run_deferred n c).expected_origin ≡ c.expected_origin)
unfolding cleanup on_deferred
deferred-keeps zero c = (refl, refl)
deferred-keeps (suc n) c = (ground arith, ground arith)

pub step-keeps :
    (c : Channel) (e : Event)
    → ((step c e).popup ≡ c.popup) × ((step c e).expected_origin ≡ c.expected_origin)
unfolding step handler cleanup on_timeout on_tick on_deferred
step-keeps c (message e) = (ground arith, ground arith)
step-keeps c timeout = (ground arith, ground arith)
step-keeps c (tick b) = (ground arith, ground arith)
step-keeps c deferred_check = deferred-keeps c.deferred c

deferred-reply :
    (n : ℕ) (c : Channel) (v : Value)
    → (run_deferred n c).outcome ≡ some (fulfilled v)
    → c.outcome ≡ some (fulfilled v)
unfolding cleanup on_deferred
deferred-reply zero c v h = h
deferred-reply (suc n) c v h = ground arith

answered-reply :
    (w : Value) (c : Channel) (v : Value)
    → (answered w c).outcome ≡ some (fulfilled v)
    → (c.outcome ≡ some (fulfilled v)) ⊎ (w ≡ v)
unfolding cleanup
answered-reply w c v h = elim (Option-cases c.outcome) [
  | inr (o, e) ↦ inl (ground arith)
  | inl e ↦ let f : some (fulfilled w) ≡ some (fulfilled v) = ground arith in inr cc
]

dispatched-reply :
    (w : Value) (c : Channel) (v : Value)
    → (dispatched w c).outcome ≡ some (fulfilled v)
    → (c.outcome ≡ some (fulfilled v)) ⊎ ((w ≡ v) × (is_reply w ≡ true))
dispatched-reply w c v h = elim (Bool-cases (is_text (kind_of w) "ready")) [
  | inl e ↦ inl (ground arith)
  | inr e ↦ elim (Bool-cases (is_reply w)) [
    | inr f ↦ inl (ground arith)
    | inl f ↦
        let k : (answered w c).outcome ≡ some (fulfilled v) = ground arith in
        elim (answered-reply w c v k) [ inl g ↦ inl g | inr g ↦ inr (g, f) ]
  ]
]

is_foreign-false :
    (m : WindowMessage) (c : Channel)
    → is_foreign m c ≡ false
    → (m.source ≡ c.popup) × (m.origin ≡ c.expected_origin)
is_foreign-false m c e = (ground (arith), ground (arith, ===_iff m.origin c.expected_origin))

message-reply :
    (c : Channel) (m : WindowMessage) (v : Value)
    → (step c (message m)).outcome ≡ some (fulfilled v)
    → (c.outcome ≡ some (fulfilled v)) ⊎ IsReplyTo c.popup c.expected_origin v (message m)
unfolding step handler
message-reply c m v h = elim (Bool-cases c.listening) [
  | inr e ↦ inl (ground arith)
  | inl e ↦ elim (Bool-cases (is_foreign m c)) [
    | inl f ↦ inl (ground arith)
    | inr f ↦
        let (a, b) = is_foreign-false m c f in
        let k : (dispatched m.contents c).outcome ≡ some (fulfilled v) = ground arith in
        elim (dispatched-reply m.contents c v k) [
          | inl g ↦ inl g
          | inr (g, i) ↦ inr (a, b, g, ap is_reply (sym g) ∙ i)
        ]
  ]
]

step-reply :
    (c : Channel) (e : Event) (v : Value)
    → (step c e).outcome ≡ some (fulfilled v)
    → (c.outcome ≡ some (fulfilled v)) ⊎ IsReplyTo c.popup c.expected_origin v e
unfolding step on_timeout cleanup on_tick
step-reply c (message m) v h = message-reply c m v h
step-reply c timeout v h = inl (ground arith)
step-reply c (tick b) v h = inl (ground arith)
step-reply c deferred_check v h = inl (deferred-reply c.deferred c v h)

run-reply :
    (c : Channel) (es : List Event) (popup : ℕ) (origin : String) (v : Value)
    → c.popup ≡ popup
    → c.expected_origin ≡ origin
    → (run c es).outcome ≡ some (fulfilled v)
    → (c.outcome ≡ some (fulfilled v)) ⊎ Any (IsReplyTo popup origin v) es
unfolding run
run-reply c [] popup origin v p o h = inl h
run-reply c (e ∷ es) popup origin v p o h =
    let (q, n) = step-keeps c e in
    elim (run-reply (step c e) es popup origin v (q ∙ p) (n ∙ o) h) [
      | inr a ↦ inr (there a)
      | inl a ↦ elim (step-reply c e v a) [
        | inl b ↦ inl b
        | inr b ↦ inr (
            here (
              subst (λ x. IsReplyTo popup x v e) o
                (subst (λ x. IsReplyTo x c.expected_origin v e) p b)))
      ]
    ]

-- What an opened channel resolves to is what a message of kind sign or authorize carried, which came
-- from the very popup that was opened and from the expected origin.
pub reply_of_popup :
    (popup : ℕ) (origin : String) (es : List Event) (v : Value)
    → (run (opened popup origin) es).outcome ≡ some (fulfilled v)
    → Any (IsReplyTo popup origin v) es
reply_of_popup popup origin es v h =
    elim (run-reply (opened popup origin) es popup origin v refl refl h) [ inl e ↦ cc | inr a ↦ a ]
