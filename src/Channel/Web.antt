-- ===== src/Channel/Web.antt =====
-- packages/core/src/channel/channels/web.ts: the popup channel, as a state machine.
-- An event is a task that the browser runs: a message to the listener, the timeout, a tick of the poll, or
-- the deferred check that a tick queues. What has been cancelled does not run.
pub mod Live
pub mod Replies
pub mod Race
use Prim.Native.String
use avok_js.Base.{
  ℕ, zero, suc, ◌+◌, ◌==◌, String, ◌===◌, if◌then◌else◌, Bool, true, false, not, ◌||◌, Option, none,
  some, List, [], ◌∷◌, Value, str, obj, property, Settled, fulfilled, throw,
}

-- `new URL(...)`: the parts that are read.
pub record Url : Type 0 where
  pub protocol : String
  pub hostname : String
  pub origin : String

abbrev pub is_localhost : String → Bool
is_localhost h = h === "localhost" || h === "127.0.0.1" || h === "[::1]"

-- The origin of replies, or the refusal of an insecure transport.
unfoldable pub create_web_channel : Url → Settled String
create_web_channel parsed =
    if parsed.protocol === "https:" || is_localhost parsed.hostname
    then fulfilled parsed.origin
    else throw "createWebChannel: originPoint must use HTTPS"

pub record WindowMessage : Type 0 where
  pub source : ℕ
  pub origin : String
  pub contents : Value

-- `deferred` counts the checks that are queued, `sent` the requests posted to the popup.
pub record Channel : Type 0 where
  pub popup : ℕ
  pub expected_origin : String
  pub settled : Bool
  pub timer : Bool
  pub polling : Bool
  pub listening : Bool
  pub deferred : ℕ
  pub sent : ℕ
  pub closed_by_us : Bool
  pub outcome : Option (Settled Value)

-- A promise keeps what it was settled with first.
abbrev pub settle : Settled Value → Channel → Channel
settle r c = elim c.outcome [ none ↦ record c { outcome = some r } | some o ↦ c ]

unfoldable pub cleanup : Channel → Channel
cleanup c = if c.settled then c else record c {
  settled = true;
  timer = false;
  polling = false;
  listening = false;
  closed_by_us = true;
}

abbrev pub kind_of : Value → Option Value
kind_of (obj ps) = property "kind" ps
kind_of _ = none

abbrev pub is_text : Option Value → String → Bool
is_text (some (str s)) k = s === k
is_text _ k = false

abbrev pub is_reply : Value → Bool
is_reply v = is_text (kind_of v) "sign" || is_text (kind_of v) "authorize"

abbrev pub is_foreign : WindowMessage → Channel → Bool
is_foreign e c = not (e.source == c.popup) || not (e.origin === c.expected_origin)

abbrev pub asked_again : Channel → Channel
asked_again c = record c { sent = c.sent + 1 }

abbrev pub answered : Value → Channel → Channel
answered v c = settle (fulfilled v) (cleanup c)

abbrev pub dispatched : Value → Channel → Channel
dispatched v c =
    if is_text (kind_of v) "ready" then asked_again c else if is_reply v then answered v c else c

unfoldable pub handler : WindowMessage → Channel → Channel
unfolding cleanup
handler e c = if is_foreign e c then c else dispatched e.contents c

abbrev pub timeout_reason : String
timeout_reason = "Popup timed out: no reply received within the allowed window"

abbrev pub closed_reason : String
closed_reason = "Signing popup was closed"

unfoldable pub on_timeout : Channel → Channel
unfolding cleanup
on_timeout c = settle (throw timeout_reason) (cleanup c)

unfoldable pub on_tick : Bool → Channel → Channel
on_tick popup_closed c =
    if popup_closed then record c { polling = false; deferred = c.deferred + 1 } else c

unfoldable pub on_deferred : Channel → Channel
unfolding cleanup
on_deferred c = if c.settled then c else settle (throw closed_reason) (cleanup c)

pub data Event : Type 0 where
  message : WindowMessage → Event
  timeout : Event
  tick : (popup_closed : Bool) → Event
  deferred_check : Event

abbrev pub run_deferred : ℕ → Channel → Channel
run_deferred zero c = c
run_deferred (suc n) c = on_deferred (record c { deferred = n })

unfoldable pub step : Channel → Event → Channel
unfolding handler on_timeout on_tick on_deferred
step c (message e) = if c.listening then handler e c else c
step c timeout = if c.timer then on_timeout (record c { timer = false }) else c
step c (tick popup_closed) = if c.polling then on_tick popup_closed c else c
step c deferred_check = run_deferred c.deferred c

unfoldable pub run : Channel → List Event → Channel
unfolding step
run c [] = c
run c (e ∷ es) = run (step c e) es

-- `open`, where the popup was not blocked: the request is posted at once.
abbrev pub opened : ℕ → String → Channel
opened popup expected_origin = record {
  popup = popup;
  expected_origin = expected_origin;
  settled = false;
  timer = true;
  polling = true;
  listening = true;
  deferred = 0;
  sent = 1;
  closed_by_us = false;
  outcome = none;
}

unfoldable pub open_channel : Option ℕ → String → Settled Channel
open_channel none expected_origin = throw "Popup blocked: window.open returned null"
open_channel (some popup) expected_origin = fulfilled (opened popup expected_origin)
