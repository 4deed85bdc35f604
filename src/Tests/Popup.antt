-- ===== src/Tests/Popup.antt =====
-- The theorems on the popup channel at concrete runs.
use avok_js.Base.{
  ◌≡◌, refl, String, true, some, is_some, List, [], ◌∷◌, Any, Value, str, obj, prop, end, false,
  fulfilled,
}
use avok_js.Channel.Web.{
  Event, message, timeout, tick, deferred_check, opened, step, run, handler, cleanup, on_tick,
  on_deferred, WindowMessage,
}
use avok_js.Channel.Web.Race.{reply_beats_close}
use avok_js.Channel.Web.Live.{timeout_settles}
use avok_js.Channel.Web.Replies.{IsReplyTo, reply_of_popup}

abbrev vault : String
vault = "https://vault.example"

abbrev reply : Value
reply = obj (prop "kind" (str "sign") end)

abbrev late_reply : List Event
late_reply =
    message (record { source = 4; origin = "https://other.example"; contents = reply })
    ∷ tick true
    ∷ message (record { source = 4; origin = vault; contents = reply })
    ∷ deferred_check
    ∷ []

timeout_settles_example :
    is_some (step (run (opened 4 vault) (tick true ∷ [])) timeout).outcome ≡ true
timeout_settles_example = timeout_settles 4 vault (tick true ∷ [])

reply_of_popup_example : Any (IsReplyTo 4 vault reply) late_reply
unfolding run step handler cleanup on_tick on_deferred
reply_of_popup_example = reply_of_popup 4 vault late_reply reply refl

abbrev popup_reply : WindowMessage
popup_reply = record { source = 4; origin = vault; contents = reply }

reply_beats_close_example :
    (run
      (run (opened 4 vault) (tick false ∷ []))
      (tick true ∷ message popup_reply ∷ deferred_check ∷ [])).outcome
    ≡ some (fulfilled reply)
unfolding run step on_tick
reply_beats_close_example =
    reply_beats_close 4 vault (tick false ∷ []) popup_reply refl refl refl refl
