-- ===== src/Helpers/Errors.antt =====
-- packages/core/src/helpers/errors.ts: what an app shows for an error of a send.
pub mod Reasons
use Prim.Native.Char.{Char, code}
use Prim.Native.String
use avok_js.Base.{
  ℕ, String, ◌===◌, leb, ◌==◌, ◌||◌, ◌&&◌, if◌then◌else◌, Bool, true, false, Option, none, some,
  List, [], ◌∷◌, to_lower_case, includes, ◌≡◌, refl,
}
use avok_js.Registry.{lookup}
use avok_js.Helpers.Names.{trim_start}

pub data SendErrorKind : Type 0 where
  rejected insufficient_funds wrong_chain sponsored_unavailable unknown : SendErrorKind

-- What is thrown: an instance of `Error`, another object, with its text and the members it has, or the text of
-- anything else.
pub data Thrown : Type 0 where
  error : (name message : String) → Thrown
  object : (name message : Option String) → (text : String) → Thrown
  other : (text : String) → Thrown

abbrev pub message_of : Thrown → String
message_of (error name message) = message
message_of (object none message text) = text
message_of (object (some name) message text) = name
message_of (other text) = text

abbrev pub or_empty : Option String → String
or_empty none = ""
or_empty (some s) = s

abbrev pub two_words : String → String → String
two_words name message = to_lower_case (String.◌++◌ name (String.◌++◌ " " message))

unfoldable pub classify_text : Thrown → String
classify_text (error name message) = two_words name message
classify_text (object name message text) = two_words (or_empty name) (or_empty message)
classify_text (other text) = to_lower_case text

abbrev pub friendly : SendErrorKind → String
friendly rejected = "Passkey prompt cancelled or timed out."
friendly insufficient_funds = "Not enough balance to cover the amount plus fees."
friendly wrong_chain = "This chain isn't configured for the wallet."
friendly sponsored_unavailable =
    "Sponsored gas is unavailable — check the paymaster + fee-token config."
friendly unknown = "Something went wrong."

abbrev pub paymaster_reasons : List (String × String)
paymaster_reasons =
    (
      "fee_too_low",
      "The fee you signed is below what the paymaster now requires — gas prices moved. Try again.",
    )
    ∷ (
      "no_fee",
      "The transaction carried no fee payment, so the paymaster has nothing to be repaid with.",
    )
    ∷ (
      "wrong_fee_recipient",
      "The fee was paid to the wrong address — the app and the paymaster disagree on who collects it.",
    )
    ∷ ("unsupported_token", "The paymaster does not accept that fee token on this chain.")
    ∷ ("unsupported_chain", "The paymaster is not configured for this chain.")
    ∷ ("bad_signature", "The paymaster could not verify your signature over this transaction.")
    ∷ ("expired", "The transaction's deadline passed before the paymaster got it. Try again.")
    ∷ (
      "sim_reverted",
      "The transaction would fail on chain, so the paymaster refused to pay for it.",
    )
    ∷ ("rate_limited", "The paymaster is rate-limiting this app. Wait and retry.")
    ∷ ("bad_request", "The paymaster rejected the shape of the request.")
    ∷ []

-- What of a text follows a prefix, in lower case, whatever the case of the text.
abbrev pub after_prefix : (prefix text : String) → Option String
after_prefix String.[] text = some text
after_prefix (String.◌∷◌ c p) String.[] = none
after_prefix (String.◌∷◌ c p) (String.◌∷◌ d s) =
    let rest = after_prefix p s in
    if to_lower_case (String.◌∷◌ d String.[]) === String.◌∷◌ c String.[] then rest else none

-- `[a-z_]`, with the flag `i`.
abbrev pub is_word : ℕ → Bool
is_word n = (leb 97 n && leb n 122) || ((leb 65 n && leb n 90) || (n == 95))

unfoldable pub take_word : String → String
take_word String.[] = String.[]
take_word (String.◌∷◌ c s) =
    let rest = take_word s in if is_word (code c) then String.◌∷◌ c rest else String.[]

abbrev pub some_word : String → Option String
some_word String.[] = none
some_word (String.◌∷◌ c s) = some (String.◌∷◌ c s)

abbrev pub reason_at : Option String → Option String
reason_at none = none
reason_at (some rest) = some_word (take_word (trim_start rest))

abbrev pub or_later : Option String → Option String → Option String
or_later none later = later
or_later (some r) later = some r

-- The first place at which the pattern matches.
unfoldable pub paymaster_reason : (detail : String) → Option String
unfolding to_lower_case take_word
paymaster_reason String.[] = none
paymaster_reason (String.◌∷◌ c s) =
    let later = paymaster_reason s in
    or_later (reason_at (after_prefix "paymaster refused the transaction:" (String.◌∷◌ c s))) later

abbrev pub kind_of : (raw : String) → SendErrorKind
kind_of raw =
    if includes raw "notallowed"
      || (includes raw "not allowed"
          || (includes raw "timed out"
              || (includes raw "rejected" || (includes raw "denied" || includes raw "cancel"))))
    then rejected
    else if includes raw "insufficient"
    then insufficient_funds
    else if includes raw "unsupported chain"
        || (includes raw "not configured" || includes raw "wrong chain")
    then wrong_chain
    else if includes raw "paymaster"
        || (includes raw "relayer" || (includes raw "sponsored" || includes raw "fee token"))
    then sponsored_unavailable
    else unknown

-- The members of `Object.prototype` that are words.
abbrev pub is_prototype_member : String → Bool
is_prototype_member r =
    r === "constructor"
    || (r === "hasOwnProperty"
        || (r === "isPrototypeOf"
            || (r === "propertyIsEnumerable"
                || (r === "toLocaleString"
                    || (r === "toString"
                        || (r === "valueOf"
                            || (r === "__proto__"
                                || (r === "__defineGetter__"
                                    || (r === "__defineSetter__"
                                        || (r === "__lookupGetter__"
                                            || r === "__lookupSetter__"))))))))))

-- The message is a text, or the member that every object inherits.
pub data Message : Type 0 where
  text : String → Message
  inherited : (member : String) → Message

abbrev pub text_else : Option String → String → String
text_else none s = s
text_else (some t) s = t

abbrev pub reason_message : (reason : String) → Message
reason_message reason =
    if is_prototype_member reason
    then inherited reason
    else text (
        text_else (lookup reason paymaster_reasons)
          (String.◌++◌ "The paymaster refused this transaction: " (String.◌++◌ reason ".")))

abbrev pub kind_message : SendErrorKind → (detail : String) → String
kind_message unknown detail =
    String.◌++◌ (friendly unknown) (String.◌++◌ " (" (String.◌++◌ detail ")"))
kind_message kind detail = friendly kind

pub record Classified : Type 0 where
  pub kind : SendErrorKind
  pub message : Message

abbrev pub classified : SendErrorKind → (detail : String) → (reason : Option String) → Classified
classified kind detail none = record { kind = kind; message = text (kind_message kind detail) }
classified kind detail (some reason) = record {
  kind = sponsored_unavailable;
  message = reason_message reason;
}

unfoldable pub classify_send_error : Thrown → Classified
unfolding paymaster_reason classify_text
classify_send_error err =
    classified (kind_of (classify_text err)) (message_of err) (paymaster_reason (message_of err))

abbrev thrown : Thrown
thrown = error "Error" "User rejected — insufficient"

rejection_first_test : (classify_send_error thrown).kind ≡ rejected
unfolding classify_send_error to_lower_case
rejection_first_test = refl

inherited_test :
    (classify_send_error (error "E" "Paymaster refused the transaction: constructor")).message
    ≡ inherited "constructor"
unfolding classify_send_error to_lower_case
inherited_test = refl
