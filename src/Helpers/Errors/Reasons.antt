-- ===== src/Helpers/Errors/Reasons.antt =====
-- packages/core/src/helpers/errors.ts: the reason that a paymaster gives for a refusal.
use Prim.Native.Char.{Char, code}
use native.Mathlib.Omega.{arith}
use avok_js.Base.{
  ◌≡◌, refl, ap, ◌∙◌, String, Bool, true, false, if◌then◌else◌, Option, none, some, ◌==◌, leb, ℕ,
  ◌||◌, ◌&&◌,
}
use avok_js.Helpers.Amount.{append}
use avok_js.Helpers.Names.{is_white, trim_start}
use avok_js.Helpers.Errors.{
  error, SendErrorKind, sponsored_unavailable, reason_message, is_word, take_word, some_word,
  reason_at, or_later, paymaster_reason, classified, classify_send_error,
}

-- Letters and underscores.
abbrev pub IsWord : String → Type 0
IsWord String.[] = Unit
IsWord (String.◌∷◌ c s) = (is_word (code c) ≡ true) × IsWord s

take_word-IsWord : (r u : String) → IsWord r → take_word (append r (append " (HTTP" u)) ≡ r
unfolding take_word
take_word-IsWord String.[] u h = refl
take_word-IsWord (String.◌∷◌ c r) u (h, hs) = rw h (ap (String.◌∷◌ c) (take_word-IsWord r u hs))

not_white : (n : ℕ) → is_word n ≡ true → is_white n ≡ false
not_white n h = ground arith

reason_read :
    (c : Char) (r u : String)
    → IsWord (String.◌∷◌ c r)
    → reason_at (some (String.◌∷◌ c (append r (append " (HTTP" u)))) ≡ some (String.◌∷◌ c r)
reason_read c r u (h, hs) =
    rw (trim_start, not_white (code c) h)
      (ap some_word (take_word-IsWord (String.◌∷◌ c r) u (h, hs)))

explained :
    (k : SendErrorKind) (detail reason : String) (first later : Option String)
    → first ≡ some reason
    → classified k detail (or_later first later)
      ≡ record { kind = sponsored_unavailable; message = reason_message reason }
explained k detail reason first later h = rw h refl

-- For an error that says that the paymaster refused, with a reason of letters and underscores before the status,
-- the kind is that of sponsorship and the message is that of the reason, whatever the reason's words are otherwise
-- taken for and whatever the error's name is.
pub refusal_explained :
    (name : String) (c : Char) (r u : String)
    → IsWord (String.◌∷◌ c r)
    → classify_send_error (
        error name (
          append "Paymaster refused the transaction: "
            (String.◌∷◌ c (append r (append " (HTTP" u)))))
      ≡ record { kind = sponsored_unavailable; message = reason_message (String.◌∷◌ c r) }
unfolding classify_send_error paymaster_reason avok_js.Base.to_lower_case
refusal_explained name c r u h = explained _ _ (String.◌∷◌ c r) _ _ (reason_read c r u h)
