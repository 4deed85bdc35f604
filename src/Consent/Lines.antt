-- ===== src/Consent/Lines.antt =====
-- packages/core/src/auth-popup/sign/consent-display.ts: the lines of the approval screen.
use avok_js.Base.{ℕ, ltb, String, if◌then◌else◌, List, [], ◌∷◌, map}

pub data Severity : Type 0 where
  info caution danger : Severity

pub record ConsentDisplayLine : Type 0 where
  pub text : String
  pub severity : Severity

abbrev pub info_line : String → ConsentDisplayLine
info_line t = record { text = t; severity = info }

abbrev pub caution_line : String → ConsentDisplayLine
caution_line t = record { text = t; severity = caution }

abbrev pub danger_line : String → ConsentDisplayLine
danger_line t = record { text = t; severity = danger }

abbrev pub rank : Severity → ℕ
rank info = 0
rank caution = 1
rank danger = 2

abbrev pub worse : Severity → Severity → Severity
worse a b = if ltb (rank a) (rank b) then b else a

-- `reduce`, from the left.
unfoldable pub worst_from : Severity → List ConsentDisplayLine → Severity
worst_from worst [] = worst
worst_from worst (l ∷ ls) = worst_from (worse worst l.severity) ls

unfoldable pub highest_severity : List ConsentDisplayLine → Severity
unfolding worst_from
highest_severity lines = worst_from info lines

unfoldable pub display_text : List ConsentDisplayLine → List String
display_text lines = map (λ l. l.text) lines
