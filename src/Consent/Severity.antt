-- ===== src/Consent/Severity.antt =====
-- packages/core/src/auth-popup/sign/consent.ts: the grade of a whole screen.
use avok_js.Base.{
  ◌≡◌, refl, ◌≤◌, arith, ltb, List, [], ◌∷◌, All, Any, here, there, ◌⊎◌, inl, inr, Bool-cases, ◌∙◌,
  sym,
}
use avok_js.Consent.Lines.{
  Severity, info, caution, danger, ConsentDisplayLine, rank, worse, worst_from, highest_severity,
}

abbrev pub Covers : Severity → List ConsentDisplayLine → Type 0
Covers s ls = All (λ l. rank l.severity ≤ rank s) ls

abbrev pub Attains : Severity → List ConsentDisplayLine → Type 0
Attains s ls = Any (λ l. l.severity ≡ s) ls

worse-left : (a b : Severity) → rank a ≤ rank (worse a b)
worse-left info info = omega arith
worse-left info caution = omega arith
worse-left info danger = omega arith
worse-left caution info = omega arith
worse-left caution caution = omega arith
worse-left caution danger = omega arith
worse-left danger info = omega arith
worse-left danger caution = omega arith
worse-left danger danger = omega arith

worse-right : (a b : Severity) → rank b ≤ rank (worse a b)
worse-right info info = omega arith
worse-right info caution = omega arith
worse-right info danger = omega arith
worse-right caution info = omega arith
worse-right caution caution = omega arith
worse-right caution danger = omega arith
worse-right danger info = omega arith
worse-right danger caution = omega arith
worse-right danger danger = omega arith

worse-one : (a b : Severity) → (worse a b ≡ a) ⊎ (b ≡ worse a b)
worse-one a b = elim (Bool-cases (ltb (rank a) (rank b))) [
  | inl e ↦ inr (rw (worse, e) refl)
  | inr e ↦ inl (rw (worse, e) refl)
]

worst_from-bound :
    (s : Severity) (ls : List ConsentDisplayLine)
    → (rank s ≤ rank (worst_from s ls)) × Covers (worst_from s ls) ls
unfolding worst_from
worst_from-bound s [] = (omega arith, tt)
worst_from-bound s (l ∷ ls) =
    let (a, b) = worst_from-bound (worse s l.severity) ls in
    let c = worse-left s l.severity in
    let d = worse-right s l.severity in (omega arith, (omega arith, b))

worst_from-attained :
    (s : Severity) (ls : List ConsentDisplayLine)
    → (worst_from s ls ≡ s) ⊎ Attains (worst_from s ls) ls
unfolding worst_from
worst_from-attained s [] = inl refl
worst_from-attained s (l ∷ ls) = elim (worst_from-attained (worse s l.severity) ls) [
  | inr a ↦ inr (there a)
  | inl e ↦ elim (worse-one s l.severity) [ inl f ↦ inl (e ∙ f) | inr f ↦ inr (here (f ∙ sym e)) ]
]

-- No line of a screen is graded above the screen, and a screen that is not graded as information has a
-- line of its grade.
pub highest_severity_exact :
    (ls : List ConsentDisplayLine)
    → Covers (highest_severity ls) ls
      × ((highest_severity ls ≡ info) ⊎ Attains (highest_severity ls) ls)
unfolding highest_severity
highest_severity_exact ls = ((worst_from-bound info ls).1, worst_from-attained info ls)
