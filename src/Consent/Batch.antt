-- ===== src/Consent/Batch.antt =====
-- packages/core/src/auth-popup/sign/consent.ts: the test for Avok's own batch.
use avok_js.Base.{
  suc, ◌≡◌, refl, ap, ◌∙◌, sym, arith, String, ◌===◌, ===_iff, true, false, ◌||◌, &&-both, ◌==◌,
  ==_iff, Bool-cases, inl, inr, List, [], ◌∷◌, map, length, length-map, all, any, All, Any, here,
  there, ◌⊎◌,
}
use avok_js.Consent.Types.{Field, fields}
use avok_js.Consent.TypedData.{batch_fields, is_avok_batch_typed_data}

abbrev pub IsIn : String → List String → Type 0
IsIn k ks = Any (λ j. j ≡ k) ks

-- A list with an entry taken out: what is in the list is that entry, or in what is left.
record Removed (k : String) (ks : List String) : Type 0 where
  rest : List String
  shorter : length ks ≡ suc (length rest)
  split : (j : String) → IsIn j ks → (j ≡ k) ⊎ IsIn j rest

remove : (k : String) (ks : List String) → IsIn k ks → Removed k ks
remove k [] a = elim a [ ]
remove k (x ∷ xs) (here e) = record {
  rest = xs;
  shorter = refl;
  split = λ j a. elim a [ here f ↦ inl (sym f ∙ e) | there b ↦ inr b ];
}
remove k (x ∷ xs) (there a) =
    let r = remove k xs a in
    record {
      rest = x ∷ r.rest;
      shorter = ap suc r.shorter;
      split = λ j b. elim b [
        | here f ↦ inr (here f)
        | there c ↦ elim (r.split j c) [ inl e ↦ inl e | inr d ↦ inr (there d) ]
      ];
    }

abbrev IsDistinct : List String → Type 0
IsDistinct [] = Unit
IsDistinct (k ∷ ks) = (¬ IsIn k ks) × IsDistinct ks

All-rest :
    {k : String} {ks : List String} (r : Removed k ks) (xs : List String)
    → (¬ IsIn k xs)
    → All (λ x. IsIn x ks) xs
    → All (λ x. IsIn x r.rest) xs
All-rest r [] n h = tt
All-rest r (x ∷ xs) n (a, h) = (
  elim (r.split x a) [ inl e ↦ elim (n (here e)) [ ] | inr b ↦ b ],
  All-rest r xs (λ b. n (there b)) h,
)

-- As many entries as distinct names, which are all there: there is no other entry.
nothing_else :
    (xs ks : List String) (j : String)
    → IsDistinct xs
    → All (λ x. IsIn x ks) xs
    → length ks ≡ length xs
    → IsIn j ks
    → IsIn j xs
nothing_else [] [] j d h e a = elim a [ ]
nothing_else [] (k ∷ ks) j d h e a = let no : ⊥ = omega (arith, e) in elim no [ ]
nothing_else (x ∷ xs) ks j (n, d) (i, h) e a =
    let r = remove x ks i in
    elim (r.split j a) [
      | inl f ↦ here (sym f)
      | inr b ↦
          there (nothing_else xs r.rest j d (All-rest r xs n h) (omega (arith, e, r.shorter)) b)
    ]

any-IsIn :
    (k : String) (fs : List (String × Field))
    → any (λ f. f.0 === k) fs ≡ true
    → IsIn k (map (λ f. f.0) fs)
any-IsIn k [] h = cc
any-IsIn k ((j, v) ∷ fs) h = elim (Bool-cases (j === k)) [
  | inl e ↦ here ((===_iff j k).0 e)
  | inr e ↦ there (any-IsIn k fs (ap (λ b. b || any (λ f. f.0 === k) fs) (sym e) ∙ h))
]

absent_from : (k : String) (ks : List String) → any (λ j. j === k) ks ≡ false → ¬ IsIn k ks
absent_from k [] h a = elim a [ ]
absent_from k (j ∷ ks) h (here e) = let same : (j === k) ≡ true = (===_iff j k).1 e in cc
absent_from k (j ∷ ks) h (there a) = elim (Bool-cases (j === k)) [
  | inl e ↦ cc
  | inr e ↦ absent_from k ks (ap (λ b. b || any (λ i. i === k) ks) (sym e) ∙ h) a
]

batch_fields-IsDistinct : IsDistinct batch_fields
batch_fields-IsDistinct = (
  absent_from "feeCalls" _ refl,
  (absent_from "userCalls" _ refl, (absent_from "nonce" _ refl, ((λ a. elim a [ ]), tt))),
)

all_there :
    (ks : List String) (fs : List (String × Field))
    → all (λ k. any (λ f. f.0 === k) fs) ks ≡ true
    → All (λ k. IsIn k (map (λ f. f.0) fs)) ks
all_there [] fs h = tt
all_there (k ∷ ks) fs h = let (a, b) = &&-both _ _ h in (any-IsIn k fs a, all_there ks fs b)

-- A message that the signing screen takes for Avok's own batch has no field but the four that the
-- batch has, however the fields are ordered.
pub batch_has_no_other_field :
    (fs : List (String × Field)) (k : String)
    → is_avok_batch_typed_data (fields fs) ≡ true
    → IsIn k (map (λ f. f.0) fs)
    → IsIn k batch_fields
unfolding is_avok_batch_typed_data
batch_has_no_other_field fs k h a =
    let (b, e) = &&-both _ (all (λ k. any (λ f. f.0 === k) fs) batch_fields) h in
    let (_, d) = &&-both _ (length fs == length batch_fields) b in
    nothing_else batch_fields _ k batch_fields-IsDistinct (all_there batch_fields fs e)
      (length-map _ fs ∙ (==_iff _ _).0 d) a
