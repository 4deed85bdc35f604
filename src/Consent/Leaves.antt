-- ===== src/Consent/Leaves.antt =====
-- packages/core/src/auth-popup/sign/consent.ts: the generic view of typed data.
use avok_js.Base.{
  ℕ, ◌+◌, suc, ◌≡◌, refl, ap, ◌∙◌, arith, String, to_text, true, false, List, [], ◌∷◌, Any, here,
  Any-append_left, Any-append_right, Value, undefined, null, bool, num, str, arr, obj, Items, nil,
  cons, Props, prop,
}
use avok_js.Consent.Types.{LabelledValue}
use avok_js.Consent.TypedData.{
  flatten_fields, flatten_items, flatten_props, or_value, dotted, indexed,
}

-- A step from a value into it: the entry of an array, or the property of an object.
pub data Step : Type 0 where
  entry : ℕ → Step
  member : String → Step

-- `Child v s w`: the step leads from v to w.
pub data Entry : Items → ℕ → Value → Type 0 where
  entry_first : {v : Value} {vs : Items} → Entry (cons v vs) 0 v
  entry_next : {v w : Value} {vs : Items} {i : ℕ} → Entry vs i w → Entry (cons v vs) (suc i) w

pub data Member : Props → String → Value → Type 0 where
  member_first : {k : String} {v : Value} {ps : Props} → Member (prop k v ps) k v
  member_next : {j k : String} {v w : Value} {ps : Props} → Member ps k w → Member (prop j v ps) k w

abbrev pub AtomText : Value → String → Type 0
AtomText undefined t = t ≡ "undefined"
AtomText null t = t ≡ "null"
AtomText (bool true) t = t ≡ "true"
AtomText (bool false) t = t ≡ "false"
AtomText (num n) t = t ≡ to_text n
AtomText (str s) t = t ≡ s
AtomText (arr nil) t = t ≡ "(empty)"
AtomText _ t = ⊥

-- The label of the place that a path leads to, from the label of where it begins.
abbrev pub step_label : String → Step → String
step_label p (entry i) = indexed p i
step_label p (member k) = dotted p k

abbrev pub path_label : String → List Step → String
path_label p [] = or_value p
path_label p (s ∷ ss) = path_label (step_label p s) ss

-- `LeafAt v path text`: the path leads from v to an atom or an empty array, which prints as `text`.
pub data LeafAt : Value → List Step → String → Type 0 where
  leaf : {v : Value} {t : String} → AtomText v t → LeafAt v [] t
  in_array :
      {vs : Items} {i : ℕ} {v : Value} {path : List Step} {t : String}
      → Entry vs i v
      → LeafAt v path t
      → LeafAt (arr vs) (entry i ∷ path) t
  in_object :
      {ps : Props} {k : String} {v : Value} {path : List Step} {t : String}
      → Member ps k v
      → LeafAt v path t
      → LeafAt (obj ps) (member k ∷ path) t

abbrev pub Row : String → String → LabelledValue → Type 0
Row l t f = (f.label ≡ l) × (f.value ≡ t)

atom_shown :
    (v : Value) (p t : String) → AtomText v t → Any (Row (or_value p) t) (flatten_fields v p)
unfolding flatten_fields
atom_shown undefined p t h = here (refl, cc)
atom_shown null p t h = here (refl, cc)
atom_shown (bool true) p t h = here (refl, cc)
atom_shown (bool false) p t h = here (refl, cc)
atom_shown (num n) p t h = here (refl, cc)
atom_shown (str s) p t h = here (refl, cc)
atom_shown (arr nil) p t h = here (refl, cc)
atom_shown (arr (cons v vs)) p t h = elim h [ ]
atom_shown (obj ps) p t h = elim h [ ]

items_shown :
    {vs : Items} {i : ℕ} {v : Value} (p : String) (n : ℕ) (P : LabelledValue → Type 0)
    → Entry vs i v
    → ((q : String) → q ≡ indexed p (n + i) → Any P (flatten_fields v q))
    → Any P (flatten_items vs p n)
unfolding flatten_fields
items_shown p n P entry_first h = Any-append_left _ (h (indexed p n) (ap (indexed p) (omega arith)))
items_shown p n P (entry_next e) h =
    Any-append_right _ (items_shown p (n + 1) P e (λ q r. h q (r ∙ ap (indexed p) (omega arith))))

props_shown :
    {ps : Props} {k : String} {v : Value} (p : String) (P : LabelledValue → Type 0)
    → Member ps k v
    → Any P (flatten_fields v (dotted p k))
    → Any P (flatten_props ps p)
unfolding flatten_fields
props_shown p P member_first h = Any-append_left _ h
props_shown p P (member_next m) h = Any-append_right _ (props_shown p P m h)

flatten_array :
    {vs : Items} {i : ℕ} {v : Value}
    → Entry vs i v
    → (p : String) → flatten_fields (arr vs) p ≡ flatten_items vs p 0
unfolding flatten_fields
flatten_array entry_first p = refl
flatten_array (entry_next e) p = refl

-- Each leaf of a value, under any prefix, has a row with the label of its path and its text.
pub leaves_shown :
    {v : Value} {path : List Step} {t : String}
    → LeafAt v path t
    → (p : String) → Any (Row (path_label p path) t) (flatten_fields v p)
unfolding flatten_fields
leaves_shown (leaf a) p = atom_shown _ p _ a
leaves_shown (in_array {i = i} e l) p = rw (flatten_array e p) (
    items_shown p 0 _ e (λ q r.
      let same : q ≡ indexed p i = r ∙ ap (indexed p) (omega arith) in
      rw same (leaves_shown l (indexed p i))))
leaves_shown (in_object m l) p = props_shown p _ m (leaves_shown l (dotted p _))
