-- ===== src/Consent/TypedData.antt =====
-- packages/core/src/auth-popup/sign/consent.ts: the views of typed data.
use Prim.Native.String
use avok_js.Base.{
  ◌>>=◌, ℕ, ◌+◌, ◌==◌, String, ◌===◌, to_text, if◌then◌else◌, Bool, true, false, ◌&&◌, Option, none,
  some, ◌or_else◌, List, [], ◌∷◌, ◌++◌, length, all, any, last?, Value, undefined, null, bool, num,
  str, arr, obj, Items, nil, cons, Props, end, prop, Settled, fulfilled, throw,
}
use avok_js.Consent.Types.{
  RawCall, Viem, ConsentLine, ConsentView, Field, calls, value, Fields, no_message, fields,
  TypedData, LabelledValue, GenericTypedDataView,
}
use avok_js.Consent.Decode.{map_settled, decode_call}

abbrev pub field : String → List (String × Field) → Option Field
field k [] = none
field k ((j, v) ∷ fs) = if j === k then some v else field k fs

abbrev is_array : Option Field → Bool
is_array (some (calls cs)) = true
is_array (some (value (arr vs))) = true
is_array _ = false

abbrev pub batch_fields : List String
batch_fields = "feeCalls" ∷ "userCalls" ∷ "nonce" ∷ "deadline" ∷ []

unfoldable pub is_avok_batch_typed_data : Fields → Bool
is_avok_batch_typed_data no_message = false
is_avok_batch_typed_data (fields fs) =
    is_array (field "userCalls" fs)
    && is_array (field "feeCalls" fs)
    && (length fs == length batch_fields)
    && all (λ k. any (λ f. f.0 === k) fs) batch_fields

-- `prefix || "value"`
abbrev pub or_value : String → String
or_value p = if p === "" then "value" else p

abbrev labelled : String → String → LabelledValue
labelled l v = record { label = l; value = v }

abbrev pub dotted : String → String → String
dotted p k = if p === "" then k else String.◌++◌ p (String.◌++◌ "." k)

abbrev pub indexed : String → ℕ → String
indexed p i = String.◌++◌ p (String.◌++◌ "[" (String.◌++◌ (to_text i) "]"))

unfoldable mutual
  pub flatten_fields : Value → String → List LabelledValue
  flatten_fields undefined p = labelled (or_value p) "undefined" ∷ []
  flatten_fields null p = labelled (or_value p) "null" ∷ []
  flatten_fields (bool b) p = labelled (or_value p) (if b then "true" else "false") ∷ []
  flatten_fields (num n) p = labelled (or_value p) (to_text n) ∷ []
  flatten_fields (str s) p = labelled (or_value p) s ∷ []
  flatten_fields (arr nil) p = labelled (or_value p) "(empty)" ∷ []
  flatten_fields (arr (cons v vs)) p = flatten_fields v (indexed p 0) ++ flatten_items vs p 1
  flatten_fields (obj ps) p = flatten_props ps p

  pub flatten_items : Items → String → ℕ → List LabelledValue
  flatten_items nil p i = []
  flatten_items (cons v vs) p i = flatten_fields v (indexed p i) ++ flatten_items vs p (i + 1)

  pub flatten_props : Props → String → List LabelledValue
  flatten_props end p = []
  flatten_props (prop k v ps) p = flatten_fields v (dotted p k) ++ flatten_props ps p

-- An array of calls, as the value that it is.
abbrev call_value : RawCall → Value
call_value c =
    obj (prop "to" (str c.to) (prop "value" (num c.value) (prop "data" (str c.bytes) end)))

abbrev call_items : List RawCall → Items
call_items [] = nil
call_items (c ∷ cs) = cons (call_value c) (call_items cs)

abbrev field_value : Field → Value
field_value (calls cs) = arr (call_items cs)
field_value (value v) = v

abbrev message_props : List (String × Field) → Props
message_props [] = end
message_props ((k, f) ∷ fs) = prop k (field_value f) (message_props fs)

-- `typedData.message ?? {}`
abbrev pub message_value : Fields → Value
message_value no_message = obj end
message_value (fields fs) = obj (message_props fs)

unfoldable pub decode_generic_typed_data : TypedData → GenericTypedDataView
unfolding flatten_fields
decode_generic_typed_data td = record {
  domain = td.domain;
  primary_type = td.primary_type or_else "(unnamed)";
  fields = flatten_fields (message_value td.message) "";
}

-- `message[k]` as an array of calls. What is an array of other values is no batch that a wallet signs:
-- its elements have no such fields, and reading them throws.
abbrev pub calls_of : Option Field → Settled (List RawCall)
calls_of (some (calls cs)) = fulfilled cs
calls_of (some (value (arr nil))) = fulfilled []
calls_of _ = throw "not an array of calls"

abbrev pub message_fields : Fields → List (String × Field)
message_fields no_message = []
message_fields (fields fs) = fs

module _ (viem : Viem) where
  abbrev decode_last : ℕ → Option RawCall → Settled (Option ConsentLine)
  decode_last chain_id none = fulfilled none
  decode_last chain_id (some c) = do line ← decode_call viem chain_id c; fulfilled (some line)

  abbrev pub shown_with : ℕ → Option RawCall → List RawCall → Settled ConsentView
  shown_with chain_id fee_call user_calls = do
    lines ← map_settled (decode_call viem chain_id) user_calls
    fee ← decode_last chain_id fee_call
    fulfilled (record { chain_id = chain_id; fee = fee; max_fee_wei = none; calls = lines })

  -- The calls of the user, and of the fee calls the last.
  unfoldable pub decode_consent : ℕ → List RawCall → List RawCall → Settled ConsentView
  decode_consent chain_id fee_calls user_calls = shown_with chain_id (last? fee_calls) user_calls
