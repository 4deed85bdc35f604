-- ===== src/Client/Discipline.antt =====
-- The order of a send: reads, one gesture, one submission, on the rail that was asked for.
use avok_js.Base.{
  ◌≡◌, refl, sym, ap, ◌∙◌, subst, String, List, [], ◌∷◌, ◌++◌, append_assoc, append-nil, All,
  Failure, Settled, fulfilled, rejected,
}
use avok_js.Client.Io.{
  Io, Effect, call, settle, pure, gesture_user_op, gesture_send, send_user_operation,
  send_raw_transaction, ◌>>=◌, continued, IsNetwork, Reads, IsNetwork-append,
}
use avok_js.Client.Resolve.{Rail, native_gas, sponsored}
use avok_js.Client.Send.{Receipt}

abbrev pub AnyResult {ℓ} : {A : Type ℓ} → A → Type 0
AnyResult a = Unit

abbrev pub gesture_of : Rail → Effect
gesture_of sponsored = gesture_user_op
gesture_of native_gas = gesture_send

abbrev pub submission_of : Rail → Effect
submission_of sponsored = send_user_operation
submission_of native_gas = send_raw_transaction

-- After the reads: nothing, a gesture that fails, a submission that fails, or a receipt of this rail that is
-- named by what the submission answered. What the submission settles with has the property.
pub data Signs (rail : Rail) (Submitted : Settled String → Type 0)
    : List Effect → Settled Receipt → Type 0 where
  not_signed : (e : Failure) → Signs rail Submitted [] (rejected e)
  refused : (e : Failure) → Signs rail Submitted (gesture_of rail ∷ []) (rejected e)
  not_sent :
      (e : Failure)
      → Submitted (rejected e)
      → Signs rail Submitted (gesture_of rail ∷ submission_of rail ∷ []) (rejected e)
  sent :
      (receipt : Receipt)
      → receipt.rail ≡ rail
      → Submitted (fulfilled receipt.id)
      → Signs rail Submitted (gesture_of rail ∷ submission_of rail ∷ []) (fulfilled receipt)

pub record Sends (rail : Rail) (Submitted : Settled String → Type 0) (m : Io Receipt) : Type 0 where
  pub reads : List Effect
  pub signing : List Effect
  pub in_order : m.effects ≡ reads ++ signing
  pub only_reads : All IsNetwork reads
  pub signs : Signs rail Submitted signing m.result

module _ {S : Settled String → Type 0} (rail : Rail) where
  continued-Sends {ℓ} :
      {A : Type ℓ} (es : List Effect) (r : Settled A) (f : A → Io Receipt)
      → All IsNetwork es
      → ((a : A) → r ≡ fulfilled a → Sends rail S (f a))
      → Sends rail S (continued es r f)
  continued-Sends es (fulfilled a) f n k =
      let next = k a refl in
      record {
        reads = es ++ next.reads;
        signing = next.signing;
        in_order = ap (λ t. es ++ t) next.in_order ∙ sym (append_assoc es next.reads next.signing);
        only_reads = IsNetwork-append es next.reads n next.only_reads;
        signs = next.signs;
      }
  continued-Sends es (rejected e) f n k = record {
    reads = es;
    signing = [];
    in_order = sym (append-nil es);
    only_reads = n;
    signs = not_signed e;
  }

  pub >>=-Sends {ℓ κ} :
      {A : Type ℓ} {P : A → Type κ} (m : Io A) (f : A → Io Receipt)
      → Reads P m
      → ((a : A) → P a → Sends rail S (f a))
      → Sends rail S (m >>= f)
  >>=-Sends m f h k = continued-Sends m.effects m.result f h.only_reads (λ a e. k a (h.yields a e))

  submitted-Sends :
      (r : Settled String) (k : String → Receipt)
      → ((b : String) → ((k b).rail ≡ rail) × ((k b).id ≡ b))
      → S r
      → Sends rail S (record {
        effects = gesture_of rail ∷ (call (submission_of rail) r >>= λ b. pure (k b)).effects;
        result = (call (submission_of rail) r >>= λ b. pure (k b)).result;
      })
  submitted-Sends (fulfilled b) k h s = record {
    reads = [];
    signing = gesture_of rail ∷ submission_of rail ∷ [];
    in_order = refl;
    only_reads = tt;
    signs = sent (k b) (h b).0 (subst (λ i. S (fulfilled i)) (sym (h b).1) s);
  }
  submitted-Sends (rejected f) k h s = record {
    reads = [];
    signing = gesture_of rail ∷ submission_of rail ∷ [];
    in_order = refl;
    only_reads = tt;
    signs = not_sent f s;
  }

  pub gesture-Sends {ℓ} :
      {A : Type ℓ} (r : Settled A) (f : A → Settled String) (k : String → Receipt)
      → ((b : String) → ((k b).rail ≡ rail) × ((k b).id ≡ b))
      → ((a : A) → r ≡ fulfilled a → S (f a))
      → Sends rail S
          (call (gesture_of rail) r >>= λ a. call (submission_of rail) (f a) >>= λ b. pure (k b))
  gesture-Sends (fulfilled a) f k h s = submitted-Sends (f a) k h (s a refl)
  gesture-Sends (rejected e) f k h s = record {
    reads = [];
    signing = gesture_of rail ∷ [];
    in_order = refl;
    only_reads = tt;
    signs = refused e;
  }

pub settle-Reads {ℓ κ} :
    {A : Type ℓ} {P : A → Type κ} (r : Settled A)
    → ((a : A) → r ≡ fulfilled a → P a)
    → Reads P (settle r)
settle-Reads r k = record { only_reads = tt; yields = k }
