-- ===== src/Client/Track/Outcomes.antt =====
-- What waiting for a receipt ends with.
use avok_js.Base.{
  ℕ, zero, suc, ◌+◌, ◌≤◌, leb, leb_iff, ◌≡◌, refl, sym, ap, ◌∙◌, subst, String, ◌===◌,
  if◌then◌else◌, Bool, true, false, ◌||◌, ◌⊎◌, inl, inr, Option, none, some, Failure, Settled,
  fulfilled, rejected, ◌>>=◌, arith,
}
use avok_js.Client.Resolve.{Rail, native_gas, sponsored}
use avok_js.Client.Send.{Receipt}
use avok_js.Client.Track.{
  Mined, Polls, is_not_found, op_receipt_or_null, receipt_or_null, with_mined_tx, with_mined_op,
  is_final, poll_on, poll, is_over, wait_from, wait, mined_status, asked_status,
}

-- The clock goes forward, and a round takes at least a millisecond.
pub record IsPaced (polls : Polls) : Type 0 where
  pub starts : polls.started ≤ polls.now 0
  pub advances : (k : ℕ) → polls.now k + 1 ≤ polls.now (suc k)

module _ (can_sponsor : Bool) (polls : Polls) where
  -- The results that waiting for this receipt may have, with their reasons.
  pub data Outcome (timeout_ms : ℕ) (r : Receipt) : Settled Receipt → Type 0 where
    mined_tx :
        (k : ℕ) (h : String) (m : Mined)
        → r.rail ≡ native_gas
        → r.tx_hash ≡ some h
        → polls.transaction_receipt k h ≡ fulfilled m
        → Outcome timeout_ms r (fulfilled (with_mined_tx r (some m)))
    mined_op :
        (k : ℕ) (m : Mined)
        → r.rail ≡ sponsored
        → can_sponsor ≡ true
        → polls.user_operation_receipt k r.id ≡ fulfilled m
        → Outcome timeout_ms r (fulfilled (with_mined_op r (some m)))
    already : is_final r.status ≡ true → Outcome timeout_ms r (fulfilled r)
    timed_out :
        (k : ℕ)
        → is_final r.status ≡ false
        → polls.started + timeout_ms ≤ polls.now k
        → Outcome timeout_ms r (fulfilled r)
    broken :
        (k : ℕ) (e : Failure)
        → r.rail ≡ sponsored
        → polls.user_operation_receipt k r.id ≡ rejected e
        → is_not_found e ≡ false
        → Outcome timeout_ms r (rejected e)

  abbrev IsLast : Settled Receipt → Type 0
  IsLast (fulfilled c) = is_final c.status ≡ true
  IsLast (rejected e) = Unit

  false_absurd : false ≡ true → ⊥
  false_absurd h = cc

  -- A round leaves the receipt alone, or ends the loop.
  abbrev Polled : ℕ → Receipt → Settled Receipt → Type 0
  Polled timeout_ms r p = (p ≡ fulfilled r) ⊎ (IsLast p × Outcome timeout_ms r p)

  mined_status-final : (b : Bool) → is_final (mined_status b) ≡ true
  mined_status-final true = refl
  mined_status-final false = refl

  tx-Polled :
      (t k : ℕ) (r : Receipt) (h : String) (a : Settled Mined)
      → r.rail ≡ native_gas
      → r.tx_hash ≡ some h
      → polls.transaction_receipt k h ≡ a
      → Polled t r (fulfilled (with_mined_tx r (receipt_or_null a)))
  tx-Polled t k r h (fulfilled m) e f g = inr (mined_status-final m.success, mined_tx k h m e f g)
  tx-Polled t k r h (rejected x) e f g = inl refl

  native-Polled :
      (t k : ℕ) (r : Receipt) (o : Option String)
      → r.rail ≡ native_gas
      → r.tx_hash ≡ o
      → Polled t r (fulfilled (asked_status (polls.transaction_receipt k) r o))
  native-Polled t k r none e f = inl refl
  native-Polled t k r (some h) e f = asked (h === "")
    where
      asked :
          (b : Bool)
          → Polled t r (
              fulfilled (
                if b then r else with_mined_tx r (receipt_or_null (polls.transaction_receipt k h))))
      asked true = inl refl
      asked false = tx-Polled t k r h (polls.transaction_receipt k h) e f refl

  op-Polled :
      (t k : ℕ) (r : Receipt) (a : Settled Mined)
      → r.rail ≡ sponsored
      → can_sponsor ≡ true
      → polls.user_operation_receipt k r.id ≡ a
      → Polled t r (op_receipt_or_null a >>= λ m. fulfilled (with_mined_op r m))
  op-Polled t k r (fulfilled m) e c g = inr (mined_status-final m.success, mined_op k m e c g)
  op-Polled t k r (rejected x) e c g = not_found (is_not_found x) refl
    where
      not_found :
          (b : Bool)
          → is_not_found x ≡ b
          → Polled t r
              ((if b then fulfilled none else rejected x) >>= λ m. fulfilled (with_mined_op r m))
      not_found true f = inl refl
      not_found false f = inr (tt, broken k x e g f)

  polled :
      (t k : ℕ) (r : Receipt) (rail : Rail)
      → r.rail ≡ rail
      → Polled t r (poll_on can_sponsor polls rail k r)
  polled t k r native_gas e = native-Polled t k r r.tx_hash e refl
  polled t k r sponsored e = sponsors can_sponsor refl
    where
      sponsors :
          (b : Bool)
          → can_sponsor ≡ b
          → Polled t r (
              if b
              then (op_receipt_or_null (polls.user_operation_receipt k r.id) >>= λ m.
                  fulfilled (with_mined_op r m))
              else fulfilled r)
      sponsors true c = op-Polled t k r (polls.user_operation_receipt k r.id) e c refl
      sponsors false c = inl refl

  -- The loop after a round that settled so.
  abbrev after_round : ℕ → (deadline : ℕ) → ℕ → Settled Receipt → Option (Settled Receipt)
  after_round fuel deadline k p = elim p [
    | rejected e ↦ some (rejected e)
    | fulfilled c ↦ elim (is_over can_sponsor polls deadline k c) [
      | true ↦ some (fulfilled c)
      | false ↦ wait_from can_sponsor polls fuel deadline (suc k) c
    ]
  ]

  abbrev Ends : ℕ → Receipt → Option (Settled Receipt) → Type 0
  Ends t r w = (o : Settled Receipt) × (w ≡ some o) × Outcome t r o

  last-Ends :
      (t fuel deadline k : ℕ) (r : Receipt) (p : Settled Receipt)
      → IsLast p
      → Outcome t r p
      → Ends t r (after_round fuel deadline k p)
  last-Ends t fuel deadline k r (rejected e) l o = (rejected e, refl, o)
  last-Ends t fuel deadline k r (fulfilled c) l o = (
    fulfilled c,
    ap
        (λ b. elim (b || leb deadline (polls.now k)) as (λ _. Option (Settled Receipt)) [
          | true ↦ some (fulfilled c)
          | false ↦ wait_from can_sponsor polls fuel deadline (suc k) c
        ])
        l,
    o,
  )

  -- The receipt is returned as it was, or the loop goes on with it.
  kept-Ends :
      (t fuel k : ℕ) (r : Receipt) (final late : Bool)
      → is_final r.status ≡ final
      → leb (polls.started + t) (polls.now k) ≡ late
      → (late ≡ false
          → final ≡ false
          → Ends t r (wait_from can_sponsor polls fuel (polls.started + t) (suc k) r))
      → Ends t r (elim (final || late) as (λ _. Option (Settled Receipt)) [
        | true ↦ some (fulfilled r)
        | false ↦ wait_from can_sponsor polls fuel (polls.started + t) (suc k) r
      ])
  kept-Ends t fuel k r true late e f next = (fulfilled r, refl, already e)
  kept-Ends t fuel k r false true e f next = (fulfilled r, refl, timed_out k e ((leb_iff _ _).0 f))
  kept-Ends t fuel k r false false e f next = next refl refl

  module _ (paced : IsPaced polls) where
    wait_from-Ends :
        (t fuel k : ℕ) (r : Receipt)
        → polls.started + t ≤ polls.now k + fuel
        → Ends t r (wait_from can_sponsor polls (suc fuel) (polls.started + t) k r)
    unfolding wait_from poll
    wait_from-Ends t zero k r h = elim (polled t k r r.rail refl) [
      | inl e ↦
          subst (λ p. Ends t r (after_round zero (polls.started + t) k p)) (sym e)
            (kept-Ends t zero k r _ _ refl refl
              (λ late open_. absurd (false_absurd (sym late ∙ (leb_iff _ _).1 (omega arith)))))
      | inr (l, o) ↦ last-Ends t zero (polls.started + t) k r _ l o
    ]
    wait_from-Ends t (suc fuel) k r h = elim (polled t k r r.rail refl) [
      | inl e ↦
          subst (λ p. Ends t r (after_round (suc fuel) (polls.started + t) k p)) (sym e)
            (kept-Ends t (suc fuel) k r _ _ refl refl
              (λ late open_. wait_from-Ends t fuel (suc k) r (omega (arith, paced.advances k))))
      | inr (l, o) ↦ last-Ends t (suc fuel) (polls.started + t) k r _ l o
    ]

    -- Waiting ends, whatever the network answers: the fuel suffices. It ends with the receipt that the chain's
    -- own word makes confirmed or failed, with the receipt unchanged because it was final before or because
    -- the time is over, or with an error of the bundler other than that there is no receipt yet. An answer that
    -- never came is not taken for a success.
    pub wait_ends :
        (timeout_ms : ℕ) (r : Receipt)
        → (o : Settled Receipt) × (wait can_sponsor polls timeout_ms r ≡ some o)
          × Outcome timeout_ms r o
    unfolding wait
    wait_ends timeout_ms r = wait_from-Ends timeout_ms timeout_ms 0 r (omega (arith, paced.starts))
