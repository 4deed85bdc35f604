-- ===== src/Provider/Acts.antt =====
-- Every action of a request has a property.
use avok_js.Base.{◌≡◌, refl, sym, subst, [], All, Settled, fulfilled, rejected}
use avok_js.Provider.Types.{
  Reply, answered, refused, errored, Action, Answer, Runtime, Run, check, act,
}

module _ (P : Action → Type 0) where
  pub record Acts (r : Run Answer) : Type 0 where
    pub each : All P r.did

  pub nothing_done : (r : Run Answer) → r.did ≡ [] → Acts r
  nothing_done r e = record { each = subst (All P) (sym e) tt }

  module _ {ℓ} {A : Type ℓ} (now : Runtime) where
    pub check-Acts :
        (r : Reply A) (k : A → Run Answer)
        → ((a : A) → r ≡ answered a → Acts (k a))
        → Acts (check now r k)
    check-Acts (answered a) k h = h a refl
    check-Acts (refused code message) k h = nothing_done _ refl
    check-Acts (errored e) k h = nothing_done _ refl

    pub act-Acts :
        (action : Action) (r : Settled A) (k : A → Run Answer)
        → P action
        → ((a : A) → Acts (k a))
        → Acts (act now action r k)
    act-Acts action (fulfilled a) k p h = record { each = (p, (h a).each) }
    act-Acts action (rejected e) k p h = record { each = (p, tt) }
