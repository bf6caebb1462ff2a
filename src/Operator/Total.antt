-- ===== src/Operator/Total.antt =====
-- internal/controller/openshellgateway_controller.go: predicates for the parts of a reconcile that
-- return a value and no error of their own, and how they are composed.
use ogo.Base.{String, refl, ◌∙◌, Bool, true, false, if◌then◌else◌}
use ogo.Base.Result.{Result}
use ogo.Controller.{ApiError, Condition}
use ogo.Operator.Gone.{Total, bind-ok}
use ogo.Operator.Kube.{Api, K, Run, ◌>>=◌, give, attempt, is_served, set_condition}

pub record IsTotal {A : Type 0} (m : K A) : Type 0 where
  pub result : (r : Run) → Total (m r)

module _ {A : Type 0} where
  pub IsTotal-give : (a : A) → IsTotal (give a)
  IsTotal-give a = record { result = λ r. (a, r, refl) }

  pub IsTotal-attempt : (m : K A) → IsTotal (attempt m)
  IsTotal-attempt m = record { result = λ r. ((m r).0, (m r).1, refl) }

  pub IsTotal-if : (b : Bool) {m n : K A} → IsTotal m → IsTotal n → IsTotal (if b then m else n)
  IsTotal-if true h k = h
  IsTotal-if false h k = k

module _ {A B : Type 0} where
  pub IsTotal-bind :
      {m : K A} {f : A → K B} → IsTotal m → ((a : A) → IsTotal (f a)) → IsTotal (m >>= f)
  IsTotal-bind {m} {f} h k = record {
    result = λ r.
        let (a, r1, e1) = h.result r in
        let (b, r2, e2) = (k a).result r1 in (b, r2, bind-ok m f r e1 ∙ e2);
  }

  -- an outcome is dealt with, whether it is an error or not
  pub IsTotal-attempt_bind :
      {m : K A} {f : Result ApiError A → K B}
      → ((x : Result ApiError A) → IsTotal (f x))
      → IsTotal (attempt m >>= f)
  IsTotal-attempt_bind {m} {f} k = record { result = λ r. (k (m r).0).result (m r).1 }

module _ (api : Api) where
  pub IsTotal-is_served : (version : String) → IsTotal (is_served api version)
  unfolding is_served
  IsTotal-is_served version = record { result = λ r. (_, _, refl) }

  pub IsTotal-set_condition : (c : Condition) → IsTotal (set_condition api c)
  unfolding set_condition
  IsTotal-set_condition c = record { result = λ r. (_, _, refl) }
