-- ===== src/Operator/Legal.antt =====
-- internal/controller: requests that only touch what may be touched. A request is judged by what
-- happened right before it.
use ogo.Base.{sym, subst, ◌⊎◌, String, Bool, true, Option, none, some, [], ◌∷◌, ◌≡◌, refl, inl, inr}
use ogo.Base.Result.{Result, ok, err}
use ogo.Dict.{Dict}
use ogo.Controller.{ApiError}
use ogo.Operator.Kube.{
  Key, Object, Event, got, deleted, found, ensured, Trace, Api, Run, K, ◌>>=◌, give, raise, wrap,
  attempt, get, delete, create_or_update, write_desired, mutate_found, saw, is_served,
}

module _ (is_own : Dict String → Bool) where
  -- An object is deleted right after it was read and found to be own, and one that exists is only
  -- written over if it is own.
  abbrev pub IsLegal : Event → Trace → Type 0
  IsLegal (deleted key _) (got _ (ok o) ∷ _) = (o.key ≡ key) × (is_own o.labels ≡ true)
  IsLegal (deleted key _) _ = ⊥
  IsLegal (ensured (some o) _ _) _ = is_own o.labels ≡ true
  IsLegal _ _ = Unit

  abbrev pub AllLegal : Trace → Type 0
  AllLegal [] = Unit
  AllLegal (e ∷ t) = IsLegal e t × AllLegal t

  -- a computation whose requests are legal
  abbrev pub IsCareful : {A : Type 0} → K A → Type 0
  IsCareful m = (r : Run) → AllLegal r.trace → AllLegal (m r).1.trace

  pub IsCareful-bind :
      {A B : Type 0} (m : K A) (f : A → K B)
      → IsCareful m
      → ((a : A) → IsCareful (f a))
      → IsCareful (m >>= f)
  IsCareful-bind {A} m f hm hf r h = next (m r).0 (m r).1 (hm r h)
    where
      next :
          (x : Result ApiError A) (r' : Run)
          → AllLegal r'.trace
          → AllLegal (((λ (_ : Run). (x, r')) >>= f) r).1.trace
      next (err e) r' k = k
      next (ok a) r' k = hf a r' k

  pub IsCareful-give : {A : Type 0} (a : A) → IsCareful (give a)
  IsCareful-give a r h = h

  pub IsCareful-raise : (A : Type 0) (e : ApiError) → IsCareful (raise {A = A} e)
  IsCareful-raise A e r h = h

  pub IsCareful-attempt : {A : Type 0} (m : K A) → IsCareful m → IsCareful (attempt m)
  IsCareful-attempt m hm r h = hm r h

  pub IsCareful-wrap :
      {A : Type 0} (prefix : String) (m : K A) → IsCareful m → IsCareful (wrap prefix m)
  IsCareful-wrap {A} prefix m hm r h = next (m r).0 (m r).1 (hm r h)
    where
      next :
          (x : Result ApiError A) (r' : Run)
          → AllLegal r'.trace
          → AllLegal (wrap prefix (λ (_ : Run). (x, r')) r).1.trace
      next (err e) r' k = k
      next (ok a) r' k = k

  module _ (api : Api) where
    pub IsCareful-get : (key : Key) → IsCareful (get api key)
    unfolding get
    IsCareful-get key r h = (tt, h)

    pub IsCareful-is_served : (version : String) → IsCareful (is_served api version)
    unfolding is_served
    IsCareful-is_served version r h = (tt, h)

    -- a callback that leaves no trace, and accepts an existing object only if it is own
    abbrev pub IsPolite : (Option Object → K Object) → Type 0
    IsPolite mutate =
        (before : Option Object) (r : Run)
        → ((mutate before r).1.trace ≡ r.trace)
          × ((o : Object) → (mutate before r).0 ≡ ok o → IsLegal (ensured before o none) [])

    ensured-IsLegal :
        (before : Option Object) (o : Object) (w : Option ApiError) (t : Trace)
        → IsLegal (ensured before o none) []
        → IsLegal (ensured before o w) t
    ensured-IsLegal none o w t h = tt
    ensured-IsLegal (some b) o w t h = h

    write_desired-AllLegal :
        (before : Option Object) (x : Result ApiError Object) (r : Run)
        → ((o : Object) → x ≡ ok o → IsLegal (ensured before o none) [])
        → AllLegal r.trace
        → AllLegal (write_desired api before (x, r)).1.trace
    unfolding write_desired
    write_desired-AllLegal before (err e) r own h = h
    write_desired-AllLegal before (ok o) r own h =
        (ensured-IsLegal before o (api.ensure r.trace before o) r.trace (own o refl), h)

    mutate_found-AllLegal :
        (mutate : Option Object → K Object) (x : Result ApiError (Option Object)) (r : Run)
        → IsPolite mutate
        → AllLegal r.trace
        → AllLegal (mutate_found api mutate x r).1.trace
    unfolding mutate_found
    mutate_found-AllLegal mutate (err e) r polite h = h
    mutate_found-AllLegal mutate (ok before) r polite h =
        let (silent, own) = polite before r in
        write_desired-AllLegal before (mutate before r).0 (mutate before r).1 own
          (subst AllLegal (sym silent) h)

    pub IsCareful-create_or_update :
        (key : Key) (mutate : Option Object → K Object)
        → IsPolite mutate
        → IsCareful (create_or_update api key mutate)
    unfolding create_or_update
    IsCareful-create_or_update key mutate polite r h =
        let x = api.find r.trace key in
        mutate_found-AllLegal mutate x (saw (found key x) r) polite (tt, h)

    -- what was just read may be deleted, if it is own
    pub IsCareful-delete_read :
        (key : Key) (f : Result ApiError Object → K (Unit {0}))
        → ((o : Object)
            → (f (ok o) ≡ delete api o.key) × (is_own o.labels ≡ true) ⊎ IsCareful (f (ok o)))
        → ((e : ApiError) → IsCareful (f (err e)))
        → IsCareful (attempt (get api key) >>= f)
    unfolding get delete
    IsCareful-delete_read key f present missing r h = next (api.get r.trace key)
      where
        next : (x : Result ApiError Object) → AllLegal (f x (saw (got key x) r)).1.trace
        next (err e) = missing e (saw (got key (err e)) r) (tt, h)
        next (ok o) = elim (present o) [
          | inr careful ↦ careful (saw (got key (ok o)) r) (tt, h)
          | inl (same, own) ↦
              subst (λ m. AllLegal (m (saw (got key (ok o)) r)).1.trace) (sym same)
                ((refl, own), (tt, h))
        ]
