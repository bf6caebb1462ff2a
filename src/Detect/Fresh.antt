-- ===== src/Detect/Fresh.antt =====
-- internal/openshift/detect.go: how old an answer of the detection can be.
use mathlib.Core.List.{Mem, mem-cons_self, mem-cons_of_mem}
use ogo.AuthBridge.{second, minute}
use ogo.Base.{
  false, ◌*◌, if◌then◌else◌, subst, true, ℕ, ◌+◌, ◌≤◌, ◌≡◌, ◌⊎◌, inl, inr, refl, Bool, ltb, List,
  [], ◌∷◌, arith, Bool-cases, if◌then◌else◌,
}
use ogo.Detect.{CachedDetection, Call, check, after_calls, ttl, new_detection}

-- how long an answer may be kept: a yes for five minutes, a no for thirty seconds
abbrev pub allowed : Bool → ℕ
allowed true = 5 * minute
allowed false = 30 * second

ttl-eq-allowed : (answer : Bool) → ttl answer ≡ allowed answer
unfolding ttl
ttl-eq-allowed true = refl
ttl-eq-allowed false = refl

-- One of the calls asked the cluster, got this answer, and is not older than the answer may be.
pub record Witnessed (calls : List Call) (answer : Bool) (limit : ℕ) : Type 0 where
  pub probe : Call
  pub stands : Mem probe calls
  pub answered : probe.served ≡ answer
  pub recent : limit ≤ probe.asked_at + allowed answer

abbrev seen_before :
    {calls : List Call} {answer : Bool} {limit : ℕ} (call : Call)
    → Witnessed calls answer limit
    → Witnessed (call ∷ calls) answer limit
seen_before call w = record {
  probe = w.probe;
  stands = mem-cons_of_mem call w.stands;
  answered = w.answered;
  recent = w.recent;
}

-- a cache that is new, or holds an answer of one of the calls that expires in time
abbrev Sound : List Call → CachedDetection → Type 0
Sound calls c = (c ≡ new_detection) ⊎ Witnessed calls c.result c.expiry

next-Sound :
    (call : Call) (calls : List Call) (c : CachedDetection)
    → Sound calls c
    → Sound (call ∷ calls) (check call c).1
unfolding check
next-Sound call calls c h = elim (Bool-cases (ltb call.now c.expiry)) [
  | inl kept ↦ rw (kept, if◌then◌else◌) (widen h)
  | inr over ↦
      rw (over, if◌then◌else◌)
        (inr (record {
          probe = call;
          stands = mem-cons_self;
          answered = refl;
          recent = omega (arith, ttl-eq-allowed call.served);
        }))
]
  where
    widen : Sound calls c → Sound (call ∷ calls) c
    widen (inl new) = inl new
    widen (inr w) = inr (seen_before call w)

after_calls-Sound : (calls : List Call) → Sound calls (after_calls calls)
unfolding after_calls
after_calls-Sound [] = inl refl
after_calls-Sound (call ∷ calls) =
    next-Sound call calls (after_calls calls) (after_calls-Sound calls)

before_limit : (now expiry limit : ℕ) → ltb now expiry ≡ true → expiry ≤ limit → now + 1 ≤ limit
before_limit now expiry limit kept le = ground arith

answer-Witnessed :
    (call : Call) (calls : List Call) (c : CachedDetection)
    → Sound calls c
    → ((check call c).0 ≡ call.served) ⊎ Witnessed calls (check call c).0 (call.now + 1)
unfolding check
answer-Witnessed call calls c h = elim (Bool-cases (ltb call.now c.expiry)) [
  | inl kept ↦ rw (kept, if◌then◌else◌) (inr (in_time kept h))
  | inr over ↦ rw (over, if◌then◌else◌) (inl refl)
]
  where
    in_time : ltb call.now c.expiry ≡ true → Sound calls c → Witnessed calls c.result (call.now + 1)
    in_time kept (inl new) =
        let never : ltb call.now 0 ≡ true = subst (λ x. ltb call.now x.expiry ≡ true) new kept in
        ground arith
    in_time kept (inr w) = record {
      probe = w.probe;
      stands = w.stands;
      answered = w.answered;
      recent = before_limit call.now c.expiry _ kept w.recent;
    }

-- The answer of a call is what the cluster told this call, or what it told one of the calls before
-- at a moment after which less than five minutes had passed if the answer was yes, and less than
-- thirty seconds if it was no.
pub check-Witnessed :
    (call : Call) (calls : List Call)
    → ((check call (after_calls calls)).0 ≡ call.served)
      ⊎ Witnessed calls (check call (after_calls calls)).0 (call.now + 1)
check-Witnessed call calls =
    answer-Witnessed call calls (after_calls calls) (after_calls-Sound calls)
