-- ===== src/AuthBridge/Server/Safety.antt =====
-- What holds of the bridge after any requests, in any order: internal/authbridge/server.go.
use ogo.Base.{ℕ, String, refl, inl, inr, Option, List, [], ◌∷◌, ◌++◌, arith, All, All-map}
use ogo.AuthBridge.{PendingCode}
use ogo.AuthBridge.Codes.{Codes}
use ogo.AuthBridge.OpenShift.{Platform}
use ogo.AuthBridge.Server.{Bridge, Login, Response}
use ogo.AuthBridge.Server.Steps.{
  State, Step, Reach, authorize, begin, finish, redeem, exchange, sweep, start, next, IsCallback,
  CameBack,
}
use ogo.AuthBridge.Server.Invariant.{
  IsIssued, IsSound, IsGood, sweep-IsGood, authorize-IsGood, finish-IsGood, token-IsGood,
  begin-IsGood, started-IsSound,
}

-- Of more callbacks it may be known that they came back.
module _ (b : Bridge) (happened happened' : Platform → (code : String) (now : ℕ) → Type 0)
    (wider : (p : Platform) (code : String) (now : ℕ)
      → happened p code now
      → happened' p code now) where
  weaken-IsIssued : (jwt : String) → IsIssued b happened jwt → IsIssued b happened' jwt
  weaken-IsIssued jwt i = record {
    platform = i.platform;
    code = i.code;
    now = i.now;
    came_back = wider i.platform i.code i.now i.came_back;
    response = i.response;
    code_was_good = i.code_was_good;
    user = i.user;
    vouched = i.vouched;
    authorized = i.authorized;
    minted = i.minted;
  }

  weaken-IsSound : (p : PendingCode) → IsSound b happened p → IsSound b happened' p
  weaken-IsSound p (target, inl empty) = (target, inl empty)
  weaken-IsSound p (target, inr i) = (target, inr (weaken-IsIssued p.jwt i))

  weaken-IsGood : (codes : Codes) → IsGood b happened codes → IsGood b happened' codes
  weaken-IsGood codes g = record {
    is_map = g.is_map;
    bounded = g.bounded;
    sound =
        All-map (λ e. IsSound b happened e.1) (λ e. IsSound b happened' e.1) codes
          (λ e. weaken-IsSound e.1) g.sound;
  }

  weaken-All :
      (ls : List Login)
      → All (λ l. IsSound b happened l.pending) ls
      → All (λ l. IsSound b happened' l.pending) ls
  weaken-All ls =
      All-map (λ l. IsSound b happened l.pending) (λ l. IsSound b happened' l.pending) ls
        (λ l. weaken-IsSound l.pending)

module _ (b : Bridge) where
  pub record IsSafe (happened : Platform → (code : String) (now : ℕ) → Type 0) (s : State)
      : Type 0 where
    pub good : IsGood b happened s.codes
    pub logins : All (λ l. IsSound b happened l.pending) s.in_flight

  pub All-without :
      (P : Login → Type 0) (before after : List Login) (l : Login)
      → All P (before ++ l ∷ after)
      → P l × All P (before ++ after)
  All-without P [] after l h = h
  All-without P (x ∷ before) after l (p, h) =
      let (q, k) = All-without P before after l h in (q, (p, k))

  module _ (happened : Platform → (code : String) (now : ℕ) → Type 0) where
    Step-IsSafe :
        {s t : State} {r : Option Response} (st : Step b s r t)
        → ((p : Platform) (code : String) (now : ℕ)
            → IsCallback st p code now
            → happened p code now)
        → IsSafe happened s
        → IsSafe happened t
    Step-IsSafe (authorize s uri state code now) v h = record {
      good = authorize-IsGood b happened uri state code now s.codes h.good;
      logins = h.logins;
    }
    Step-IsSafe (begin s state now) v h = record {
      good = begin-IsGood b happened state now s.codes h.good;
      logins = started-IsSound b happened state now s.codes s.in_flight h.good h.logins;
    }
    Step-IsSafe (finish s before after l p code bridge_code m n here) v h = record {
      good =
          finish-IsGood b happened p l code bridge_code m n s.codes (v p code m (refl, refl, refl))
            h.good;
      logins =
          (All-without (λ l. IsSound b happened l.pending) before after l (rw here at h.logins)).1;
    }
    Step-IsSafe (redeem s method form now) v h = record {
      good = token-IsGood b happened method form now s.codes h.good;
      logins = h.logins;
    }
    Step-IsSafe (exchange s p method auth m n) v h = h
    Step-IsSafe (sweep s now) v h = record {
      good = sweep-IsGood b happened now s.codes h.good;
      logins = h.logins;
    }

  -- After any requests, in any interleaving of their critical sections, at most 10000 codes are
  -- pending, no code stands twice, and each code and each callback in flight holds nothing but a
  -- redirect URI that passed the test or a token issued to an authorized user.
  pub Reach-IsSafe : {s : State} (r : Reach b s) → IsSafe (CameBack r) s
  Reach-IsSafe start = record {
    good = record { is_map = tt; bounded = omega arith; sound = tt };
    logins = tt;
  }
  Reach-IsSafe (next {s} r st) =
      let before = Reach-IsSafe r in
      Step-IsSafe (CameBack (next r st)) st (λ p code now. inl)
        (record {
          good =
              weaken-IsGood b (CameBack r) (CameBack (next r st)) (λ p code now. inr) s.codes
                before.good;
          logins =
              weaken-All b (CameBack r) (CameBack (next r st)) (λ p code now. inr) s.in_flight
                before.logins;
        })
