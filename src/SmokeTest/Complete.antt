-- ===== src/SmokeTest/Complete.antt =====
-- hack/smoke-test-config/main.go: what a run without a failure has written.
use ogo.Base.{ℕ, String, ◌≡◌, refl, Option, none, some, List, [], ◌∷◌, ap}
use ogo.Base.Result.{Result, ok, err}
use ogo.Operator.Kube.{Api}
use ogo.Pki.{JwtKeys, generate_jwt_keys}
use ogo.SmokeTest.{
  Call, mkdir_all, write_file, Ran, attempted, and_then, write_keys, with_keys, toml, main,
}

module _ (api : Api) (moment : ℕ) (join : String → String → String)
    (fails : Call → Option String) where
  attempted-made :
      (context : String) (call : Call) (x : Option String) (rest : Ran) (calls : List Call)
      → (rest.failure ≡ none → rest.made ≡ calls)
      → (attempted api moment join fails context call x rest).failure ≡ none
      → (attempted api moment join fails context call x rest).made ≡ call ∷ calls
  unfolding attempted
  attempted-made context call (some e) rest calls h k = cc
  attempted-made context call none rest calls h k = ap (λ cs. call ∷ cs) (h k)

  attempted-rest :
      (context : String) (call : Call) (x : Option String) (rest : Ran)
      → (attempted api moment join fails context call x rest).failure ≡ none
      → rest.failure ≡ none
  unfolding attempted
  attempted-rest context call (some e) rest k = cc
  attempted-rest context call none rest k = k

  -- the calls that write a directory of key files
  abbrev pub jwt_calls : (dir : String) → JwtKeys → List Call
  jwt_calls dir keys =
      mkdir_all dir
      ∷ write_file (join dir "signing.pem") keys.signing_key
      ∷ write_file (join dir "public.pem") keys.public_key
      ∷ write_file (join dir "kid") keys.kid
      ∷ []

  with_keys-made :
      (out_dir : String) (x : Result String JwtKeys)
      → (with_keys api moment join fails out_dir x).failure ≡ none
      → (keys : JwtKeys) × (x ≡ ok keys)
        × ((with_keys api moment join fails out_dir x).made ≡ jwt_calls (join out_dir "jwt") keys)
  unfolding with_keys and_then write_keys
  with_keys-made out_dir (err e) h = cc
  with_keys-made out_dir (ok keys) h = (
    keys,
    refl,
    attempted-made _ _ _ _ _
        (attempted-made _ _ _ _ _ (attempted-made _ _ _ _ _ (attempted-made _ _ _ _ _ (λ _. refl))))
        h,
  )

  -- A run with a directory that ends without a failure generated keys, and made the calls that
  -- write the configuration and these keys, in this order and no others.
  pub main-made :
      (out_dir : String)
      → (main api moment join fails (out_dir ∷ [])).failure ≡ none
      → (keys : JwtKeys) × (generate_jwt_keys api.go moment ≡ ok keys)
        × ((main api moment join fails (out_dir ∷ [])).made
            ≡ mkdir_all out_dir
              ∷ write_file (join out_dir "gateway.toml") (toml api moment join fails)
              ∷ jwt_calls (join out_dir "jwt") keys)
  unfolding main and_then
  main-made out_dir h =
      let wrote = attempted-rest _ _ _ _ h in
      let (keys, generated, made) =
        with_keys-made out_dir (generate_jwt_keys api.go moment) (attempted-rest _ _ _ _ wrote) in
      (
        keys,
        generated,
        attempted-made _ _ _ _ _ (λ _. attempted-made _ _ _ _ _ (λ _. made) wrote) h,
      )
