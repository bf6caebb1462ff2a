-- ===== src/SmokeTest/Tests.antt =====
-- A run on a disk without failures.
use ogo.Base.{◌≡◌, refl, none, [], ◌∷◌}
use ogo.SmokeTest.{write_keys, write_file, main, stopped}
use ogo.Operator.Kube.{Api}

module _ (api : Api) where
  without_directory :
      main api 0 (λ dir file. file) (λ call. none) []
      ≡ stopped "usage: smoke-test-config <output-dir>"
  unfolding main
  without_directory = refl

  one_key :
      write_keys api 0 (λ dir file. file) (λ call. none) "jwt" (("kid", "k") ∷ [])
      ≡ record { made = write_file "kid" "k" ∷ []; failure = none }
  unfolding write_keys
  one_key = refl
