-- ===== src/Text/Separated.antt =====
-- Texts that stand before a separator: the names that the program joins by a character which none of
-- them has.
use Prim.Native.Char.{Char, code}
use Prim.Native.String.{[], ◌∷◌, ◌++◌}
use text.Mathlib.TextLemmas.{nil-append, cons-append}
use ogo.Base.{String, ◌≡◌, ap, sym, ◌≢◌, ◌∙◌, true, false, nat_eq, arith, refl}
use ogo.Text.{has_char}

module _ (k : Char) where
  -- no character of the text is the separator
  abbrev pub Lacks : String → Type 0
  Lacks [] = Unit
  Lacks (c ∷ s) = (nat_eq (code c) (code k) ≡ false) × Lacks s

  -- a text in which the search finds no separator
  pub Lacks-of_absent : (s : String) → has_char (code k) s ≡ false → Lacks s
  unfolding has_char
  Lacks-of_absent [] h = tt
  Lacks-of_absent (c ∷ s) h =
      let first : nat_eq (code c) (code k) ≡ false = ground arith in
      let rest : has_char (code k) s ≡ false = ground arith in (first, Lacks-of_absent s rest)

  abbrev joined : String → String → String
  joined a x = a ++ ((k ∷ []) ++ x)

  single-append : (s : String) → (k ∷ []) ++ s ≡ k ∷ s
  single-append s = cons-append k [] s ∙ ap (λ t. k ∷ t) (nil-append s)

  joined-nil : (x : String) → joined [] x ≡ k ∷ x
  joined-nil x = nil-append ((k ∷ []) ++ x) ∙ single-append x

  separator_differs : (c : Char) → nat_eq (code c) (code k) ≡ false → k ≢ c
  separator_differs c h e =
      let is_separator : nat_eq (code c) (code k) ≡ true = rw (← e) (ground arith) in cc

  -- Two texts that lack the separator and end at it are the same, and so is what follows.
  pub joined-inj :
      (a b x y : String) → Lacks a → Lacks b → joined a x ≡ joined b y → (a ≡ b) × (x ≡ y)
  joined-inj [] [] x y h l e =
      let t : k ∷ x ≡ k ∷ y = sym (joined-nil x) ∙ e ∙ joined-nil y in
      let u : x ≡ y = cc in (refl, u)
  joined-inj [] (d ∷ b) x y h (not_it, _) e =
      let t : k ∷ x ≡ d ∷ joined b y = sym (joined-nil x) ∙ e ∙ cons-append d b ((k ∷ []) ++ y) in
      let same : k ≡ d = cc in absurd (separator_differs d not_it same)
  joined-inj (c ∷ a) [] x y (not_it, _) l e =
      let t : c ∷ joined a x ≡ k ∷ y = sym (cons-append c a ((k ∷ []) ++ x)) ∙ e ∙ joined-nil y in
      let same : k ≡ c = cc in absurd (separator_differs c not_it same)
  joined-inj (c ∷ a) (d ∷ b) x y (_, h) (_, l) e =
      let t : c ∷ joined a x ≡ d ∷ joined b y =
        sym (cons-append c a ((k ∷ []) ++ x)) ∙ e ∙ cons-append d b ((k ∷ []) ++ y) in
      let first : c ≡ d = cc in
      let rest : joined a x ≡ joined b y = cc in
      let (names, others) = joined-inj a b x y h l rest in (cc, others)

  -- a text that ends at the separator is not empty
  pub joined-ne-nil : (a x : String) → joined a x ≢ []
  joined-ne-nil [] x e = let t : k ∷ x ≡ [] = sym (joined-nil x) ∙ e in cc
  joined-ne-nil (c ∷ a) x e =
      let t : c ∷ joined a x ≡ [] = sym (cons-append c a ((k ∷ []) ++ x)) ∙ e in cc
