-- ===== src/Text.antt =====
-- What the program uses of Go's package strings.
pub mod Separated
use Prim.Native.Char.{code}
use Prim.Native.String.{String, [], ◌∷◌, len, slice}
use ogo.Base.{
  ℕ, Option, none, some, false, Bool, ◌||◌, ◌&&◌, if◌then◌else◌, nat_eq, leb, starts_with, ◌==◌,
}

-- TrimPrefix
unfoldable pub trim_prefix : String → String → String
trim_prefix s prefix = if starts_with s prefix then slice s (len prefix) (len s) else s

-- What is left of `s` when its last characters that pass the test are gone: `rest` is what the
-- recursion leaves of the tail.
drop_last : (ℕ → Bool) → String → String
drop_last p [] = []
drop_last p (c ∷ s) =
    let rest = drop_last p s in if (rest == "") && p (code c) then [] else c ∷ rest

drop_first : (ℕ → Bool) → String → String
drop_first p [] = []
drop_first p (c ∷ s) = let rest = drop_first p s in if p (code c) then rest else c ∷ s

-- TrimRight(s, "/")
unfoldable pub trim_right_slash : String → String
unfolding drop_last
trim_right_slash s = drop_last (λ c. nat_eq c b'/') s

-- unicode.IsSpace
is_space : ℕ → Bool
is_space c =
    (leb 9 c && leb c 13)
    || nat_eq c 32
    || nat_eq c 0x85
    || nat_eq c 0xa0
    || nat_eq c 0x1680
    || (leb 0x2000 c && leb c 0x200a)
    || nat_eq c 0x2028
    || nat_eq c 0x2029
    || nat_eq c 0x202f
    || nat_eq c 0x205f
    || nat_eq c 0x3000

-- TrimSpace
unfoldable pub trim_space : String → String
unfolding drop_last drop_first is_space
trim_space s = drop_last is_space (drop_first is_space s)

-- `strings.Cut` at a character: what stands after its first occurrence
unfoldable pub after_char : ℕ → String → Option String
after_char k [] = none
after_char k (c ∷ s) = let rest = after_char k s in if nat_eq (code c) k then some s else rest

-- `strings.Contains` of a character
unfoldable pub has_char : ℕ → String → Bool
has_char k [] = false
has_char k (c ∷ s) = nat_eq (code c) k || has_char k s
