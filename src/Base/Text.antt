-- ===== src/Base/Text.antt =====
-- Texts written out in the sources, as lists of bytes.
use Prim.Native.Char.{code}
use Prim.Native.Nat.{ℕ, zero, suc}
use Prim.Native.String.{String}
use mathlib.Core.List.{List, [], ◌∷◌}

-- The bytes of a text of ASCII characters.
abbrev pub codes : String → List ℕ
codes String.[] = []
codes (String.◌∷◌ c s) = code c ∷ codes s

-- `n` of the horizontal lines that the texts of the shell are underlined with, in UTF-8.
abbrev pub rule : ℕ → List ℕ
rule zero = []
rule (suc n) = 226 ∷ 148 ∷ 128 ∷ rule n

infixl 4 ◌|>◌
abbrev pub ◌|>◌ : {A B : Type 0} → A → (A → B) → B
x |> f = f x
