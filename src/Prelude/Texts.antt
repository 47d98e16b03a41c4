-- ===== src/Prelude/Texts.antt =====
-- A `String` is the list of its code points. Every operation that the program makes on a text is
-- on ASCII separators, so that positions in code points and in bytes agree on what is cut where.
use Prim.Native.Nat.{ℕ}
use Prim.Native.Char.{code}
use Prim.Native.String.{String}
use mathlib.Core.Path.{◌≡◌, refl, ap₂}
use mathlib.Core.Bool.{Bool, true, false}
use mathlib.Core.List.{List, [], ◌∷◌}
use native.Mathlib.Omega.{arith}
use native.Mathlib.Decide.{ℕ_discrete}
use uni_cloud_file_sync_thin.Prelude.Tests.{◌==◌, leb, if◌then◌else◌}

abbrev pub Text : Type 0
Text = List ℕ

-- A literal of the source.
abbrev pub text : String → Text
text String.[] = []
text (String.◌∷◌ c s) = code c ∷ text s

abbrev pub slash : ℕ
slash = 47

cons_dec :
    {x y : ℕ} {xs ys : Text} → Dec (x ≡ y) → Dec (xs ≡ ys) → Dec (◌≡◌ {A = Text} (x ∷ xs) (y ∷ ys))
cons_dec (yes p) (yes q) = yes (ap₂ ◌∷◌ p q)
cons_dec (no p) d = no (λ e. p (ground arith))
cons_dec (yes p) (no q) = no (λ e. q (ground arith))

-- `==` on strings.
unfoldable pub dec_text : Discrete Text
unfolding cons_dec
dec_text [] [] = yes refl
dec_text [] (y ∷ ys) = no (λ e. cc)
dec_text (x ∷ xs) [] = no (λ e. cc)
dec_text (x ∷ xs) (y ∷ ys) = cons_dec (ℕ_discrete x y) (dec_text xs ys)

-- Whether the last character is a slash.
unfoldable pub ends_slash : Text → Bool
ends_slash [] = false
ends_slash (c ∷ []) = c == slash
ends_slash (c ∷ d ∷ s) = ends_slash (d ∷ s)

-- `BINARY` collation compares the bytes of UTF-8, which is the order of the code points.
unfoldable pub leb_text : Text → Text → Bool
leb_text [] ys = true
leb_text (x ∷ xs) [] = false
leb_text (x ∷ xs) (y ∷ ys) = let rest = leb_text xs ys in if x == y then rest else leb x y

pub leb_text_total : (xs ys : Text) → leb_text xs ys ≡ false → leb_text ys xs ≡ true
unfolding leb_text
leb_text_total [] ys h = absurd (ground arith)
leb_text_total (x ∷ xs) [] h = refl
leb_text_total (x ∷ xs) (y ∷ ys) h = ground (arith, leb_text_total xs ys)

pub leb_text_trans :
    (xs ys zs : Text) → leb_text xs ys ≡ true → leb_text ys zs ≡ true → leb_text xs zs ≡ true
unfolding leb_text
leb_text_trans [] ys zs h k = refl
leb_text_trans (x ∷ xs) [] zs h k = absurd (ground arith)
leb_text_trans (x ∷ xs) (y ∷ ys) [] h k = absurd (ground arith)
leb_text_trans (x ∷ xs) (y ∷ ys) (z ∷ zs) h k = ground (arith, leb_text_trans xs ys zs)
