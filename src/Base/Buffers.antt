-- ===== src/Base/Buffers.antt =====
-- A byte buffer, or a JavaScript string as its code units: a list of numbers. `leb_bytes` is the
-- order of `Buffer.compare` and of the default string sort, lexicographic with a prefix first.
use Prim.Native.Nat.{ℕ}
use mathlib.Core.Path.{◌≡◌, refl}
use mathlib.Core.Logic.{◌↔◌}
use mathlib.Core.Bool.{Bool, true, false, ◌&&◌}
use mathlib.Core.List.{List, [], ◌∷◌}
use native.Mathlib.Omega.{arith}
use huski_bsc_contract.Base.Tests.{ltb, ◌==◌, if◌then◌else◌}

abbrev pub Bytes : Type 0
Bytes = List ℕ

-- `buffer.equals`, `===` on strings
unfoldable pub bytes_eq : Bytes → Bytes → Bool
bytes_eq [] [] = true
bytes_eq [] (y ∷ ys) = false
bytes_eq (x ∷ xs) [] = false
bytes_eq (x ∷ xs) (y ∷ ys) = (x == y) && bytes_eq xs ys

unfoldable pub leb_bytes : Bytes → Bytes → Bool
leb_bytes [] ys = true
leb_bytes (x ∷ xs) [] = false
leb_bytes (x ∷ xs) (y ∷ ys) = if x == y then leb_bytes xs ys else ltb x y

pub bytes_eq_refl : (a : Bytes) → bytes_eq a a ≡ true
unfolding bytes_eq
bytes_eq_refl [] = refl
bytes_eq_refl (x ∷ xs) = ground (arith, bytes_eq_refl xs)

pub bytes_eq-eq : (a b : Bytes) → bytes_eq a b ≡ true → a ≡ b
unfolding bytes_eq
bytes_eq-eq [] [] h = refl
bytes_eq-eq [] (y ∷ ys) h = absurd (ground arith)
bytes_eq-eq (x ∷ xs) [] h = absurd (ground arith)
bytes_eq-eq (x ∷ xs) (y ∷ ys) h = ground (arith, bytes_eq-eq xs ys)

pub bytes_eq_iff : (a b : Bytes) → (bytes_eq a b ≡ true) ↔ (a ≡ b)
bytes_eq_iff a b = (bytes_eq-eq a b, λ e. rw e (bytes_eq_refl b))

pub leb_bytes_refl : (a : Bytes) → leb_bytes a a ≡ true
unfolding leb_bytes
leb_bytes_refl [] = refl
leb_bytes_refl (x ∷ xs) = ground (arith, leb_bytes_refl xs)

pub leb_bytes_antisymm : (a b : Bytes) → leb_bytes a b ≡ true → leb_bytes b a ≡ true → a ≡ b
unfolding leb_bytes
leb_bytes_antisymm [] [] h k = refl
leb_bytes_antisymm [] (y ∷ ys) h k = absurd (ground arith)
leb_bytes_antisymm (x ∷ xs) [] h k = absurd (ground arith)
leb_bytes_antisymm (x ∷ xs) (y ∷ ys) h k = ground (arith, leb_bytes_antisymm xs ys)

pub leb_bytes-total : (a b : Bytes) → leb_bytes a b ≡ false → leb_bytes b a ≡ true
unfolding leb_bytes
leb_bytes-total [] b h = absurd (ground arith)
leb_bytes-total (x ∷ xs) [] h = refl
leb_bytes-total (x ∷ xs) (y ∷ ys) h = ground (arith, leb_bytes-total xs ys)

pub leb_bytes_trans :
    (a b c : Bytes) → leb_bytes a b ≡ true → leb_bytes b c ≡ true → leb_bytes a c ≡ true
unfolding leb_bytes
leb_bytes_trans [] b c h k = refl
leb_bytes_trans (x ∷ xs) [] c h k = absurd (ground arith)
leb_bytes_trans (x ∷ xs) (y ∷ ys) [] h k = absurd (ground arith)
leb_bytes_trans (x ∷ xs) (y ∷ ys) (z ∷ zs) h k = ground (arith, leb_bytes_trans xs ys zs)
