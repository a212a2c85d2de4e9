-- ===== src/Base/Keys.antt =====
-- The interface of equality that keys offer, its instances for numbers and texts, and JavaScript's
-- `Map` as an association list in insertion order.
use Prim.Native.Nat.{ℕ, ◌≤◌}
use mathlib.Core.Path.{◌≡◌, refl}
use mathlib.Core.Logic.{◌↔◌}
use mathlib.Core.Bool.{Bool, true, false, ◌&&◌}
use mathlib.Core.Option.{Option, none, some}
use mathlib.Core.List.{List, [], ◌∷◌}
use native.Mathlib.Omega.{arith}
use ewu_taks.Base.Bools.{◌==◌, ==_iff, if◌then◌else◌}
use ewu_taks.Base.Lists.{length, any}

pub record Eq {ℓ} (Key : Type ℓ) : Type ℓ where
  -- `===`, and what its answer tells
  pub beq : Key → Key → Bool
  pub beq_iff : (x y : Key) → (beq x y ≡ true) ↔ (x ≡ y)

-- A JavaScript string is the sequence of its code units.
abbrev pub Text : Type 0
Text = List ℕ

abbrev pub text_beq : Text → Text → Bool
text_beq [] [] = true
text_beq [] (y ∷ ys) = false
text_beq (x ∷ xs) [] = false
text_beq (x ∷ xs) (y ∷ ys) = x == y && text_beq xs ys

pub text_beq_iff : (s t : Text) → (text_beq s t ≡ true) ↔ (s ≡ t)
text_beq_iff [] [] = ground arith
text_beq_iff [] (y ∷ ys) = ground arith
text_beq_iff (x ∷ xs) [] = ground arith
text_beq_iff (x ∷ xs) (y ∷ ys) = ground (arith, text_beq_iff xs ys)

instance abbrev pub text_eq : Eq Text
text_eq = record { beq = text_beq; beq_iff = text_beq_iff }

instance abbrev pub nat_eq : Eq ℕ
nat_eq = record { beq = ◌==◌; beq_iff = λ m n. ==_iff m n }

module _ {ℓ} {K : Type ℓ} ⦃e : Eq K⦄ where
  pub beq_refl : (k : K) → e.beq k k ≡ true
  beq_refl k = (e.beq_iff k k).1 refl

  -- `xs.includes(k)`
  abbrev pub contains : List K → K → Bool
  contains xs k = any (λ x. e.beq x k) xs

module _ {ℓ κ} {K : Type ℓ} {V : Type κ} ⦃e : Eq K⦄ where
  abbrev pub get : List (K × V) → K → Option V
  get [] k = none
  get ((j, v) ∷ m) k = if e.beq j k then some v else get m k

  -- A key that is present keeps its place; a new key goes to the end.
  abbrev pub put : List (K × V) → K → V → List (K × V)
  put [] k v = (k, v) ∷ []
  put ((j, w) ∷ m) k v = if e.beq j k then (j, v) ∷ m else (j, w) ∷ put m k v

  -- Keys are distinct in a map; every entry with the key goes.
  abbrev pub remove : List (K × V) → K → List (K × V)
  remove [] k = []
  remove ((j, w) ∷ m) k = let rest = remove m k in if e.beq j k then rest else (j, w) ∷ rest

  pub get-put :
      (m : List (K × V)) (k j : K) (v : V)
      → get (put m k v) j ≡ (if e.beq k j then some v else get m j)
  get-put [] k j v = refl
  get-put ((i, w) ∷ m) k j v =
      ground (arith, get-put m k j v, e.beq_iff i k, e.beq_iff i j, e.beq_iff k j)

  pub get-remove :
      (m : List (K × V)) (k j : K) → get (remove m k) j ≡ (if e.beq k j then none else get m j)
  get-remove [] k j = ground arith
  get-remove ((i, w) ∷ m) k j =
      ground (arith, get-remove m k j, e.beq_iff i k, e.beq_iff i j, e.beq_iff k j)

  pub length-remove-le : (m : List (K × V)) (k : K) → length (remove m k) ≤ length m
  length-remove-le [] k = ground arith
  length-remove-le ((i, w) ∷ m) k = ground (arith, length-remove-le m k)
