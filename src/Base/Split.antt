-- ===== src/Base/Split.antt =====
-- `s.split(c)` and `parts.join(c)` for a separator of one code unit.
use Prim.Native.Nat.{ℕ}
use mathlib.Core.Path.{◌≡◌, refl}
use mathlib.Core.Logic.{inl, inr}
use mathlib.Core.Bool.{false}
use mathlib.Core.List.{List, [], ◌∷◌, ◌++◌}
use native.Mathlib.Omega.{arith}
use ewu_taks.Base.Bools.{◌==◌, ==_iff, if◌then◌else◌, Bool-cases}
use ewu_taks.Base.Keys.{Text}

-- Puts a code unit in front of the first part.
abbrev pub onto_first : ℕ → List Text → List Text
onto_first c [] = (c ∷ []) ∷ []
onto_first c (part ∷ parts) = (c ∷ part) ∷ parts

abbrev pub split : ℕ → Text → List Text
split sep [] = [] ∷ []
split sep (c ∷ s) = let rest = split sep s in if c == sep then [] ∷ rest else onto_first c rest

abbrev pub join : ℕ → List Text → Text
join sep [] = []
join sep (part ∷ []) = part
join sep (part ∷ next ∷ parts) = part ++ (sep ∷ join sep (next ∷ parts))

-- No code unit of the text is the separator.
abbrev pub Free : ℕ → Text → Type 0
Free sep [] = Unit
Free sep (c ∷ s) = ((c == sep) ≡ false) × Free sep s

pub split-Free : (sep : ℕ) (s : Text) → Free sep s → split sep s ≡ s ∷ []
split-Free sep [] h = refl
split-Free sep (c ∷ s) h = ground (arith, split-Free sep s h.1)

-- A separator after a text without one ends the first part.
pub split-append :
    (sep : ℕ) (s rest : Text) → Free sep s → split sep (s ++ (sep ∷ rest)) ≡ s ∷ split sep rest
split-append sep [] rest h = ground arith
split-append sep (c ∷ s) rest h = ground (arith, split-append sep s rest h.1)

join-onto_first :
    (sep c : ℕ) (parts : List Text) → join sep (onto_first c parts) ≡ c ∷ join sep parts
join-onto_first sep c [] = refl
join-onto_first sep c (p ∷ []) = refl
join-onto_first sep c (p ∷ q ∷ ps) = refl

abbrev IsCons : List Text → Type 0
IsCons [] = ⊥
IsCons (p ∷ ps) = Unit

onto_first-IsCons : (c : ℕ) (parts : List Text) → IsCons (onto_first c parts)
onto_first-IsCons c [] = tt
onto_first-IsCons c (p ∷ ps) = tt

split-IsCons : (sep : ℕ) (s : Text) → IsCons (split sep s)
split-IsCons sep [] = tt
split-IsCons sep (c ∷ s) = elim (Bool-cases (c == sep)) [
  | inl here ↦ rw here tt
  | inr other ↦ rw other (onto_first-IsCons c (split sep s))
]

join_end :
    (sep : ℕ) (parts : List Text) → IsCons parts → join sep ([] ∷ parts) ≡ sep ∷ join sep parts
join_end sep [] h = absurd h
join_end sep (p ∷ ps) h = refl

-- Joining the parts of a split gives the text back.
pub join-split : (sep : ℕ) (s : Text) → join sep (split sep s) ≡ s
join-split sep [] = refl
join-split sep (c ∷ s) = ground (
  arith,
  join-split sep s,
  join_end sep (split sep s),
  split-IsCons sep s,
  join-onto_first sep c (split sep s),
  ==_iff c sep,
)
