-- ===== src/Boot/Env/Laws.antt =====
-- The bindings that lib/config/env.go hands on.
use Prim.Native.Char.{code}
use quickbite_analytics_serv.Base.{
  String, ◌≡◌, refl, ap, ◌∙◌, false, inl, inr, ◌&&◌, Bool-cases, List, [], ◌∷◌, str_eq, All,
}
use quickbite_analytics_serv.Boot.Env.{is_space, trim_left, trim_right, trim_space, trim_non_empty}

-- The text is empty, or begins with no space.
abbrev StartsClean : String → Type 0
StartsClean String.[] = Unit {0}
StartsClean (String.◌∷◌ c s) = is_space (code c) ≡ false

trim_left-StartsClean : (s : String) → StartsClean (trim_left s)
unfolding trim_left
trim_left-StartsClean String.[] = tt
trim_left-StartsClean (String.◌∷◌ c s) = elim (Bool-cases (is_space (code c))) [
  | inl space ↦ rw space (trim_left-StartsClean s)
  | inr other ↦ rw other other
]

trim_left-clean : (s : String) → StartsClean s → trim_left s ≡ s
unfolding trim_left
trim_left-clean String.[] h = refl
trim_left-clean (String.◌∷◌ c s) h = rw h refl

trim_right-StartsClean : (s : String) → StartsClean s → StartsClean (trim_right s)
unfolding trim_right
trim_right-StartsClean String.[] h = tt
trim_right-StartsClean (String.◌∷◌ c s) h = rw h h

trim_right-again : (s : String) → trim_right (trim_right s) ≡ trim_right s
unfolding trim_right
trim_right-again String.[] = refl
trim_right-again (String.◌∷◌ c s) =
    elim (Bool-cases (is_space (code c) && str_eq (trim_right s) "")) [
      | inl dropped ↦ rw dropped refl
      | inr kept ↦ rw kept (rw (trim_right-again s) (rw kept refl))
    ]

trim_space-again : (s : String) → trim_space (trim_space s) ≡ trim_space s
unfolding trim_space
trim_space-again s =
    ap trim_right (
      trim_left-clean (trim_right (trim_left s))
        (trim_right-StartsClean (trim_left s) (trim_left-StartsClean s)))
    ∙ trim_right-again (trim_left s)

-- A binding key that is neither empty nor has space at one of its ends.
abbrev pub IsTrimmed : String → Type 0
IsTrimmed s = (str_eq s "" ≡ false) × (trim_space s ≡ s)

-- No binding that is handed on is empty or has space at one of its ends.
pub trim_non_empty-IsTrimmed : (bindings : List String) → All IsTrimmed (trim_non_empty bindings)
unfolding trim_non_empty
trim_non_empty-IsTrimmed [] = tt
trim_non_empty-IsTrimmed (s ∷ rest) = elim (Bool-cases (str_eq (trim_space s) "")) [
  | inl empty ↦ rw empty (trim_non_empty-IsTrimmed rest)
  | inr filled ↦ rw filled ((filled, trim_space-again s), trim_non_empty-IsTrimmed rest)
]

-- A list of trimmed bindings is handed on as it is.
pub trim_non_empty-trimmed :
    (bindings : List String) → All IsTrimmed bindings → trim_non_empty bindings ≡ bindings
unfolding trim_non_empty
trim_non_empty-trimmed [] h = refl
trim_non_empty-trimmed (s ∷ rest) ((filled, trimmed), h) =
    rw (trimmed, filled) (ap (λ out. s ∷ out) (trim_non_empty-trimmed rest h))
