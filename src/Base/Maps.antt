-- ===== src/Base/Maps.antt =====
-- A Go map as an association list over keys with a Boolean equality.
use levis.Base.Tests.{if◌then◌else◌}
use levis.Base.Lists.{length}
use Prim.Native.Nat.{ℕ, ◌+◌, ◌≤◌}
use Prim.Native.String.{String}
use mathlib.Core.Path.{◌≡◌, refl}
use mathlib.Core.Logic.{◌↔◌}
use mathlib.Core.Bool.{Bool, true}
use mathlib.Core.Option.{Option, none, some}
use mathlib.Core.List.{List, [], ◌∷◌}
use native.Mathlib.Omega.{arith}
use levis.Base.Tests.{==_iff, ◌==◌ as nat_beq}
use text.Mathlib.Text.{◌==◌ as str_eq}
use text.Mathlib.TextEquality.{eq_iff}

pub record Eq {ℓ} (A : Type ℓ) : Type ℓ where
  pub beq : A → A → Bool
  pub beq_iff : (a b : A) → (beq a b ≡ true) ↔ (a ≡ b)

instance abbrev pub nat_eq : Eq ℕ
nat_eq = record { beq = nat_beq; beq_iff = ==_iff }

instance abbrev pub string_eq : Eq String
string_eq = record { beq = str_eq; beq_iff = eq_iff }

abbrev pub Dict {ℓ κ} : Type ℓ → Type κ → Type (ℓ ⊔ κ)
Dict K V = List (K × V)

-- What is left of a value that is read through a filter.
abbrev pub retain {κ} : {V : Type κ} → (V → Bool) → Option V → Option V
retain p none = none
retain p (some v) = if p v then some v else none

module _ {ℓ κ} {K : Type ℓ} {V : Type κ} ⦃e : Eq K⦄ where
  abbrev pub lookup : K → Dict K V → Option V
  lookup k [] = none
  lookup k ((j, v) ∷ d) = if e.beq j k then some v else lookup k d

  -- `d[k] = v`
  abbrev pub insert : K → V → Dict K V → Dict K V
  insert k v [] = (k, v) ∷ []
  insert k v ((j, w) ∷ d) = if e.beq j k then (k, v) ∷ d else (j, w) ∷ insert k v d

  -- `delete(d, k)`
  abbrev pub erase : K → Dict K V → Dict K V
  erase k [] = []
  erase k ((j, w) ∷ d) = if e.beq j k then erase k d else (j, w) ∷ erase k d

  -- `for k, v := range d { if !p(v) { delete(d, k) } }`
  abbrev pub keep_values : (V → Bool) → Dict K V → Dict K V
  keep_values p [] = []
  keep_values p ((j, w) ∷ d) = if p w then (j, w) ∷ keep_values p d else keep_values p d

  -- No key is listed twice, as in a Go map.
  abbrev pub IsMap : Dict K V → Type κ
  IsMap [] = Unit
  IsMap ((j, w) ∷ d) = (lookup j d ≡ none) × IsMap d

module _ {ℓ κ} {K : Type ℓ} {V : Type κ} ⦃e : Eq K⦄ where
  pub lookup-insert :
      (j k : K) (v : V) (d : Dict K V)
      → lookup j (insert k v d) ≡ (if e.beq k j then some v else lookup j d)
  lookup-insert j k v [] = refl
  lookup-insert j k v ((i, w) ∷ d) =
      ground (arith, e.beq_iff i k, e.beq_iff i j, e.beq_iff k j, lookup-insert j k v d)

  pub lookup-erase :
      (j k : K) (d : Dict K V) → lookup j (erase k d) ≡ (if e.beq k j then none else lookup j d)
  lookup-erase j k [] = ground arith
  lookup-erase j k ((i, w) ∷ d) =
      ground (arith, e.beq_iff i k, e.beq_iff i j, e.beq_iff k j, lookup-erase j k d)

  pub lookup-keep_values :
      (k : K) (p : V → Bool) (d : Dict K V)
      → IsMap d
      → lookup k (keep_values p d) ≡ retain p (lookup k d)
  lookup-keep_values k p [] h = refl
  lookup-keep_values k p ((j, w) ∷ d) h =
      ground (arith, e.beq_iff j k, lookup-keep_values k p d h.1)

  pub insert-IsMap : (k : K) (v : V) (d : Dict K V) → IsMap d → IsMap (insert k v d)
  insert-IsMap k v [] h = (refl, tt)
  insert-IsMap k v ((j, w) ∷ d) h =
      ground (arith, e.beq_iff j k, e.beq_iff k j, insert-IsMap k v d h.1, lookup-insert j k v d)

  pub erase-IsMap : (k : K) (d : Dict K V) → IsMap d → IsMap (erase k d)
  erase-IsMap k [] h = tt
  erase-IsMap k ((j, w) ∷ d) h = ground (arith, erase-IsMap k d h.1, lookup-erase j k d)

  pub keep_values-IsMap : (p : V → Bool) (d : Dict K V) → IsMap d → IsMap (keep_values p d)
  keep_values-IsMap p [] h = tt
  keep_values-IsMap p ((j, w) ∷ d) h =
      ground (arith, keep_values-IsMap p d h.1, lookup-keep_values j p d h.1)

  pub length-keep_values : (p : V → Bool) (d : Dict K V) → length (keep_values p d) ≤ length d
  length-keep_values p [] = omega arith
  length-keep_values p ((j, w) ∷ d) = ground (arith, length-keep_values p d)

  pub length-erase : (k : K) (d : Dict K V) → length (erase k d) ≤ length d
  length-erase k [] = omega arith
  length-erase k ((j, w) ∷ d) = ground (arith, length-erase k d)

  pub length-insert : (k : K) (v : V) (d : Dict K V) → length (insert k v d) ≤ length d + 1
  length-insert k v [] = omega arith
  length-insert k v ((j, w) ∷ d) = ground (arith, length-insert k v d)

  -- A write to a key that is there adds no entry.
  pub length-insert_old :
      (k : K) (v w : V) (d : Dict K V) → lookup k d ≡ some w → length (insert k v d) ≡ length d
  length-insert_old k v x [] h = cc
  length-insert_old k v x ((j, u) ∷ d) h = ground (arith, length-insert_old k v x d)
