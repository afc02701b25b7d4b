-- ===== src/Base/Maps.antt =====
-- Go maps as association lists: a key stands once, and a write to a key that is there replaces it.
use mathlib.Core.Path.{◌≡◌, refl}
use mathlib.Core.Logic.{◌↔◌}
use mathlib.Core.Bool.{Bool, true, false}
use mathlib.Core.Option.{Option, none, some}
use mathlib.Core.List.{List, [], ◌∷◌}
use native.Mathlib.Omega.{arith}
use Prim.Native.Nat.{ℕ}
use dvactor.Base.Tests.{if◌then◌else◌, ◌==◌ as nat_beq, ==_iff}

-- Types whose values Go compares with `==`.
pub record Eq {ℓ} (K : Type ℓ) : Type ℓ where
  pub beq : K → K → Bool
  pub beq_iff : (a b : K) → (beq a b ≡ true) ↔ (a ≡ b)

instance abbrev pub nat_eq : Eq ℕ
nat_eq = record { beq = nat_beq; beq_iff = ==_iff }

module _ {ℓ κ} {K : Type ℓ} {V : Type κ} ⦃e : Eq K⦄ where
  abbrev pub lookup : K → List (K × V) → Option V
  lookup k [] = none
  lookup k ((j, v) ∷ m) = if e.beq j k then some v else lookup k m

  abbrev pub insert : K → V → List (K × V) → List (K × V)
  insert k v [] = (k, v) ∷ []
  insert k v ((j, w) ∷ m) = if e.beq j k then (j, v) ∷ m else (j, w) ∷ insert k v m

  abbrev pub delete : K → List (K × V) → List (K × V)
  delete k [] = []
  delete k ((j, w) ∷ m) = let rest = delete k m in if e.beq j k then rest else (j, w) ∷ rest

  pub lookup-insert :
      (k j : K) (v : V) (m : List (K × V))
      → lookup j (insert k v m) ≡ (if e.beq k j then some v else lookup j m)
  lookup-insert k j v [] = refl
  lookup-insert k j v ((i, w) ∷ m) =
      ground (arith, e.beq_iff k j, e.beq_iff i k, e.beq_iff i j, lookup-insert k j v m)

  pub lookup-delete :
      (k j : K) (m : List (K × V))
      → lookup j (delete k m) ≡ (if e.beq k j then none else lookup j m)
  lookup-delete k j [] = ground arith
  lookup-delete k j ((i, w) ∷ m) =
      ground (arith, e.beq_iff k j, e.beq_iff i k, e.beq_iff i j, lookup-delete k j m)

module _ {ℓ κ} {K : Type ℓ} {V : Type κ} ⦃e : Eq K⦄ where
  pub lookup-miss :
      (k j : K) (w : V) (m : List (K × V)) → e.beq j k ≡ false → lookup k ((j, w) ∷ m) ≡ lookup k m
  lookup-miss k j w m h = rw h

  pub insert-miss :
      (k j : K) (v w : V) (m : List (K × V))
      → e.beq j k ≡ false
      → insert k v ((j, w) ∷ m) ≡ (j, w) ∷ insert k v m
  insert-miss k j v w m h = rw h

pub beq_refl {ℓ} : {K : Type ℓ} ⦃e : Eq K⦄ (k : K) → e.beq k k ≡ true
beq_refl ⦃e⦄ k = (e.beq_iff k k).1 refl

-- Whether there is an entry, as a number.
abbrev pub held {ℓ} : {V : Type ℓ} → Option V → ℕ
held none = 0
held (some v) = 1

-- Writes to one key, and writes that change nothing.
module _ {ℓ κ} {K : Type ℓ} {V : Type κ} ⦃e : Eq K⦄ where
  pub insert-insert :
      (k : K) (v w : V) (m : List (K × V)) → insert k v (insert k w m) ≡ insert k v m
  insert-insert k v w [] = rw (beq_refl k)
  insert-insert k v w ((j, u) ∷ m) = ground (arith, insert-insert k v w m)

  pub insert_same : (k : K) (v : V) (m : List (K × V)) → lookup k m ≡ some v → insert k v m ≡ m
  insert_same k v [] h = cc
  insert_same k v ((j, u) ∷ m) h = ground (arith, insert_same k v m)

  pub delete-insert_absent :
      (k : K) (v : V) (m : List (K × V)) → lookup k m ≡ none → delete k (insert k v m) ≡ m
  delete-insert_absent k v [] h = rw (beq_refl k)
  delete-insert_absent k v ((j, u) ∷ m) h = ground (arith, delete-insert_absent k v m)

-- `==` on byte strings.
abbrev pub bytes_beq : List ℕ → List ℕ → Bool
bytes_beq [] [] = true
bytes_beq [] (y ∷ ys) = false
bytes_beq (x ∷ xs) [] = false
bytes_beq (x ∷ xs) (y ∷ ys) = let rest = bytes_beq xs ys in if nat_beq x y then rest else false

pub bytes_beq_iff : (xs ys : List ℕ) → (bytes_beq xs ys ≡ true) ↔ (xs ≡ ys)
bytes_beq_iff [] [] = ground arith
bytes_beq_iff [] (y ∷ ys) = ground arith
bytes_beq_iff (x ∷ xs) [] = ground arith
bytes_beq_iff (x ∷ xs) (y ∷ ys) = ground (arith, bytes_beq_iff xs ys)

instance abbrev pub bytes_eq : Eq (List ℕ)
bytes_eq = record { beq = bytes_beq; beq_iff = bytes_beq_iff }
