-- ===== src/Base/Assoc.antt =====
-- std::map with integer keys: an association list in the order of the keys.
use Prim.Native.Nat.{ℕ, suc, ◌-◌, ◌≤◌, ◌<◌}
use mathlib.Core.Path.{◌≡◌, refl}
use mathlib.Core.Bool.{Bool, true, false}
use mathlib.Core.Option.{Option, none, some}
use mathlib.Core.List.{List, [], ◌∷◌}
use native.Mathlib.Omega.{arith}
use kaj_ps.Base.Tests.{◌==◌, ltb, if◌then◌else◌}
use kaj_ps.Base.Lists.{length}

module _ {ℓ} {V : Type ℓ} where
  abbrev pub is_some : Option V → Bool
  is_some none = false
  is_some (some v) = true

  -- find, at
  unfoldable pub find : ℕ → List (ℕ × V) → Option V
  find k [] = none
  find k ((j, v) ∷ m) = if j == k then some v else find k m

  -- emplace leaves a key that is there as it is
  unfoldable pub emplace : ℕ → V → List (ℕ × V) → List (ℕ × V)
  emplace k v [] = (k, v) ∷ []
  emplace k v ((j, w) ∷ m) =
      if ltb k j then (k, v) ∷ (j, w) ∷ m else if j == k then (j, w) ∷ m else (j, w) ∷ emplace k v m

  -- erase
  unfoldable pub erase : ℕ → List (ℕ × V) → List (ℕ × V)
  erase k [] = []
  erase k ((j, v) ∷ m) = if j == k then erase k m else (j, v) ∷ erase k m

  -- a write through the iterator at a key
  unfoldable pub update : ℕ → V → List (ℕ × V) → List (ℕ × V)
  update k v [] = []
  update k v ((j, w) ∷ m) = if j == k then (j, v) ∷ update k v m else (j, w) ∷ update k v m

  -- The keys rise along the list and stay above `b` (`b` is not itself a key).
  abbrev pub Above : ℕ → List (ℕ × V) → Type 0
  Above b [] = Unit {0}
  Above b ((j, v) ∷ m) = (b ≤ j) × Above (suc j) m

  erase_missing : (k : ℕ) (m : List (ℕ × V)) → find k m ≡ none → erase k m ≡ m
  unfolding find erase
  erase_missing k [] h = refl
  erase_missing k ((j, w) ∷ m) h = ground (arith, erase_missing k m)

  pub find-emplace :
      (j k : ℕ) (v : V) (m : List (ℕ × V))
      → find k m ≡ none
      → find j (emplace k v m) ≡ (if k == j then some v else find j m)
  unfolding find emplace
  find-emplace j k v [] h = refl
  find-emplace j k v ((i, w) ∷ m) h = ground (arith, find-emplace j k v m)

  pub find-erase :
      (j k : ℕ) (m : List (ℕ × V)) → find j (erase k m) ≡ (if k == j then none else find j m)
  unfolding find erase
  find-erase j k [] = ground arith
  find-erase j k ((i, w) ∷ m) = ground (arith, find-erase j k m)

  -- A key that was not there, put in and taken out again.
  pub erase-emplace :
      (k : ℕ) (v : V) (m : List (ℕ × V)) → find k m ≡ none → erase k (emplace k v m) ≡ m
  unfolding find erase emplace
  erase-emplace k v [] h = ground arith
  erase-emplace k v ((j, w) ∷ m) h = ground (arith, erase-emplace k v m, erase_missing k m)

  pub find-update :
      (j k : ℕ) (v : V) (m : List (ℕ × V))
      → find j (update k v m)
        ≡ (if k == j then (if is_some (find j m) then some v else none) else find j m)
  unfolding find update
  find-update j k v [] = ground arith
  find-update j k v ((i, w) ∷ m) = ground (arith, find-update j k v m)

  pub Above-mono : (a b : ℕ) (m : List (ℕ × V)) → a ≤ b → Above b m → Above a m
  Above-mono a b [] h s = tt
  Above-mono a b ((j, v) ∷ m) h s = (omega arith, s.1)

  -- What lies below all keys is not found.
  pub find_below : (b k : ℕ) (m : List (ℕ × V)) → Above b m → k < b → find k m ≡ none
  unfolding find
  find_below b k [] s h = refl
  find_below b k ((j, v) ∷ m) s h = ground (arith, find_below (suc j) k m s.1)

  pub emplace-Above :
      (b k : ℕ) (v : V) (m : List (ℕ × V)) → b ≤ k → Above b m → Above b (emplace k v m)
  unfolding emplace
  emplace-Above b k v [] h s = (h, tt)
  emplace-Above b k v ((j, w) ∷ m) h s = ground (arith, emplace-Above (suc j) k v m)

  pub erase-Above : (b k : ℕ) (m : List (ℕ × V)) → Above b m → Above b (erase k m)
  unfolding erase
  erase-Above b k [] s = tt
  erase-Above b k ((j, w) ∷ m) s =
      ground (arith, erase-Above (suc j) k m, Above-mono b (suc j) (erase k m))

  pub update-Above : (b k : ℕ) (v : V) (m : List (ℕ × V)) → Above b m → Above b (update k v m)
  unfolding update
  update-Above b k v [] s = tt
  update-Above b k v ((j, w) ∷ m) s = ground (arith, update-Above (suc j) k v m)

  -- A written key that is there: nothing else changes.
  pub length-update : (k : ℕ) (v : V) (m : List (ℕ × V)) → length (update k v m) ≡ length m
  unfolding update
  length-update k v [] = refl
  length-update k v ((j, w) ∷ m) = ground (arith, length-update k v m)

  pub length-emplace :
      (k : ℕ) (v : V) (m : List (ℕ × V)) → find k m ≡ none → length (emplace k v m) ≡ suc (length m)
  unfolding find emplace
  length-emplace k v [] h = refl
  length-emplace k v ((j, w) ∷ m) h = ground (arith, length-emplace k v m)

  -- Keys that rise from `b` and stay below `top` are no more than their difference.
  pub length-Above :
      (b top : ℕ) (m : List (ℕ × V))
      → Above b m
      → ((k : ℕ) → top ≤ k → find k m ≡ none)
      → length m ≤ top - b
  unfolding find
  length-Above b top [] s f = omega arith
  length-Above b top ((j, v) ∷ m) s f =
      ground (arith, f j, length-Above (suc j) top m s.1 (λ k h. ground (arith, f k h)))
