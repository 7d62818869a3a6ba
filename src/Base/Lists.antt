-- ===== src/Base/Lists.antt =====
-- Lists measured by native numbers, under the library's names, and queues of handles.
use Prim.Native.Nat.{ℕ, suc, ◌+◌}
use mathlib.Core.Path.{◌≡◌}
use mathlib.Core.List.{List, [], ◌∷◌, ◌++◌}
use native.Mathlib.Omega.{arith}
use kaj_ps.Base.Tests.{◌==◌, if◌then◌else◌, bit}

module _ {ℓ} {A : Type ℓ} where
  abbrev pub length : List A → ℕ
  length [] = 0
  length (x ∷ xs) = suc (length xs)

  pub length-append : (xs ys : List A) → length (xs ++ ys) ≡ length xs + length ys
  length-append [] ys = omega arith
  length-append (x ∷ xs) ys = omega (arith, length-append xs ys)

-- How often a handle stands in a queue.
abbrev pub count : ℕ → List ℕ → ℕ
count h [] = 0
count h (x ∷ queue) = bit (x == h) + count h queue

-- std::erase(deque, value)
abbrev pub erase_all : ℕ → List ℕ → List ℕ
erase_all a [] = []
erase_all a (x ∷ xs) = if x == a then erase_all a xs else x ∷ erase_all a xs

pub count-erase_all :
    (b a : ℕ) (xs : List ℕ) → count b (erase_all a xs) ≡ (if a == b then 0 else count b xs)
count-erase_all b a [] = ground arith
count-erase_all b a (x ∷ xs) = ground (arith, count-erase_all b a xs)

pub count-append :
    (h : ℕ) (front back : List ℕ) → count h (front ++ back) ≡ count h front + count h back
count-append h [] back = omega arith
count-append h (x ∷ front) back = omega (arith, count-append h front back)
