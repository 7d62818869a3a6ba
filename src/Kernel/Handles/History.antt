-- ===== src/Kernel/Handles/History.antt =====
-- Handles over a whole history of calls.
use kaj_ps.Base.{
  ℕ, suc, ◌+◌, ◌≤◌, ◌<◌, ◌≡◌, List, [], ◌∷◌, Option, none, some, arith, if◌then◌else◌, count, refl,
}
use kaj_ps.Kernel.Objects.{KernelObject, KernelObjectType}
use kaj_ps.Kernel.Handles.{HandleTable, empty, insert, remove, write}

-- A call by some client of the table.
pub data Call : Type 0 where
  inserts : Option KernelObject → Call
  removes : ℕ → KernelObjectType → Call
  writes : ℕ → KernelObject → Call

abbrev record_result : Option ℕ → List ℕ → List ℕ
record_result none hs = hs
record_result (some h) hs = h ∷ hs

-- The handles that a history gives out, in order.
unfoldable pub issued : HandleTable → List Call → List ℕ
issued t [] = []
issued t (inserts o ∷ cs) = record_result (insert o t).1 (issued (insert o t).0 cs)
issued t (removes h type ∷ cs) = issued (remove h type t).0 cs
issued t (writes h o ∷ cs) = issued (write h o t) cs

-- The least handle that may still be given out.
abbrev bound : HandleTable → ℕ
bound t = t.next_handle + (if t.exhausted then 1 else 0)

abbrev Rising : ℕ → List ℕ → Type 0
Rising b [] = Unit {0}
Rising b (h ∷ hs) = (b ≤ h) × Rising (suc h) hs

Rising-mono : (a b : ℕ) (hs : List ℕ) → a ≤ b → Rising b hs → Rising a hs
Rising-mono a b [] l r = tt
Rising-mono a b (h ∷ hs) l r = (omega arith, r.1)

bound-insert :
    (o : Option KernelObject) (t : HandleTable)
    → ((insert o t).1 ≡ none → bound t ≤ bound (insert o t).0)
      × ((h : ℕ) → (insert o t).1 ≡ some h → (bound t ≤ h) × (suc h ≤ bound (insert o t).0))
unfolding insert
bound-insert none t = (λ e. omega arith, λ h e. cc)
bound-insert (some o) t = (λ e. ground arith, λ h e. ground arith)

bound-remove :
    (h : ℕ) (type : KernelObjectType) (t : HandleTable) → bound (remove h type t).0 ≡ bound t
unfolding remove
bound-remove h type t = ground arith

record_result-Rising :
    (a b : ℕ) (r : Option ℕ) (hs : List ℕ)
    → (r ≡ none → a ≤ b) × ((h : ℕ) → r ≡ some h → (a ≤ h) × (suc h ≤ b))
    → Rising b hs
    → Rising a (record_result r hs)
record_result-Rising a b none hs p r = Rising-mono a b hs (p.0 refl) r
record_result-Rising a b (some h) hs p r =
    ((p.1 h refl).0, Rising-mono (suc h) b hs (p.1 h refl).1 r)

issued-Rising : (t : HandleTable) (cs : List Call) → Rising (bound t) (issued t cs)
unfolding issued write
issued-Rising t [] = tt
issued-Rising t (inserts o ∷ cs) =
    record_result-Rising (bound t) (bound (insert o t).0) (insert o t).1 (issued (insert o t).0 cs)
      (bound-insert o t) (issued-Rising (insert o t).0 cs)
issued-Rising t (removes h type ∷ cs) =
    rw (bound-remove h type t) at (issued-Rising (remove h type t).0 cs)
issued-Rising t (writes h o ∷ cs) = issued-Rising (write h o t) cs

Rising-count_below : (b k : ℕ) (hs : List ℕ) → Rising b hs → k < b → count k hs ≡ 0
Rising-count_below b k [] r l = omega arith
Rising-count_below b k (h ∷ hs) r l = ground (arith, Rising-count_below (suc h) k hs r.1)

Rising-count : (b k : ℕ) (hs : List ℕ) → Rising b hs → count k hs ≤ 1
Rising-count b k [] r = omega arith
Rising-count b k (h ∷ hs) r =
    ground (arith, Rising-count (suc h) k hs r.1, Rising-count_below (suc h) k hs r.1)

-- Over any history of calls on a new table, however many objects were removed in between, no handle
-- is given out twice, and the invalid handle 0 never.
pub issued_once :
    (cs : List Call) (h : ℕ) → (count h (issued empty cs) ≤ 1) × (count 0 (issued empty cs) ≡ 0)
unfolding empty
issued_once cs h = (
  Rising-count 1 h (issued empty cs) (issued-Rising empty cs),
  Rising-count_below 1 0 (issued empty cs) (issued-Rising empty cs) (omega arith),
)
