-- ===== src/Kernel/DirectMemory/Backing.antt =====
-- src/core/memory/shared_memory_backing.h and src/core/memory/shared_memory_backing.cpp: the pages of
-- SharedMemoryBacking, and Clear. A page is the function from its offsets to its bytes; a byte
-- without a page reads as 0, as Read fills it.
use kaj_ps.Base.{
  ℕ, ◌+◌, ◌-◌, ◌*◌, ◌/◌, ◌%◌, ◌≤◌, ◌≡◌, refl, Bool, not, ◌&&◌, ◌||◌, none, some, List, [], ◌∷◌,
  arith, ltb, leb, ◌==◌, if◌then◌else◌, min, max, Bool-cases, inl, inr, true,
}
use kaj_ps.Base.Assoc
use kaj_ps.Kernel.DirectMemory.Ranges.{within}

abbrev pub page_size : ℕ
page_size = 0x4000

abbrev pub Page : Type 0
Page = ℕ → ℕ

pub record SharedMemoryBacking : Type 0 where
  pub size : ℕ
  pub pages : List (ℕ × Page)

-- Contains
unfoldable pub contains : ℕ → ℕ → SharedMemoryBacking → Bool
contains offset count b = leb offset b.size && leb count (b.size - offset)

-- One byte of what Read copies out.
unfoldable pub byte_at : ℕ → List (ℕ × Page) → ℕ
byte_at a pages = elim (Assoc.find (a / page_size) pages) [
  | none ↦ 0
  | some page ↦ page (a % page_size)
]

-- std::fill_n with zeros, from `first` up to `last`.
abbrev pub zeroed : ℕ → ℕ → Page → Page
zeroed first last page i = if leb first i && ltb i last then 0 else page i

-- The loop of Clear.
unfoldable pub clear_pages : ℕ → ℕ → List (ℕ × Page) → List (ℕ × Page)
clear_pages offset end [] = []
clear_pages offset end ((i, page) ∷ pages) =
    let rest = clear_pages offset end pages in
    let page_start = i * page_size in
    let page_end = page_start + page_size in
    let overlap_start = max offset page_start in
    let overlap_end = min end page_end in
    if leb overlap_end overlap_start
    then (i, page) ∷ rest
    else if (overlap_start == page_start) && (overlap_end == page_end)
    then rest
    else (i, zeroed (overlap_start - page_start) (overlap_end - page_start) page) ∷ rest

-- Clear
unfoldable pub clear : ℕ → ℕ → SharedMemoryBacking → SharedMemoryBacking
clear offset count b =
    if not (contains offset count b) || (count == 0)
    then b
    else record b { pages = clear_pages offset (offset + count) b.pages }

clear_pages-missing :
    (k offset end b : ℕ) (pages : List (ℕ × Page))
    → Assoc.Above b pages
    → k + 1 ≤ b
    → Assoc.find k (clear_pages offset end pages) ≡ none
unfolding Assoc.find clear_pages
clear_pages-missing k offset end b [] s h = refl
clear_pages-missing k offset end b ((i, page) ∷ pages) s h =
    ground (arith, clear_pages-missing k offset end (1 + i) pages)

-- Clearing makes the bytes of its range 0 and keeps all others.
pub byte_at-clear_pages :
    (a offset end b : ℕ) (pages : List (ℕ × Page))
    → Assoc.Above b pages
    → byte_at a (clear_pages offset end pages)
      ≡ (if leb offset a && ltb a end then 0 else byte_at a pages)
unfolding byte_at clear_pages Assoc.find
byte_at-clear_pages a offset end b [] s = ground arith
byte_at-clear_pages a offset end b ((i, page) ∷ pages) s = ground (
  arith,
  byte_at-clear_pages a offset end (1 + i) pages,
  clear_pages-missing (a / page_size) offset end (1 + i) pages,
)

pub clear_pages-Above :
    (offset end b : ℕ) (pages : List (ℕ × Page))
    → Assoc.Above b pages
    → Assoc.Above b (clear_pages offset end pages)
unfolding clear_pages
clear_pages-Above offset end b [] s = tt
clear_pages-Above offset end b ((i, page) ∷ pages) s = ground (
  arith,
  clear_pages-Above offset end (1 + i) pages,
  Assoc.Above-mono b (1 + i) (clear_pages offset end pages),
)

-- Clear of a range inside the backing, as its reader sees it.
pub clear_lem :
    (offset count : ℕ) (b : SharedMemoryBacking)
    → Assoc.Above 0 b.pages
    → offset + count ≤ b.size
    → Assoc.Above 0 (clear offset count b).pages
      × ((clear offset count b).size ≡ b.size)
      × ((a : ℕ)
          → byte_at a (clear offset count b).pages
            ≡ (if within offset count a then 0 else byte_at a b.pages))
unfolding clear contains
clear_lem offset count b s fits =
    let inside : contains offset count b ≡ true = ground (arith, fits) in
    elim (Bool-cases (count == 0)) [
      | inl empty ↦ rw (inside, empty, clear) (s, refl, λ a. ground (arith, empty))
      | inr filled ↦
          rw (inside, filled, clear)
            (
              clear_pages-Above offset (offset + count) 0 b.pages s,
              refl,
              λ a. byte_at-clear_pages a offset (offset + count) 0 b.pages s,
            )
    ]
