-- ===== src/Kernel/DirectMemory/Bytes.antt =====
-- Read, Write and Fill of src/core/memory/shared_memory_backing.cpp. A span is the function from its
-- indices to its bytes, with its size as an argument of its own.
use kaj_ps.Base.{
  ℕ, zero, suc, ◌+◌, ◌-◌, ◌/◌, ◌%◌, Bool, true, false, not, ◌&&◌, Option, none, some, List, ltb,
  leb, ◌==◌, if◌then◌else◌, min,
}
use kaj_ps.Base.Assoc
use kaj_ps.Kernel.DirectMemory.Backing.{page_size, Page, SharedMemoryBacking, contains, clear}

-- The bytes of a missing page.
abbrev pub page_or_zero : Option Page → Page
page_or_zero none i = 0
page_or_zero (some page) i = page i

-- The bytes that one turn of the loops handles, from the count already handled on.
abbrev pub chunk_at : ℕ → ℕ → ℕ → ℕ
chunk_at offset count done = min (count - done) (page_size - (offset + done) % page_size)

-- A copy of `chunk` bytes to the place `first`.
abbrev pub copied : ℕ → ℕ → (ℕ → ℕ) → (ℕ → ℕ) → ℕ → ℕ
copied first chunk source target i =
    if leb first i && ltb i (first + chunk) then source (i - first) else target i

-- The loop of Read; the fuel is a bound on the bytes to come.
unfoldable pub read_chunks : ℕ → ℕ → ℕ → ℕ → List (ℕ × Page) → (ℕ → ℕ) → ℕ → ℕ
read_chunks zero offset count done pages destination = destination
read_chunks (suc fuel) offset count done pages destination =
    let current = offset + done in
    let chunk = chunk_at offset count done in
    let page = page_or_zero (Assoc.find (current / page_size) pages) in
    let next = copied done chunk (λ i. page (current % page_size + i)) destination in
    let rest = read_chunks fuel offset count (done + chunk) pages next in
    if ltb done count then rest else destination

-- Read: the destination, and whether the range is inside.
unfoldable pub read : ℕ → ℕ → (ℕ → ℕ) → SharedMemoryBacking → (ℕ → ℕ) × Bool
read offset count destination b =
    if contains offset count b
    then (read_chunks count offset count 0 b.pages destination, true)
    else (destination, false)

-- The loop of EnsurePagesLocked over `n` pages from `first`.
unfoldable pub ensure_from : ℕ → ℕ → List (ℕ × Page) → List (ℕ × Page)
ensure_from zero first pages = pages
ensure_from (suc n) first pages =
    let grown = Assoc.emplace first (λ i. 0) pages in
    if Assoc.is_some (Assoc.find first pages)
    then ensure_from n (suc first) pages
    else ensure_from n (suc first) grown

-- EnsurePagesLocked
unfoldable pub ensure_pages : ℕ → ℕ → List (ℕ × Page) → List (ℕ × Page)
ensure_pages offset count pages =
    let first = offset / page_size in
    let last = (offset + count - 1) / page_size in
    if count == 0 then pages else ensure_from (suc last - first) first pages

-- The loops of Write and Fill; the fuel is a bound on the bytes to come.
unfoldable pub write_chunks : ℕ → ℕ → ℕ → ℕ → (ℕ → ℕ) → List (ℕ × Page) → List (ℕ × Page)
write_chunks zero offset count done source pages = pages
write_chunks (suc fuel) offset count done source pages =
    let current = offset + done in
    let chunk = chunk_at offset count done in
    let index = current / page_size in
    let page = page_or_zero (Assoc.find index pages) in
    let next =
      Assoc.update index (copied (current % page_size) chunk (λ i. source (done + i)) page) pages in
    let rest = write_chunks fuel offset count (done + chunk) source next in
    if ltb done count then rest else pages

-- Write
unfoldable pub write : ℕ → ℕ → (ℕ → ℕ) → SharedMemoryBacking → SharedMemoryBacking × Bool
write offset count source b =
    let pages = write_chunks count offset count 0 source (ensure_pages offset count b.pages) in
    if contains offset count b then (record b { pages = pages }, true) else (b, false)

-- Fill
unfoldable pub fill : ℕ → ℕ → ℕ → SharedMemoryBacking → SharedMemoryBacking × Bool
fill offset count value b =
    let pages =
      write_chunks count offset count 0 (λ i. value) (ensure_pages offset count b.pages) in
    if not (contains offset count b)
    then (b, false)
    else if value == 0
    then (clear offset count b, true)
    else (record b { pages = pages }, true)
