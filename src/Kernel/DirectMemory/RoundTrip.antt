-- ===== src/Kernel/DirectMemory/RoundTrip.antt =====
-- Read behind Write of src/core/memory/shared_memory_backing.cpp.
use kaj_ps.Base.{
  ℕ, zero, suc, ◌+◌, ◌-◌, ◌/◌, ◌%◌, ◌≤◌, ◌≡◌, refl, sym, ◌∙◌, ap, Bool, true, false, ◌&&◌, ◌||◌,
  Option, none, some, List, arith, ltb, leb, ◌==◌, if◌then◌else◌, Bool-cases, Option-cases, inl,
  inr,
}
use kaj_ps.Base.Assoc
use kaj_ps.Kernel.DirectMemory.Ranges.{within}
use kaj_ps.Kernel.DirectMemory.Backing.{page_size, Page, SharedMemoryBacking, contains, byte_at}
use kaj_ps.Kernel.DirectMemory.Bytes.{
  page_or_zero, read, ensure_from, ensure_pages, write_chunks, write,
}
use kaj_ps.Kernel.DirectMemory.Chunks.{Present, byte_at_page, read_chunks_lem, write_chunks_lem}

-- A new page reads as the missing one did.
emplaced_byte :
    (a k : ℕ) (pages : List (ℕ × Page))
    → Assoc.find k pages ≡ none
    → byte_at a (Assoc.emplace k (λ i. 0) pages) ≡ byte_at a pages
emplaced_byte a k pages missing =
    let found = Assoc.find-emplace (a / page_size) k (λ i. 0) pages missing in
    elim (Bool-cases (k == a / page_size)) [
      | inl q ↦
          let same : k ≡ a / page_size = ground (arith, q) in
          let new : Assoc.find (a / page_size) (Assoc.emplace k (λ i. 0) pages) ≡ some (λ i. 0) =
            found ∙ (rw q refl) in
          let old : Assoc.find (a / page_size) pages ≡ none =
            ap (λ (j : ℕ). Assoc.find j pages) (sym same) ∙ missing in
          byte_at_page a (Assoc.emplace k (λ i. 0) pages)
          ∙ ap (λ (o : Option Page). page_or_zero o (a % page_size)) (new)
          ∙ sym (ap (λ (o : Option Page). page_or_zero o (a % page_size)) old)
          ∙ sym (byte_at_page a pages)
      | inr q ↦
          let kept : Assoc.find (a / page_size) (Assoc.emplace k (λ i. 0) pages)
              ≡ Assoc.find (a / page_size) pages =
            found ∙ (rw q refl) in
          byte_at_page a (Assoc.emplace k (λ i. 0) pages)
          ∙ ap (λ (o : Option Page). page_or_zero o (a % page_size)) kept
          ∙ sym (byte_at_page a pages)
    ]

ensure_from_byte :
    (n first a : ℕ) (pages : List (ℕ × Page))
    → byte_at a (ensure_from n first pages) ≡ byte_at a pages
unfolding ensure_from
ensure_from_byte zero first a pages = refl
ensure_from_byte (suc n) first a pages = elim (Option-cases (Assoc.find first pages)) [
  | inr (page, e) ↦ rw (e, ensure_from) (ensure_from_byte n (suc first) a pages)
  | inl e ↦
      rw (e, ensure_from)
        (ensure_from_byte n (suc first) a (Assoc.emplace first (λ i. 0) pages)
          ∙ emplaced_byte a first pages e)
]

-- The pages that are there stay, and those of the range are there.
ensure_from_there :
    (n first k : ℕ) (pages : List (ℕ × Page))
    → Assoc.is_some (Assoc.find k pages) || leb first k && ltb k (first + n) ≡ true
    → Assoc.is_some (Assoc.find k (ensure_from n first pages)) ≡ true
unfolding ensure_from
ensure_from_there zero first k pages h = ground (arith, h)
ensure_from_there (suc n) first k pages h = elim (Option-cases (Assoc.find first pages)) [
  | inr (page, e) ↦
      rw (e, ensure_from) (ensure_from_there n (suc first) k pages (old k first n pages page e h))
  | inl e ↦
      rw (e, ensure_from)
        (ensure_from_there n (suc first) k (Assoc.emplace first (λ i. 0) pages)
          (grown k first n pages e h))
]
  where
    old :
        (k first n : ℕ) (pages : List (ℕ × Page)) (page : Page)
        → Assoc.find first pages ≡ some page
        → Assoc.is_some (Assoc.find k pages) || leb first k && ltb k (first + suc n) ≡ true
        → Assoc.is_some (Assoc.find k pages) || leb (suc first) k && ltb k (suc first + n) ≡ true
    old k first n pages page e h = elim (Bool-cases (first == k)) [
      | inl q ↦
          let same : first ≡ k = ground (arith, q) in
          let there : Assoc.is_some (Assoc.find k pages) ≡ true =
            ap (λ (j : ℕ). Assoc.is_some (Assoc.find j pages)) (sym same) ∙ ap Assoc.is_some e in
          rw there refl
      | inr q ↦ ground (arith, h, q)
    ]

    grown :
        (k first n : ℕ) (pages : List (ℕ × Page))
        → Assoc.find first pages ≡ none
        → Assoc.is_some (Assoc.find k pages) || leb first k && ltb k (first + suc n) ≡ true
        → Assoc.is_some (Assoc.find k (Assoc.emplace first (λ i. 0) pages))
            || leb (suc first) k && ltb k (suc first + n)
          ≡ true
    grown k first n pages e h =
        let found = Assoc.find-emplace k first (λ i. 0) pages e in
        elim (Bool-cases (first == k)) [
          | inl q ↦
              let there : Assoc.find k (Assoc.emplace first (λ i. 0) pages) ≡ some (λ i. 0) =
                found ∙ (rw q refl) in
              rw there refl
          | inr q ↦
              let kept : Assoc.find k (Assoc.emplace first (λ i. 0) pages) ≡ Assoc.find k pages =
                found ∙ (rw q refl) in
              rw kept (ground (arith, h, q))
        ]

ensured-Present :
    (offset count : ℕ) (pages : List (ℕ × Page))
    → 1 ≤ count
    → Present offset count (ensure_pages offset count pages)
unfolding ensure_pages
ensured-Present offset count pages h k e =
    let filled : count == 0 ≡ false = ground arith in
    let first = offset / page_size in
    let last = (offset + count - 1) / page_size in
    let order : first ≤ last = omega arith in
    rw filled (
      ensure_from_there (suc last - first) first k pages
        (inside (Assoc.is_some (Assoc.find k pages)) first last k order e))
  where
    inside :
        (b : Bool) (first last k : ℕ)
        → first ≤ last
        → leb first k && leb k last ≡ true
        → b || leb first k && ltb k (first + (suc last - first)) ≡ true
    inside b first last k h e = ground (arith, e)

ensured_byte :
    (offset count a : ℕ) (pages : List (ℕ × Page))
    → byte_at a (ensure_pages offset count pages) ≡ byte_at a pages
unfolding ensure_pages
ensured_byte offset count a pages = elim (Bool-cases (count == 0)) [
  | inl e ↦ rw e refl
  | inr e ↦ rw e (
      ensure_from_byte (suc ((offset + count - 1) / page_size) - offset / page_size)
        (offset / page_size) a pages)
]

-- All the bytes that the loops write.
written :
    (offset count a : ℕ) (source : ℕ → ℕ) (pages : List (ℕ × Page))
    → byte_at a (write_chunks count offset count 0 source (ensure_pages offset count pages))
      ≡ (if within offset count a then source (a - offset) else byte_at a pages)
written offset count a source pages = elim (Bool-cases (count == 0)) [
  | inl e ↦
      let empty : count ≡ 0 = ground (arith, e) in
      let pages' = ensure_pages offset count pages in
      let none_written : write_chunks 0 offset count 0 source pages' ≡ pages' =
        unfold write_chunks in refl in
      ap (λ (n : ℕ). byte_at a (write_chunks n offset count 0 source pages')) empty
      ∙ ap (byte_at a) none_written
      ∙ ensured_byte offset count a pages
      ∙ nothing offset count a (source (a - offset)) (byte_at a pages) empty
  | inr e ↦
      write_chunks_lem count offset count 0 a source (ensure_pages offset count pages) (omega arith)
        (ensured-Present offset count pages (ground (arith, e)))
      ∙ all offset count a (source (a - offset)) (byte_at a pages)
          (byte_at a (ensure_pages offset count pages)) (ensured_byte offset count a pages)
]
  where
    nothing :
        (offset count a new old : ℕ)
        → count ≡ 0
        → old ≡ (if within offset count a then new else old)
    nothing offset count a new old e = ground (arith, e)

    all :
        (offset count a new old old' : ℕ)
        → old' ≡ old
        → (if leb (offset + 0) a && ltb a (offset + count) then new else old')
          ≡ (if within offset count a then new else old)
    all offset count a new old old' e = ground (arith, e)

-- Write of a range inside the backing succeeds, whatever pages are there: a Read of the range then gives
-- the bytes written and touches nothing else of its destination, and every other byte of the backing
-- stays as it was.
pub read-write :
    (offset count : ℕ) (source : ℕ → ℕ) (b : SharedMemoryBacking)
    → offset + count ≤ b.size
    → let (b', done) = write offset count source b in
      (done ≡ true)
      × (b'.size ≡ b.size)
      × ((destination : ℕ → ℕ) (i : ℕ)
          → (read offset count destination b').0 i
            ≡ (if ltb i count then source i else destination i))
      × ((a : ℕ)
          → byte_at a b'.pages
            ≡ (if within offset count a then source (a - offset) else byte_at a b.pages))
unfolding write read contains
read-write offset count source b fits =
    let inside : leb offset b.size && leb count (b.size - offset) ≡ true = ground (arith, fits) in
    let pages = write_chunks count offset count 0 source (ensure_pages offset count b.pages) in
    rw inside (
      refl,
      refl,
      λ destination i. rw inside (
          read_chunks_lem count offset count 0 i pages destination (omega arith)
          ∙ found offset count i (byte_at (offset + i) pages) (destination i) (source i)
              (source (offset + i - offset)) (byte_at (offset + i) b.pages)
              (written offset count (offset + i) source b.pages) (ap source (omega arith))),
      λ a. written offset count a source b.pages,
    )
  where
    found :
        (offset count i byte old new new' other : ℕ)
        → byte ≡ (if within offset count (offset + i) then new' else other)
        → new' ≡ new
        → (if leb 0 i && ltb i count then byte else old) ≡ (if ltb i count then new else old)
    found offset count i byte old new new' other e q = ground (arith, e, q)
