-- ===== src/Kernel/DirectMemory/Chunks.antt =====
-- What the loops over the chunks of src/core/memory/shared_memory_backing.cpp read and write.
use kaj_ps.Base.{
  ℕ, zero, suc, ◌+◌, ◌-◌, ◌/◌, ◌%◌, ◌≤◌, ◌<◌, ◌≡◌, refl, sym, ◌∙◌, ap, true, false, ◌&&◌, Option,
  some, List, arith, ltb, leb, ◌==◌, if◌then◌else◌, Bool-cases, Option-cases, inl, inr,
}
use kaj_ps.Base.Assoc
use kaj_ps.Kernel.DirectMemory.Backing.{page_size, Page, byte_at}
use kaj_ps.Kernel.DirectMemory.Bytes.{page_or_zero, chunk_at, copied, read_chunks, write_chunks}

same_page :
    (offset count done i : ℕ)
    → done ≤ i
    → i < done + chunk_at offset count done
    → ((offset + i) / page_size ≡ (offset + done) / page_size)
      × ((offset + i) % page_size ≡ (offset + done) % page_size + (i - done))
same_page offset count done i h w = (omega arith, omega arith)

pub byte_at_page :
    (a : ℕ) (pages : List (ℕ × Page))
    → byte_at a pages ≡ page_or_zero (Assoc.find (a / page_size) pages) (a % page_size)
unfolding byte_at
byte_at_page a pages = elim (Option-cases (Assoc.find (a / page_size) pages)) [
  | inl e ↦ rw (e, byte_at) refl
  | inr (page, e) ↦ rw (e, byte_at) refl
]

some_chunk : (offset count done : ℕ) → done < count → 1 ≤ chunk_at offset count done
some_chunk offset count done h = omega arith

-- A byte of the chunk, as a reader sees it.
chunk_byte :
    (offset count done i : ℕ) (pages : List (ℕ × Page))
    → done ≤ i
    → i < done + chunk_at offset count done
    → byte_at (offset + i) pages
      ≡ page_or_zero
          (Assoc.find ((offset + done) / page_size) pages)
          ((offset + done) % page_size + (i - done))
chunk_byte offset count done i pages h w =
    let (index, place) = same_page offset count done i h w in
    byte_at_page (offset + i) pages
    ∙ ap (λ (k : ℕ). page_or_zero (Assoc.find k pages) ((offset + i) % page_size)) index
    ∙ ap (page_or_zero (Assoc.find ((offset + done) / page_size) pages)) place

-- What the loop of Read leaves in the destination.
pub read_chunks_lem :
    (fuel offset count done i : ℕ) (pages : List (ℕ × Page)) (destination : ℕ → ℕ)
    → count - done ≤ fuel
    → read_chunks fuel offset count done pages destination i
      ≡ (if leb done i && ltb i count then byte_at (offset + i) pages else destination i)
unfolding read_chunks
read_chunks_lem zero offset count done i pages destination h = ground arith
read_chunks_lem (suc fuel) offset count done i pages destination h =
    elim (Bool-cases (ltb done count)) [
      | inr e ↦ rw e (ground (arith, e))
      | inl e ↦
          let chunk = chunk_at offset count done in
          let progress = some_chunk offset count done (ground (arith, e)) in
          let inside : done + chunk ≤ count = ground (arith, e) in
          let page = page_or_zero (Assoc.find ((offset + done) / page_size) pages) in
          let next = copied done chunk (λ j. page ((offset + done) % page_size + j)) destination in
          let rest =
            read_chunks_lem fuel offset count (done + chunk) i pages next
              (omega (arith, progress)) in
          let here = chunk_byte offset count done i pages in
          rw e (
            rest
            ∙ joined done chunk i count (byte_at (offset + i) pages) (destination i)
                (page ((offset + done) % page_size + (i - done))) inside here)
    ]
  where
    joined :
        (done chunk i count byte old new : ℕ)
        → done + chunk ≤ count
        → (done ≤ i → i < done + chunk → byte ≡ new)
        → (if leb (done + chunk) i && ltb i count
            then byte
            else (if leb done i && ltb i (done + chunk) then new else old))
          ≡ (if leb done i && ltb i count then byte else old)
    joined done chunk i count byte old new h here = ground (arith, here)

-- A page that is there, written over.
updated_byte :
    (a index : ℕ) (page : Page) (pages : List (ℕ × Page))
    → Assoc.is_some (Assoc.find index pages) ≡ true
    → byte_at a (Assoc.update index page pages)
      ≡ (if index == a / page_size then page (a % page_size) else byte_at a pages)
updated_byte a index page pages there =
    let found = Assoc.find-update (a / page_size) index page pages in
    elim (Bool-cases (index == a / page_size)) [
      | inl q ↦
          let same : index ≡ a / page_size = ground (arith, q) in
          let exists : Assoc.is_some (Assoc.find (a / page_size) pages) ≡ true =
            ap (λ (k : ℕ). Assoc.is_some (Assoc.find k pages)) (sym same) ∙ there in
          let new : Assoc.find (a / page_size) (Assoc.update index page pages) ≡ some page =
            found ∙ (rw (q, exists) refl) in
          rw q (
            byte_at_page a (Assoc.update index page pages)
            ∙ ap (λ (o : Option Page). page_or_zero o (a % page_size)) new)
      | inr q ↦
          let old : Assoc.find (a / page_size) (Assoc.update index page pages)
              ≡ Assoc.find (a / page_size) pages =
            found ∙ (rw q refl) in
          rw q (
            byte_at_page a (Assoc.update index page pages)
            ∙ ap (λ (o : Option Page). page_or_zero o (a % page_size)) old
            ∙ sym (byte_at_page a pages))
    ]

-- Whether the pages of a range are there.
abbrev pub Present : ℕ → ℕ → List (ℕ × Page) → Type 0
Present offset count pages =
    (k : ℕ)
    → leb (offset / page_size) k && leb k ((offset + count - 1) / page_size) ≡ true
    → Assoc.is_some (Assoc.find k pages) ≡ true

update-Present :
    (offset count index : ℕ) (page : Page) (pages : List (ℕ × Page))
    → Present offset count pages
    → Present offset count (Assoc.update index page pages)
update-Present offset count index page pages p k h =
    let found = Assoc.find-update k index page pages in
    let there = p k h in
    elim (Bool-cases (index == k)) [
      | inl q ↦
          let new : Assoc.find k (Assoc.update index page pages) ≡ some page =
            found ∙ (rw (q, there) refl) in
          ap Assoc.is_some new
      | inr q ↦
          let old : Assoc.find k (Assoc.update index page pages) ≡ Assoc.find k pages =
            found ∙ (rw q refl) in
          ap Assoc.is_some old ∙ there
    ]

-- One chunk, as a reader sees it.
written_byte :
    (offset count done a : ℕ) (source : ℕ → ℕ) (pages : List (ℕ × Page))
    → done < count
    → Present offset count pages
    → let current = offset + done in
      let chunk = chunk_at offset count done in
      let page = page_or_zero (Assoc.find (current / page_size) pages) in
      byte_at a (
        Assoc.update
          (current / page_size)
          (copied (current % page_size) chunk (λ i. source (done + i)) page)
          pages)
      ≡ (if leb current a && ltb a (current + chunk) then source (a - offset) else byte_at a pages)
written_byte offset count done a source pages h present =
    let current = offset + done in
    let chunk = chunk_at offset count done in
    let place = current % page_size in
    let page = page_or_zero (Assoc.find (current / page_size) pages) in
    let next = copied place chunk (λ i. source (done + i)) page in
    let low : offset / page_size ≤ current / page_size = omega arith in
    let high : current / page_size ≤ (offset + count - 1) / page_size = omega arith in
    let there = present (current / page_size) (ground (arith, low, high)) in
    let seen = updated_byte a (current / page_size) next pages there in
    let after = byte_at a (Assoc.update (current / page_size) next pages) in
    elim (Bool-cases (leb current a && ltb a (current + chunk))) [
      | inl r ↦
          let from : current ≤ a = ground (arith, r) in
          let upto : a < current + chunk = ground (arith, r) in
          let index : current / page_size ≡ a / page_size = omega arith in
          let same : current / page_size == a / page_size ≡ true = ground (arith, index) in
          let first : place ≤ a % page_size = omega arith in
          let last : a % page_size < place + chunk = omega arith in
          let inside : leb place (a % page_size) && ltb (a % page_size) (place + chunk) ≡ true =
            both place (a % page_size) (place + chunk) first last in
          let value : done + (a % page_size - place) ≡ a - offset = omega arith in
          let new : after ≡ next (a % page_size) = seen ∙ (rw same refl) in
          let got : next (a % page_size) ≡ source (done + (a % page_size - place)) =
            rw inside refl in
          rw r (new ∙ got ∙ ap source value)
      | inr r ↦ elim (Bool-cases (current / page_size == a / page_size)) [
        | inr q ↦ let kept : after ≡ byte_at a pages = seen ∙ (rw q refl) in rw r kept
        | inl q ↦
            let index : current / page_size ≡ a / page_size = ground (arith, q) in
            let outside : leb place (a % page_size) && ltb (a % page_size) (place + chunk) ≡ false =
              neither current a chunk place (a % page_size) index refl refl r in
            let new : after ≡ next (a % page_size) = seen ∙ (rw q refl) in
            let got : next (a % page_size) ≡ page (a % page_size) = rw outside refl in
            let old : page (a % page_size) ≡ byte_at a pages =
              ap (λ (k : ℕ). page_or_zero (Assoc.find k pages) (a % page_size)) index
              ∙ sym (byte_at_page a pages) in
            rw r (new ∙ got ∙ old)
      ]
    ]
  where
    both : (x y z : ℕ) → x ≤ y → y < z → leb x y && ltb y z ≡ true
    both x y z p q = ground arith

    neither :
        (c a n x y : ℕ)
        → c / page_size ≡ a / page_size
        → x ≡ c % page_size
        → y ≡ a % page_size
        → leb c a && ltb a (c + n) ≡ false
        → leb x y && ltb y (x + n) ≡ false
    neither c a n x y e p q r = let apart : x + a ≡ y + c = omega arith in plain c a n x y apart r
      where
        plain :
            (c a n x y : ℕ)
            → x + a ≡ y + c
            → leb c a && ltb a (c + n) ≡ false
            → leb x y && ltb y (x + n) ≡ false
        plain c a n x y e r = ground arith

pub write_chunks_lem :
    (fuel offset count done a : ℕ) (source : ℕ → ℕ) (pages : List (ℕ × Page))
    → count - done ≤ fuel
    → Present offset count pages
    → byte_at a (write_chunks fuel offset count done source pages) ≡ (
        if leb (offset + done) a && ltb a (offset + count)
        then source (a - offset)
        else byte_at a pages)
unfolding write_chunks
write_chunks_lem zero offset count done a source pages h present = ground arith
write_chunks_lem (suc fuel) offset count done a source pages h present =
    elim (Bool-cases (ltb done count)) [
      | inr e ↦ rw e (ground (arith, e))
      | inl e ↦
          let current = offset + done in
          let chunk = chunk_at offset count done in
          let less : done < count = ground (arith, e) in
          let progress = some_chunk offset count done less in
          let inside : done + chunk ≤ count = omega arith in
          let page = page_or_zero (Assoc.find (current / page_size) pages) in
          let next =
            Assoc.update (current / page_size)
              (copied (current % page_size) chunk (λ i. source (done + i)) page) pages in
          let rest =
            write_chunks_lem fuel offset count (done + chunk) a source next
              (omega (arith, progress))
              (update-Present offset count (current / page_size)
                (copied (current % page_size) chunk (λ i. source (done + i)) page) pages present) in
          let one = written_byte offset count done a source pages less present in
          rw e (
            rest
            ∙ joined offset done chunk count a (source (a - offset)) (byte_at a pages)
                (byte_at a next) inside one)
    ]
  where
    joined :
        (offset done chunk count a new old one : ℕ)
        → done + chunk ≤ count
        → one ≡ (if leb (offset + done) a && ltb a (offset + done + chunk) then new else old)
        → (if leb (offset + (done + chunk)) a && ltb a (offset + count) then new else one)
          ≡ (if leb (offset + done) a && ltb a (offset + count) then new else old)
    joined offset done chunk count a new old one h e = ground (arith, e)
