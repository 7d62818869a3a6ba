-- ===== src/Kernel/LibcHeap/Copy.antt =====
-- The loop of src/kernel/libc_heap.cpp that copies an allocation in chunks, and its fuel.
use kaj_ps.Base.{
  ℕ, zero, suc, ◌+◌, ◌-◌, ◌≤◌, ◌≡◌, refl, sym, ◌∙◌, true, arith, ◌==◌, min, inl, inr, Option-cases,
  Bool-cases,
}
use kaj_ps.Kernel.LibcHeap.Memory.{GuestMemoryCalls}
use kaj_ps.Kernel.LibcHeap.Mspace.{copy_chunks, heap_copy_chunk_size}

module _ {ℓ} {M : Type ℓ} (calls : GuestMemoryCalls M) where
  copy_nothing :
      (fuel from to left : ℕ) (memory : M)
      → left == 0 ≡ true
      → copy_chunks calls fuel from to left memory ≡ (memory, true)
  unfolding copy_chunks
  copy_nothing zero from to left memory e = rw (e, copy_chunks) refl
  copy_nothing (suc fuel) from to left memory e = rw (e, copy_chunks) refl

  -- The count of bytes is fuel enough for the loop that copies an allocation: any two amounts of fuel
  -- that are not below it give the same answer and the same memory.
  pub copy_chunks_settled :
      (fuel fuel' from to left : ℕ) (memory : M)
      → left ≤ fuel
      → left ≤ fuel'
      → copy_chunks calls fuel from to left memory ≡ copy_chunks calls fuel' from to left memory
  unfolding copy_chunks
  copy_chunks_settled zero fuel' from to left memory h h' =
      let none_left : left == 0 ≡ true = ground arith in
      copy_nothing zero from to left memory none_left
      ∙ sym (copy_nothing fuel' from to left memory none_left)
  copy_chunks_settled (suc fuel) zero from to left memory h h' =
      let none_left : left == 0 ≡ true = ground arith in
      copy_nothing (suc fuel) from to left memory none_left
      ∙ sym (copy_nothing zero from to left memory none_left)
  copy_chunks_settled (suc fuel) (suc fuel') from to left memory h h' =
      let chunk = min heap_copy_chunk_size left in
      elim (Bool-cases (left == 0)) [
        | inl e ↦ rw (e, copy_chunks) refl
        | inr e ↦ elim (Option-cases (calls.read from chunk memory)) [
          | inl r ↦ rw (e, r, copy_chunks) refl
          | inr (bytes, r) ↦ elim (Bool-cases (calls.write to bytes memory).1) [
            | inr w ↦ rw (e, r, w, copy_chunks) refl
            | inl w ↦
                rw (e, r, w, copy_chunks)
                  (copy_chunks_settled fuel fuel' (from + chunk) (to + chunk) (left - chunk)
                    (calls.write to bytes memory).0 (ground (arith, e)) (ground (arith, e)))
          ]
        ]
      ]
