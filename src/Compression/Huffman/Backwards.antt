-- ===== src/Compression/Huffman/Backwards.antt =====
-- `reverseVector` reverses what is not empty.
use tftp.Base.{
  ℕ, zero, suc, ◌+◌, ◌-◌, ◌≤◌, ◌<◌, ◌≡◌, refl, ap, ◌∙◌, sym, some, List, [], ◌∷◌, length, set, ltb,
  ◌==◌, if◌then◌else◌, lt→ltb, inl, inr, Bool-cases, ltb→lt, arith,
}
use tftp.Compression.Huffman.{swap_ends, reverse_vector}
use tftp.Compression.Huffman.Arrays.{
  at, get_elem?-at, store-set, length-set, at-set, at_ext, backwards,
}

-- What the swaps from two ends inwards leave.
record Swapped (start end : ℕ) (a r : List ℕ) : Type 0 where
  size : length r ≡ length a
  within : (j : ℕ) → start ≤ j → j ≤ end → at r j ≡ at a (start + end - j)
  below : (j : ℕ) → j < start → at r j ≡ at a j
  above : (j : ℕ) → end < j → at r j ≡ at a j

abbrev swapped : ℕ → ℕ → List ℕ → List ℕ
swapped start end a = set (set a start (at a end)) end (at a start)

swap_ends_step :
    (fuel start end : ℕ) (a : List ℕ)
    → start < end
    → end < length a
    → swap_ends (suc fuel) start end a ≡ swap_ends fuel (start + 1) (end - 1) (swapped start end a)
unfolding swap_ends
swap_ends_step fuel start end a h k =
    let size = length-set a start (at a end) in
    rw (
      swap_ends,
      lt→ltb start end h,
      get_elem?-at a start (omega arith),
      get_elem?-at a end k,
      store-set a start (at a end) (omega arith),
      store-set (set a start (at a end)) end (at a start) (omega arith),
    )

at-swapped :
    (start end : ℕ) (a : List ℕ) (j : ℕ)
    → start < end
    → end < length a
    → at (swapped start end a) j
      ≡ (if end == j then at a start else if start == j then at a end else at a j)
at-swapped start end a j h k =
    let size = length-set a start (at a end) in
    ground (arith, at-set (set a start (at a end)) end j (at a start), at-set a start j (at a end))

swap_ends-Swapped :
    (fuel start end : ℕ) (a : List ℕ)
    → end ≤ start + fuel
    → end < length a
    → (r : List ℕ) × (swap_ends fuel start end a ≡ some r) × Swapped start end a r
unfolding swap_ends
swap_ends-Swapped zero start end a f k = (
  a,
  refl,
  record {
    size = refl;
    within = λ j p q. ap (at a) (omega arith);
    below = λ j p. refl;
    above = λ j p. refl;
  },
)
swap_ends-Swapped (suc fuel) start end a f k = elim (Bool-cases (ltb start end)) [
  | inl more ↦
      let h = ltb→lt start end more in
      let b : List ℕ = swapped start end a in
      let size : length b ≡ length a =
        length-set (set a start (at a end)) end (at a start) ∙ length-set a start (at a end) in
      let (r, got, s) =
        swap_ends-Swapped fuel (start + 1) (end - 1) b (omega arith) (omega arith) in
      (
        r,
        swap_ends_step fuel start end a h k ∙ got,
        record {
          size = s.size ∙ size;
          within = λ j p q. ground (
            arith,
            s.within j,
            s.below j,
            s.above j,
            at-swapped start end a j,
            at-swapped start end a (start + 1 + (end - 1) - j),
          );
          below = λ j p. ground (arith, s.below j, at-swapped start end a j);
          above = λ j p. ground (arith, s.above j, at-swapped start end a j);
        },
      )
  | inr stop ↦ (
    a,
    rw (swap_ends, stop),
    record {
      size = refl;
      within = λ j p q. ap (at a) (ground arith);
      below = λ j p. refl;
      above = λ j p. refl;
    },
  )
]

length-backwards : (a : List ℕ) (n : ℕ) → length (backwards a n) ≡ n
length-backwards a zero = refl
length-backwards a (suc n) = ap suc (length-backwards a n)

at-backwards : (a : List ℕ) (n j : ℕ) → j < n → at (backwards a n) j ≡ at a (n - suc j)
at-backwards a zero j h = absurd (omega arith)
at-backwards a (suc n) zero h = ap (at a) (omega arith)
at-backwards a (suc n) (suc j) h = at-backwards a n j (omega arith) ∙ ap (at a) (omega arith)

-- A vector that is not empty is read from its end.
pub reverse_vector-backwards :
    (a : List ℕ) → 0 < length a → reverse_vector a ≡ some (backwards a (length a))
unfolding reverse_vector
reverse_vector-backwards [] h = absurd (omega arith)
reverse_vector-backwards (x ∷ a) h =
    let (r, got, s) =
      swap_ends-Swapped (suc (length a)) 0 (length a) (x ∷ a) (omega arith) (omega arith) in
    got
    ∙ ap some (
        at_ext r (backwards (x ∷ a) (suc (length a)))
          (s.size ∙ sym (length-backwards (x ∷ a) (suc (length a))))
          (λ j p.
            let q : j < suc (length a) = omega (arith, s.size) in
            s.within j (omega arith) (omega arith)
            ∙ ap (at (x ∷ a)) (omega arith)
            ∙ sym (at-backwards (x ∷ a) (suc (length a)) j q)))
