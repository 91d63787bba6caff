-- ===== src/Compression/Huffman/Scan.antt =====
-- Phase 2 of `generateHuffmanCodes`: one round of its loop.
use tftp.Base.{
  ℕ, zero, suc, ◌+◌, ◌-◌, ◌*◌, ◌≤◌, ◌<◌, ◌≡◌, refl, ap, ◌∙◌, some, List, length, set, ltb, ◌==◌,
  inl, inr, Bool-cases, ltb→lt, arith,
}
use tftp.Compression.Huffman.{scan_level, put_depth}
use tftp.Compression.Huffman.Arrays.{at, get_elem?-at, store-set, length-set, at-set}
use tftp.Compression.Huffman.Merging.{HasParents}

-- Where the scan of a level stops: the entries from `k` up to `m` are parents at `top` or above.
pub record IsLevel (a : List ℕ) (top m k : ℕ) : Type 0 where
  pub le : k ≤ m
  pub inside : (j : ℕ) → k ≤ j → j < m → top ≤ at a j
  pub outside : 0 < k → at a (k - 1) < top

pub scan_level-IsLevel :
    (a : List ℕ) (top m : ℕ)
    → m ≤ length a
    → (k : ℕ) × (scan_level a top m ≡ some k) × IsLevel a top m k
unfolding scan_level
scan_level-IsLevel a top zero h = (
  0,
  refl,
  record {
    le = omega arith;
    inside = λ j p q. absurd (omega arith);
    outside = λ p. absurd (omega arith);
  },
)
scan_level-IsLevel a top (suc m) h = elim (Bool-cases (ltb (at a m) top)) [
  | inl stop ↦ (
    suc m,
    rw (get_elem?-at a m (omega arith), stop),
    record {
      le = omega arith;
      inside = λ j p q. absurd (omega arith);
      outside = λ p.
          let e : suc m - 1 ≡ m = omega arith in
          omega (arith, ap (at a) e, ltb→lt (at a m) top stop);
    },
  )
  | inr more ↦
      let (k, got, l) = scan_level-IsLevel a top m (omega arith) in
      (
        k,
        rw (get_elem?-at a m (omega arith), more) got,
        record {
          le = omega (arith, l.le);
          inside = λ j p q. elim (Bool-cases (j == m)) [
            | inl same ↦ let e : j ≡ m = ground arith in ground (arith, ap (at a) e, more)
            | inr other ↦ l.inside j p (ground arith)
          ];
          outside = l.outside;
        },
      )
]

-- The vector after the depths of the leaves between `low` and `high`.
pub record IsPut (depth low high : ℕ) (a b : List ℕ) : Type 0 where
  pub size : length b ≡ length a
  pub leaves : (j : ℕ) → low ≤ j → j < high → at b j ≡ depth
  pub below : (j : ℕ) → j < low → at b j ≡ at a j
  pub above : (j : ℕ) → high ≤ j → at b j ≡ at a j

pub put_depth-IsPut :
    (depth leaves i : ℕ) (a : List ℕ)
    → leaves ≤ i
    → i ≤ length a
    → (b : List ℕ) × (put_depth depth leaves i a ≡ some (i - leaves, b))
      × IsPut depth (i - leaves) i a b
unfolding put_depth
put_depth-IsPut depth zero i a h k = (
  a,
  ap (λ (m : ℕ). some (m, a)) (let e : i ≡ i - 0 = omega arith in e),
  record {
    size = refl;
    leaves = λ j p q. absurd (omega arith);
    below = λ j p. refl;
    above = λ j p. refl;
  },
)
put_depth-IsPut depth (suc leaves) zero a h k = absurd (omega arith)
put_depth-IsPut depth (suc leaves) (suc i) a h k =
    let c : List ℕ = set a i depth in
    let size = length-set a i depth in
    let (b, got, p) = put_depth-IsPut depth leaves i c (omega arith) (omega (arith, size)) in
    let e : i - leaves ≡ suc i - suc leaves = omega arith in
    (
      b,
      rw (store-set a i depth (omega arith)) (got ∙ ap (λ (m : ℕ). some (m, b)) e),
      record {
        size = p.size ∙ size;
        leaves = λ j q r. ground (arith, p.leaves j, p.above j, at-set a i j depth);
        below = λ j q. ground (arith, p.below j, at-set a i j depth);
        above = λ j q. ground (arith, p.above j, at-set a i j depth);
      },
    )

-- Parents ascend.
at-le :
    (a : List ℕ) (root next fresh j gap : ℕ)
    → HasParents a root next fresh
    → j + gap < root
    → at a j ≤ at a (j + gap)
at-le a root next fresh j zero p h = omega (arith, ap (at a) (let e : j + 0 ≡ j = omega arith in e))
at-le a root next fresh j (suc gap) p h = omega (
  arith,
  at-le a root next fresh j gap p (omega arith),
  p.ascending (j + gap) (omega arith),
  ap (at a) (let e : j + suc gap ≡ suc (j + gap) = omega arith in e),
)

-- Two steps up, the parent is another.
at_twice :
    (a : List ℕ) (root next fresh k m : ℕ)
    → HasParents a root next fresh
    → k + 2 * m < root
    → at a k + m ≤ at a (k + 2 * m)
at_twice a root next fresh k zero p h =
    omega (arith, ap (at a) (let e : k + 2 * 0 ≡ k = omega arith in e))
at_twice a root next fresh k (suc m) p h = omega (
  arith,
  at_twice a root next fresh k m p (omega arith),
  p.twice (k + 2 * m) (omega arith),
  ap (at a) (let e : k + 2 * suc m ≡ suc (suc (k + 2 * m)) = omega arith in e),
)

module _ (a : List ℕ) (top prev k : ℕ) (p : HasParents a top prev 0) (l : IsLevel a top top k) where
  -- A level has at most two nodes for each inner node of the level above it.
  pub IsLevel-le : top ≤ prev → top - k ≤ 2 * (prev - top)
  IsLevel-le above = elim (Bool-cases (ltb (2 * (prev - top)) (top - k))) [
    | inl many ↦
        let h = ltb→lt (2 * (prev - top)) (top - k) many in
        absurd (
          omega (
            arith,
            at_twice a top prev 0 k (prev - top) p (omega arith),
            l.inside k (omega arith) (omega arith),
            p.older (k + 2 * (prev - top)) (omega arith),
          ))
    | inr few ↦ ground arith
  ]

  -- It has one at least, unless there is none.
  pub IsLevel-lt : 0 < top → k < top
  IsLevel-lt some_node = elim (Bool-cases (ltb k top)) [
    | inl less ↦ ltb→lt k top less
    | inr all ↦
        let e : k - 1 ≡ top - 1 = ground (arith, l.le) in
        absurd (ground (arith, l.le, l.outside, p.higher (top - 1) (omega arith), ap (at a) e))
  ]

  -- Below it stand the parents of the levels that are left.
  pub HasParents-below : (b : List ℕ) → ((j : ℕ) → j < k → at b j ≡ at a j) → HasParents b k top 0
  HasParents-below b same =
      let under : (j : ℕ) → j < k → at b j < top = λ j h.
        let e : j + (k - 1 - j) ≡ k - 1 = omega arith in
        omega (
          arith,
          same j h,
          at-le a top prev 0 j (k - 1 - j) p (omega (arith, l.le)),
          ap (at a) e,
          l.outside (omega arith),
        ) in
      record {
        higher = λ j h. omega (arith, same j h, p.higher j (omega (arith, l.le)));
        within = λ j h. omega (arith, under j h);
        older = λ j h. under j (omega arith);
        ascending = λ j h.
            omega
              (arith, same j (omega arith), same (suc j) h, p.ascending j (omega (arith, l.le)));
        twice = λ j h.
            omega
              (arith, same j (omega arith), same (suc (suc j)) h, p.twice j (omega (arith, l.le)));
      }
