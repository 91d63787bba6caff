-- ===== src/Compression/Huffman/Rounds.antt =====
-- The rounds of phase 1 of `generateHuffmanCodes` keep its invariant, and end.
use tftp.Base.{
  ℕ, suc, ◌+◌, ◌-◌, ◌≤◌, ◌<◌, ◌^◌, ◌≡◌, ap, ◌∙◌, some, length, set, ltb, if◌then◌else◌, lt→ltb, inl,
  inr, Bool-cases, ltb→lt, arith,
}
use tftp.Compression.Huffman.{Merge, add_int, takes_root, take_root, take_leaf, pick}
use tftp.Compression.Huffman.Arrays.{at, get_elem?-at, store-set, length-set}
use tftp.Compression.Huffman.Merging.{
  weight, IsMerging, weight-set, weight_first, HasParents-set, HasParents-push, HasParents-leaf,
}

add_int_fits : (sum w : ℕ) → sum + w < 2 ^ 31 → add_int sum w ≡ some (sum + w)
unfolding add_int
add_int_fits sum w h = rw (lt→ltb (sum + w) (2 ^ 31) h)

-- A sum of at most `total` fits an `int`.
module _ (n total next fresh : ℕ) (small : total < 2 ^ 31) (room : next + 1 < n)
    (few : fresh ≤ 1) where
  abbrev with_root : Merge → Merge
  with_root s = record s { a = set s.a s.root next; root = s.root + 1; sum = s.sum + at s.a s.root }

  abbrev with_leaf : Merge → Merge
  with_leaf s = record s {
    a = if ltb next s.leaf then set s.a s.leaf 0 else s.a;
    leaf = s.leaf + 1;
    sum = s.sum + at s.a s.leaf;
  }

  take_root-IsMerging :
      (s : Merge)
      → IsMerging n total next fresh s
      → s.root < next
      → (take_root next s ≡ some (with_root s)) × IsMerging n total next (fresh + 1) (with_root s)
  unfolding take_root
  take_root-IsMerging s v below =
      let inside : s.root < length s.a = omega (arith, v.size, v.root_le) in
      let first = weight_first s.a s.root (next - s.root) (omega arith) in
      let e : next - s.root - 1 ≡ next - (s.root + 1) = omega arith in
      let e' = ap (λ (m : ℕ). weight s.a (suc s.root) m) e in
      let i : suc s.root ≡ s.root + 1 = omega arith in
      let i' = ap (λ (m : ℕ). weight s.a m (next - (s.root + 1))) i in
      let one =
        weight-set s.a (s.root + 1) (next - (s.root + 1)) s.root next inside (inl (omega arith)) in
      let two =
        weight-set s.a s.leaf (n - s.leaf) s.root next inside (inl (omega (arith, v.picked))) in
      let fits = add_int_fits s.sum (at s.a s.root) (omega (arith, v.rest, first)) in
      (
        rw (get_elem?-at s.a s.root inside, fits, store-set s.a s.root next inside),
        record {
          size = length-set s.a s.root next ∙ v.size;
          root_le = omega arith;
          leaf_le = v.leaf_le;
          picked = omega (arith, v.picked);
          parents = HasParents-push s.a s.root next fresh inside below few v.parents;
          rest = omega (arith, v.rest, first, e', i', one, two);
        },
      )

  take_leaf-IsMerging :
      (s : Merge)
      → IsMerging n total next fresh s
      → s.leaf < n
      → (take_leaf next s ≡ some (with_leaf s)) × IsMerging n total next (fresh + 1) (with_leaf s)
  unfolding take_leaf
  take_leaf-IsMerging s v below =
      let inside : s.leaf < length s.a = omega (arith, v.size) in
      let first = weight_first s.a s.leaf (n - s.leaf) (omega arith) in
      let e : n - s.leaf - 1 ≡ n - (s.leaf + 1) = omega arith in
      let e' = ap (λ (m : ℕ). weight s.a (suc s.leaf) m) e in
      let i : suc s.leaf ≡ s.leaf + 1 = omega arith in
      let i' = ap (λ (m : ℕ). weight s.a m (n - (s.leaf + 1))) i in
      let one =
        weight-set s.a s.root (next - s.root) s.leaf 0 inside
          (inr (omega (arith, v.picked, v.root_le))) in
      let two =
        weight-set s.a (s.leaf + 1) (n - (s.leaf + 1)) s.leaf 0 inside (inl (omega arith)) in
      let fits = add_int_fits s.sum (at s.a s.leaf) (omega (arith, v.rest, first)) in
      let next_parents = HasParents-leaf s.a s.root next fresh v.parents in
      elim (Bool-cases (ltb next s.leaf)) [
        | inl far ↦ (
          rw (get_elem?-at s.a s.leaf inside, fits, far, store-set s.a s.leaf 0 inside),
          rw far (record {
            size = length-set s.a s.leaf 0 ∙ v.size;
            root_le = v.root_le;
            leaf_le = omega arith;
            picked = omega (arith, v.picked);
            parents =
                HasParents-set s.a s.root next (fresh + 1) s.leaf 0 inside
                  (omega (arith, v.picked, v.root_le)) next_parents;
            rest = omega (arith, v.rest, first, e', i', one, two);
          }),
        )
        | inr near ↦ (
          rw (get_elem?-at s.a s.leaf inside, fits, near),
          rw near (record {
            size = v.size;
            root_le = v.root_le;
            leaf_le = omega arith;
            picked = omega (arith, v.picked);
            parents = next_parents;
            rest = omega (arith, v.rest, first, e', i');
          }),
        )
      ]

  -- One pick is defined, whichever node is lighter.
  pub pick-IsMerging :
      (s : Merge)
      → IsMerging n total next fresh s
      → (t : Merge) × (pick n next s ≡ some t) × IsMerging n total next (fresh + 1) t
  unfolding pick takes_root
  pick-IsMerging s v = elim (Bool-cases (ltb s.leaf n)) [
    | inl leaves ↦ elim (Bool-cases (ltb s.root next)) [
      | inl roots ↦
          let in_leaf = get_elem?-at s.a s.leaf (omega (arith, v.size, ltb→lt s.leaf n leaves)) in
          let in_root = get_elem?-at s.a s.root (omega (arith, v.size, v.root_le)) in
          elim (Bool-cases (ltb (at s.a s.root) (at s.a s.leaf))) [
            | inl lighter ↦
                let (got, w) = take_root-IsMerging s v (ltb→lt s.root next roots) in
                (with_root s, rw (leaves, roots, in_root, in_leaf, lighter) got, w)
            | inr heavier ↦
                let (got, w) = take_leaf-IsMerging s v (ltb→lt s.leaf n leaves) in
                (with_leaf s, rw (leaves, roots, in_root, in_leaf, heavier) got, w)
          ]
      | inr none_left ↦
          let (got, w) = take_leaf-IsMerging s v (ltb→lt s.leaf n leaves) in
          (with_leaf s, rw (leaves, none_left) got, w)
    ]
    | inr no_leaf ↦
        let (got, w) =
          take_root-IsMerging s v (ground (arith, no_leaf, v.picked, v.leaf_le, v.root_le)) in
        (with_root s, rw no_leaf got, w)
  ]
