-- ===== src/Compression/Huffman/Parents.antt =====
-- All rounds of phase 1 of `generateHuffmanCodes`.
use tftp.Base.{
  ℕ, zero, suc, ◌+◌, ◌-◌, ◌≤◌, ◌<◌, ◌^◌, ◌≡◌, refl, ap, ◌∙◌, subst, some, List, length, set, inl,
  inr, arith,
}
use tftp.Compression.Huffman.{Merge, merge_round, merge_rounds}
use tftp.Compression.Huffman.Arrays.{at, store-set, length-set, at-set}
use tftp.Compression.Huffman.Merging.{
  weight, HasParents, IsMerging, weight-set, weight_last, HasParents-set, HasParents-next,
}
use tftp.Compression.Huffman.Rounds.{pick-IsMerging}

-- The state before a round.
abbrev IsReady : ℕ → ℕ → ℕ → Merge → Type 0
IsReady n total next s = IsMerging n total next 0 (record s { sum = 0 })

module _ (n total next : ℕ) (room : next + 1 < n) where
  abbrev merged : Merge → Merge
  merged s = record s { a = set s.a next s.sum }

  merged-IsReady : (s : Merge) → IsMerging n total next 2 s → IsReady n total (next + 1) (merged s)
  merged-IsReady s v =
      let inside : next < length s.a = omega (arith, v.size) in
      let b : List ℕ = set s.a next s.sum in
      let one =
        weight-set s.a s.root (next - s.root) next s.sum inside (inr (omega (arith, v.root_le))) in
      let two =
        weight-set s.a s.leaf (n - s.leaf) next s.sum inside
          (inl (omega (arith, v.picked, v.root_le))) in
      let here : at b next ≡ s.sum = ground (arith, at-set s.a next next s.sum inside) in
      let last = weight_last b s.root (next - s.root) in
      let e : s.root + (next - s.root) ≡ next = omega (arith, v.root_le) in
      let e' = ap (at b) e in
      let i : suc (next - s.root) ≡ next + 1 - s.root = omega (arith, v.root_le) in
      let i' = ap (λ (m : ℕ). weight b s.root m) i in
      record {
        size = length-set s.a next s.sum ∙ v.size;
        root_le = omega (arith, v.root_le);
        leaf_le = v.leaf_le;
        picked = omega (arith, v.picked);
        parents =
            HasParents-next b s.root next
              (HasParents-set s.a s.root next 2 next s.sum inside v.root_le v.parents);
        rest = omega (arith, v.rest, one, two, here, last, e', i');
      }

  merge_round-IsReady :
      (s : Merge)
      → total < 2 ^ 31
      → IsReady n total next s
      → (t : Merge) × (merge_round n next s ≡ some t) × IsReady n total (next + 1) t
  unfolding merge_round
  merge_round-IsReady s small v =
      let (t, got_t, vt) =
        pick-IsMerging n total next 0 small room (omega arith) (record s { sum = 0 }) v in
      let (u, got_u, vu) = pick-IsMerging n total next 1 small room (omega arith) t vt in
      (
        merged u,
        rw (got_t, got_u, store-set u.a next u.sum (omega (arith, vu.size))),
        merged-IsReady u vu,
      )

merge_rounds-IsReady :
    (n total left next : ℕ) (s : Merge)
    → total < 2 ^ 31
    → next + left + 1 ≡ n
    → IsReady n total next s
    → (t : Merge) × (merge_rounds n left next s ≡ some t) × IsReady n total (n - 1) t
unfolding merge_rounds
merge_rounds-IsReady n total zero next s small e v =
    let last : next ≡ n - 1 = omega arith in
    (s, refl, subst (λ (m : ℕ). IsReady n total m s) (last) v)
merge_rounds-IsReady n total (suc left) next s small e v =
    let (t, got, w) = merge_round-IsReady n total next (omega arith) s small v in
    let (u, got_u, wu) = merge_rounds-IsReady n total left (next + 1) t small (omega arith) w in
    (u, rw (got) got_u, wu)

-- Two characters or more, of frequencies that sum up to an `int`: phase 1 is defined and leaves in
-- the first n - 2 places the parents of the nodes below the root.
pub merge_rounds-HasParents :
    (a : List ℕ)
    → 2 ≤ length a
    → weight a 0 (length a) < 2 ^ 31
    → (t : Merge) × (merge_rounds
          (length a)
          (length a - 1)
          0
          (record { a = a; root = 0; leaf = 0; sum = 0 })
        ≡ some t)
      × (length t.a ≡ length a)
      × HasParents t.a (length a - 2) (length a - 1) 0
merge_rounds-HasParents a two small =
    let start : IsReady (length a) (weight a 0 (length a)) 0
        (record { a = a; root = 0; leaf = 0; sum = 0 }) =
      record {
        size = refl;
        root_le = omega arith;
        leaf_le = omega arith;
        picked = refl;
        parents = record {
          higher = λ j p. absurd (omega arith);
          within = λ j p. absurd (omega arith);
          older = λ j p. absurd (omega arith);
          ascending = λ j p. absurd (omega arith);
          twice = λ j p. absurd (omega arith);
        };
        rest = omega (arith, ap (weight a 0) (let e : length a - 0 ≡ length a = omega arith in e));
      } in
    let (t, got, v) =
      merge_rounds-IsReady (length a) (weight a 0 (length a)) (length a - 1) 0 _ small (omega arith)
        start in
    (
      t,
      got,
      v.size,
      record {
        higher = λ j p. v.parents.higher j (omega (arith, v.picked, v.leaf_le));
        within = λ j p. v.parents.within j (omega (arith, v.picked, v.leaf_le));
        older = λ j p. v.parents.older j (omega (arith, v.picked, v.leaf_le));
        ascending = λ j p. v.parents.ascending j (omega (arith, v.picked, v.leaf_le));
        twice = λ j p. v.parents.twice j (omega (arith, v.picked, v.leaf_le));
      },
    )
