-- ===== src/Compression/Huffman/Depths.antt =====
-- Phase 2 of `generateHuffmanCodes` ends, and the lengths fill a binary tree.
use tftp.Base.{
  ℕ, zero, suc, ◌+◌, ◌-◌, ◌*◌, ◌≤◌, ◌<◌, ◌^◌, ◌≡◌, refl, ◌∙◌, subst, some, List, [], ◌∷◌, length,
  ltb, ltb→lt, Bool-cases, ◌⊎◌, inl, inr, arith,
}
use tftp.Compression.Huffman.{Levels, level_round, level_loop, code_lengths}
use tftp.Compression.Huffman.Arrays.{at, backwards}
use tftp.Compression.Huffman.Merging.{HasParents, weight}
use tftp.Compression.Huffman.Parents.{merge_rounds-HasParents}
use tftp.Compression.Huffman.Scan.{
  scan_level-IsLevel, put_depth-IsPut, IsLevel-le, IsLevel-lt, HasParents-below,
}

-- Lengths in ascending order that use up the nodes that are free at a depth, where a node is used
-- for a length or has two nodes below it.
pub data Fills : ℕ → ℕ → List ℕ → Type 0 where
  used_up : (depth : ℕ) → Fills depth zero []
  leaf :
      {depth free : ℕ} {lens : List ℕ}
      → Fills depth free lens
      → Fills depth (suc free) (depth ∷ lens)
  deeper :
      {depth free twice : ℕ} {lens : List ℕ}
      → twice ≡ 2 * free
      → Fills (suc depth) twice lens
      → Fills depth free lens

-- The leaves of one level, in front of those below it.
Fills-leaves :
    (leaves low high rest free depth : ℕ) (r : List ℕ)
    → high ≡ low + leaves
    → free ≡ rest + leaves
    → ((j : ℕ) → low ≤ j → j < high → at r j ≡ depth)
    → Fills depth rest (backwards r low)
    → Fills depth free (backwards r high)
Fills-leaves zero low high rest free depth r e f same t =
    let e' : high ≡ low = omega arith in let f' : free ≡ rest = omega arith in rw (e', f') t
Fills-leaves (suc leaves) low zero rest free depth r e f same t = absurd (omega arith)
Fills-leaves (suc leaves) low (suc high) rest zero depth r e f same t = absurd (omega arith)
Fills-leaves (suc leaves) low (suc high) rest (suc free) depth r e f same t =
    rw (same high (omega arith) (omega arith)) (
      Fills.leaf (
        Fills-leaves leaves low high rest free depth r (omega arith) (omega arith)
          (λ j p q. same j p (omega arith)) t))

-- Every place below `high` holds a length within some bounds.
abbrev pub IsBetween : ℕ → ℕ → ℕ → List ℕ → Type 0
IsBetween low high n r = (j : ℕ) → j < n → (low ≤ at r j) × (at r j ≤ high)

-- A state of phase 2, `prev` the top of the level above, `deepest` a bound of the depths.
record IsLevelled (n deepest prev : ℕ) (s : Levels) : Type 0 where
  size : length s.a ≡ n
  fits : s.i ≤ n
  top_le : s.level_top ≤ prev
  nodes : s.total_nodes_at_level ≡ 2 * (prev - s.level_top)
  left : s.i ≡ s.level_top + s.total_nodes_at_level
  parents : HasParents s.a s.level_top prev 0
  bound : 0 < s.i → s.depth + s.level_top ≤ deepest

-- What the loop makes of it.
record IsFilled (deepest : ℕ) (s : Levels) (r : List ℕ) : Type 0 where
  size : length r ≡ length s.a
  kept : (j : ℕ) → s.i ≤ j → at r j ≡ at s.a j
  fills : Fills s.depth s.total_nodes_at_level (backwards r s.i)
  bound : IsBetween s.depth deepest s.i r

-- One round, and what its result makes of the loop's.
record Rounded (n deepest : ℕ) (s t : Levels) : Type 0 where
  levelled : IsLevelled n deepest s.level_top t
  measure : t.i ≡ 0 ⊎ (t.level_top < s.level_top)
  back : (r : List ℕ) → IsFilled deepest t r → IsFilled deepest s r

level_round-Rounded :
    (n deepest prev : ℕ) (s : Levels)
    → IsLevelled n deepest prev s
    → 0 < s.i
    → (t : Levels) × (level_round s ≡ some t) × Rounded n deepest s t
unfolding level_round
level_round-Rounded n deepest prev s v busy =
    let (k, scanned, l) =
      scan_level-IsLevel s.a s.level_top s.level_top (omega (arith, v.size, v.fits, v.left)) in
    let few = IsLevel-le s.a s.level_top prev k v.parents l v.top_le in
    let leaves : ℕ = s.total_nodes_at_level - (s.level_top - k) in
    let enough : leaves ≤ s.i = omega (arith, v.left) in
    let (b, put, p) =
      put_depth-IsPut s.depth leaves s.i s.a enough (omega (arith, v.size, v.fits)) in
    let low : s.i - leaves ≡ k + (s.level_top - k) * 2 =
      omega (arith, v.left, v.nodes, few, l.le) in
    (
      record {
        a = b;
        i = s.i - leaves;
        level_top = k;
        depth = s.depth + 1;
        total_nodes_at_level = (s.level_top - k) * 2;
      },
      rw (scanned, put),
      record {
        levelled = record {
          size = p.size ∙ v.size;
          fits = omega (arith, v.fits);
          top_le = l.le;
          nodes = omega arith;
          left = low;
          parents =
              HasParents-below s.a s.level_top prev k v.parents l b
                (λ j h. p.below j (omega (arith, low)));
          bound = λ h.
              let some_node : 0 < s.level_top = omega (arith, low, l.le) in
              omega (arith, v.bound busy, IsLevel-lt s.a s.level_top prev k v.parents l some_node);
        };
        measure = elim (Bool-cases (ltb 0 s.level_top)) [
          | inl some_node ↦
              inr (IsLevel-lt s.a s.level_top prev k v.parents l (ltb→lt 0 s.level_top some_node))
          | inr no_node ↦ inl (ground (arith, low, l.le))
        ];
        back = λ r f. record {
          size = f.size ∙ p.size;
          kept = λ j h. f.kept j (omega arith) ∙ p.above j h;
          fills =
              Fills-leaves leaves (s.i - leaves) s.i (s.level_top - k) s.total_nodes_at_level
                s.depth r (omega arith) (omega (arith, v.nodes, few))
                (λ j h q. f.kept j h ∙ p.leaves j h q)
                (Fills.deeper (omega arith) (
                  subst (λ (d : ℕ). Fills d ((s.level_top - k) * 2) (backwards r (s.i - leaves)))
                    (let e : s.depth + 1 ≡ suc s.depth = omega arith in e) f.fills));
          bound = λ j h. elim (Bool-cases (ltb j (s.i - leaves))) [
            | inl inner ↦
                let within = f.bound j (ltb→lt j (s.i - leaves) inner) in
                omega (arith, within.0, within.1)
            | inr outer ↦
                let q : s.i - leaves ≤ j = ground arith in
                omega (arith, f.kept j q, p.leaves j q h, v.bound busy)
          ];
        };
      },
    )

level_loop_idle : (fuel : ℕ) (s : Levels) → s.i ≡ 0 → level_loop fuel s ≡ some s.a
unfolding level_loop
level_loop_idle zero s e = rw e
level_loop_idle (suc fuel) s e = rw (level_loop, e)

level_loop_busy :
    (fuel : ℕ) (s t : Levels) {r : List ℕ}
    → 0 < s.i
    → level_round s ≡ some t
    → level_loop fuel t ≡ some r
    → level_loop (suc fuel) s ≡ some r
unfolding level_loop
level_loop_busy fuel s t busy round rest =
    let e : s.i ≡ suc (s.i - 1) = omega arith in rw (level_loop, e, round) rest

IsFilled-idle :
    (deepest : ℕ) (s : Levels) → s.i ≡ 0 → s.total_nodes_at_level ≡ 0 → IsFilled deepest s s.a
IsFilled-idle deepest s e f = record {
  size = refl;
  kept = λ j h. refl;
  fills = rw (e, f) (Fills.used_up s.depth);
  bound = λ j h. absurd (omega arith);
}

level_loop-IsFilled :
    (fuel n deepest prev : ℕ) (s : Levels)
    → IsLevelled n deepest prev s
    → (s.i ≡ 0) ⊎ (s.level_top < fuel)
    → (r : List ℕ) × (level_loop fuel s ≡ some r) × IsFilled deepest s r
level_loop-IsFilled fuel n deepest prev s v (inl idle) =
    (s.a, level_loop_idle fuel s idle, IsFilled-idle deepest s idle (omega (arith, v.left)))
level_loop-IsFilled zero n deepest prev s v (inr h) = absurd (omega arith)
level_loop-IsFilled (suc fuel) n deepest prev s v (inr h) = elim (Bool-cases (ltb 0 s.i)) [
  | inl busy ↦
      let running = ltb→lt 0 s.i busy in
      let (t, round, w) = level_round-Rounded n deepest prev s v running in
      let m : (t.i ≡ 0) ⊎ (t.level_top < fuel) = elim (w.measure) [
        | inl e ↦ inl e
        | inr less ↦ inr (omega arith)
      ] in
      let (r, got, f) = level_loop-IsFilled fuel n deepest s.level_top t w.levelled m in
      (r, level_loop_busy fuel s t running round got, w.back r f)
  | inr idle ↦
      let e : s.i ≡ 0 = ground arith in
      (s.a, level_loop_idle (suc fuel) s e, IsFilled-idle deepest s e (omega (arith, v.left)))
]

-- For two frequencies or more whose sum is below 2^31, both phases of generateHuffmanCodes end
-- without an access outside the vector, and the lengths that they leave, read from the last one,
-- fill a binary tree; each is at least 1 and below their number.
pub code_lengths-Fills :
    (frequencies : List ℕ)
    → 2 ≤ length frequencies
    → weight frequencies 0 (length frequencies) < 2 ^ 31
    → (lengths : List ℕ) × (code_lengths frequencies ≡ some lengths)
      × (length lengths ≡ length frequencies)
      × Fills 1 2 (backwards lengths (length lengths))
      × IsBetween 1 (length frequencies - 1) (length lengths) lengths
unfolding code_lengths
code_lengths-Fills frequencies two small =
    let (s, merged, size, parents) = merge_rounds-HasParents frequencies two small in
    let n = length frequencies in
    let start : Levels = record {
      a = s.a;
      i = n;
      level_top = n - 2;
      depth = 1;
      total_nodes_at_level = 2;
    } in
    let ready : IsLevelled n (n - 1) (n - 1) start = record {
      size = size;
      fits = omega arith;
      top_le = omega arith;
      nodes = omega arith;
      left = omega arith;
      parents = parents;
      bound = λ h. omega arith;
    } in
    let (r, got, f) = level_loop-IsFilled n n (n - 1) (n - 1) start ready (inr (omega arith)) in
    let e : length r ≡ n = f.size ∙ size in (r, rw merged got, e, rw e (f.fills), rw e (f.bound))
