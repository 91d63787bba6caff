-- ===== src/Compression/Huffman/Merging.antt =====
-- Phase 1 of `generateHuffmanCodes` stays inside its vector and leaves the parents of a tree in it.
use tftp.Base.{
  ℕ, zero, suc, ◌+◌, ◌-◌, ◌*◌, ◌≤◌, ◌<◌, ◌≡◌, refl, ap, List, length, set, ◌==◌, if◌then◌else◌, inl,
  inr, ◌⊎◌, arith,
}
use tftp.Compression.Huffman.{Merge}
use tftp.Compression.Huffman.Arrays.{at, at-set}

-- The sum of `count` entries from `i` on.
abbrev pub weight : List ℕ → ℕ → ℕ → ℕ
weight a i zero = 0
weight a i (suc count) = at a i + weight a (suc i) count

-- The entries below `root` are parents up to `next`, at most two nodes to each; all but the last
-- `fresh` are parents below `next`.
pub record HasParents (a : List ℕ) (root next fresh : ℕ) : Type 0 where
  pub higher : (j : ℕ) → j < root → j < at a j
  pub within : (j : ℕ) → j < root → at a j ≤ next
  pub older : (j : ℕ) → j + fresh < root → at a j < next
  pub ascending : (j : ℕ) → suc j < root → at a j ≤ at a (suc j)
  pub twice : (j : ℕ) → suc (suc j) < root → at a j < at a (suc (suc j))

-- The state with `fresh` nodes picked for `next`, over weights that sum up to `total`.
pub record IsMerging (n total next fresh : ℕ) (s : Merge) : Type 0 where
  pub size : length s.a ≡ n
  pub root_le : s.root ≤ next
  pub leaf_le : s.leaf ≤ n
  pub picked : s.root + s.leaf ≡ 2 * next + fresh
  pub parents : HasParents s.a s.root next fresh
  pub rest : weight s.a s.root (next - s.root) + weight s.a s.leaf (n - s.leaf) + s.sum ≡ total

-- A write outside a range leaves its sum.
pub weight-set :
    (a : List ℕ) (i count j v : ℕ)
    → j < length a
    → (j < i) ⊎ (i + count ≤ j)
    → weight (set a j v) i count ≡ weight a i count
weight-set a i zero j v h k = refl
weight-set a i (suc count) j v h (inl k) =
    ground (arith, at-set a j i v, weight-set a (suc i) count j v h (inl (omega arith)))
weight-set a i (suc count) j v h (inr k) =
    ground (arith, at-set a j i v, weight-set a (suc i) count j v h (inr (omega arith)))

pub weight_first :
    (a : List ℕ) (i count : ℕ)
    → 0 < count
    → weight a i count ≡ at a i + weight a (suc i) (count - 1)
weight_first a i zero h = absurd (omega arith)
weight_first a i (suc count) h =
    ap (λ (m : ℕ). at a i + weight a (suc i) m) (let e : count ≡ suc count - 1 = omega arith in e)

pub weight_last :
    (a : List ℕ) (i count : ℕ) → weight a i (suc count) ≡ weight a i count + at a (i + count)
weight_last a i zero = omega (arith, ap (at a) (let e : i + 0 ≡ i = omega arith in e))
weight_last a i (suc count) = omega (
  arith,
  weight_last a (suc i) count,
  ap (at a) (let e : i + suc count ≡ suc i + count = omega arith in e),
)

-- A write above the parents leaves them.
pub HasParents-set :
    (a : List ℕ) (root next fresh j v : ℕ)
    → j < length a
    → root ≤ j
    → HasParents a root next fresh
    → HasParents (set a j v) root next fresh
HasParents-set a root next fresh j v h k p =
    let same : (i : ℕ) → i < root → at (set a j v) i ≡ at a i =
      λ i q. ground (arith, at-set a j i v) in
    record {
      higher = λ i q. omega (arith, same i q, p.higher i q);
      within = λ i q. omega (arith, same i q, p.within i q);
      older = λ i q. omega (arith, same i (omega arith), p.older i q);
      ascending = λ i q. omega (arith, same i (omega arith), same (suc i) q, p.ascending i q);
      twice = λ i q. omega (arith, same i (omega arith), same (suc (suc i)) q, p.twice i q);
    }

-- One more node below `next`.
pub HasParents-push :
    (a : List ℕ) (root next fresh : ℕ)
    → root < length a
    → root < next
    → fresh ≤ 1
    → HasParents a root next fresh
    → HasParents (set a root next) (root + 1) next (fresh + 1)
HasParents-push a root next fresh h k few p =
    let see : (i : ℕ) → at (set a root next) i ≡ (if root == i then next else at a i) =
      λ i. at-set a root i next h in
    record {
      higher = λ i q. ground (arith, see i, p.higher i);
      within = λ i q. ground (arith, see i, p.within i);
      older = λ i q. ground (arith, see i, p.older i);
      ascending = λ i q. ground (arith, see i, see (suc i), p.ascending i, p.within i);
      twice = λ i q. ground (arith, see i, see (suc (suc i)), p.twice i, p.older i);
    }

pub HasParents-leaf :
    (a : List ℕ) (root next fresh : ℕ)
    → HasParents a root next fresh
    → HasParents a root next (fresh + 1)
HasParents-leaf a root next fresh p = record {
  higher = p.higher;
  within = p.within;
  older = λ i q. p.older i (omega arith);
  ascending = p.ascending;
  twice = p.twice;
}

pub HasParents-next :
    (a : List ℕ) (root next : ℕ) → HasParents a root next 2 → HasParents a root (next + 1) 0
HasParents-next a root next p = record {
  higher = p.higher;
  within = λ i q. omega (arith, p.within i q);
  older = λ i q. omega (arith, p.within i (omega arith));
  ascending = p.ascending;
  twice = p.twice;
}
