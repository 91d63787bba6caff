-- ===== src/Compression/Huffman.antt =====
-- `addBinary`, `reverseVector` and `generateHuffmanCodes` of src/TFTPCompression.cpp: the code lengths
-- computed in place from the frequencies, and the codes given out by length.
pub mod Arrays
pub mod Backwards
pub mod Merging
pub mod Rounds
pub mod Binary
pub mod Order
pub mod Codes
pub mod Assigned
pub mod Words
pub mod Table
pub mod Decodable
pub mod Padding
pub mod Scan
pub mod Depths
pub mod Parents
use tftp.Base.{
  ℕ, zero, suc, ◌+◌, ◌-◌, ◌*◌, ◌/◌, ◌%◌, ◌^◌, Bytes, Bool, true, false, Option, none, some, List,
  [], ◌∷◌, ◌++◌, length, get_elem?, replicate, ltb, ◌==◌, if◌then◌else◌, ◌>>=◌,
}
use tftp.Packet.{store}
use tftp.Compression.{CodeTable}
use tftp.Compression.Characters.{assign}

-- The loop of `addBinary` on texts of one length: the digits, and the `carry`. `bit1` and `bit2` are
-- read from '0' and '1', which are all that it is called with.
unfoldable pub add_digits : Bytes → Bytes → Bytes × ℕ
add_digits [] b = ([], 0)
add_digits (x ∷ a) [] = ([], 0)
add_digits (x ∷ a) (y ∷ b) =
    let (result, carry) = add_digits a b in
    let sum = (x - 48) + (y - 48) + carry in ((48 + sum % 2) ∷ result, sum / 2)

-- Leading '0' up to a length.
abbrev pub padded : ℕ → Bytes → Bytes
padded n a = replicate (n - length a) 48 ++ a

unfoldable pub add_binary : Bytes → Bytes → Bytes
add_binary a b =
    let (result, carry) = add_digits (padded (length b) a) (padded (length a) b) in
    if ltb 0 carry then 49 ∷ result else result

-- The `while` of `reverseVector`, with fuel: `none` is an access outside the vector.
unfoldable pub swap_ends : ℕ → ℕ → ℕ → List ℕ → Option (List ℕ)
swap_ends zero start end vec = some vec
swap_ends (suc fuel) start end vec = elim (ltb start end) [
  | true ↦ (do
    x ← get_elem? vec start
    y ← get_elem? vec end
    left ← store vec start y
    both ← store left end x
    swap_ends fuel (start + 1) (end - 1) both)
  | false ↦ some vec
]

-- `size() - 1` of an empty vector is the largest `size_t`.
unfoldable pub reverse_vector : List ℕ → Option (List ℕ)
reverse_vector [] = swap_ends 1 0 (2 ^ 64 - 1) []
reverse_vector (x ∷ vec) = swap_ends (suc (length vec)) 0 (length vec) (x ∷ vec)

-- The variables of phase 1. `sum` is an `int`.
pub record Merge : Type 0 where
  pub a : List ℕ
  pub root : ℕ
  pub leaf : ℕ
  pub sum : ℕ

-- `sum += A[i]`; a sum that no `int` holds is left out of the model.
unfoldable pub add_int : ℕ → ℕ → Option ℕ
add_int sum weight = if ltb (sum + weight) (2 ^ 31) then some (sum + weight) else none

-- leaf >= n || (root < next && A[root] < A[leaf])
unfoldable pub takes_root : ℕ → ℕ → Merge → Option Bool
takes_root n next s =
    if ltb s.leaf n
    then if ltb s.root next
      then (do x ← get_elem? s.a s.root; y ← get_elem? s.a s.leaf; some (ltb x y))
      else some false
    else some true

unfoldable pub take_root : ℕ → Merge → Option Merge
take_root next s = do
  weight ← get_elem? s.a s.root
  sum ← add_int s.sum weight
  a ← store s.a s.root next
  some (record s { a = a; root = s.root + 1; sum = sum })

unfoldable pub take_leaf : ℕ → Merge → Option Merge
take_leaf next s = do
  weight ← get_elem? s.a s.leaf
  sum ← add_int s.sum weight
  a ← if ltb next s.leaf then store s.a s.leaf 0 else some s.a
  some (record s { a = a; leaf = s.leaf + 1; sum = sum })

-- One of the two rounds of the inner loop.
unfoldable pub pick : ℕ → ℕ → Merge → Option Merge
pick n next s = do
  internal ← takes_root n next s
  if internal then take_root next s else take_leaf next s

unfoldable pub merge_round : ℕ → ℕ → Merge → Option Merge
merge_round n next s = do
  first ← pick n next (record s { sum = 0 })
  second ← pick n next first
  a ← store second.a next second.sum
  some (record second { a = a })

-- `for (...; next < n - 1; next++)`, with the rounds that are left.
unfoldable pub merge_rounds : ℕ → ℕ → ℕ → Merge → Option Merge
merge_rounds n zero next s = some s
merge_rounds n (suc left) next s = do t ← merge_round n next s; merge_rounds n left (next + 1) t

-- The `k` at which `for (k = level_top; k > 0 && A[k - 1] >= level_top; k--)` stops.
unfoldable pub scan_level : List ℕ → ℕ → ℕ → Option ℕ
scan_level a level_top zero = some 0
scan_level a level_top (suc k) = do
  parent ← get_elem? a k
  let rest = scan_level a level_top k
  if ltb parent level_top then some (suc k) else rest

-- `A[--i] = depth`, for the leaves of a level.
unfoldable pub put_depth : ℕ → ℕ → ℕ → List ℕ → Option (ℕ × List ℕ)
put_depth depth zero i a = some (i, a)
put_depth depth (suc leaves) zero a = none
put_depth depth (suc leaves) (suc i) a = do b ← store a i depth; put_depth depth leaves i b

-- The variables of phase 2. `level_top` is below 0 for fewer than two characters; the program only
-- tests whether it is above 0, and takes its difference from itself.
pub record Levels : Type 0 where
  pub a : List ℕ
  pub i : ℕ
  pub level_top : ℕ
  pub depth : ℕ
  pub total_nodes_at_level : ℕ

unfoldable pub level_round : Levels → Option Levels
level_round s = do
  k ← scan_level s.a s.level_top s.level_top
  let internal = s.level_top - k
  (i, a) ← put_depth s.depth (s.total_nodes_at_level - internal) s.i s.a
  some (record {
    a = a;
    i = i;
    level_top = k;
    depth = s.depth + 1;
    total_nodes_at_level = internal * 2;
  })

-- `while (i > 0)`
unfoldable pub level_loop : ℕ → Levels → Option (List ℕ)
level_loop zero s = if s.i == 0 then some s.a else none
level_loop (suc fuel) s = elim (s.i) [
  | zero ↦ some s.a
  | suc i ↦ (do t ← level_round s; level_loop fuel t)
]

-- The lengths that the two phases leave in `A`, the longest first.
unfoldable pub code_lengths : List ℕ → Option (List ℕ)
code_lengths frequencies = do
  let n = length frequencies
  s ← merge_rounds n (n - 1) 0 (record { a = frequencies; root = 0; leaf = 0; sum = 0 })
  level_loop n (record { a = s.a; i = n; level_top = n - 2; depth = 1; total_nodes_at_level = 2 })

-- The code behind another, of a length.
unfoldable pub next_code : Bytes → ℕ → Bytes
next_code previous len =
    let temp = add_binary previous (49 ∷ []) in temp ++ replicate (len - length temp) 48

unfoldable pub next_codes : Bytes → List ℕ → List Bytes
next_codes previous [] = []
next_codes previous (len ∷ lens) = let code = next_code previous len in code ∷ next_codes code lens

-- `huffmanCodes` for the lengths, the shortest first.
unfoldable pub assign_codes : List ℕ → Option (List Bytes)
assign_codes [] = none
assign_codes (len ∷ lens) = let first = replicate len 48 in some (first ∷ next_codes first lens)

-- codeWordLength[B[i]] = huffmanCodes[i]
unfoldable pub code_words : CodeTable → List ℕ → List Bytes → Option CodeTable
code_words table [] codes = some table
code_words table (c ∷ chars) [] = none
code_words table (c ∷ chars) (code ∷ codes) = code_words (assign c code table) chars codes

unfoldable pub generate_huffman_codes : List ℕ → List ℕ → Option CodeTable
generate_huffman_codes frequencies chars = do
  lengths ← code_lengths frequencies
  ascending ← reverse_vector lengths
  by_length ← reverse_vector chars
  codes ← assign_codes ascending
  code_words [] by_length codes
