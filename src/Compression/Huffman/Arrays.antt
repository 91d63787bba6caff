-- ===== src/Compression/Huffman/Arrays.antt =====
-- Reads and writes of a vector at an index inside it.
use tftp.Base.{
  ℕ, zero, suc, ◌<◌, ◌≡◌, refl, some, List, [], ◌∷◌, length, get_elem?, get_or, set, lt→ltb, ◌==◌,
  if◌then◌else◌, arith,
}
use tftp.Packet.{store}

-- A[i], for an index inside the vector.
abbrev pub at : List ℕ → ℕ → ℕ
at a i = get_or a i 0

pub get_elem?-at : (a : List ℕ) (i : ℕ) → i < length a → get_elem? a i ≡ some (at a i)
get_elem?-at [] i h = absurd (omega arith)
get_elem?-at (x ∷ a) zero h = refl
get_elem?-at (x ∷ a) (suc i) h = get_elem?-at a i (omega arith)

pub store-set : (a : List ℕ) (i v : ℕ) → i < length a → store a i v ≡ some (set a i v)
unfolding store
store-set a i v h = rw (lt→ltb i (length a) h)

pub length-set : (vec : List ℕ) (place value : ℕ) → length (set vec place value) ≡ length vec
length-set [] place value = refl
length-set (first ∷ vec) zero value = omega arith
length-set (first ∷ vec) (suc place) value = omega (arith, length-set vec place value)

pub at-set :
    (vec : List ℕ) (place j value : ℕ)
    → place < length vec
    → at (set vec place value) j ≡ (if place == j then value else at vec j)
at-set [] place j value inside = absurd (omega arith)
at-set (first ∷ vec) zero zero value inside = refl
at-set (first ∷ vec) zero (suc j) value inside = ground arith
at-set (first ∷ vec) (suc place) zero value inside = ground arith
at-set (first ∷ vec) (suc place) (suc j) value inside = ground (arith, at-set vec place j value)

-- Vectors with the same entries.
pub at_ext :
    (a b : List ℕ) → length a ≡ length b → ((j : ℕ) → j < length a → at a j ≡ at b j) → a ≡ b
at_ext [] [] n h = refl
at_ext [] (y ∷ b) n h = absurd (omega arith)
at_ext (x ∷ a) [] n h = absurd (omega arith)
at_ext (x ∷ a) (y ∷ b) n h =
    let head = h 0 (omega arith) in
    let rest = at_ext a b (omega arith) (λ j p. h (suc j) (omega arith)) in cc

-- The first `n` entries, the last one first.
abbrev pub backwards : List ℕ → ℕ → List ℕ
backwards a zero = []
backwards a (suc n) = at a n ∷ backwards a n
