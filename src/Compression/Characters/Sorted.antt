-- ===== src/Compression/Characters/Sorted.antt =====
-- The characters in the order of their frequencies.
use tftp.Base.{
  ℕ, ◌+◌, ◌≡◌, ◌≢◌, refl, sym, true, List, [], ◌∷◌, ltb, ◌⊎◌, inl, inr, Bool-cases, arith, All,
}
use tftp.Base.StdMap.{StdMap}
use tftp.Compression.Characters.{before_char, insert_by_frequency, by_frequency, characters}
use tftp.Compression.Characters.Entries.{IsAmong, AreDistinct, Has, IsAscending}
use tftp.Compression.Characters.Counts.{total}

-- The sum of the first parts.
abbrev pub sum : List (ℕ × ℕ) → ℕ
sum [] = 0
sum ((f, c) ∷ sorted) = f + sum sorted

sum-insert :
    (f c : ℕ) (sorted : List (ℕ × ℕ)) → sum (insert_by_frequency f c sorted) ≡ f + sum sorted
unfolding insert_by_frequency
sum-insert f c [] = refl
sum-insert f c ((g, d) ∷ sorted) = ground (arith, sum-insert f c sorted)

pub sum-by_frequency :
    (sorted : List (ℕ × ℕ)) (m : StdMap ℕ ℕ) → sum (by_frequency sorted m) ≡ sum sorted + total m
unfolding by_frequency
sum-by_frequency sorted [] = omega arith
sum-by_frequency sorted ((c, f) ∷ m) =
    omega (arith, sum-by_frequency (insert_by_frequency f c sorted) m, sum-insert f c sorted)

All-insert {κ} :
    (P : ℕ → Type κ) (f c : ℕ) (sorted : List (ℕ × ℕ))
    → P c
    → All P (characters sorted)
    → All P (characters (insert_by_frequency f c sorted))
unfolding insert_by_frequency characters
All-insert P f c [] p h = (p, tt)
All-insert P f c ((g, d) ∷ sorted) p h = elim (Bool-cases (ltb f g)) [
  | inl e ↦ rw e (p, h)
  | inr e ↦ rw e (h.0, All-insert P f c sorted p h.1)
]

pub All-by_frequency {κ} :
    (P : ℕ → Type κ) (sorted : List (ℕ × ℕ)) (m : StdMap ℕ ℕ)
    → All (λ e. P e.0) m
    → All P (characters sorted)
    → All P (characters (by_frequency sorted m))
unfolding by_frequency
All-by_frequency P sorted [] k h = h
All-by_frequency P sorted ((c, f) ∷ m) k h =
    All-by_frequency P (insert_by_frequency f c sorted) m k.1 (All-insert P f c sorted k.0 h)

AreDistinct-insert :
    (f c : ℕ) (sorted : List (ℕ × ℕ))
    → All (λ d. d ≢ c) (characters sorted)
    → AreDistinct (characters sorted)
    → AreDistinct (characters (insert_by_frequency f c sorted))
unfolding insert_by_frequency characters
AreDistinct-insert f c [] k h = (tt, tt)
AreDistinct-insert f c ((g, d) ∷ sorted) k h = elim (Bool-cases (ltb f g)) [
  | inl e ↦ rw e (k, h)
  | inr e ↦ rw e (
    All-insert (λ a. a ≢ d) f c sorted (λ s. k.0 (sym s)) h.0,
    AreDistinct-insert f c sorted k.1 h.1,
  )
]

-- Each key of a map is not among some characters.
abbrev AreNew : StdMap ℕ ℕ → List ℕ → Type 0
AreNew m chars = All (λ e. All (λ d. d ≢ e.0) chars) m

above-AreNew :
    (f c : ℕ) (sorted : List (ℕ × ℕ)) (m : StdMap ℕ ℕ)
    → All (λ e. before_char c e.0 ≡ true) m
    → AreNew m (characters sorted)
    → AreNew m (characters (insert_by_frequency f c sorted))
above-AreNew f c sorted [] up h = tt
above-AreNew f c sorted ((k, g) ∷ m) up h = (
  All-insert (λ d. d ≢ k) f c sorted (λ e. ground (arith, up.0, e)) h.0,
  above-AreNew f c sorted m up.1 h.1,
)

pub AreDistinct-by_frequency :
    (sorted : List (ℕ × ℕ)) (m : StdMap ℕ ℕ)
    → IsAscending m
    → AreNew m (characters sorted)
    → AreDistinct (characters sorted)
    → AreDistinct (characters (by_frequency sorted m))
unfolding by_frequency
AreDistinct-by_frequency sorted [] up new h = h
AreDistinct-by_frequency sorted ((c, f) ∷ m) up new h =
    AreDistinct-by_frequency (insert_by_frequency f c sorted) m up.1
      (above-AreNew f c sorted m up.0 new.1) (AreDistinct-insert f c sorted new.0 h)

-- In the result of an insertion.
IsAmong-insert :
    (k f c : ℕ) (sorted : List (ℕ × ℕ))
    → (c ≡ k) ⊎ IsAmong k (characters sorted)
    → IsAmong k (characters (insert_by_frequency f c sorted))
unfolding insert_by_frequency characters
IsAmong-insert k f c [] h = h
IsAmong-insert k f c ((g, d) ∷ sorted) h = elim (Bool-cases (ltb f g)) [
  | inl e ↦ rw e h
  | inr e ↦ rw e (elim h [
    | inl same ↦ inr (IsAmong-insert k f c sorted (inl same))
    | inr (inl here) ↦ inl here
    | inr (inr there) ↦ inr (IsAmong-insert k f c sorted (inr there))
  ])
]

pub IsAmong-by_frequency :
    (k g : ℕ) (sorted : List (ℕ × ℕ)) (m : StdMap ℕ ℕ)
    → Has k g m ⊎ IsAmong k (characters sorted)
    → IsAmong k (characters (by_frequency sorted m))
unfolding by_frequency
IsAmong-by_frequency k g sorted [] (inl h) = absurd h
IsAmong-by_frequency k g sorted [] (inr h) = h
IsAmong-by_frequency k g sorted ((c, f) ∷ m) (inl (inl e)) =
    IsAmong-by_frequency k g (insert_by_frequency f c sorted) m
      (inr (IsAmong-insert k f c sorted (inl e.0)))
IsAmong-by_frequency k g sorted ((c, f) ∷ m) (inl (inr h)) =
    IsAmong-by_frequency k g (insert_by_frequency f c sorted) m (inl h)
IsAmong-by_frequency k g sorted ((c, f) ∷ m) (inr h) =
    IsAmong-by_frequency k g (insert_by_frequency f c sorted) m
      (inr (IsAmong-insert k f c sorted (inr h)))
