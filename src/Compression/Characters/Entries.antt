-- ===== src/Compression/Characters/Entries.antt =====
-- The entries of a `std::map<char, T>` behind an assignment.
use tftp.Base.{
  ℕ, ◌<◌, ◌≡◌, ◌≢◌, refl, true, List, [], ◌∷◌, ◌==◌, ◌⊎◌, inl, inr, Bool-cases, lt→ltb, ==_iff,
  arith, All,
}
use tftp.Base.StdMap.{StdMap}
use tftp.Compression.Characters.{assign, before_char}

-- A character of a list, all of which are different.
abbrev pub IsAmong : ℕ → List ℕ → Type 0
IsAmong k [] = ⊥
IsAmong k (c ∷ chars) = (c ≡ k) ⊎ IsAmong k chars

abbrev pub AreDistinct : List ℕ → Type 0
AreDistinct [] = Unit {0}
AreDistinct (c ∷ chars) = All (λ d. d ≢ c) chars × AreDistinct chars

-- A map with this entry.
abbrev pub Has : {V : Type 0} → ℕ → V → StdMap ℕ V → Type 0
Has k v [] = ⊥
Has k v ((j, w) ∷ m) = ((j ≡ k) × (w ≡ v)) ⊎ Has k v m

-- A map without this key.
abbrev pub Lacks : {V : Type 0} → ℕ → StdMap ℕ V → Type 0
Lacks k m = All (λ e. e.0 ≢ k) m

-- Keys in ascending order, as a map holds them.
abbrev pub IsAscending : {V : Type 0} → StdMap ℕ V → Type 0
IsAscending [] = Unit {0}
IsAscending ((k, v) ∷ m) = All (λ e. before_char k e.0 ≡ true) m × IsAscending m

module _ {V : Type 0} where
  -- An entry behind an assignment is the one assigned, or was there.
  pub Has-assign :
      (k c : ℕ) (w v : V) (m : StdMap ℕ V)
      → Has k w (assign c v m)
      → ((c ≡ k) × (v ≡ w)) ⊎ Has k w m
  unfolding assign
  Has-assign k c w v [] h = h
  Has-assign k c w v ((j, u) ∷ m) h = elim (Bool-cases (j == c)) [
    | inl same ↦ elim (rw same at h) [ inl e ↦ inl e | inr rest ↦ inr (inr rest) ]
    | inr other ↦ elim (Bool-cases (before_char j c)) [
      | inl before ↦ elim (rw (other, before) at h) [
        | inl e ↦ inr (inl e)
        | inr rest ↦ elim (Has-assign k c w v m rest) [ inl e ↦ inl e | inr old ↦ inr (inr old) ]
      ]
      | inr after ↦ rw (other, after) at h
    ]
  ]

  pub assign-Has_self : (c : ℕ) (v : V) (m : StdMap ℕ V) → Has c v (assign c v m)
  unfolding assign
  assign-Has_self c v [] = inl (refl, refl)
  assign-Has_self c v ((j, u) ∷ m) = elim (Bool-cases (j == c)) [
    | inl same ↦ rw same (inl (refl, refl))
    | inr other ↦ elim (Bool-cases (before_char j c)) [
      | inl before ↦ rw (other, before) (inr (assign-Has_self c v m))
      | inr after ↦ rw (other, after) (inl (refl, refl))
    ]
  ]

  pub assign-Has_other :
      (k c : ℕ) (w v : V) (m : StdMap ℕ V) → k ≢ c → Has k w m → Has k w (assign c v m)
  unfolding assign
  assign-Has_other k c w v [] d h = absurd h
  assign-Has_other k c w v ((j, u) ∷ m) d h = elim (Bool-cases (j == c)) [
    | inl same ↦ elim h [
      | inl e ↦ absurd (d (ground (arith, e.0, same)))
      | inr rest ↦ rw same (inr rest)
    ]
    | inr other ↦ elim (Bool-cases (before_char j c)) [
      | inl before ↦ elim h [
        | inl e ↦ rw (other, before) (inl e)
        | inr rest ↦ rw (other, before) (inr (assign-Has_other k c w v m d rest))
      ]
      | inr after ↦ rw (other, after) (inr h)
    ]
  ]

  assign-above :
      (i c : ℕ) (v : V) (m : StdMap ℕ V)
      → before_char i c ≡ true
      → All (λ e. before_char i e.0 ≡ true) m
      → All (λ e. before_char i e.0 ≡ true) (assign c v m)
  unfolding assign
  assign-above i c v [] p h = (p, tt)
  assign-above i c v ((j, u) ∷ m) p h = elim (Bool-cases (j == c)) [
    | inl same ↦ rw same (p, h.1)
    | inr other ↦ elim (Bool-cases (before_char j c)) [
      | inl before ↦ rw (other, before) (h.0, assign-above i c v m p h.1)
      | inr after ↦ rw (other, after) (p, h)
    ]
  ]

  above_trans :
      (i j : ℕ) (m : StdMap ℕ V)
      → before_char i j ≡ true
      → All (λ e. before_char j e.0 ≡ true) m
      → All (λ e. before_char i e.0 ≡ true) m
  above_trans i j [] p h = tt
  above_trans i j (e ∷ m) p h = (ground (arith, p, h.0), above_trans i j m p h.1)

  -- An assignment keeps the order, for keys that are bytes.
  pub assign-IsAscending :
      (c : ℕ) (v : V) (m : StdMap ℕ V)
      → c < 256
      → All (λ e. e.0 < 256) m
      → IsAscending m
      → IsAscending (assign c v m) × All (λ e. e.0 < 256) (assign c v m)
  unfolding assign
  assign-IsAscending c v [] small bytes h = ((tt, tt), (small, tt))
  assign-IsAscending c v ((j, u) ∷ m) small bytes h = elim (Bool-cases (j == c)) [
    | inl same ↦
        let e : j ≡ c = (==_iff j c).0 same in rw (same) ((rw e at h.0, h.1), (small, bytes.1))
    | inr other ↦ elim (Bool-cases (before_char j c)) [
      | inl before ↦
          let (rest, below) = assign-IsAscending c v m small bytes.1 h.1 in
          rw (other, before) ((assign-above j c v m before h.0, rest), (bytes.0, below))
      | inr after ↦
          let first : before_char c j ≡ true =
            lt→ltb _ _ (ground (arith, bytes.0, small, other, after)) in
          rw (other, after) (((first, above_trans c j m first h.0), h), (small, bytes))
    ]
  ]
