-- ===== src/Compression/Characters/Counts.antt =====
-- The frequencies that `deflate` counts.
use tftp.Base.{
  ℕ, ◌+◌, ◌<◌, Bytes, ◌≡◌, refl, subst, true, [], ◌∷◌, length, ◌==◌, ==_iff, inl, inr, Bool-cases,
  arith, All,
}
use tftp.Base.StdMap.{StdMap}
use tftp.Compression.Characters.{before_char, assign, frequency_of, count_chars}
use tftp.Compression.Characters.Entries.{
  IsAmong, Has, IsAscending, assign-Has_self, assign-Has_other, assign-IsAscending,
}

-- The sum of the frequencies.
abbrev pub total : StdMap ℕ ℕ → ℕ
total [] = 0
total ((c, f) ∷ m) = f + total m

-- A key below all others is not among them.
frequency_of-absent :
    (c : ℕ) (m : StdMap ℕ ℕ) → All (λ e. before_char c e.0 ≡ true) m → frequency_of m c ≡ 0
unfolding frequency_of
frequency_of-absent c [] h = refl
frequency_of-absent c ((j, f) ∷ m) h = ground (arith, h.0, frequency_of-absent c m h.1)

above_lower :
    (c j : ℕ) (m : StdMap ℕ ℕ)
    → before_char c j ≡ true
    → All (λ e. before_char j e.0 ≡ true) m
    → All (λ e. before_char c e.0 ≡ true) m
above_lower c j [] p h = tt
above_lower c j (e ∷ m) p h = (ground (arith, p, h.0), above_lower c j m p h.1)

-- An assignment trades a character's frequency.
total-assign :
    (c v : ℕ) (m : StdMap ℕ ℕ)
    → c < 256
    → All (λ e. e.0 < 256) m
    → IsAscending m
    → total (assign c v m) + frequency_of m c ≡ total m + v
unfolding assign frequency_of
total-assign c v [] small bytes h = omega arith
total-assign c v ((j, f) ∷ m) small bytes h = elim (Bool-cases (j == c)) [
  | inl same ↦ rw same (omega arith)
  | inr other ↦ elim (Bool-cases (before_char j c)) [
    | inl before ↦ rw (other, before) (omega (arith, total-assign c v m small bytes.1 h.1))
    | inr after ↦
        let first : before_char c j ≡ true = ground (arith, small, bytes.0, other, after) in
        let none_there = frequency_of-absent c m (above_lower c j m first h.0) in
        rw (other, after) (omega (arith, none_there))
  ]
]

-- What is counted of a text behind a map.
pub record AreCounted (m : StdMap ℕ ℕ) (text : Bytes) (n : StdMap ℕ ℕ) : Type 0 where
  pub ascending : IsAscending n
  pub bytes : All (λ e. e.0 < 256) n
  pub sum : total n ≡ total m + length text
  pub old : (k f : ℕ) → Has k f m → (g : ℕ) × Has k g n
  pub counted : (k : ℕ) → IsAmong k text → (g : ℕ) × Has k g n

Has-counted : (k f c : ℕ) (v : ℕ) (m : StdMap ℕ ℕ) → Has k f m → (g : ℕ) × Has k g (assign c v m)
Has-counted k f c v m h = elim (Bool-cases (c == k)) [
  | inl same ↦
      let e : c ≡ k = (==_iff c k).0 same in
      (v, subst (λ (i : ℕ). Has i v (assign c v m)) e (assign-Has_self c v m))
  | inr other ↦ (f, assign-Has_other k c f v m (λ e. ground (arith, e, other)) h)
]

pub count_chars-AreCounted :
    (m : StdMap ℕ ℕ) (text : Bytes)
    → IsAscending m
    → All (λ e. e.0 < 256) m
    → All (λ c. c < 256) text
    → AreCounted m text (count_chars m text)
unfolding count_chars
count_chars-AreCounted m [] up small bytes = record {
  ascending = up;
  bytes = small;
  sum = omega arith;
  old = λ k f h. (f, h);
  counted = λ k h. absurd h;
}
count_chars-AreCounted m (c ∷ text) up small bytes =
    let (up', small') = assign-IsAscending c (frequency_of m c + 1) m bytes.0 small up in
    let r = count_chars-AreCounted (assign c (frequency_of m c + 1) m) text up' small' bytes.1 in
    record {
      ascending = r.ascending;
      bytes = r.bytes;
      sum = omega (arith, r.sum, total-assign c (frequency_of m c + 1) m bytes.0 small up);
      old = λ k f h. let (g, h') = Has-counted k f c (frequency_of m c + 1) m h in r.old k g h';
      counted = λ k h. elim h [
        | inl e ↦ r.old k (frequency_of m c + 1) (
            subst (λ (i : ℕ). Has i (frequency_of m c + 1) (assign c (frequency_of m c + 1) m)) e
              (assign-Has_self c (frequency_of m c + 1) m))
        | inr rest ↦ r.counted k rest
      ];
    }
