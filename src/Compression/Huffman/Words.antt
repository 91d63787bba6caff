-- ===== src/Compression/Huffman/Words.antt =====
-- `codeWordLength` of `generateHuffmanCodes`: the codes under their characters.
use tftp.Base.{
  ℕ, ◌<◌, Bytes, ◌≡◌, ◌≢◌, refl, ◌∙◌, sym, subst, true, some, List, [], ◌∷◌, ◌++◌, length, All, ◌⊎◌,
  inl, inr, arith,
}
use tftp.Compression.{CodeTable}
use tftp.Compression.Characters.{assign}
use tftp.Compression.Characters.Entries.{
  IsAmong, AreDistinct, Has, IsAscending, Has-assign, assign-Has_self, assign-Has_other,
  assign-IsAscending,
}
use tftp.Compression.Huffman.{code_words}
use tftp.Compression.Huffman.Order.{comes_before, not_before_extension, not_extension_before}
use tftp.Compression.Huffman.Codes.{IsOrdered}

-- The code at a character's place.
abbrev pub Gives : ℕ → Bytes → List ℕ → List Bytes → Type 0
Gives k w [] cs = ⊥
Gives k w (c ∷ chars) [] = ⊥
Gives k w (c ∷ chars) (code ∷ cs) = ((c ≡ k) × (code ≡ w)) ⊎ Gives k w chars cs

not-Gives :
    (k : ℕ) (w : Bytes) (chars : List ℕ) (cs : List Bytes)
    → All (λ d. d ≢ k) chars
    → Gives k w chars cs
    → ⊥
not-Gives k w [] cs h g = g
not-Gives k w (c ∷ chars) [] h g = g
not-Gives k w (c ∷ chars) (code ∷ cs) h (inl e) = h.0 e.0
not-Gives k w (c ∷ chars) (code ∷ cs) h (inr g) = not-Gives k w chars cs h.1 g

pub Gives-unique :
    (k : ℕ) (w v : Bytes) (chars : List ℕ) (cs : List Bytes)
    → AreDistinct chars
    → Gives k w chars cs
    → Gives k v chars cs
    → w ≡ v
Gives-unique k w v [] cs d g h = absurd g
Gives-unique k w v (c ∷ chars) [] d g h = absurd g
Gives-unique k w v (c ∷ chars) (code ∷ cs) d (inl e) (inl f) = sym e.1 ∙ f.1
Gives-unique k w v (c ∷ chars) (code ∷ cs) d (inl e) (inr h) =
    absurd (not-Gives k v chars cs (rw (sym e.0) d.0) h)
Gives-unique k w v (c ∷ chars) (code ∷ cs) d (inr g) (inl f) =
    absurd (not-Gives k w chars cs (rw (sym f.0) d.0) g)
Gives-unique k w v (c ∷ chars) (code ∷ cs) d (inr g) (inr h) = Gives-unique k w v chars cs d.1 g h

pub Gives-All {κ} :
    (P : Bytes → Type κ) (k : ℕ) (w : Bytes) (chars : List ℕ) (cs : List Bytes)
    → All P cs
    → Gives k w chars cs
    → P w
Gives-All P k w [] cs h g = absurd g
Gives-All P k w (c ∷ chars) [] h g = absurd g
Gives-All P k w (c ∷ chars) (code ∷ cs) h (inl e) = subst P (e.1) h.0
Gives-All P k w (c ∷ chars) (code ∷ cs) h (inr g) = Gives-All P k w chars cs h.1 g

-- Two characters that are not at one place have codes in order.
Gives-before :
    (k j : ℕ) (w v : Bytes) (chars : List ℕ) (cs : List Bytes)
    → IsOrdered cs
    → Gives k w chars cs
    → Gives j v chars cs
    → (k ≡ j) ⊎ ((comes_before w v ≡ true) ⊎ (comes_before v w ≡ true))
Gives-before k j w v [] cs o g h = absurd g
Gives-before k j w v (c ∷ chars) [] o g h = absurd g
Gives-before k j w v (c ∷ chars) (code ∷ cs) o (inl e) (inl f) = inl (sym e.0 ∙ f.0)
Gives-before k j w v (c ∷ chars) (code ∷ cs) o (inl e) (inr h) =
    inr (inl (Gives-All (λ b. comes_before w b ≡ true) j v chars cs (rw (sym e.1) o.0) h))
Gives-before k j w v (c ∷ chars) (code ∷ cs) o (inr g) (inl f) =
    inr (inr (Gives-All (λ b. comes_before v b ≡ true) k w chars cs (rw (sym f.1) o.0) g))
Gives-before k j w v (c ∷ chars) (code ∷ cs) o (inr g) (inr h) =
    Gives-before k j w v chars cs o.1 g h

-- So a code that another one begins with is that of the same character.
pub Gives-prefix :
    (k j : ℕ) (w rest : Bytes) (chars : List ℕ) (cs : List Bytes)
    → IsOrdered cs
    → Gives k w chars cs
    → Gives j (w ++ rest) chars cs
    → k ≡ j
Gives-prefix k j w rest chars cs o g h = elim (Gives-before k j w (w ++ rest) chars cs o g h) [
  | inl same ↦ same
  | inr (inl before) ↦ absurd (ground (arith, before, not_before_extension w rest))
  | inr (inr after) ↦ absurd (ground (arith, after, not_extension_before w rest))
]

pub Gives-IsAmong :
    (k : ℕ) (chars : List ℕ) (cs : List Bytes)
    → length chars ≡ length cs
    → IsAmong k chars
    → (w : Bytes) × Gives k w chars cs
Gives-IsAmong k [] cs e h = absurd h
Gives-IsAmong k (c ∷ chars) [] e h = absurd (omega arith)
Gives-IsAmong k (c ∷ chars) (code ∷ cs) e (inl same) = (code, inl (same, refl))
Gives-IsAmong k (c ∷ chars) (code ∷ cs) e (inr h) =
    let (w, g) = Gives-IsAmong k chars cs (omega arith) h in (w, inr g)

pub Gives-first :
    (chars : List ℕ) (w : Bytes) (cs : List Bytes)
    → 0 < length chars
    → (k : ℕ) × Gives k w chars (w ∷ cs)
Gives-first [] w cs h = absurd (omega arith)
Gives-first (c ∷ chars) w cs h = (c, inl (refl, refl))

-- What the assignments leave of a table.
pub record AreWords (table : CodeTable) (chars : List ℕ) (cs : List Bytes) (t : CodeTable)
    : Type 0 where
  pub given : (k : ℕ) (w : Bytes) → Has k w t → Has k w table ⊎ Gives k w chars cs
  pub kept : (k : ℕ) (w : Bytes) → All (λ d. d ≢ k) chars → Has k w table → Has k w t
  pub found : (k : ℕ) (w : Bytes) → AreDistinct chars → Gives k w chars cs → Has k w t
  pub ascending :
      All (λ c. c < 256) chars → IsAscending table → All (λ e. e.0 < 256) table → IsAscending t

pub code_words-AreWords :
    (table : CodeTable) (chars : List ℕ) (cs : List Bytes)
    → length chars ≡ length cs
    → (t : CodeTable) × (code_words table chars cs ≡ some t) × AreWords table chars cs t
unfolding code_words
code_words-AreWords table [] cs e = (
  table,
  refl,
  record {
    given = λ k w h. inl h;
    kept = λ k w d h. h;
    found = λ k w d g. absurd g;
    ascending = λ b h small. h;
  },
)
code_words-AreWords table (c ∷ chars) [] e = absurd (omega arith)
code_words-AreWords table (c ∷ chars) (code ∷ cs) e =
    let (t, got, a) = code_words-AreWords (assign c code table) chars cs (omega arith) in
    (
      t,
      got,
      record {
        given = λ k w h. elim (a.given k w h) [
          | inl old ↦ elim (Has-assign k c w code table old) [
            | inl new ↦ inr (inl new)
            | inr older ↦ inl older
          ]
          | inr g ↦ inr (inr g)
        ];
        kept = λ k w d h. a.kept k w d.1 (assign-Has_other k c w code table (λ s. d.0 (sym s)) h);
        found = λ k w d g. elim g [
          | inl e ↦ rw (sym e.0, sym e.1) (a.kept c code d.0 (assign-Has_self c code table))
          | inr rest ↦ a.found k w d.1 rest
        ];
        ascending = λ b h small.
            let next = assign-IsAscending c code table b.0 small h in a.ascending b.1 next.0 next.1;
      },
    )
