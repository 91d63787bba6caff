-- ===== src/Packet/Store.antt =====
-- Writes into a buffer of which the front is already written.
use tftp.Base.{
  ℕ, zero, suc, ◌+◌, ◌<◌, ◌≤◌, Bytes, ◌≡◌, refl, ap, some, [], ◌∷◌, ◌++◌, append_assoc, inl, inr,
  length, drop, length-append, set-prefix, ◌==◌, if◌then◌else◌, lt→ltb, Bool-cases, arith,
}
use tftp.Packet.{store, copy_string}

-- What the copying loop leaves of a text: all of it, or up to its first NUL, that one included.
abbrev pub copied : Bytes → Bytes
copied [] = []
copied (c ∷ text) = let rest = copied text in c ∷ (if c == 0 then [] else rest)

pub copied-le : (text : Bytes) → length (copied text) ≤ length text
copied-le [] = omega arith
copied-le (c ∷ text) = ground (arith, copied-le text)

-- Text with no NUL in it, which is copied whole.
abbrev pub NulFree : Bytes → Type 0
NulFree [] = Unit {0}
NulFree (c ∷ text) = (0 < c) × NulFree text

pub copied_all : (text : Bytes) → NulFree text → copied text ≡ text
copied_all [] h = refl
copied_all (c ∷ text) h = ground (arith, copied_all text h.1)

pub store-front :
    (front : Bytes) (x : ℕ) (old : Bytes) (n v : ℕ)
    → length front ≡ n
    → store (front ++ x ∷ old) n v ≡ some (front ++ v ∷ old)
unfolding store
store-front front x old n v h =
    let room : n < length (front ++ x ∷ old) = omega (arith, length-append front (x ∷ old)) in
    ground (arith, lt→ltb n (length (front ++ x ∷ old)) room, set-prefix front x old n v h)

-- One more byte of the front.
front_snoc : (front : Bytes) (c : ℕ) (old : Bytes) → (front ++ c ∷ []) ++ old ≡ front ++ c ∷ old
front_snoc front c old = append_assoc front (c ∷ []) old

length-snoc : (front : Bytes) (c : ℕ) → length (front ++ c ∷ []) ≡ length front + 1
length-snoc front c = omega (arith, length-append front (c ∷ []))

regroup :
    (text front old : Bytes) (c n : ℕ) (written : Bytes) {i : ℕ}
    → copy_string ((front ++ c ∷ []) ++ old) n text ≡ some (i, (front ++ c ∷ []) ++ written)
    → copy_string (front ++ c ∷ old) n text ≡ some (i, front ++ c ∷ written)
regroup text front old c n written h = rw (front_snoc front c old, front_snoc front c written) at h

-- The loop writes `copied text` behind the front, and keeps what follows.
pub copy_string-front :
    (text front old : Bytes) (n : ℕ)
    → length front ≡ n
    → length (copied text) ≤ length old
    → copy_string (front ++ old) n text
      ≡ some (n + length (copied text), front ++ (copied text ++ drop (length (copied text)) old))
unfolding copy_string
copy_string-front [] front old n h room = ground arith
copy_string-front (c ∷ text) front [] n h room = absurd (omega arith)
copy_string-front (c ∷ text) front (x ∷ old) n h room =
    rw (store-front front x old n c h) (elim (Bool-cases (c == 0)) [
      | inl e ↦ rw e (ap (λ (i : ℕ). some (i, front ++ c ∷ old)) (omega arith))
      | inr e ↦
          rw
            (
              e,
              regroup text front old c (n + 1) (copied text ++ drop (length (copied text)) old) (
                  copy_string-front text (front ++ c ∷ []) old (n + 1)
                    (omega (arith, length-snoc front c)) (ground (arith, e, room))),
            )
            (ap (λ (i : ℕ). some (i, front ++ c ∷ (copied text ++ drop (length (copied text)) old)))
              (omega arith))
    ])

-- The same behind a front that ends in `c`.
pub copy_string-snoc :
    (text front old : Bytes) (c n : ℕ)
    → length front + 1 ≡ n
    → length (copied text) ≤ length old
    → copy_string (front ++ c ∷ old) n text
      ≡ some
          (n + length (copied text), front ++ c ∷ (copied text ++ drop (length (copied text)) old))
copy_string-snoc text front old c n h room =
    regroup text front old c n (copied text ++ drop (length (copied text)) old)
      (copy_string-front text (front ++ c ∷ []) old n (omega (arith, length-snoc front c)) room)

drop_split : (old : Bytes) (k : ℕ) → k < length old → (x : ℕ) × (drop k old ≡ x ∷ drop (suc k) old)
drop_split [] k h = elim h [ ]
drop_split (x ∷ old) zero h = (x, refl)
drop_split (x ∷ old) (suc k) h = drop_split old k (omega arith)

-- A write just behind the front, with `k` bytes of the old buffer overwritten so far.
pub store-drop :
    (front old : Bytes) (k n v : ℕ)
    → length front ≡ n
    → k < length old
    → store (front ++ drop k old) n v ≡ some (front ++ v ∷ drop (suc k) old)
store-drop front old k n v h room =
    let (x, e) = drop_split old k room in rw e (store-front front x (drop (suc k) old) n v h)

-- The same where the front ends in `c` and a text.
pub store-drop_snoc :
    (front : Bytes) (c : ℕ) (text old : Bytes) (k n v : ℕ)
    → length front + 1 + length text ≡ n
    → k < length old
    → store (front ++ c ∷ (text ++ drop k old)) n v
      ≡ some (front ++ c ∷ (text ++ v ∷ drop (suc k) old))
store-drop_snoc front c text old k n v h room =
    rw
      (
        append_assoc front (c ∷ text) (drop k old),
        append_assoc front (c ∷ text) (v ∷ drop (suc k) old),
      )
      at
      (store-drop (front ++ c ∷ text) old k n v (omega (arith, length-append front (c ∷ text)))
        room)
