-- ===== src/Base/StdMap.antt =====
-- `std::map` as the list of its entries in the order of its keys, and the operations that the
-- program uses. A key's order decides where an entry is put, and so the order of iteration.
use mathlib.Core.Path.{◌≡◌, refl}
use mathlib.Core.Logic.{◌↔◌}
use mathlib.Core.Bool.{Bool, true}
use mathlib.Core.Option.{Option, none, some}
use mathlib.Core.List.{List, [], ◌∷◌}
use native.Mathlib.Omega.{arith}
use tftp.Base.Tests.{if◌then◌else◌}

-- A key type: equality, and `operator<`.
pub record Key (K : Type 0) : Type 0 where
  pub same : K → K → Bool
  pub before : K → K → Bool
  pub same_iff : (a b : K) → (same a b ≡ true) ↔ (a ≡ b)

abbrev pub StdMap : Type 0 → Type 0 → Type 0
StdMap K V = List (K × V)

pub same_self : {K : Type 0} ⦃key : Key K⦄ (k : K) → key.same k k ≡ true
same_self ⦃key⦄ k = (key.same_iff k k).1 refl

module _ {K V : Type 0} ⦃key : Key K⦄ where
  -- `find`: `none` is `end()`.
  unfoldable pub find : K → StdMap K V → Option V
  find k [] = none
  find k ((j, v) ∷ m) = if key.same j k then some v else find k m

  -- A new entry in its place.
  unfoldable pub place : K → V → StdMap K V → StdMap K V
  place k v [] = (k, v) ∷ []
  place k v ((j, w) ∷ m) = if key.before j k then (j, w) ∷ place k v m else (k, v) ∷ (j, w) ∷ m

  -- `insert` leaves an entry that is there.
  unfoldable pub insert : K → V → StdMap K V → StdMap K V
  insert k v m = elim (find k m) [ some w ↦ m | none ↦ place k v m ]

  -- `erase`; a map has one entry for a key at most.
  unfoldable pub erase : K → StdMap K V → StdMap K V
  erase k [] = []
  erase k ((j, v) ∷ m) = if key.same j k then erase k m else (j, v) ∷ erase k m

  pub find-place :
      (k j : K) (v : V) (m : StdMap K V)
      → find k m ≡ none
      → find j (place k v m) ≡ (if key.same k j then some v else find j m)
  unfolding find place
  find-place k j v [] absent = refl
  find-place k j v ((i, w) ∷ m) absent =
      ground (arith, find-place k j v m, key.same_iff i k, key.same_iff k j, key.same_iff i j)

  -- An entry that is there stays; else the new one is found.
  pub find-insert :
      (k j : K) (v : V) (m : StdMap K V)
      → find j (insert k v m)
        ≡ elim (find j m) [ some w ↦ some w | none ↦ if key.same k j then some v else none ]
  unfolding insert
  find-insert k j v m = ground (arith, find-place k j v m, key.same_iff k j)

  pub find-erase :
      (k j : K) (m : StdMap K V) → find j (erase k m) ≡ (if key.same k j then none else find j m)
  unfolding find erase
  find-erase k j [] = ground arith
  find-erase k j ((i, w) ∷ m) =
      ground (arith, find-erase k j m, key.same_iff i k, key.same_iff k j, key.same_iff i j)

  -- The entry erased and put back with another value.
  pub find-insert-erase :
      (k j : K) (v : V) (m : StdMap K V)
      → find j (insert k v (erase k m)) ≡ (if key.same k j then some v else find j m)
  find-insert-erase k j v m =
      ground (arith, find-insert k j v (erase k m), find-erase k j m, same_self k, find-erase k k m)
