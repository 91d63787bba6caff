-- ===== src/Server/Listen/Cleanup.antt =====
-- A round of `destroyClientThreads` of src/TFTPServer.cpp, and its end, on a map of threads in order.
use tftp.Base.{
  ℕ, suc, ◌<◌, true, false, ◌≡◌, refl, ap, ◌∙◌, some, List, [], ◌∷◌, if◌then◌else◌, Bool-cases, inl,
  inr, ==-self, arith,
}
use tftp.Base.Names.{number_key}
use tftp.Base.StdMap.{erase}
use tftp.Server.Listen.{Entry, ThreadMap, joined_keys, erase_keys, destroy_round, destroy_all}
use tftp.Server.Listen.Threads.{IsOrdered, IsOrdered-weaken, erase_below}

-- The entries that are not done.
abbrev pub remaining : ThreadMap → ThreadMap
remaining [] = []
remaining ((id, entry) ∷ threads) =
    let rest = remaining threads in if entry.done then rest else (id, entry) ∷ rest

done_ids : ThreadMap → List ℕ
done_ids [] = []
done_ids ((id, entry) ∷ threads) =
    let rest = done_ids threads in if entry.done then id ∷ rest else rest

joined_keys_lem :
    (low high : ℕ) (threads : ThreadMap)
    → IsOrdered low high threads
    → joined_keys threads ≡ some (done_ids threads)
unfolding joined_keys done_ids
joined_keys_lem low high [] o = refl
joined_keys_lem low high ((id, entry) ∷ threads) o =
    let rest = joined_keys_lem (suc id) high threads o.2 in
    elim (Bool-cases entry.done) [ inl e ↦ rw (e, o.1.1, rest) | inr e ↦ rw (e, rest) ]

erase_other :
    (k id : ℕ) (entry : Entry) (threads : ThreadMap)
    → id < k
    → erase k ((id, entry) ∷ threads) ≡ (id, entry) ∷ erase k threads
unfolding erase
erase_other k id entry threads lt = ground arith

erase_front :
    (id high : ℕ) (entry : Entry) (threads : ThreadMap)
    → IsOrdered (suc id) high threads
    → erase id ((id, entry) ∷ threads) ≡ threads
unfolding erase
erase_front id high entry threads o =
    let same = ==-self id in rw same (erase_below id (suc id) high threads o (omega arith))

-- Ids behind an entry do not erase it.
erase_keys_behind :
    (id low high : ℕ) (entry : Entry) (threads behind : ThreadMap)
    → IsOrdered low high behind
    → id < low
    → erase_keys (done_ids behind) ((id, entry) ∷ threads)
      ≡ (id, entry) ∷ erase_keys (done_ids behind) threads
unfolding erase_keys done_ids
erase_keys_behind id low high entry threads [] o lt = refl
erase_keys_behind id low high entry threads ((k, done) ∷ behind) o lt =
    elim (Bool-cases done.done) [
      | inl e ↦ rw e (
          ap (erase_keys (done_ids behind)) (erase_other k id entry threads (omega (arith, o.0)))
          ∙ erase_keys_behind id (suc k) high entry (erase k threads) behind o.2
              (omega (arith, o.0)))
      | inr e ↦
          rw e (erase_keys_behind id (suc k) high entry threads behind o.2 (omega (arith, o.0)))
    ]

erase_keys-remaining :
    (low high : ℕ) (threads : ThreadMap)
    → IsOrdered low high threads
    → erase_keys (done_ids threads) threads ≡ remaining threads
unfolding erase_keys done_ids
erase_keys-remaining low high [] o = refl
erase_keys-remaining low high ((id, entry) ∷ threads) o = elim (Bool-cases entry.done) [
  | inl e ↦ rw e (
      ap (erase_keys (done_ids threads))
        (erase_front id high (record entry { done = true }) threads o.2)
      ∙ erase_keys-remaining (suc id) high threads o.2)
  | inr e ↦ rw e (
      erase_keys_behind id (suc id) high (record entry { done = false }) threads threads o.2
        (omega arith)
      ∙ ap (◌∷◌ (id, record entry { done = false }))
          (erase_keys-remaining (suc id) high threads o.2))
]

-- On a map of threads with ascending ids, a round of destroyClientThreads joins only threads, and
-- leaves in order the entries that are not done.
pub destroy_round-remaining :
    (low high : ℕ) (threads : ThreadMap)
    → IsOrdered low high threads
    → destroy_round threads ≡ some (remaining threads)
unfolding destroy_round
destroy_round-remaining low high threads o =
    rw (joined_keys_lem low high threads o) (ap some (erase_keys-remaining low high threads o))

pub remaining-IsOrdered :
    (low high : ℕ) (threads : ThreadMap)
    → IsOrdered low high threads
    → IsOrdered low high (remaining threads)
remaining-IsOrdered low high [] o = o
remaining-IsOrdered low high ((id, entry) ∷ threads) o =
    let rest = remaining-IsOrdered (suc id) high threads o.2 in
    elim (Bool-cases entry.done) [
      | inl e ↦ rw e (
          IsOrdered-weaken (suc id) low high high (remaining threads) (omega (arith, o.0))
            (omega arith) rest)
      | inr e ↦ rw e (o.0, o.1, rest)
    ]

-- At the end every entry is a thread that can be joined.
pub destroy_all_lem :
    (low high : ℕ) (threads : ThreadMap)
    → IsOrdered low high threads
    → destroy_all threads ≡ some []
unfolding destroy_all
destroy_all_lem low high [] o = refl
destroy_all_lem low high ((id, entry) ∷ threads) o =
    rw o.1.1 (destroy_all_lem (suc id) high threads o.2)
