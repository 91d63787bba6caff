-- ===== src/Server/Listen/Threads.antt =====
-- The map of the client threads: the operations on it keep the ids in order below the next one.
use tftp.Base.{
  ℕ, suc, ◌≤◌, ◌<◌, true, false, ◌≡◌, refl, ap, ◌∙◌, sym, none, some, [], ◌∷◌, ltb, ◌==◌,
  Bool-cases, inl, inr, arith,
}
use tftp.Base.Names.{number_key}
use tftp.Base.StdMap.{find, insert, erase, place, find-erase, same_self}
use tftp.Server.Listen.{Request, Entry, ThreadMap, assign_thread, finish_thread}

abbrev pub HasThread : Entry → Type 0
HasThread entry = (request : Request) × (entry.thread ≡ some request)

-- Every entry has a thread, and the ids ascend from `low` to below `high`.
abbrev pub IsOrdered : ℕ → ℕ → ThreadMap → Type 0
IsOrdered low high [] = low ≤ high
IsOrdered low high ((id, entry) ∷ threads) =
    (low ≤ id) × HasThread entry × IsOrdered (suc id) high threads

pub IsOrdered-weaken :
    (low lower high higher : ℕ) (threads : ThreadMap)
    → lower ≤ low
    → high ≤ higher
    → IsOrdered low high threads
    → IsOrdered lower higher threads
IsOrdered-weaken low lower high higher [] l h o = omega arith
IsOrdered-weaken low lower high higher ((id, entry) ∷ threads) l h o =
    (omega arith, o.1, IsOrdered-weaken (suc id) (suc id) high higher threads (omega arith) h o.2)

pub IsOrdered-le : (low high : ℕ) (threads : ThreadMap) → IsOrdered low high threads → low ≤ high
IsOrdered-le low high [] o = o
IsOrdered-le low high ((id, entry) ∷ threads) o =
    omega (arith, IsOrdered-le (suc id) high threads o.2)

find_below :
    (k low high : ℕ) (threads : ThreadMap)
    → IsOrdered low high threads
    → k < low
    → find k threads ≡ none
unfolding find
find_below k low high [] o lt = refl
find_below k low high ((id, entry) ∷ threads) o lt =
    ground (arith, find_below k (suc id) high threads o.2)

pub find_above :
    (k low high : ℕ) (threads : ThreadMap)
    → IsOrdered low high threads
    → high ≤ k
    → find k threads ≡ none
unfolding find
find_above k low high [] o le = refl
find_above k low high ((id, entry) ∷ threads) o le =
    ground
      (arith, find_above k (suc id) high threads o.2 le, IsOrdered-le (suc id) high threads o.2)

pub erase_below :
    (k low high : ℕ) (threads : ThreadMap)
    → IsOrdered low high threads
    → k < low
    → erase k threads ≡ threads
unfolding erase
erase_below k low high [] o lt = refl
erase_below k low high ((id, entry) ∷ threads) o lt =
    let rest = erase_below k (suc id) high threads o.2 in ground (arith, rest (omega arith))

place-IsOrdered :
    (k low high : ℕ) (entry : Entry) (threads : ThreadMap)
    → HasThread entry
    → low ≤ k
    → k < high
    → find k threads ≡ none
    → IsOrdered low high threads
    → IsOrdered low high (place k entry threads)
unfolding place find
place-IsOrdered k low high entry [] t l h absent o = (l, t, omega arith)
place-IsOrdered k low high entry ((id, old) ∷ threads) t l h absent o =
    elim (Bool-cases (ltb id k)) [
      | inl e ↦ rw e (
        o.0,
        o.1,
        place-IsOrdered k (suc id) high entry threads t (ground arith) h (ground arith) o.2,
      )
      | inr e ↦ rw e (l, t, (ground arith, o.1, o.2))
    ]

erase-IsOrdered :
    (k low high : ℕ) (threads : ThreadMap)
    → IsOrdered low high threads
    → IsOrdered low high (erase k threads)
unfolding erase
erase-IsOrdered k low high [] o = o
erase-IsOrdered k low high ((id, entry) ∷ threads) o = elim (Bool-cases (id == k)) [
  | inl e ↦ rw e (
      erase-IsOrdered k low high threads
        (IsOrdered-weaken (suc id) low high high threads (omega arith) (omega arith) o.2))
  | inr e ↦ rw e (o.0, o.1, erase-IsOrdered k (suc id) high threads o.2)
]

find-thread :
    (k low high : ℕ) (entry : Entry) (threads : ThreadMap)
    → IsOrdered low high threads
    → find k threads ≡ some entry
    → (low ≤ k) × (k < high) × HasThread entry
unfolding find
find-thread k low high entry [] o e = cc e
find-thread k low high entry ((id, old) ∷ threads) o e = elim (Bool-cases (id == k)) [
  | inl same ↦
      let here : old ≡ entry = ground (arith, e) in
      let le = IsOrdered-le (suc id) high threads o.2 in
      (ground (arith, o.0), ground arith, (o.1.0, ap (λ (x : Entry). x.thread) (sym here) ∙ o.1.1))
  | inr other ↦
      let behind : find k threads ≡ some entry = rw other at e in
      let (l, h, t) = find-thread k (suc id) high entry threads o.2 behind in (omega arith, h, t)
]

pub assign_thread-free :
    (id : ℕ) (request : Request) (threads : ThreadMap)
    → find id threads ≡ none
    → assign_thread id request threads
      ≡ some (insert id (record { thread = some request; done = false }) threads)
unfolding assign_thread
assign_thread-free id request threads h = rw (assign_thread, h)

pub insert_free :
    (k : ℕ) (entry : Entry) (threads : ThreadMap)
    → find k threads ≡ none
    → insert k entry threads ≡ place k entry threads
unfolding insert
insert_free k entry threads h = rw (insert, h)

-- A thread is entered under the next id, which no entry has: the program does not end.
pub assign_thread-IsOrdered :
    (low id : ℕ) (request : Request) (threads : ThreadMap)
    → IsOrdered low id threads
    → (after : ThreadMap) × (assign_thread id request threads ≡ some after)
      × IsOrdered low (suc id) after
assign_thread-IsOrdered low id request threads o =
    let entry : Entry = record { thread = some request; done = false } in
    let absent = find_above id low id threads o (omega arith) in
    (
      place id entry threads,
      assign_thread-free id request threads absent ∙ ap some (insert_free id entry threads absent),
      place-IsOrdered id low (suc id) entry threads (request, refl) (IsOrdered-le low id threads o)
          (omega arith) absent
          (IsOrdered-weaken low low id (suc id) threads (omega arith) (omega arith) o),
    )

pub finish_thread-IsOrdered :
    (k low high : ℕ) (old : Entry) (threads : ThreadMap)
    → IsOrdered low high threads
    → find k threads ≡ some old
    → IsOrdered low high (finish_thread k threads)
unfolding finish_thread
finish_thread-IsOrdered k low high old threads o found =
    let (l, h, t) = find-thread k low high old threads o found in
    let gone : find k (erase k threads) ≡ none = find-erase k k threads ∙ rw (same_self k) in
    rw (finish_thread, found, insert_free k (record old { done = true }) (erase k threads) gone)
      (place-IsOrdered k low high (record old { done = true }) (erase k threads) t l h gone
        (erase-IsOrdered k low high threads o))
