-- ===== src/Server/Listen/Early.antt =====
-- A client thread of src/TFTPServer.cpp that ends before `start` has assigned its entry.
use tftp.Base.{
  ℕ, true, false, ◌≡◌, refl, ◌∙◌, none, some, [], ◌∷◌, ltb, Bool-cases, Option-cases, inl, inr,
  arith,
}
use tftp.Base.Names.{number_key}
use tftp.Base.StdMap.{find, insert, erase, place, find-place, same_self}
use tftp.Server.Listen.{
  Request, Entry, ThreadMap, assign_thread, finish_thread, joined_keys, destroy_round,
}
use tftp.Server.Listen.Threads.{insert_free}

-- What `clientThreads[clientId]` makes, with its flag set.
abbrev no_thread : Entry
no_thread = record { thread = none; done = true }

erase_absent : (k : ℕ) (threads : ThreadMap) → find k threads ≡ none → erase k threads ≡ threads
unfolding find erase
erase_absent k [] h = refl
erase_absent k ((id, entry) ∷ threads) h = ground (arith, erase_absent k threads)

erase-place :
    (k : ℕ) (entry : Entry) (threads : ThreadMap)
    → find k threads ≡ none
    → erase k (place k entry threads) ≡ threads
unfolding find erase place
erase-place k entry [] h = ground arith
erase-place k entry ((id, old) ∷ threads) h =
    ground (arith, erase-place k entry threads, erase_absent k threads)

joined_keys-place : (k : ℕ) (threads : ThreadMap) → joined_keys (place k no_thread threads) ≡ none
unfolding joined_keys place
joined_keys-place k [] = refl
joined_keys-place k ((id, entry) ∷ threads) =
    let rest = joined_keys-place k threads in
    elim (Bool-cases (ltb id k)) [
      | inr e ↦ rw e
      | inl e ↦ rw e (elim (Bool-cases entry.done) [
        | inl f ↦
            rw f (elim (Option-cases entry.thread) [ inl g ↦ rw g | inr (r, g) ↦ rw (g, rest) ])
        | inr f ↦ rw (f, rest)
      ])
    ]

finish_thread_absent :
    (id : ℕ) (threads : ThreadMap)
    → find id threads ≡ none
    → finish_thread id threads ≡ place id no_thread threads
unfolding finish_thread
finish_thread_absent id threads h = rw (finish_thread, h) (insert_free id no_thread threads h)

assign_thread-empty :
    (id : ℕ) (request : Request) (threads : ThreadMap)
    → find id threads ≡ some no_thread
    → assign_thread id request threads
      ≡ some (insert id (record { thread = some request; done = false }) (erase id threads))
unfolding assign_thread
assign_thread-empty id request threads h = rw (assign_thread, h)

-- Where an id has no entry yet, the end of its thread is lost: the entry assigned after it is the
-- one that would have been assigned without it, not done. And a round of destroyClientThreads
-- between the two joins an entry without a thread, and throws.
pub finish_thread_early :
    (id : ℕ) (request : Request) (threads : ThreadMap)
    → find id threads ≡ none
    → (assign_thread id request (finish_thread id threads)
        ≡ some (insert id (record { thread = some request; done = false }) threads))
      × (destroy_round (finish_thread id threads) ≡ none)
unfolding destroy_round
finish_thread_early id request threads h =
    let made = finish_thread_absent id threads h in
    let found : find id (place id no_thread threads) ≡ some no_thread =
      find-place id id no_thread threads h ∙ rw (same_self id) in
    (
      rw made (
          assign_thread-empty id request (place id no_thread threads) found
          ∙ rw (erase-place id no_thread threads h)),
      rw (made, joined_keys-place id threads),
    )
