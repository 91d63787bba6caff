-- ===== src/Server/Sessions/Count.antt =====
-- The reader count of a file is the number of its readers, in every interleaving.
use tftp.Base.{
  ℕ, suc, ◌+◌, ◌<◌, ◌≤◌, ◌&&◌, length, Bytes, true, ◌≡◌, inl, inr, refl, ap, sym, ◌∙◌, subst,
  Option, none, some, List, [], ◌∷◌, ltb, if◌then◌else◌, Bool-cases, ltb→lt, arith,
}
use tftp.Base.Int.{ℤ, pos, succ, pred}
use tftp.Base.Names.{text_key, same_text, same_text_iff}
use tftp.Base.StdMap.{find, insert, erase, find-insert, find-erase, same_self}
use tftp.Server.{
  FileMap, file_exists, can_delete, add_reader, remove_reader, readers_of, initialize_file_map,
}
use tftp.Server.Readers.{find-add_reader, find-remove_reader, can_delete→found}
use tftp.Server.Sessions.{
  Sessions, Action, begin_read, end_read, complete_write, delete, count, release, act, acts,
}

-- An entry and a number of readers: a name that is not in the table has none.
abbrev pub Agrees : Option ℤ → ℕ → Type 0
Agrees none c = c ≡ 0
Agrees (some n) c = n ≡ pos c

abbrev pub IsCounted : Sessions → Type 0
IsCounted s = (name : Bytes) → Agrees (find name s.files) (count name s.reading)

count-release :
    (name other : Bytes) (reading : List Bytes)
    → 0 < count name reading
    → count other reading ≡ (
        if same_text name other
        then suc (count other (release name reading))
        else count other (release name reading))
unfolding count release
count-release name other [] h = absurd (omega arith)
count-release name other (held ∷ reading) h = ground (
  arith,
  count-release name other reading,
  same_text_iff held name,
  same_text_iff held other,
  same_text_iff name other,
)

count-release_self :
    (name : Bytes) (reading : List Bytes)
    → 0 < count name reading
    → count name reading ≡ suc (count name (release name reading))
count-release_self name reading h = count-release name name reading h ∙ rw (same_self name)

count-begin :
    (name other : Bytes) (reading : List Bytes)
    → count other (name ∷ reading)
      ≡ (if same_text name other then suc (count other reading) else count other reading)
unfolding count
count-begin name other reading = refl

readers_of-count :
    (name : Bytes) (files : FileMap) (c : ℕ)
    → Agrees (find name files) c
    → readers_of name files ≡ pos c
unfolding readers_of
readers_of-count name files c = counted (find name files)
  where
    counted : (o : Option ℤ) → Agrees o c → elim o [ some readers ↦ readers | none ↦ pos 0 ] ≡ pos c
    counted none h = ap pos (sym h)
    counted (some n) h = h

begin-IsCounted :
    (s : Sessions) (name : Bytes)
    → file_exists name s.files ≡ true
    → IsCounted s
    → IsCounted (record { files = add_reader name s.files; reading = name ∷ s.reading })
begin-IsCounted s name h inv other =
    rw (find-add_reader name other s.files, count-begin name other s.reading)
      (elim (Bool-cases (same_text name other)) [
        | inl e ↦ rw e (
            subst (λ o. succ (readers_of name s.files) ≡ pos (suc (count o s.reading)))
              ((same_text_iff name other).0 e)
              (ap succ (readers_of-count name s.files (count name s.reading) (inv name))))
        | inr e ↦ rw e (inv other)
      ])

end-IsCounted :
    (s : Sessions) (name : Bytes)
    → 0 < count name s.reading
    → IsCounted s
    → IsCounted (record { files = remove_reader name s.files; reading = release name s.reading })
end-IsCounted s name h inv other =
    rw (find-remove_reader name other s.files) (elim (Bool-cases (same_text name other)) [
      | inl e ↦ rw e (
          subst (λ o. pred (readers_of name s.files) ≡ pos (count o (release name s.reading)))
            ((same_text_iff name other).0 e)
            (ap pred (
              readers_of-count name s.files (count name s.reading) (inv name)
              ∙ ap pos (count-release_self name s.reading h))))
      | inr e ↦ rw e (
          subst (λ c. Agrees (find other s.files) c) (count-release name other s.reading h ∙ rw e)
            (inv other))
    ])

complete-IsCounted :
    (s : Sessions) (name : Bytes)
    → IsCounted s
    → IsCounted (record s { files = insert name (pos 0) s.files })
complete-IsCounted s name inv other =
    rw (find-insert name other (pos 0) s.files) (entered (find other s.files) (inv other))
  where
    entered :
        (o : Option ℤ)
        → Agrees o (count other s.reading)
        → Agrees
            (elim o [
              | some w ↦ some w
              | none ↦ if same_text name other then some (pos 0) else none
            ])
            (count other s.reading)
    entered none h = ground (arith, h)
    entered (some n) h = h

-- A file that is deleted has no reader.
pub delete-count :
    (s : Sessions) (name : Bytes)
    → can_delete name s.files ≡ true
    → IsCounted s
    → count name s.reading ≡ 0
delete-count s name h inv =
    let zero_readers : Agrees (some (pos 0)) (count name s.reading) =
      subst (λ o. Agrees o (count name s.reading)) (can_delete→found name s.files h) (inv name) in
    ground (arith, zero_readers)

delete-IsCounted :
    (s : Sessions) (name : Bytes)
    → can_delete name s.files ≡ true
    → IsCounted s
    → IsCounted (record s { files = erase name s.files })
delete-IsCounted s name h inv other =
    rw (find-erase name other s.files) (elim (Bool-cases (same_text name other)) [
      | inl e ↦ rw e (
          ap (λ n. count n s.reading) (sym ((same_text_iff name other).0 e))
          ∙ delete-count s name h inv)
      | inr e ↦ rw e (inv other)
    ])

pub act-IsCounted : (s : Sessions) (a : Action) → IsCounted s → IsCounted (act s a)
unfolding act
act-IsCounted s (begin_read name) inv = elim (Bool-cases (file_exists name s.files)) [
  | inl h ↦ rw h (begin-IsCounted s name h inv)
  | inr h ↦ rw h inv
]
act-IsCounted s (end_read name) inv = elim (Bool-cases (ltb 0 (count name s.reading))) [
  | inl h ↦ rw h (end-IsCounted s name (ltb→lt _ _ h) inv)
  | inr h ↦ rw h inv
]
act-IsCounted s (complete_write name) inv = complete-IsCounted s name inv
act-IsCounted s (delete name gone) inv = elim (Bool-cases (can_delete name s.files)) [
  | inr h ↦ rw h inv
  | inl h ↦ elim (Bool-cases gone) [
    | inl g ↦ rw (h, g) (delete-IsCounted s name h inv)
    | inr g ↦ rw (h, g) inv
  ]
]

acts-IsCounted : (s : Sessions) (actions : List Action) → IsCounted s → IsCounted (acts s actions)
unfolding acts
acts-IsCounted s [] inv = inv
acts-IsCounted s (a ∷ actions) inv = acts-IsCounted (act s a) actions (act-IsCounted s a inv)

abbrev pub IsFresh : FileMap → Type 0
IsFresh files = (name : Bytes) → Agrees (find name files) 0

initialize_file_map-IsFresh :
    (names : List Bytes) (files : FileMap)
    → IsFresh files
    → IsFresh (initialize_file_map names files)
unfolding initialize_file_map count
initialize_file_map-IsFresh [] files h = h
initialize_file_map-IsFresh (name ∷ names) files h =
    initialize_file_map-IsFresh names (insert name (pos 0) files)
      (complete-IsCounted (record { files = files; reading = [] }) name h)

-- The server as it starts, over the files of the directory.
abbrev pub started : List Bytes → Sessions
started names = record { files = initialize_file_map names []; reading = [] }

started-IsCounted : (names : List Bytes) → IsCounted (started names)
unfolding count
started-IsCounted names = initialize_file_map-IsFresh names [] empty
  where
    empty : IsFresh []
    empty name = unfold find in refl

-- An action makes one thread a reader at most.
count-act :
    (s : Sessions) (a : Action) (name : Bytes)
    → count name (act s a).reading ≤ suc (count name s.reading)
unfolding act
count-act s (begin_read other) name = elim (Bool-cases (file_exists other s.files)) [
  | inl e ↦ rw e (ground (arith, count-begin other name s.reading))
  | inr e ↦ rw e (omega arith)
]
count-act s (end_read other) name = elim (Bool-cases (ltb 0 (count other s.reading))) [
  | inl e ↦
      rw e (ground (arith, count-release other name s.reading (ltb→lt 0 (count other s.reading) e)))
  | inr e ↦ rw e (omega arith)
]
count-act s (complete_write other) name = omega arith
count-act s (delete other gone) name = elim (Bool-cases (can_delete other s.files && gone)) [
  | inl e ↦ rw e (omega arith)
  | inr e ↦ rw e (omega arith)
]

count-acts :
    (s : Sessions) (actions : List Action) (name : Bytes)
    → count name (acts s actions).reading ≤ count name s.reading + length actions
unfolding acts
count-acts s [] name = omega arith
count-acts s (a ∷ actions) name =
    omega (arith, count-act s a name, count-acts (act s a) actions name)

-- In every order, from the start of the server, of the starts and ends of reads, the ends of
-- complete writes and the deletes, where each of them does all its accesses to the table before
-- another one starts, which no lock of the program ensures: the count of a file of the table is
-- the number of threads that read it, a name that is not in the table has no reader, and no
-- number of readers is above the number of actions, so that an int holds it for fewer than 2^31.
pub acts-counted :
    (names : List Bytes) (actions : List Action) (name : Bytes)
    → let s = acts (started names) actions in
      Agrees (find name s.files) (count name s.reading) × (count name s.reading ≤ length actions)
unfolding count
acts-counted names actions name = (
  acts-IsCounted (started names) actions (started-IsCounted names) name,
  omega (arith, count-acts (started names) actions name),
)
