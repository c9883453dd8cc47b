-- ===== src/Agent/Memory/Ownership.antt =====
-- A conversation belongs to the student who opened it.
use placement_assistant.Prelude.{
  ℕ, ◌≡◌, refl, true, false, ◌>>=◌, Option, none, some, opt_eq, List, Has, Has-map, find, find-Has,
  find-passes, or_raise, pure, Result, Error, [], ◌∷◌, keep, keep-keep, arith, ok, err, permission,
  sym, ◌∙◌, Bool-cases, inl, inr, ap, continue,
}
use placement_assistant.Database.{Db, Principal, Student, ConversationSession, one_or_none}
use placement_assistant.Agent.Memory.{
  owned_student, is_student, owns, has_id, owned_session, get_or_create_session, session_of, Draft,
  add_message, get_raw_messages, get_messages,
}

-- The database has one session of that id, and it is `t`.
abbrev pub IsSession : Db → ℕ → ConversationSession → Type 0
IsSession db c t = keep (has_id c) db.sessions ≡ t ∷ []

-- The caller is the student, at the institution, whose session it is.
abbrev pub IsOwner : Principal → Db → ConversationSession → Type 0
IsOwner p db t = (t.institution_id ≡ p.institution_id) × ((owned_student p db).0 ≡ ok t.student_id)

pub db-owned_student : (p : Principal) (db : Db) → (owned_student p db).1 ≡ db
unfolding owned_student
db-owned_student p db = ground arith

-- The student `student_id` is the one that the token names: a student of the caller's institution
-- whose user is the token's.
abbrev pub IsOwnStudent : Principal → Db → ℕ → Type 0
IsOwnStudent p db student_id =
    Has
      (λ s. (s.id ≡ student_id) × (s.institution_id ≡ p.institution_id) × (s.user_id ≡ some p.sub))
      db.students

named_by : (o : Option ℕ) (n : ℕ) → opt_eq o (some n) ≡ true → o ≡ some n
named_by none n h = cc
named_by (some m) n h = ground (arith, h)

find-IsOwnStudent :
    (p : Principal) (db : Db) (students : List Student) (s : Student)
    → find (owns p db) students ≡ some s
    → Has
        (λ t. (t.id ≡ s.id) × (t.institution_id ≡ p.institution_id) × (t.user_id ≡ some p.sub))
        students
unfolding owns
find-IsOwnStudent p db students s found =
    let passed = find-passes (owns p db) students s found in
    Has-map (λ t. t ≡ s) _
      (λ t same.
        rw same (refl, ground (arith, passed), named_by s.user_id p.sub (ground (arith, passed))))
      students (find-Has (owns p db) students s found)

id_of_found :
    (o : Option Student) (db : Db) (student_id : ℕ)
    → ((or_raise permission o >>= λ s. pure s.id) db).0 ≡ ok student_id
    → (s : Student) × (o ≡ some s) × (s.id ≡ student_id)
id_of_found none db student_id h = cc
id_of_found (some s) db student_id h = (s, refl, ground (arith, h))

pub owned_student-IsOwnStudent :
    (p : Principal) (db : Db) (student_id : ℕ)
    → (owned_student p db).0 ≡ ok student_id
    → IsOwnStudent p db student_id
unfolding owned_student
owned_student-IsOwnStudent p db student_id h = elim (Bool-cases (is_student p.role)) [
  | inl allowed ↦
      let (s, found, same) =
        id_of_found (find (owns p db) db.students) db student_id (rw allowed at h) in
      rw (← same) (find-IsOwnStudent p db db.students s found)
  | inr other ↦ cc (rw other at h)
]

owned_student-error :
    (p : Principal) (db : Db) (e : Error) → (owned_student p db).0 ≡ err e → e ≡ permission
unfolding owned_student
owned_student-error p db e h = ground arith

owned_session-id :
    (c institution student_id : ℕ) (s : ConversationSession)
    → owned_session c institution student_id s ≡ true
    → (has_id c s ≡ true) × (s.institution_id ≡ institution) × (s.student_id ≡ student_id)
unfolding owned_session
owned_session-id c institution student_id s h = ground arith

owned_sessions :
    (c institution student_id : ℕ) (db : Db) (t : ConversationSession)
    → IsSession db c t
    → keep (owned_session c institution student_id) db.sessions
      ≡ keep (owned_session c institution student_id) (t ∷ [])
owned_sessions c institution student_id db t h =
    sym (
      keep-keep (has_id c) (owned_session c institution student_id)
        (λ s owned. (owned_session-id c institution student_id s owned).0) db.sessions)
    ∙ ap (keep (owned_session c institution student_id)) h

-- A student who is not the owner of the session gets nothing.
session_of-denied :
    (p : Principal) (c now student_id : ℕ) (db : Db) (t : ConversationSession)
    → IsSession db c t
    → owned_session c p.institution_id student_id t ≡ false
    → session_of p c now student_id db ≡ (err permission, db)
unfolding session_of keep one_or_none
session_of-denied p c now student_id db t h foreign =
    rw (owned_sessions c p.institution_id student_id db t h, foreign, h)

continue-denied :
    (p : Principal) (c now : ℕ) (db : Db) (t : ConversationSession) (r : Result ℕ)
    → (owned_student p db).0 ≡ r
    → IsSession db c t
    → ¬ IsOwner p db t
    → continue r (session_of p c now) db ≡ (err permission, db)
continue-denied p c now db t (err e) owner h other = cc (owned_student-error p db e owner)
continue-denied p c now db t (ok student_id) owner h other =
    elim (Bool-cases (owned_session c p.institution_id student_id t)) [
      | inl mine ↦
          let (_, same_place, same_student) =
            owned_session-id c p.institution_id student_id t mine in
          absurd (other (same_place, rw same_student owner))
      | inr foreign ↦ session_of-denied p c now student_id db t h foreign
    ]

pub get_or_create_session-denied :
    (p : Principal) (c now : ℕ) (db : Db) (t : ConversationSession)
    → IsSession db c t
    → ¬ IsOwner p db t
    → get_or_create_session p c now db ≡ (err permission, db)
unfolding get_or_create_session
get_or_create_session-denied p c now db t h other =
    rw db-owned_student (continue-denied p c now db t (owned_student p db).0 refl h other)

pub get_raw_messages-denied :
    (p : Principal) (c now : ℕ) (db : Db) (t : ConversationSession)
    → IsSession db c t
    → ¬ IsOwner p db t
    → get_raw_messages p c now db ≡ (err permission, db)
unfolding get_raw_messages
get_raw_messages-denied p c now db t h other =
    rw (get_or_create_session-denied p c now db t h other)

-- A caller who is not the owner of a conversation, of whatever role or institution, can neither
-- open it nor read it nor write to it: every call raises PermissionError and changes nothing.
pub conversation_denied :
    (p : Principal) (c now : ℕ) (draft : Draft) (db : Db) (t : ConversationSession)
    → IsSession db c t
    → ¬ IsOwner p db t
    → (get_or_create_session p c now db ≡ (err permission, db))
      × (add_message p c now draft db ≡ (err permission, db))
      × (get_raw_messages p c now db ≡ (err permission, db))
      × (get_messages p c now db ≡ (err permission, db))
unfolding add_message get_messages
conversation_denied p c now draft db t h other =
    let denied = get_or_create_session-denied p c now db t h other in
    (denied, rw denied, get_raw_messages-denied p c now db t h other, rw denied)

session_of-owned :
    (p : Principal) (c now student_id : ℕ) (db : Db) (t : ConversationSession)
    → IsSession db c t
    → owned_session c p.institution_id student_id t ≡ true
    → session_of p c now student_id db ≡ (ok t, db)
unfolding session_of keep one_or_none
session_of-owned p c now student_id db t h mine =
    rw (owned_sessions c p.institution_id student_id db t h, mine)

owned_session_lem :
    (c : ℕ) (t : ConversationSession)
    → t.id ≡ c
    → owned_session c t.institution_id t.student_id t ≡ true
unfolding owned_session
owned_session_lem c t named = ground arith

-- The owner of a conversation opens it as it stands, and nothing changes.
pub get_or_create_session-owner :
    (p : Principal) (c now : ℕ) (db : Db) (t : ConversationSession)
    → IsSession db c t
    → t.id ≡ c
    → IsOwner p db t
    → get_or_create_session p c now db ≡ (ok t, db)
unfolding get_or_create_session
get_or_create_session-owner p c now db t h named (place, owner) =
    rw (db-owned_student, owner)
      (session_of-owned p c now t.student_id db t h
        (ap (λ i. owned_session c i t.student_id t) (sym place) ∙ owned_session_lem c t named))
