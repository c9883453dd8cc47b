-- ===== src/Agent/Memory/Numbering.antt =====
-- The messages of a session are numbered 1, 2, 3 and so on, in the order in which they came.
use placement_assistant.Prelude.{
  ℕ, ◌+◌, ◌≡◌, refl, List, [], ◌∷◌, ◌++◌, keep, keep-append, length, arith, Result, ok, err,
  continue, ◌==◌, Bool-cases, inl, inr, ap, ==_iff,
}
use mathlib.Core.List.{append-nil}
use placement_assistant.Database.{
  Db, Principal, ConversationSession, ConversationMessage, greatest, column_or_zero,
}
use placement_assistant.Database.Numbering.{CountsFrom, CountsFrom-append, last_number}
use placement_assistant.Agent.Memory.{
  get_or_create_session, session_of, owned_student, append_message, add_message, Draft, in_session,
  number, message,
}

abbrev pub IsNumbered : Db → Type 0
IsNumbered db = (id : ℕ) → CountsFrom number 1 (keep (in_session id) db.messages)

numbered_extension :
    (id other : ℕ) (draft : Draft) (ms : List ConversationMessage) (n : ℕ)
    → CountsFrom number 1 (keep (in_session other) ms)
    → (id ≡ other → n ≡ 1 + length (keep (in_session other) ms))
    → CountsFrom number 1 (keep (in_session other) (ms ++ message id n draft ∷ []))
unfolding keep
numbered_extension id other draft ms n h next = rw keep-append (elim (Bool-cases (id == other)) [
  | inl same ↦ rw same (
      CountsFrom-append number 1 (keep (in_session other) ms) _ h (next ((==_iff id other).0 same)))
  | inr differ ↦ rw (differ, append-nil) h
])

pub append_message-IsNumbered :
    (id : ℕ) (draft : Draft) (db : Db) → IsNumbered db → IsNumbered (append_message id draft db).1
unfolding append_message
append_message-IsNumbered id draft db h other =
    numbered_extension id other draft db.messages _ (h other) λ same.
      rw (ap (λ i. column_or_zero number (greatest number (keep (in_session i) db.messages))) same)
        (omega (arith, last_number number (keep (in_session other) db.messages) (h other)))

-- Opening a conversation writes no message.
messages-session_of :
    (p : Principal) (c now student_id : ℕ) (db : Db)
    → (session_of p c now student_id db).1.messages ≡ db.messages
unfolding session_of
messages-session_of p c now student_id db = ground arith

messages-owned_student : (p : Principal) (db : Db) → (owned_student p db).1 ≡ db
unfolding owned_student
messages-owned_student p db = ground arith

messages-continue :
    (p : Principal) (c now : ℕ) (db : Db) (r : Result ℕ)
    → (continue r (session_of p c now) db).1.messages ≡ db.messages
messages-continue p c now db (err e) = refl
messages-continue p c now db (ok student_id) = messages-session_of p c now student_id db

pub messages-get_or_create_session :
    (p : Principal) (c now : ℕ) (db : Db)
    → (get_or_create_session p c now db).1.messages ≡ db.messages
unfolding get_or_create_session
messages-get_or_create_session p c now db =
    rw messages-owned_student (messages-continue p c now db (owned_student p db).0)

continue-IsNumbered :
    (draft : Draft) (r : Result ConversationSession) (db : Db)
    → IsNumbered db
    → IsNumbered (continue r (λ s. append_message s.id draft) db).1
continue-IsNumbered draft (err e) db h = h
continue-IsNumbered draft (ok s) db h = append_message-IsNumbered s.id draft db h

-- Whoever adds a message, and whether the call succeeds or raises, every session's messages stay
-- numbered from 1 on without a gap.
pub add_message-IsNumbered :
    (p : Principal) (c now : ℕ) (draft : Draft) (db : Db)
    → IsNumbered db
    → IsNumbered (add_message p c now draft db).1
unfolding add_message
add_message-IsNumbered p c now draft db h =
    continue-IsNumbered draft (get_or_create_session p c now db).0
      (get_or_create_session p c now db).1 (λ id. rw messages-get_or_create_session (h id))
