-- ===== src/Agent/Memory/History.antt =====
-- What a conversation's owner reads back.
use placement_assistant.Prelude.{ℕ, ◌+◌, List, [], ◌∷◌, ◌++◌, keep, length}
use placement_assistant.Database.{Db, ConversationMessage}
use placement_assistant.Agent.Memory.{Draft, in_session, message}

pub added : ℕ → Draft → Db → ConversationMessage
added c draft db = message c (length (keep (in_session c) db.messages) + 1) draft

extended : ℕ → Draft → Db → Db
extended c draft db = record db { messages = db.messages ++ added c draft db ∷ [] }
