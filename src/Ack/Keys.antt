-- ===== src/Ack/Keys.antt =====
-- An answer stands in a queue that the waiter for its command looks at, and in no other command's.
use litearm_cpp.Base.{◌≡◌, arith, true}
use litearm_cpp.Ack.{QueueKey, same_key}

pub same_key→≡ : (a b : QueueKey) → same_key a b ≡ true → a ≡ b
same_key→≡ a b h = ground arith

pub same_key_refl : (a : QueueKey) → same_key a a ≡ true
same_key_refl a = ground arith
