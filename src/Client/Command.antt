-- ===== src/Client/Command.antt =====
-- PubSub/Client/command_creation.cpp: how a client builds the bytes of a command.
pub mod Bytes
use ikp_projekat.Common.{
  ℕ, ◌+◌, Option, none, some, List, [], ◌∷◌, ◌++◌, ◌==◌, if◌then◌else◌, ◌>>=◌,
}
use ikp_projekat.Memory.{Block, hashtag, malloc, store, put, load, strlen}

-- The macro `THIRD_HASHTAG_OFFSET`, given the length of the topic's name.
abbrev pub third_hashtag_offset : ℕ → ℕ
third_hashtag_offset topic_name_length = 1 + 1 + topic_name_length + 1

-- `message` is a pointer that may be null; `message_size` is the source's `message_length + 1`,
-- which is 0 for a null pointer. No byte is read through a null pointer then.
pub message_size : Option Block → Option ℕ
message_size none = some 0
message_size (some message) = do n ← strlen message; some (n + 1)

pub load_message : Option Block → ℕ → Option Block
load_message none n = if n == 0 then some [] else none
load_message (some message) n = load message n

module _ (garbage : ℕ → ℕ) where
  pub create_publish_command : ℕ → ℕ → Block → Option Block → Option Block
  create_publish_command topic_name_length size topic_name message = do
    let command = malloc garbage (1 + 1 + 1 + topic_name_length + 1 + size)
    command ← put command 0 hashtag
    command ← put command 1 b'2'
    command ← put command 2 hashtag
    topic_bytes ← load topic_name topic_name_length
    command ← store command 3 topic_bytes
    n ← strlen topic_name
    command ← put command (third_hashtag_offset n) hashtag
    message_bytes ← load_message message size
    store command (third_hashtag_offset n + 1) message_bytes

  pub create_nonpublish_command : ℕ → ℕ → Block → Option Block
  create_nonpublish_command command_num topic_name_length topic_name = do
    let command = malloc garbage (1 + 1 + 1 + (topic_name_length + 1))
    command ← put command 0 hashtag
    command ← put command 1 command_num
    command ← put command 2 hashtag
    topic_bytes ← load topic_name (topic_name_length + 1)
    store command 3 topic_bytes

  pub create_command : ℕ → Block → Option Block → Option Block
  unfolding message_size
  create_command command_num topic_name message = do
    topic_name_length ← strlen topic_name
    size ← message_size message
    if command_num == b'2'
        then create_publish_command topic_name_length size topic_name message
        else create_nonpublish_command command_num topic_name_length topic_name
