-- ===== src/Protocol.antt =====
-- The command format that PubSub/Client/command_creation.cpp and
-- PubSub/Broker/command_execution.cpp share: what a client builds, the broker takes apart.
use ikp_projekat.Common.{ℕ, ◌≡◌, ◌≢◌, some, none, List, [], ◌∷◌, ◌++◌, append_assoc, drop, ◌>>=◌}
use ikp_projekat.Memory.{Block, hashtag}
use ikp_projekat.Memory.Text.{Avoids, terminated}
use ikp_projekat.Client.Command.{create_command}
use ikp_projekat.Client.Command.Bytes.{create_command-publish, create_command-plain}
use ikp_projekat.Broker.Parsing.{extract_for_publish, extract_topic_name}
use ikp_projekat.Broker.Parsing.Extract.{extract_for_publish_lem, extract_topic_name_lem}

-- The receive buffer from a command's first hashtag on: the command's bytes, then the rest.
abbrev pub received : Block → Block → Block
received command rest = command ++ rest

module _ (garbage : ℕ → ℕ) (fresh : ℕ → ℕ → ℕ) (t : List ℕ) (r rest : Block)
    (clean : Avoids 0 t) where
  -- The topic's name that the broker extracts from a command other than a publish command is the
  -- one that the client was given, wherever in the receive buffer the command stands.
  pub extract_topic_name-create_command :
      (c : ℕ)
      → c ≢ 0
      → c ≢ b'2'
      → (do
        command ← create_command garbage c (terminated t r) none
        extract_topic_name fresh (drop 1 (received command rest)))
        ≡ some (terminated t [])
  extract_topic_name-create_command c h other =
      rw (create_command-plain garbage t r clean c other, append_assoc t (0 ∷ []) rest)
        (extract_topic_name_lem fresh t rest clean c h)

  module _ (m : List ℕ) (q : Block) (clean_message : Avoids 0 m) (plain : Avoids hashtag t) where
    -- What the broker extracts from a publish command is the topic's name that the client was given,
    -- which has no hashtag, and a hashtag before the message that the client was given.
    pub extract_for_publish-create_command :
        (do
          command ← create_command garbage b'2' (terminated t r) (some (terminated m q))
          extract_for_publish fresh (drop 1 (received command rest)))
        ≡ some (terminated t [], terminated (hashtag ∷ m) [])
    extract_for_publish-create_command =
        rw (create_command-publish garbage t r clean m q clean_message, shape)
          (extract_for_publish_lem fresh t rest clean m plain clean_message)
      where
        shape : (t ++ hashtag ∷ m) ++ 0 ∷ [] ++ rest ≡ t ++ hashtag ∷ (m ++ 0 ∷ rest)
        shape = simp append_assoc
