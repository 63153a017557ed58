-- ===== src/Broker/Execution/Request.antt =====
-- What a client may ask of the broker, the bytes that ask it, and what the broker is to do: a
-- description by the topics' names, with no bytes of a command taken apart.
use ikp_projekat.Common.{ℕ, Option, none, some, List, [], ◌∷◌, ◌++◌, leb, if◌then◌else◌, ◌>>=◌}
use ikp_projekat.Memory.{Block, hashtag, same_text}
use ikp_projekat.Memory.Heap.{Ptr}
use ikp_projekat.Memory.Text.{Avoids, terminated}
use ikp_projekat.Memory.Decimal.{itoa_s}
use ikp_projekat.Broker.SocketList.{subscriber_list_max_size}
use ikp_projekat.Broker.Subscribers.{add, remove}
use ikp_projekat.Broker.Topic.{Topic}
use ikp_projekat.Broker.Execution.{Broker, enqueue}

-- Each with the topic's name; to publish, also with the message.
pub data Request : Type 0 where
  publish : List ℕ → List ℕ → Request
  subscribe : List ℕ → Request
  exists : List ℕ → Request
  count : List ℕ → Request
  unsubscribe : List ℕ → Request

abbrev pub number : Request → ℕ
number (publish t m) = b'2'
number (subscribe t) = b'3'
number (exists t) = b'4'
number (count t) = b'5'
number (unsubscribe t) = b'6'

abbrev pub topic_of : Request → List ℕ
topic_of (publish t m) = t
topic_of (subscribe t) = t
topic_of (exists t) = t
topic_of (count t) = t
topic_of (unsubscribe t) = t

-- The command behind its first hashtag, with its null byte and the bytes that follow in the buffer.
abbrev pub command : Request → Block → Block
command (publish t m) rest = b'2' ∷ hashtag ∷ (t ++ hashtag ∷ terminated m rest)
command r rest = terminated (number r ∷ hashtag ∷ topic_of r) rest

-- The texts have no null byte, and the topic of a published message no hashtag.
abbrev pub WellFormed : Request → Type 0
WellFormed (publish t m) = Avoids 0 t × Avoids hashtag t × Avoids 0 m
WellFormed r = Avoids 0 (topic_of r)

-- The first topic with a name, and the topics with another one in its place.
unfoldable pub named : List Topic → List ℕ → Option Topic
named [] name = none
named (t ∷ ts) name = if same_text t.name name then some t else named ts name

unfoldable pub replaced : List Topic → List ℕ → Topic → List Topic
replaced [] name t' = []
replaced (t ∷ ts) name t' = if same_text t.name name then t' ∷ ts else t ∷ replaced ts name t'

-- What the stats manager is told of a request: all but the message.
abbrev pub notice : Request → Block
notice r = terminated (hashtag ∷ number r ∷ hashtag ∷ topic_of r) []

abbrev pub noted : Request → Broker → List Topic → Broker
noted r b topics = record { topics = topics; notifications = b.notifications ++ notice r ∷ [] }

module _ (b : Broker) (socket : Ptr) where
  -- For a topic that does not exist.
  abbrev pub refused : Request → Option (Broker × Option Block)
  refused (exists t) = some (b, some (b'0' ∷ 0 ∷ []))
  refused (count t) = some (b, some (hashtag ∷ 0 ∷ []))
  refused r = some (b, none)

  -- For a topic that exists.
  abbrev pub served : Topic → Request → Option (Broker × Option Block)
  served x (publish t m) =
      some (
        noted (publish t m) b (replaced b.topics t (enqueue x (terminated (hashtag ∷ m) []))),
        none,
      )
  served x (subscribe t) =
      if leb x.subscribers.size subscriber_list_max_size
      then some (
        noted (subscribe t) b
            (replaced b.topics t (record x { subscribers = add x.subscribers socket })),
        none,
      )
      else some (b, none)
  served x (exists t) = some (noted (exists t) b b.topics, some (b'1' ∷ 0 ∷ []))
  served x (count t) = do
    digits ← itoa_s x.subscribers.size 6
    some (noted (count t) b b.topics, some digits)
  served x (unsubscribe t) =
      let (found, subscribers) = remove x.subscribers socket in
      let topics = replaced b.topics t (record x { subscribers = subscribers }) in
      if found
      then some (noted (unsubscribe t) b topics, none)
      else some (record b { topics = topics }, none)

  abbrev pub answer : Option Topic → Request → Option (Broker × Option Block)
  answer none r = refused r
  answer (some x) r = served x r

  unfoldable pub perform : Request → Option (Broker × Option Block)
  perform r = answer (named b.topics (topic_of r)) r
