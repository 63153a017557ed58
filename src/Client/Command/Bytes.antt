-- ===== src/Client/Command/Bytes.antt =====
-- The bytes that `create_command` leaves in the block that it returns.
use ikp_projekat.Common.{
  ℕ, ◌+◌, ◌≤◌, ◌≡◌, refl, ◌≢◌, none, some, List, [], ◌∷◌, ◌++◌, arith, ==_of_ne, length, drop,
  drop_all, length-append, length-drop, append_assoc, append-nil,
}
use ikp_projekat.Memory.{Block, hashtag, malloc, put, store}
use ikp_projekat.Memory.Text.{
  Avoids, Avoids-append, terminated, strlen-terminated, load-append, load-terminated,
}
use ikp_projekat.Memory.Fill.{length-malloc, store-next}
use ikp_projekat.Client.Command.{
  third_hashtag_offset, create_publish_command, create_nonpublish_command, create_command,
  load_message,
}

-- The text of a publish command, and of any other, from its first hashtag on.
abbrev pub publish_text : List ℕ → List ℕ → List ℕ
publish_text topic message = hashtag ∷ b'2' ∷ hashtag ∷ (topic ++ hashtag ∷ message)

abbrev pub plain_text : ℕ → List ℕ → List ℕ
plain_text command_num topic = hashtag ∷ command_num ∷ hashtag ∷ topic

pub publish_text-Avoids :
    (topic message : List ℕ)
    → Avoids 0 topic
    → Avoids 0 message
    → Avoids 0 (publish_text topic message)
publish_text-Avoids topic message clean clean_message = (
  (λ e. omega arith),
  (
    (λ e. omega arith),
    (
      (λ e. omega arith),
      Avoids-append 0 topic (hashtag ∷ message) clean ((λ e. omega arith), clean_message),
    ),
  ),
)

pub plain_text-Avoids :
    (command_num : ℕ) (topic : List ℕ)
    → command_num ≢ 0
    → Avoids 0 topic
    → Avoids 0 (plain_text command_num topic)
plain_text-Avoids command_num topic not_null clean =
    ((λ e. omega arith), (not_null, ((λ e. omega arith), clean)))

nil_of_length : (xs : Block) → length xs ≡ 0 → xs ≡ []
nil_of_length [] h = refl
nil_of_length (x ∷ xs) h = absurd (omega arith)

-- The three writes that both kinds of command begin with.
module _ (block : Block) (c : ℕ) (room : 3 ≤ length block) where
  first_hashtag : put block 0 hashtag ≡ some (hashtag ∷ drop 1 block)
  first_hashtag = store-next [] block (hashtag ∷ []) 0 refl (omega arith)

  number : put (hashtag ∷ drop 1 block) 1 c ≡ some (hashtag ∷ c ∷ drop 1 (drop 1 block))
  number = store-next (hashtag ∷ []) (drop 1 block) (c ∷ []) 1 refl (omega (arith, length-drop {0}))

  second_hashtag :
      put (hashtag ∷ c ∷ drop 1 (drop 1 block)) 2 hashtag
      ≡ some (hashtag ∷ c ∷ hashtag ∷ drop 1 (drop 1 (drop 1 block)))
  second_hashtag =
      store-next (hashtag ∷ c ∷ []) (drop 1 (drop 1 block)) (hashtag ∷ []) 2 refl
        (omega (arith, length-drop {0}))

module _ (garbage : ℕ → ℕ) (t : List ℕ) (r : Block) (clean : Avoids 0 t) where
  plain_written :
      (c : ℕ)
      → create_nonpublish_command garbage c (length t) (terminated t r)
        ≡ some (terminated (plain_text c t) [])
  unfolding create_nonpublish_command
  plain_written c =
      rw
        (
          first_hashtag fresh c (omega (arith, room)),
          number fresh c (omega (arith, room)),
          second_hashtag fresh c (omega (arith, room)),
          load-terminated t r,
        )
        (rw
          (store-next (hashtag ∷ c ∷ hashtag ∷ []) rest (t ++ 0 ∷ []) 3 refl
            (omega (arith, left, size)))
          (rw (drop_all rest (length (t ++ 0 ∷ [])) (omega (arith, left, size))) (rw append-nil)))
    where
      fresh : Block
      fresh = malloc garbage (1 + 1 + 1 + (length t + 1))

      room : length fresh ≡ 4 + length t
      room = omega (arith, length-malloc garbage (1 + 1 + 1 + (length t + 1)))

      rest : Block
      rest = drop 1 (drop 1 (drop 1 fresh))

      left : length rest ≡ length t + 1
      left = omega (arith, length-drop {0}, room)

      size : length (t ++ 0 ∷ []) ≡ length t + 1
      size = omega (arith, length-append t (0 ∷ []))

  module _ (m : List ℕ) (q : Block) (clean_message : Avoids 0 m) where
    publish_written :
        create_publish_command garbage
          (length t)
          (length m + 1)
          (terminated t r)
          (some (terminated m q))
        ≡ some (terminated (publish_text t m) [])
    unfolding create_publish_command load_message
    publish_written =
        rw
          (
            first_hashtag fresh b'2' (omega (arith, room)),
            number fresh b'2' (omega (arith, room)),
            second_hashtag fresh b'2' (omega (arith, room)),
            load-append t (0 ∷ r),
            strlen-terminated t r clean,
            load-terminated m q,
          )
          (rw (topic_stored, hashtag_stored, message_stored, nothing_left)
            (simp (append_assoc, append-nil)))
      where
        fresh : Block
        fresh = malloc garbage (1 + 1 + 1 + length t + 1 + (length m + 1))

        room : length fresh ≡ 5 + length t + length m
        room = omega (arith, length-malloc garbage (1 + 1 + 1 + length t + 1 + (length m + 1)))

        rest : Block
        rest = drop 1 (drop 1 (drop 1 fresh))

        left : length rest ≡ 2 + length t + length m
        left = omega (arith, length-drop {0}, room)

        topic_stored :
            store (hashtag ∷ b'2' ∷ hashtag ∷ rest) 3 t
            ≡ some ((hashtag ∷ b'2' ∷ hashtag ∷ t) ++ drop (length t) rest)
        topic_stored =
            store-next (hashtag ∷ b'2' ∷ hashtag ∷ []) rest t 3 refl (omega (arith, left))

        hashtag_stored :
            put
              ((hashtag ∷ b'2' ∷ hashtag ∷ t) ++ drop (length t) rest)
              (third_hashtag_offset (length t))
              hashtag
            ≡ some
                ((hashtag ∷ b'2' ∷ hashtag ∷ t) ++ (hashtag ∷ []) ++ drop 1 (drop (length t) rest))
        hashtag_stored =
            store-next (hashtag ∷ b'2' ∷ hashtag ∷ t) (drop (length t) rest) (hashtag ∷ [])
              (third_hashtag_offset (length t)) (omega arith) (omega (arith, left, length-drop {0}))

        message_stored :
            store
              ((hashtag ∷ b'2' ∷ hashtag ∷ t) ++ (hashtag ∷ []) ++ drop 1 (drop (length t) rest))
              (third_hashtag_offset (length t) + 1)
              (m ++ 0 ∷ [])
            ≡ some (
                (hashtag ∷ b'2' ∷ hashtag ∷ t)
                ++ (hashtag ∷ [])
                ++ (m ++ 0 ∷ [])
                ++ drop (length (m ++ 0 ∷ [])) (drop 1 (drop (length t) rest)))
        message_stored =
            store-next ((hashtag ∷ b'2' ∷ hashtag ∷ t) ++ (hashtag ∷ []))
              (drop 1 (drop (length t) rest)) (m ++ 0 ∷ []) (third_hashtag_offset (length t) + 1)
              (omega (arith, length-append t (hashtag ∷ [])))
              (omega (arith, left, length-drop {0}, length-append m (0 ∷ [])))

        nothing_left : drop (length (m ++ 0 ∷ [])) (drop 1 (drop (length t) rest)) ≡ []
        nothing_left =
            drop_all (drop 1 (drop (length t) rest)) (length (m ++ 0 ∷ []))
              (omega (arith, left, length-drop {0}, length-append m (0 ∷ [])))

    -- For a topic's name and a message without null bytes, `create_command` with the number '2'
    -- stays inside its blocks and returns just "#2#<topic>#<message>" and a null byte, whatever
    -- `malloc` left in the block.
    pub create_command-publish :
        create_command garbage b'2' (terminated t r) (some (terminated m q))
        ≡ some (terminated (publish_text t m) [])
    unfolding create_command
    create_command-publish =
        rw (strlen-terminated t r clean, strlen-terminated m q clean_message) publish_written

  -- For a topic's name without null bytes, `create_command` with any other number stays inside its
  -- blocks and returns just "#<number>#<topic>" and a null byte, with no message given.
  pub create_command-plain :
      (c : ℕ)
      → c ≢ b'2'
      → create_command garbage c (terminated t r) none ≡ some (terminated (plain_text c t) [])
  unfolding create_command
  create_command-plain c other =
      rw (strlen-terminated t r clean, ==_of_ne c b'2' other) (plain_written c)
