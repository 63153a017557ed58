-- ===== src/Broker/Parsing/Extract.antt =====
-- What the broker extracts from a well-formed command.
use ikp_projekat.Common.{
  ℕ, suc, ◌+◌, ◌-◌, ◌≤◌, ◌≡◌, refl, ◌≢◌, ◌∙◌, ap, some, List, [], ◌∷◌, ◌++◌, arith, ==_of_ne,
  length, drop, drop_all, drop-append_add, not_ltb, length-append, length-drop, append_assoc,
  append-nil,
}
use ikp_projekat.Memory.{Block, hashtag, malloc, put, strlen, strcpy_s}
use ikp_projekat.Memory.Text.{Avoids, Avoids-append, terminated, strlen-terminated, load-append}
use ikp_projekat.Memory.Fill.{length-malloc, store-next, strcpy_s-next, text_stored, null_stored}
use ikp_projekat.Broker.Parsing.{find_hashtag, extract_for_publish, extract_topic_name}

pub find_hashtag-append :
    (t : List ℕ) (rest : Block) (i : ℕ)
    → Avoids hashtag t
    → find_hashtag (t ++ hashtag ∷ rest) i ≡ some (i + length t)
unfolding find_hashtag
find_hashtag-append [] rest i h = ap some (omega arith)
find_hashtag-append (x ∷ xs) rest i h =
    rw (==_of_ne x hashtag h.0, find_hashtag-append xs rest (i + 1) h.1) (ap some (omega arith))

module _ (garbage : ℕ → ℕ → ℕ) (t : List ℕ) (rest : Block) (clean : Avoids 0 t) where
  -- From "<number>#<topic>" and a null byte, the number not null, `extract_topic_name` copies just
  -- the topic's name and its null byte, within its blocks.
  pub extract_topic_name_lem :
      (c : ℕ)
      → c ≢ 0
      → extract_topic_name garbage (terminated (c ∷ hashtag ∷ t) rest) ≡ some (terminated t [])
  unfolding extract_topic_name
  extract_topic_name_lem c h =
      rw (strlen-terminated (c ∷ hashtag ∷ t) rest (h, ((λ e. omega arith), clean)), size)
        (rw (strcpy_s-next [] fresh t rest 0 (suc (length t)) clean refl refl (omega (arith, room)))
          (rw (drop_all fresh (suc (length t)) (omega (arith, room))) (rw append-nil)))
    where
      fresh : Block
      fresh = malloc (garbage 0) (suc (length t))

      room : length fresh ≡ suc (length t)
      room = length-malloc (garbage 0) (suc (length t))

      size : suc (suc (length t)) + 1 - 2 ≡ suc (length t)
      size = omega arith

  -- From "2#<topic>#<message>" and a null byte, where the topic's name has no hashtag,
  -- `extract_for_publish` copies the topic's name, and a hashtag with the message behind it, each
  -- with its null byte, within its blocks.
  pub extract_for_publish_lem :
      (m : List ℕ)
      → Avoids hashtag t
      → Avoids 0 m
      → extract_for_publish garbage (b'2' ∷ hashtag ∷ (t ++ hashtag ∷ terminated m rest))
        ≡ some (terminated t [], terminated (hashtag ∷ m) [])
  unfolding extract_for_publish
  extract_for_publish_lem m plain clean_message =
      rw
        (
          find_hashtag-append t (terminated m rest) 2 plain,
          size,
          one_less,
          load-append t (hashtag ∷ terminated m rest),
          text_stored topic_block t topic_room,
          null_stored topic_block t topic_room,
          whole,
          not_ltb _ _ in_order,
          message_size,
        )
        (rw (hashtag_stored, behind, message_stored) (rw (nothing_left, append-nil)))
    where
      size : 2 + length t - 2 + 1 ≡ suc (length t)
      size = omega arith

      one_less : suc (length t) - 1 ≡ length t
      one_less = omega arith

      topic_block : Block
      topic_block = malloc (garbage 0) (suc (length t))

      topic_room : length topic_block ≡ suc (length t)
      topic_room = length-malloc (garbage 0) (suc (length t))

      text : List ℕ
      text = b'2' ∷ hashtag ∷ (t ++ hashtag ∷ m)

      text_clean : Avoids 0 text
      text_clean = (
        (λ e. omega arith),
        (
          (λ e. omega arith),
          Avoids-append 0 t (hashtag ∷ m) clean ((λ e. omega arith), clean_message),
        ),
      )

      whole :
          strlen (b'2' ∷ hashtag ∷ (t ++ hashtag ∷ terminated m rest))
          ≡ some (3 + length t + length m)
      whole =
          rw (append_assoc t (hashtag ∷ m) (0 ∷ rest)) at (strlen-terminated text rest text_clean)
          ∙ ap some (omega (arith, length-append t (hashtag ∷ m)))

      in_order : 2 + length t ≤ 3 + length t + length m
      in_order = omega arith

      message_size : 3 + length t + length m - (2 + length t) ≡ suc (length m)
      message_size = omega arith

      message_block : Block
      message_block = malloc (garbage 1) (1 + suc (length m))

      message_room : length message_block ≡ suc (suc (length m))
      message_room = omega (arith, length-malloc (garbage 1) (1 + suc (length m)))

      hashtag_stored : put message_block 0 hashtag ≡ some (hashtag ∷ drop 1 message_block)
      hashtag_stored =
          store-next [] message_block (hashtag ∷ []) 0 refl (omega (arith, message_room))

      behind :
          drop (2 + length t + 1) (b'2' ∷ hashtag ∷ (t ++ hashtag ∷ terminated m rest))
          ≡ terminated m rest
      behind =
          let shift : 2 + length t + 1 ≡ suc (suc (length t + 1)) = omega arith in
          rw shift (drop-append_add t (hashtag ∷ terminated m rest) 1)

      message_stored :
          strcpy_s (hashtag ∷ drop 1 message_block) 1 (suc (length m)) (terminated m rest)
          ≡ some (hashtag ∷ ((m ++ 0 ∷ []) ++ drop (suc (length m)) (drop 1 message_block)))
      message_stored =
          strcpy_s-next (hashtag ∷ []) (drop 1 message_block) m rest 1 (suc (length m))
            clean_message refl refl (omega (arith, length-drop {0}, message_room))

      nothing_left : drop (suc (length m)) (drop 1 message_block) ≡ []
      nothing_left =
          drop_all (drop 1 message_block) (suc (length m))
            (omega (arith, length-drop {0}, message_room))
