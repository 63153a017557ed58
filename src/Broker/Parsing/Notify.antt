-- ===== src/Broker/Parsing/Notify.antt =====
-- The bytes of the notification that the stats manager is sent for a well-formed command.
use ikp_projekat.Common.{
  ℕ, ◌+◌, ◌-◌, ◌≡◌, refl, ◌≢◌, some, List, [], ◌∷◌, ◌++◌, arith, ==_of_ne, length, drop_all,
  length-append, append_assoc, append-nil,
}
use ikp_projekat.Memory.{Block, hashtag, malloc, store, load}
use ikp_projekat.Memory.Text.{Avoids, terminated, strlen-terminated, load-append, load-terminated}
use ikp_projekat.Memory.Fill.{length-malloc, store-next, last_cleared}
use ikp_projekat.Broker.Parsing.{sent_bytes, notify_stats_manager}
use ikp_projekat.Broker.Parsing.Extract.{find_hashtag-append}

pub sent_bytes-terminated :
    (t : List ℕ) (rest : Block)
    → Avoids 0 t
    → sent_bytes (terminated t rest) ≡ some (terminated t [])
unfolding sent_bytes
sent_bytes-terminated t rest clean = rw (strlen-terminated t rest clean, load-terminated t rest)

module _ (garbage : ℕ → ℕ → ℕ) (t : List ℕ) (rest : Block) (clean : Avoids 0 t) where
  -- For a command with a number other than '2' the stats manager is sent the command itself,
  -- "#<number>#<topic>" and a null byte.
  pub notify-plain :
      (c : ℕ)
      → c ≢ 0
      → c ≢ b'2'
      → notify_stats_manager garbage (terminated (hashtag ∷ c ∷ hashtag ∷ t) rest)
        ≡ some (terminated (hashtag ∷ c ∷ hashtag ∷ t) [])
  unfolding notify_stats_manager
  notify-plain c h other =
      rw (==_of_ne c b'2' other, strlen-terminated (hashtag ∷ c ∷ hashtag ∷ t) rest text_clean)
        (load-terminated (hashtag ∷ c ∷ hashtag ∷ t) rest)
    where
      text_clean : Avoids 0 (hashtag ∷ c ∷ hashtag ∷ t)
      text_clean = ((λ e. omega arith), (h, ((λ e. omega arith), clean)))

  -- For a publish command whose topic's name has no hashtag it is sent "#2#<topic>" and a null
  -- byte: the message is cut off.
  pub notify-publish :
      (m : List ℕ)
      → Avoids hashtag t
      → notify_stats_manager garbage (hashtag ∷ b'2' ∷ hashtag ∷ (t ++ hashtag ∷ terminated m rest))
        ≡ some (terminated (hashtag ∷ b'2' ∷ hashtag ∷ t) [])
  unfolding notify_stats_manager
  notify-publish m plain =
      rw (find_hashtag-append t (terminated m rest) 3 plain, copied, filled)
        (rw (last_cleared cut hashtag (3 + length t + 1 - 1) (omega arith))
          (sent_bytes-terminated cut [] cut_clean))
    where
      cut : List ℕ
      cut = hashtag ∷ b'2' ∷ hashtag ∷ t

      cut_clean : Avoids 0 cut
      cut_clean = ((λ e. omega arith), ((λ e. omega arith), ((λ e. omega arith), clean)))

      size : length (cut ++ hashtag ∷ []) ≡ 3 + length t + 1
      size = omega (arith, length-append cut (hashtag ∷ []))

      copied :
          load (cut ++ hashtag ∷ terminated m rest) (3 + length t + 1) ≡ some (cut ++ hashtag ∷ [])
      copied =
          rw (append_assoc cut (hashtag ∷ []) (terminated m rest), size) at
            (load-append (cut ++ hashtag ∷ []) (terminated m rest))

      fresh : Block
      fresh = malloc (garbage 0) (3 + length t + 1)

      filled : store fresh 0 (cut ++ hashtag ∷ []) ≡ some (cut ++ hashtag ∷ [])
      filled =
          rw
            (store-next [] fresh (cut ++ hashtag ∷ []) 0 refl
              (omega (arith, size, length-malloc (garbage 0) (3 + length t + 1))))
            (rw
              (drop_all fresh (length (cut ++ hashtag ∷ []))
                (omega (arith, size, length-malloc (garbage 0) (3 + length t + 1))))
              (rw append-nil))
