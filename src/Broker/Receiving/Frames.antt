-- ===== src/Broker/Receiving/Frames.antt =====
-- The commands that stand in the receive buffer are executed one after the other.
use ikp_projekat.Common.{
  ℕ, ◌≡◌, refl, ◌≢◌, true, false, Option, none, some, List, [], ◌∷◌, ◌++◌, arith, ==_of_ne, ◌>>=◌,
  append_assoc, append-nil, ◌∙◌, ap, zero, suc, ◌-◌, ◌<◌, length, replicate, drop, drop_all,
}
use ikp_projekat.Memory.{Block, hashtag}
use ikp_projekat.Memory.Heap.{Ptr}
use ikp_projekat.Memory.Text.{Avoids, Avoids-append, terminated}
use ikp_projekat.Broker.Execution.{Broker}
use ikp_projekat.Broker.Execution.Request.{Request, command, WellFormed, perform}
use ikp_projekat.Broker.Execution.Effects.{execute_command-perform}
use ikp_projekat.Broker.Receiving.{
  Server, respond, execute_command_and_produce, run_commands, broker_receive_buffer_size, Reception,
  receive_commands, handle_reception, null_buffer, over,
}

-- The bytes of some requests one after the other, and what follows them.
abbrev pub frames : List Request → Block → Block
frames [] rest = rest
frames (r ∷ rs) rest = hashtag ∷ command r (frames rs rest)

abbrev pub AllWellFormed : List Request → Type 0
AllWellFormed [] = Unit {0}
AllWellFormed (r ∷ rs) = WellFormed r × AllWellFormed rs

-- The requests of one client performed in turn, each response handed on before the next one.
unfoldable pub perform_all : Ptr → Server → List Request → Option Server
perform_all p s [] = some s
perform_all p s (r ∷ rs) = do done ← perform s.broker p r; perform_all p (respond p s done) rs

module _ (garbage : ℕ → ℕ → ℕ) (p : Ptr) where
  skip_text :
      (s : Server) (t : List ℕ) (rest : Block)
      → Avoids 0 t
      → run_commands garbage true p s (terminated t rest) ≡ run_commands garbage false p s rest
  unfolding run_commands
  skip_text s [] rest clean = refl
  skip_text s (c ∷ cs) rest clean =
      rw (==_of_ne c 0 clean.0, run_commands) (skip_text s cs rest clean.1)

  skip_command :
      (s : Server) (r : Request) (rest : Block)
      → WellFormed r
      → run_commands garbage true p s (command r rest) ≡ run_commands garbage false p s rest
  skip_command s (Request.publish t m) rest (clean, plain, clean_message) =
      rw (append_assoc t (hashtag ∷ m) (0 ∷ rest)) at (
        skip_text s (b'2' ∷ hashtag ∷ (t ++ hashtag ∷ m)) rest (
          (λ e. omega arith),
          (
            (λ e. omega arith),
            Avoids-append 0 t (hashtag ∷ m) clean ((λ e. omega arith), clean_message),
          ),
        ))
  skip_command s (Request.subscribe t) rest clean =
      skip_text s (b'3' ∷ hashtag ∷ t) rest ((λ e. omega arith), ((λ e. omega arith), clean))
  skip_command s (Request.exists t) rest clean =
      skip_text s (b'4' ∷ hashtag ∷ t) rest ((λ e. omega arith), ((λ e. omega arith), clean))
  skip_command s (Request.count t) rest clean =
      skip_text s (b'5' ∷ hashtag ∷ t) rest ((λ e. omega arith), ((λ e. omega arith), clean))
  skip_command s (Request.unsubscribe t) rest clean =
      skip_text s (b'6' ∷ hashtag ∷ t) rest ((λ e. omega arith), ((λ e. omega arith), clean))

  -- A command's outcome, and then the rest of the loop.
  and_then :
      (o : Option (Broker × Option Block)) (s : Server) (k : Server → Option Server)
      (k' : Server → Option Server)
      → ((s' : Server) → k s' ≡ k' s')
      → ((do done ← o; some (respond p s done)) >>= k) ≡ (do done ← o; k' (respond p s done))
  and_then none s k k' same = refl
  and_then (some done) s k k' same = same (respond p s done)

  -- Where the receive buffer holds the bytes of well-formed requests, and behind them a byte that is
  -- no hashtag, the loop over the buffer performs these requests in their order, all of them and
  -- nothing else, and reads no byte past the buffer.
  pub run_commands-frames :
      (rs : List Request) (s : Server) (c : ℕ) (rest : Block)
      → AllWellFormed rs
      → c ≢ hashtag
      → run_commands garbage false p s (frames rs (c ∷ rest)) ≡ perform_all p s rs
  unfolding run_commands perform_all execute_command_and_produce
  run_commands-frames [] s c rest well stop = rw (==_of_ne c hashtag stop)
  run_commands-frames (r ∷ rs) s c rest well stop =
      rw (execute_command-perform garbage s.broker (frames rs (c ∷ rest)) p r well.0) (
        and_then (perform s.broker p r) s _ (λ s'. perform_all p s' rs)
          λ s'.
            skip_command s' r (frames rs (c ∷ rest)) well.0
            ∙ run_commands-frames rs s' c rest well.1 stop)

pub frames-append :
    (rs : List Request) (rest tail : Block) → frames rs rest ++ tail ≡ frames rs (rest ++ tail)
frames-append [] rest tail = refl
frames-append (r ∷ rs) rest tail =
    ap (λ l. hashtag ∷ l) (shifted r (frames rs rest) ∙ ap (command r) (frames-append rs rest tail))
  where
    shifted : (q : Request) (middle : Block) → command q middle ++ tail ≡ command q (middle ++ tail)
    shifted (Request.publish t m) middle = simp append_assoc
    shifted (Request.subscribe t) middle = simp append_assoc
    shifted (Request.exists t) middle = simp append_assoc
    shifted (Request.count t) middle = simp append_assoc
    shifted (Request.unsubscribe t) middle = simp append_assoc

pub zeros : (n : ℕ) → 0 < n → replicate {A = ℕ} n 0 ≡ 0 ∷ replicate (n - 1) 0
zeros zero h = absurd (omega arith)
zeros (suc n) h = ap (λ k. 0 ∷ replicate {A = ℕ} k 0) (omega arith)

resized : (m n : ℕ) → m ≡ n → replicate {A = ℕ} m 0 ≡ replicate n 0
resized m n e = ap (λ k. replicate {A = ℕ} k 0) e

drop-replicate : (n k : ℕ) → drop n (replicate {A = ℕ} k 0) ≡ replicate (k - n) 0
drop-replicate zero k = resized k (k - 0) (omega arith)
drop-replicate (suc n) zero = resized 0 (0 - suc n) (omega arith)
drop-replicate (suc n) (suc k) = drop-replicate n k ∙ resized (k - n) (suc k - suc n) (omega arith)

-- What is received in place of the first null bytes, fewer than there are.
pub over-null_buffer :
    (data' : List ℕ)
    → length data' < broker_receive_buffer_size
    → over data' null_buffer
      ≡ data' ++ (0 ∷ replicate (broker_receive_buffer_size - length data' - 1) 0)
over-null_buffer data' room =
    ap (λ l. data' ++ l)
      (drop-replicate (length data') broker_receive_buffer_size
        ∙ zeros (broker_receive_buffer_size - length data') (omega (arith, room)))

-- What some requests of a client lead to, with a receive buffer that is null again.
abbrev pub done_all : Ptr → Server → List Request → Option (Block × Server)
done_all p s rs = do s' ← perform_all p s rs; some (null_buffer, s')

module _ (garbage : ℕ → ℕ → ℕ) (p : Ptr) (s : Server) where
  -- Where `recv` delivers whole well-formed requests of a client, fewer bytes than the buffer has,
  -- into a receive buffer of null bytes, the main thread performs these requests in their order, all
  -- of them and nothing else, reads no byte past the buffer, and leaves a buffer of null bytes.
  pub handle_reception-frames :
      (rs : List Request)
      → AllWellFormed rs
      → length (frames rs []) < broker_receive_buffer_size
      → handle_reception garbage p
          (receive_commands (Reception.bytes (frames rs [])) p null_buffer s)
        ≡ done_all p s rs
  unfolding handle_reception receive_commands
  handle_reception-frames rs well room =
      rw
        (
          over-null_buffer (frames rs []) room,
          frames-append rs []
              (0 ∷ replicate (broker_receive_buffer_size - length (frames rs []) - 1) 0),
          run_commands-frames garbage p rs s 0
              (replicate (broker_receive_buffer_size - length (frames rs []) - 1) 0) well
              (λ e. omega arith),
        )
        refl

  run_commands_overrun :
      (s' : Server) (cs : Block) → Avoids 0 cs → run_commands garbage true p s' cs ≡ none
  unfolding run_commands
  run_commands_overrun s' [] clean = refl
  run_commands_overrun s' (c ∷ cs) clean =
      rw (==_of_ne c 0 clean.0, run_commands) (run_commands_overrun s' cs clean.1)

  -- Where `recv` fills the whole buffer with a command's first hashtag and then no null byte, the
  -- search for the command's end reads past the buffer, unless the command's execution has faulted
  -- before.
  pub handle_reception_overrun :
      (cs receive_buffer : Block)
      → Avoids 0 cs
      → length (hashtag ∷ cs) ≡ broker_receive_buffer_size
      → length receive_buffer ≡ broker_receive_buffer_size
      → handle_reception garbage p
          (receive_commands (Reception.bytes (hashtag ∷ cs)) p receive_buffer s)
        ≡ none
  unfolding handle_reception receive_commands run_commands
  handle_reception_overrun cs receive_buffer clean full whole =
      rw
        (
          drop_all receive_buffer (suc (length cs)) (omega (arith, full, whole)),
          append-nil cs,
          faults (execute_command_and_produce garbage hashtag cs p s),
        )
        refl
    where
      faults : (o : Option Server) → (do s' ← o; run_commands garbage true p s' cs) ≡ none
      faults none = refl
      faults (some s') = run_commands_overrun s' cs clean
