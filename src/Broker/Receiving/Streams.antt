-- ===== src/Broker/Receiving/Streams.antt =====
-- The bytes of one client as `recv` hands them to the main thread of PubSub/Broker/broker.cpp, in one
-- reception or in several.
use ikp_projekat.Common.{
  ℕ, ◌+◌, ◌-◌, ◌<◌, ◌≡◌, ◌≢◌, refl, ap, sym, ◌∙◌, Option, none, some, false, List, [], ◌∷◌, ◌++◌,
  ◌>>=◌, map, append_assoc, arith, length, ==_of_ne,
}
use ikp_projekat.Memory.{Block, hashtag}
use ikp_projekat.Memory.Heap.{Ptr}
use ikp_projekat.Broker.Execution.Request.{Request, publish, WellFormed, perform}
use ikp_projekat.Broker.Receiving.{
  Server, Reception, receive_commands, handle_reception, broker_receive_buffer_size, respond,
  run_commands, null_buffer, over,
}
use ikp_projekat.Broker.Receiving.Frames.{
  frames, AllWellFormed, perform_all, done_all, handle_reception-frames, run_commands-frames, zeros,
  over-null_buffer,
}
use ikp_projekat.Client.Command.Bytes.{publish_text}

-- The requests of some receptions one after the other, all of them, and each in its reception whole.
abbrev pub all_requests : List (List Request) → List Request
all_requests [] = []
all_requests (rs ∷ rest) = rs ++ all_requests rest

abbrev pub AllReceivable : List (List Request) → Type 0
AllReceivable [] = Unit {0}
AllReceivable (rs ∷ rest) =
    (AllWellFormed rs × (length (frames rs []) < broker_receive_buffer_size)) × AllReceivable rest

pub bind_cong :
    {A B : Type 0} (o : Option A) {f g : A → Option B}
    → ((x : A) → f x ≡ g x)
    → (o >>= f) ≡ (o >>= g)
bind_cong none same = refl
bind_cong (some x) same = same x

pub bind_assoc :
    {A B C : Type 0} (o : Option A) (f : A → Option B) (g : B → Option C)
    → (o >>= λ x. f x >>= g) ≡ ((o >>= f) >>= g)
bind_assoc none f g = refl
bind_assoc (some x) f g = refl

-- The receive buffer and the state, handed on to what comes next.
pub bind_pair :
    {A B C : Type 0} (o : Option A) (buffer : B) (f : B × A → Option C)
    → ((do x ← o; some (buffer, x)) >>= f) ≡ (o >>= λ x. f (buffer, x))
bind_pair none buffer f = refl
bind_pair (some x) buffer f = refl

module _ (garbage : ℕ → ℕ → ℕ) (p : Ptr) where
  -- Receptions of one connection, one after the other.
  unfoldable pub handle_receptions : List Block → Block → Server → Option (Block × Server)
  handle_receptions [] receive_buffer s = some (receive_buffer, s)
  handle_receptions (data' ∷ rest) receive_buffer s = do
    (buffer, s') ←
        handle_reception garbage p (receive_commands (Reception.bytes data') p receive_buffer s)
    handle_receptions rest buffer s'

  perform_all-append :
      (rs qs : List Request) (s : Server)
      → perform_all p s (rs ++ qs) ≡ (do s' ← perform_all p s rs; perform_all p s' qs)
  unfolding perform_all
  perform_all-append [] qs s = refl
  perform_all-append (r ∷ rs) qs s =
      bind_cong (perform s.broker p r) (λ done. perform_all-append rs qs (respond p s done))
      ∙ bind_assoc (perform s.broker p r) _ _

  done_all-append :
      (rs qs : List Request) (s : Server)
      → done_all p s (rs ++ qs) ≡ (do s' ← perform_all p s rs; done_all p s' qs)
  done_all-append rs qs s =
      rw (perform_all-append rs qs s) (sym (bind_assoc (perform_all p s rs) _ _))

  -- However the well-formed requests of a client are spread over receptions, each request whole and
  -- each reception shorter than the buffer, which is null at the beginning, the main thread performs
  -- the same: all of them in their order, as if each had come alone. What one reception leaves in the
  -- buffer is not seen by the next one.
  pub handle_receptions-frames :
      (receptions : List (List Request)) (s : Server)
      → AllReceivable receptions
      → handle_receptions (map (λ rs. frames rs []) receptions) null_buffer s
        ≡ done_all p s (all_requests receptions)
  unfolding handle_receptions perform_all
  handle_receptions-frames [] s all = refl
  handle_receptions-frames (rs ∷ rest) s ((well, room), all) =
      rw
        (
          handle_reception-frames garbage p s rs well room,
          bind_pair (perform_all p s rs) null_buffer
              (λ r. handle_receptions (map (λ qs. frames qs []) rest) r.0 r.1),
          done_all-append rs (all_requests rest) s,
        )
        (bind_cong (perform_all p s rs) (λ s'. handle_receptions-frames rest s' all))

  -- A reception that does not begin with a hashtag.
  stray :
      (c : ℕ) (rest : List ℕ) (s : Server)
      → c ≢ hashtag
      → handle_receptions ((c ∷ rest) ∷ []) null_buffer s ≡ some (null_buffer, s)
  unfolding handle_receptions handle_reception receive_commands run_commands
  stray c rest s other = rw (==_of_ne c hashtag other) refl

  -- A publish command without its null byte, in a null buffer.
  first_part :
      (t m : List ℕ) (s : Server)
      → WellFormed (publish t m)
      → length (publish_text t m) + 1 < broker_receive_buffer_size
      → run_commands garbage false p s (over (publish_text t m) null_buffer)
        ≡ perform_all p s (publish t m ∷ [])
  first_part t m s well room =
      ap (run_commands garbage false p s) (
        over-null_buffer (publish_text t m) (omega (arith, room))
        ∙ ap (λ l. publish_text t m ++ (0 ∷ l))
            (zeros (broker_receive_buffer_size - length (publish_text t m) - 1)
              (omega (arith, room)))
        ∙ ap (λ l. hashtag ∷ b'2' ∷ hashtag ∷ l) (append_assoc t (hashtag ∷ m) _))
      ∙ run_commands-frames garbage p (publish t m ∷ []) s 0 _ (well, tt) (λ e. omega arith)

  -- Where `recv` delivers a publish command in two parts, cut inside the message, the second part does
  -- not begin with a hashtag, and the receive buffer is null at first, the main thread publishes the
  -- first part of the message, drops the rest, and leaves the buffer null.
  pub handle_receptions-cut :
      (t m rest : List ℕ) (c : ℕ) (s : Server)
      → WellFormed (publish t m)
      → c ≢ hashtag
      → length (publish_text t m) + 1 < broker_receive_buffer_size
      → handle_receptions (publish_text t m ∷ (c ∷ rest) ∷ []) null_buffer s
        ≡ done_all p s (publish t m ∷ [])
  unfolding handle_receptions handle_reception receive_commands
  handle_receptions-cut t m rest c s well other room =
      rw
        (
          first_part t m s well room,
          bind_pair (perform_all p s (publish t m ∷ [])) null_buffer second,
        )
        (bind_cong (perform_all p s (publish t m ∷ [])) (λ s'. stray c rest s' other))
    where
      second : Block × Server → Option (Block × Server)
      second (buffer, s') = handle_receptions ((c ∷ rest) ∷ []) buffer s'
