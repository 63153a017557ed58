-- ===== src/Broker/Network.antt =====
-- `setup` and `connect_to_sm` of PubSub/Broker/networking_broker.cpp, and how `main` of
-- PubSub/Broker/broker.cpp begins: the calls that acquire and release something.
use ikp_projekat.Common.{Bool, true, false, not, [], ◌∷◌, if◌then◌else◌}
use ikp_projekat.Network.{
  Role, Run, returns, exits, ◌▹◌, after_run, wsa_startup, wsa_cleanup, getaddrinfo, freeaddrinfo,
  socket, closesocket,
}

-- Which calls succeed.
pub record Answers : Type 0 where
  pub startup : Bool
  pub address : Bool
  pub welcoming_socket : Bool
  pub bind : Bool
  pub mode : Bool
  pub listen : Bool
  pub sm_client_socket : Bool

unfoldable pub setup : Answers → Run (Unit {0})
setup a =
    if not a.startup
    then exits [] 1
    else wsa_startup
      ▹ (if not a.address
          then exits (wsa_cleanup ∷ []) 1
          else getaddrinfo
            ▹ (if not a.welcoming_socket
                then exits (freeaddrinfo ∷ wsa_cleanup ∷ []) 1
                else socket Role.welcoming
                  ▹ (if not a.bind
                      then exits (freeaddrinfo ∷ closesocket Role.welcoming ∷ wsa_cleanup ∷ []) 1
                      else freeaddrinfo
                        ▹ (if not a.mode
                            then exits (closesocket Role.welcoming ∷ wsa_cleanup ∷ []) 1
                            else if not a.listen
                            then exits (closesocket Role.welcoming ∷ wsa_cleanup ∷ []) 1
                            else if not a.sm_client_socket
                            then exits (closesocket Role.welcoming ∷ wsa_cleanup ∷ []) 16
                            else socket Role.sm_client ▹ returns [] tt))))

-- `connect_to_sm` and what `main` does where it fails.
unfoldable pub connect_to_sm : (connects : Bool) → Run (Unit {0})
connect_to_sm true = returns [] tt
connect_to_sm false =
    exits (closesocket Role.welcoming ∷ closesocket Role.sm_client ∷ wsa_cleanup ∷ []) 16

-- The end of `mutual_assured_destruction` in PubSub/Broker/mad.cpp, which `main` calls where not all
-- threads could be started.
unfoldable pub start_threads : (threads_started : Bool) → Run (Unit {0})
start_threads true = returns [] tt
start_threads false = exits (closesocket Role.welcoming ∷ wsa_cleanup ∷ []) 1

-- `main` up to its loop.
unfoldable pub begin : Answers → (threads_started connects : Bool) → Run (Unit {0})
begin a threads_started connects =
    after_run (setup a) λ _. after_run (start_threads threads_started) λ _. connect_to_sm connects
