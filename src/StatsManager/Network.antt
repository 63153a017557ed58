-- ===== src/StatsManager/Network.antt =====
-- PubSub/StatsManager/networking_sm.cpp: the set-up, the connection with the broker, and the receiving
-- of notifications. What the calls report comes in as values; the prints are left out.
use ikp_projekat.Common.{ℕ, Bool, not, Option, none, some, List, [], ◌∷◌, if◌then◌else◌}
use ikp_projekat.Network.{
  Role, Run, returns, exits, ◌▹◌, wsa_startup, wsa_cleanup, getaddrinfo, freeaddrinfo, socket,
  closesocket, Selected, select_error, will_block, wont_block, read_check, Received, bytes, closed,
  failed,
}

-- Which calls of `setup` succeed.
pub record Answers : Type 0 where
  pub startup : Bool
  pub address : Bool
  pub welcoming_socket : Bool
  pub bind : Bool
  pub mode : Bool
  pub listen : Bool

unfoldable pub setup : Answers → Run (Unit {0})
setup a =
    if not a.startup
    then exits [] 1
    else wsa_startup
      ▹ (if not a.address
          then exits (wsa_cleanup ∷ []) 1
          else getaddrinfo
            ▹ (if not a.welcoming_socket
                then exits (freeaddrinfo ∷ wsa_cleanup ∷ []) 1
                else socket Role.welcoming
                  ▹ (if not a.bind
                      then exits (freeaddrinfo ∷ closesocket Role.welcoming ∷ wsa_cleanup ∷ []) 1
                      else freeaddrinfo
                        ▹ (if not a.mode
                            then exits (closesocket Role.welcoming ∷ wsa_cleanup ∷ []) 1
                            else if not a.listen
                            then exits (closesocket Role.welcoming ∷ wsa_cleanup ∷ []) 1
                            else returns [] tt))))

-- The return values of `accept_connection`, `ERROR` being `failure`.
pub data Accepting : Type 0 where
  failure would_block connected : Accepting

-- `accepted` and `mode`: whether `accept` and `ioctlsocket` succeed.
unfoldable pub accept_connection : Selected → (accepted mode : Bool) → Run Accepting
accept_connection selected accepted mode = elim (read_check selected) [
  | select_error ↦ returns (closesocket Role.welcoming ∷ wsa_cleanup ∷ []) failure
  | will_block ↦ returns [] would_block
  | wont_block ↦
      if not accepted
      then returns (closesocket Role.welcoming ∷ wsa_cleanup ∷ []) failure
      else socket Role.connection
        ▹ (if not mode
            then returns (closesocket Role.welcoming ∷ wsa_cleanup ∷ []) failure
            else returns [] connected)
]

-- What `receive_notifications` has put in the receive buffer where it returns true, and nothing
-- where it returns false.
unfoldable pub receive_notifications : Selected → Received → Run (Option (List ℕ))
receive_notifications selected received = elim (read_check selected) [
  | select_error ↦ returns [] none
  | will_block ↦ returns [] none
  | wont_block ↦ elim received [
    | bytes data' ↦ returns [] (some data')
    | closed ↦
        exits (closesocket Role.welcoming ∷ closesocket Role.connection ∷ wsa_cleanup ∷ []) 16
    | failed ↦ returns [] none
  ]
]
