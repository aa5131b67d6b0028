-- ===== src/Channel.antt =====
-- What the two TCP clients of src/tcp-client.ts share: sockets, the outcome of a `connect`, and
-- `formatConnectError`, whose messages are represented by their kinds.
use openclaw_serial_adapter.Prelude.{
  ℕ, zero, suc, Bool, true, false, ◌||◌, ◌==◌, ◌≡◌, ◌≢◌, refl, ap, Option, none, some, List, [],
  ◌∷◌, ◌++◌, if◌then◌else◌,
}
use openclaw_serial_adapter.Text.{Text, codes, same_text}

pub data ConnectError : Type 0 where
  refused timed_out : ConnectError
  failed : Text → ConnectError

-- What the promise of one `connect` call came to. `crashed`: the callback threw before `resolve`.
pub data Attempt : Type 0 where
  waiting established crashed : Attempt
  rejected : ConnectError → Attempt

-- A socket of `createConnection`, with the lines written to it and its `connect` call's promise.
pub record Socket : Type 0 where
  pub destroyed : Bool
  pub written : List Text
  pub attempt : Attempt

abbrev pub fresh_socket : Socket
fresh_socket = record { destroyed = false; written = []; attempt = waiting }

-- `none`: the error has no `code` that is a string
unfoldable pub format_connect_error : Option Text → ConnectError
unfolding same_text
format_connect_error none = failed (codes "UNKNOWN")
format_connect_error (some code) =
    if same_text code (codes "ECONNREFUSED")
    then refused
    else if same_text code (codes "ETIMEDOUT")
    then timed_out
    else failed code

-- Sockets are named by the order in which they were made.
unfoldable pub update : ℕ → (Socket → Socket) → List Socket → List Socket
update i f [] = []
update zero f (s ∷ ss) = f s ∷ ss
update (suc i) f (s ∷ ss) = s ∷ update i f ss

abbrev pub destroy : Socket → Socket
destroy s = record s { destroyed = true }

abbrev pub write : Text → Socket → Socket
write line s = record s { written = s.written ++ line ∷ [] }

abbrev pub settle : Attempt → Socket → Socket
settle a s = record s { attempt = a }

-- `settled` of a `connect` call
abbrev pub is_settled : Attempt → Bool
is_settled waiting = false
is_settled _ = true

unfoldable pub attempt_of : ℕ → List Socket → Attempt
attempt_of i [] = crashed
attempt_of zero (s ∷ ss) = s.attempt
attempt_of (suc i) (s ∷ ss) = attempt_of i ss

unfoldable pub is_destroyed : ℕ → List Socket → Bool
is_destroyed i [] = true
is_destroyed zero (s ∷ ss) = s.destroyed
is_destroyed (suc i) (s ∷ ss) = is_destroyed i ss

-- The number is in the list.
pub is_among : ℕ → List ℕ → Bool
is_among k [] = false
is_among k (x ∷ xs) = k == x || is_among k xs

-- A client has its current `readline` interface, if any, and those that a later one replaced while
-- they were open: each delivers the lines of its socket.
unfoldable pub is_open : ℕ → Option ℕ → List ℕ → Bool
unfolding is_among
is_open k none left_open = is_among k left_open
is_open k (some current) left_open = k == current || is_among k left_open

-- what is open beside the current interface once another takes its place
unfoldable pub leave_open : Option ℕ → List ℕ → List ℕ
leave_open none left_open = left_open
leave_open (some replaced) left_open = left_open ++ replaced ∷ []

pub is_destroyed-update :
    (i j : ℕ) (f : Socket → Socket) (ss : List Socket)
    → i ≢ j
    → is_destroyed j (update i f ss) ≡ is_destroyed j ss
unfolding is_destroyed update
is_destroyed-update i j f [] h = refl
is_destroyed-update zero zero f (s ∷ ss) h = absurd (h refl)
is_destroyed-update zero (suc j) f (s ∷ ss) h = refl
is_destroyed-update (suc i) zero f (s ∷ ss) h = refl
is_destroyed-update (suc i) (suc j) f (s ∷ ss) h = is_destroyed-update i j f ss (λ e. h (ap suc e))
