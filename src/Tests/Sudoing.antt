-- ===== src/Tests/Sudoing.antt =====
-- A user who has to give a password, with a session from the start of the clock.
use bbkar.Common.{ℕ, ◌+◌, ◌*◌, ◌^◌, arith, true, some, [], ◌∷◌}
use bbkar.Common.Io.{Ends, Anything}
use bbkar.Common.Text.{text}
use bbkar.Sudo.{SudoSession, System, sudo_interactive, exited, btrfs_receive_command}
use bbkar.Sudo.{btrfs_send_command}
use bbkar.Sudo.Session.{IsKnown, IsSpawned, btrfs_command-IsSpawned}

-- The world is the clock; a command takes a second.
abbrev system : System ℕ
system = record {
  uid = 1000;
  is_terminal = λ w. true;
  now = λ w. w;
  status_of = λ argv w. (exited true, w + 10 ^ 9);
}

abbrev session : SudoSession
session = record { last_refresh = 0; refresh_interval = 600 * 10 ^ 9; strategy = sudo_interactive }

session-IsKnown : IsKnown system (some session)
session-IsKnown s e = ground arith

btrfs_command-IsSpawned_example :
    Ends Anything
      (IsSpawned system (text "btrfs" ∷ text "send" ∷ (b'/' ∷ []) ∷ []))
      (btrfs_send_command system (some session) ((b'/' ∷ []) ∷ []) (700 * 10 ^ 9))
    × Ends Anything
        (IsSpawned system (text "btrfs" ∷ text "receive" ∷ (b'/' ∷ []) ∷ []))
        (btrfs_receive_command system (some session) (b'/' ∷ []) (700 * 10 ^ 9))
btrfs_command-IsSpawned_example =
    btrfs_command-IsSpawned system (some session) ((b'/' ∷ []) ∷ []) (b'/' ∷ []) (700 * 10 ^ 9)
      session-IsKnown
