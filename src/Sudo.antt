-- ===== src/Sudo.antt =====
-- src/service/executor/sudo.rs, and the command lines of src/service/executor/impl.rs: how btrfs is
-- run with the rights that it needs. Processes, the clock in nanoseconds, the user and the
-- terminal are parameters; what is printed is left out.
pub mod Session
use bbkar.Common.{
  ℕ, ◌-◌, ◌*◌, ◌^◌, ltb, ◌==◌, Bool, true, false, not, Option, none, some, List, [], ◌∷◌,
}
use bbkar.Common.{◌++◌, if◌then◌else◌}
use bbkar.Common.Br.{Br, ok, err, panic, execution, unwrap}
use bbkar.Common.Io.{Io, ◌>>=◌, done, lift}
use bbkar.Common.Text.{Text, text}

pub data ExecutionStrategy : Type 0 where
  direct : ExecutionStrategy
  sudo_passwordless : ExecutionStrategy
  sudo_interactive : ExecutionStrategy

pub record SudoSession : Type 0 where
  pub last_refresh : ℕ
  pub refresh_interval : ℕ
  pub strategy : ExecutionStrategy

abbrev pub is_direct : ExecutionStrategy → Bool
is_direct direct = true
is_direct sudo_passwordless = false
is_direct sudo_interactive = false

abbrev pub needs_sudo : SudoSession → Bool
needs_sudo s = not (is_direct s.strategy)

unfoldable pub with_sudo : SudoSession → List Text → List Text
unfolding text
with_sudo s argv = if needs_sudo s then text "sudo" ∷ argv else argv

-- What `Command::status` gives: an error of the system, or whether the exit was a success
pub data Status : Type 0 where
  no_start : Text → Status
  exited : Bool → Status

-- The user does not change while the program runs.
pub record System (W : Type 0) : Type 0 where
  pub uid : ℕ
  pub is_terminal : W → Bool
  pub now : W → ℕ
  pub status_of : List Text → W → Status × W

module _ {W : Type 0} (sys : System W) where
  is_running_as_root : Bool
  is_running_as_root = sys.uid == 0

  -- `.status().map_err(..)?`, with the beginning of the message
  abbrev pub checked : Text → Status → Br Bool
  checked message (no_start e) = err (execution (message ++ e))
  checked message (exited success) = ok success

  unfoldable pub run_command : Text → List Text → Io W Bool
  run_command message argv w =
      let (status, w') = sys.status_of argv w in (checked message status, w')

  unfoldable pub no_access : Text
  unfolding text
  no_access =
      text
        "Cannot execute btrfs commands. Options:\n1. Run as root\n2. Configure passwordless sudo for btrfs commands\n3. Run in an interactive terminal"

  abbrev pub without_passwordless : Bool → Br ExecutionStrategy
  without_passwordless true = ok sudo_interactive
  without_passwordless false = err (execution no_access)

  unfoldable pub sudo_strategy : Bool → Io W ExecutionStrategy
  unfolding no_access
  sudo_strategy true w = (ok sudo_passwordless, w)
  sudo_strategy false w = (without_passwordless (sys.is_terminal w), w)

  unfoldable pub determine_execution_strategy : Io W ExecutionStrategy
  unfolding is_running_as_root run_command sudo_strategy text
  determine_execution_strategy = if is_running_as_root then done direct else (do
    success ←
        run_command (text "Failed to check sudo access: ")
          (text "sudo" ∷ text "-n" ∷ text "id" ∷ [])
    sudo_strategy success)

  abbrev pub must : Bool → Text → Br (Unit {0})
  must true message = ok tt
  must false message = err (execution message)

  unfoldable pub ensure_sudo_authenticated : Io W (Unit {0})
  unfolding run_command text
  ensure_sudo_authenticated = do
    success ← run_command (text "Failed to authenticate sudo: ") (text "sudo" ∷ text "-v" ∷ [])
    lift (must success (text "Sudo authentication failed"))

  unfoldable pub authenticate : ExecutionStrategy → Io W (Unit {0})
  unfolding ensure_sudo_authenticated
  authenticate direct = done tt
  authenticate sudo_passwordless = done tt
  authenticate sudo_interactive = ensure_sudo_authenticated

  -- A session that starts now
  abbrev started : ExecutionStrategy → Io W SudoSession
  started strategy w = (
    ok (record { last_refresh = sys.now w; refresh_interval = 600 * 10 ^ 9; strategy = strategy }),
    w,
  )

  -- `SudoSession::new`
  unfoldable pub new : Io W SudoSession
  unfolding determine_execution_strategy authenticate
  new = do strategy ← determine_execution_strategy; u ← authenticate strategy; started strategy

  abbrev refreshed : SudoSession → Io W SudoSession
  refreshed s w = (ok (record s { last_refresh = sys.now w }), w)

  unfoldable pub refresh : SudoSession → Io W SudoSession
  unfolding run_command text
  refresh s = do
    success ← run_command (text "Failed to refresh sudo: ") (text "sudo" ∷ text "-v" ∷ [])
    u ← lift (must success (text "Failed to refresh sudo credentials"))
    refreshed s

  -- The session is too old.
  abbrev pub is_expired : SudoSession → W → Bool
  is_expired s w = ltb s.refresh_interval (sys.now w - s.last_refresh)

  unfoldable pub ensure_fresh : SudoSession → ExecutionStrategy → Io W SudoSession
  unfolding refresh
  ensure_fresh s direct = done s
  ensure_fresh s sudo_passwordless = done s
  ensure_fresh s sudo_interactive = λ w. (if is_expired s w then refresh s else done s) w

  -- `SudoSession::ensure_active`, with the session as it is left
  abbrev pub ensure_active : SudoSession → Io W SudoSession
  ensure_active s = ensure_fresh s s.strategy

  -- `ensure_sudo` of impl.rs, with the session to keep; one that fails is kept as it was.
  unfoldable pub ensure_sudo : Option SudoSession → Io W SudoSession
  unfolding new ensure_fresh
  ensure_sudo none = new
  ensure_sudo (some s) = ensure_active s

  -- The command lines that are spawned, and the session
  unfoldable pub btrfs_receive_command : Option SudoSession → Text → Io W (List Text × SudoSession)
  unfolding ensure_sudo with_sudo text
  btrfs_receive_command session root = do
    s ← ensure_sudo session
    done (with_sudo s (text "btrfs" ∷ text "receive" ∷ root ∷ []), s)

  unfoldable pub btrfs_send_command :
      Option SudoSession → List Text → Io W (List Text × SudoSession)
  unfolding ensure_sudo with_sudo text
  btrfs_send_command session args = do
    s ← ensure_sudo session
    done (with_sudo s (text "btrfs" ∷ text "send" ∷ args), s)
