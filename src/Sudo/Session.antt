-- ===== src/Sudo/Session.antt =====
-- What a session of src/service/executor/sudo.rs is like when a command is run with it.
use bbkar.Common.{◌-◌, ◌≤◌, ◌≡◌, refl, sym, ap, ◌∙◌, arith, ◌==◌, Bool, true, false}
use bbkar.Common.{Option, none, some, List, [], ◌∷◌, if◌then◌else◌, Bool-cases, inl, inr}
use bbkar.Common.Br.{ok, ok_injective}
use bbkar.Common.Io.{◌>>=◌, done, Ends, Ends-bind, Ends-done, Ends-lift, Ends-any, Anything}
use bbkar.Common.Text.{Text, text}
use bbkar.Sudo.{ExecutionStrategy, direct, sudo_passwordless, sudo_interactive, SudoSession, System}
use bbkar.Sudo.{is_direct, needs_sudo, is_expired, determine_execution_strategy, sudo_strategy}
use bbkar.Sudo.{is_running_as_root, authenticate, refresh, ensure_fresh, ensure_sudo, with_sudo}
use bbkar.Sudo.{btrfs_receive_command, btrfs_send_command, run_command, without_passwordless, must}
use bbkar.Sudo

module _ {W : Type 0} (sys : System W) where
  -- A session runs commands directly for root, and with sudo for every other user.
  abbrev pub IsRight : SudoSession → Type 0
  IsRight s = is_direct s.strategy ≡ (sys.uid == 0)

  -- A session that may be asked for a password has been refreshed within its interval.
  abbrev pub IsActive : SudoSession → W → Type 0
  IsActive s w = s.strategy ≡ sudo_interactive → sys.now w - s.last_refresh ≤ s.refresh_interval

  abbrev IsGood : SudoSession → W → Type 0
  IsGood s w = IsRight s × IsActive s w

  strategy-Ends :
      (success : Bool) (w : W)
      → (sys.uid == 0) ≡ false
      → Ends Anything
          (λ strategy w'. is_direct strategy ≡ (sys.uid == 0))
          (sudo_strategy sys success w)
  unfolding sudo_strategy
  strategy-Ends true w other = Ends-done sudo_passwordless w tt (sym other)
  strategy-Ends false w other =
      Ends-lift (without_passwordless sys (sys.is_terminal w)) w tt
        (λ strategy h. go (sys.is_terminal w) h)
    where
      go :
          (b : Bool) {strategy : ExecutionStrategy}
          → without_passwordless sys b ≡ ok strategy
          → is_direct strategy ≡ (sys.uid == 0)
      go true h = ap is_direct (sym (ok_injective h)) ∙ sym other
      go false h = ground arith

  determine-Ends :
      (w : W)
      → Ends Anything
          (λ strategy w'. is_direct strategy ≡ (sys.uid == 0))
          (determine_execution_strategy sys w)
  unfolding determine_execution_strategy is_running_as_root
  determine-Ends w = go (sys.uid == 0) refl
    where
      go :
          (root : Bool)
          → (sys.uid == 0) ≡ root
          → Ends Anything
              (λ strategy w'. is_direct strategy ≡ (sys.uid == 0))
              ((if root
                  then done direct
                  else run_command sys
                      (text "Failed to check sudo access: ")
                      (text "sudo" ∷ text "-n" ∷ text "id" ∷ [])
                    >>= sudo_strategy sys)
                w)
      go true e = Ends-done direct w tt (sym e)
      go false e =
          Ends-bind
            (run_command sys (text "Failed to check sudo access: ")
              (text "sudo" ∷ text "-n" ∷ text "id" ∷ []) w)
            (sudo_strategy sys) (Ends-any _) (λ success w₁ p q. strategy-Ends success w₁ e)

  new-Ends : (w : W) → Ends Anything IsGood (Sudo.new sys w)
  unfolding Sudo.new
  new-Ends w =
      Ends-bind (determine_execution_strategy sys w) _ (determine-Ends w) (λ strategy w₁ p right.
        Ends-bind (authenticate sys strategy w₁) _ (Ends-any _)
          (λ u w₂ p₂ q₂. Ends-done _ w₂ tt (right, λ e. omega arith)))

  -- A session that has been refreshed in this world
  refreshed-IsGood :
      (s : SudoSession) (w : W) → IsRight s → IsGood (record s { last_refresh = sys.now w }) w
  refreshed-IsGood s w right = (right, λ e. omega arith)

  refresh-Ends : (s : SudoSession) (w : W) → IsRight s → Ends Anything IsGood (refresh sys s w)
  unfolding refresh
  refresh-Ends s w right =
      Ends-bind (run_command sys (text "Failed to refresh sudo: ") (text "sudo" ∷ text "-v" ∷ []) w)
        _ (Ends-any _)
        (λ success w₁ p q.
          Ends-bind (must sys success (text "Failed to refresh sudo credentials"), w₁) _
            (Ends-any _)
            (λ u w₂ p₂ q₂.
              Ends-done (record s { last_refresh = sys.now w₂ }) w₂ tt
                (refreshed-IsGood s w₂ right)))

  ensure_fresh-Ends :
      (s : SudoSession) (strategy : ExecutionStrategy) (w : W)
      → s.strategy ≡ strategy
      → IsRight s
      → Ends Anything IsGood (ensure_fresh sys s strategy w)
  unfolding ensure_fresh
  ensure_fresh-Ends s direct w e right = Ends-done s w tt (right, λ f. ground (arith, e))
  ensure_fresh-Ends s sudo_passwordless w e right = Ends-done s w tt (right, λ f. ground (arith, e))
  ensure_fresh-Ends s sudo_interactive w e right = elim (Bool-cases (is_expired sys s w)) [
    | inl expired ↦ rw expired (refresh-Ends s w right)
    | inr fresh ↦ rw fresh (Ends-done s w tt (right, λ f. ground (arith, fresh)))
  ]

  -- The session that is there, if there is one, is right.
  abbrev pub IsKnown : Option SudoSession → Type 0
  IsKnown session = (s : SudoSession) → session ≡ some s → IsRight s

  ensure_sudo-Ends :
      (session : Option SudoSession) (w : W)
      → IsKnown session
      → Ends Anything IsGood (ensure_sudo sys session w)
  unfolding ensure_sudo
  ensure_sudo-Ends none w known = new-Ends w
  ensure_sudo-Ends (some s) w known = ensure_fresh-Ends s s.strategy w refl (known s refl)

  -- The command line of btrfs, with sudo for every user but root
  abbrev pub line_for : List Text → List Text
  line_for argv = if sys.uid == 0 then argv else text "sudo" ∷ argv

  with_sudo-line_for :
      (s : SudoSession) (argv : List Text) → IsRight s → with_sudo s argv ≡ line_for argv
  unfolding with_sudo
  with_sudo-line_for s argv right = ground (arith, right)

  -- A command line that is right, with a session that is right and active
  abbrev pub IsSpawned : List Text → List Text × SudoSession → W → Type 0
  IsSpawned argv p w = (p.0 ≡ line_for argv) × IsRight p.1 × IsActive p.1 w

  -- From no session or one that fits the user, whenever the command line of `btrfs send` or of
  -- `btrfs receive` is given: it goes through sudo for every user but root, the session that is
  -- kept fits the user, and one that may ask for a password has been refreshed within its interval.
  pub btrfs_command-IsSpawned :
      (session : Option SudoSession) (args : List Text) (root : Text) (w : W)
      → IsKnown session
      → Ends Anything
          (IsSpawned (text "btrfs" ∷ text "send" ∷ args))
          (btrfs_send_command sys session args w)
        × Ends Anything
            (IsSpawned (text "btrfs" ∷ text "receive" ∷ root ∷ []))
            (btrfs_receive_command sys session root w)
  unfolding btrfs_send_command btrfs_receive_command
  btrfs_command-IsSpawned session args root w known = (
    Ends-bind (ensure_sudo sys session w) _ (ensure_sudo-Ends session w known) (λ s w₁ p good.
        Ends-done (with_sudo s (text "btrfs" ∷ text "send" ∷ args), s) w₁ tt
          (with_sudo-line_for s _ good.0, good.0, good.1)),
    Ends-bind (ensure_sudo sys session w) _ (ensure_sudo-Ends session w known) (λ s w₁ p good.
        Ends-done (with_sudo s (text "btrfs" ∷ text "receive" ∷ root ∷ []), s) w₁ tt
          (with_sudo-line_for s _ good.0, good.0, good.1)),
  )
