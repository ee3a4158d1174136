-- ===== src/Receive.antt =====
-- `restore_archive` of src/service/executor/impl.rs: the chunks of an archive, decompressed, into
-- `btrfs receive`. The reader of the chunks, the decoder and the child process are parameters.
use bbkar.Common.{ℕ, ◌==◌, ◌≡◌, Bool, true, false, Option, none}
use bbkar.Common.{some, ◌++◌, if◌then◌else◌}
use bbkar.Common.Br.{Br, BbkarError, ok, err, execution, then_branch}
use bbkar.Common.Io.{Io, ◌>>=◌, lift, Ends, Ends-bind, Ends-any, Ends-lift, Ends-self, Anything}
use bbkar.Common.Text.{Text, text}
use bbkar.Config.{display}
use bbkar.Dest.{VolumeArchive}
use bbkar.Duration.{trim}

-- How `io::copy` from the decoder into the standard input ends
pub data Copy : Type 0 where
  copied : Copy
  broken_pipe : Copy
  failed : BbkarError → Copy

-- What `restore_archive` calls; `wait` gives the exit code, none for a signal.
pub record Receiver (W : Type 0) : Type 0 where
  pub open_reader : Text → VolumeArchive → Br (Unit {0})
  pub new_decoder : Io W (Unit {0})
  pub spawn_receive : Text → Io W (Unit {0})
  pub copy : W → Copy × W
  pub read_stderr : W → Text × W
  pub wait : Io W (Option ℕ)

unfoldable pub shown_code : Option ℕ → Text
unfolding display text
shown_code none = text "-1"
shown_code (some code) = display code

abbrev pub is_success : Option ℕ → Bool
is_success none = false
is_success (some code) = code == 0

unfoldable pub check_status : Text → Option ℕ → Br (Unit {0})
unfolding shown_code trim text
check_status stderr status =
    if is_success status
    then ok tt
    else err (
        execution (
          text "btrfs receive failed (exit " ++ (shown_code status ++ (text "): " ++ trim stderr))))

module _ {W : Type 0} (receiver : Receiver W) where
  abbrev pub copy_in : Io W (Unit {0})
  copy_in w = of_copy (receiver.copy w)
    where
      of_copy : Copy × W → Br (Unit {0}) × W
      of_copy (copied, w') = (ok tt, w')
      of_copy (broken_pipe, w') = (ok tt, w')
      of_copy (failed e, w') = (err e, w')

  unfoldable pub finish_receive : Text → Io W (Unit {0})
  unfolding check_status
  finish_receive stderr = do status ← receiver.wait; lift (check_status stderr status)

  abbrev wait_with_stderr : Io W (Unit {0})
  wait_with_stderr w = let (stderr, w') = receiver.read_stderr w in finish_receive stderr w'

  unfoldable pub restore_archive : Text → VolumeArchive → Text → Io W (Unit {0})
  unfolding finish_receive
  restore_archive volume archive receive_root = do
    reader ← lift (receiver.open_reader volume archive)
    decoder ← receiver.new_decoder
    child ← receiver.spawn_receive receive_root
    piped ← copy_in
    wait_with_stderr

  -- The process has exited with success, in some world, and that is where the code ends.
  abbrev pub HasExited : W → Type 0
  HasExited w' =
      (before : W) × (status : Option ℕ) × (receiver.wait before ≡ (ok status, w'))
      × (is_success status ≡ true)

  check_status-success :
      (stderr : Text) (status : Option ℕ)
      → check_status stderr status ≡ ok tt
      → is_success status ≡ true
  unfolding check_status
  check_status-success stderr status h = (then_branch (is_success status) (ok tt) _ h).0

  finish_receive-Ends :
      (stderr : Text) (w : W) → Ends Anything (λ u. HasExited) (finish_receive stderr w)
  unfolding finish_receive
  finish_receive-Ends stderr w =
      Ends-bind (receiver.wait w) _ (Ends-self (receiver.wait w)) (λ status w₁ p e.
        Ends-lift (check_status stderr status) w₁ tt
          (λ u h. (w, status, e, check_status-success stderr status h)))

  -- Whenever restore_archive succeeds, the process of btrfs receive has exited with the code 0,
  -- also if it has closed its standard input before the end of the archive.
  pub restore_archive-HasExited :
      (volume : Text) (archive : VolumeArchive) (root : Text) (w : W)
      → Ends Anything (λ u. HasExited) (restore_archive volume archive root w)
  unfolding restore_archive
  restore_archive-HasExited volume archive root w =
      Ends-bind (receiver.open_reader volume archive, w) _ (Ends-any _)
        (λ reader w₁ p₁ q₁. Ends-bind (receiver.new_decoder w₁) _ (Ends-any _) (λ decoder w₂ p₂ q₂.
          Ends-bind (receiver.spawn_receive root w₂) _ (Ends-any _) (λ child w₃ p₃ q₃.
            Ends-bind (copy_in w₃) _ (Ends-any _) (λ piped w₄ p₄ q₄.
              finish_receive-Ends (receiver.read_stderr w₄).0 (receiver.read_stderr w₄).1))))
