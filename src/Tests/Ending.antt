-- ===== src/Tests/Ending.antt =====
-- The end of `main` and of `restore_archive`.
use bbkar.Common.{ℕ, ◌≡◌, refl, some, List, [], ◌∷◌}
use bbkar.Common.Br.{ok}
use bbkar.Common.Io.{Ends, Anything}
use bbkar.Common.Text.{Text, text}
use bbkar.Main.{config_count}
use bbkar.Receive.{Receiver, broken_pipe, restore_archive, HasExited, restore_archive-HasExited}
use bbkar.Tests.Data.{full_archive}

abbrev args : List Text
args = text "bbkar" ∷ text "run" ∷ text "--config=b" ∷ []

one_option : config_count args ≡ 1
unfolding config_count text
one_option = refl

-- A `btrfs receive` that closes its input early and exits with 0
abbrev receiver : Receiver ℕ
receiver = record {
  open_reader = λ v a. ok tt;
  new_decoder = λ w. (ok tt, w);
  spawn_receive = λ root w. (ok tt, w);
  copy = λ w. (broken_pipe, w);
  read_stderr = λ w. ([], w);
  wait = λ w. (ok (some 0), w);
}

restore_archive-HasExited_example :
    Ends Anything
      (λ u. HasExited receiver)
      (restore_archive receiver (b'v' ∷ []) (full_archive b'1') (b'/' ∷ []) 3)
restore_archive-HasExited_example =
    restore_archive-HasExited receiver (b'v' ∷ []) (full_archive b'1') (b'/' ∷ []) 3
