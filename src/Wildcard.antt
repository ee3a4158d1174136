-- ===== src/Wildcard.antt =====
-- src/utils/wildcard.rs: matching by a table of one row, which each pattern character updates in
-- place. Texts are lists of characters.
pub mod Rows
pub mod Match
use bbkar.Common.{ℕ, zero, suc, ◌+◌, ◌-◌, Bool, true, false, ◌&&◌, ◌||◌, List, [], ◌∷◌, ◌==◌}
use bbkar.Common.{if◌then◌else◌, length, get_or, set, replicate, filter, any}
use bbkar.Common.Text.{Text}

abbrev pub Row : Type 0
Row = List Bool

abbrev pub at : Row → ℕ → Bool
at dp j = get_or dp j false

-- `for j in 1..=tlen`: the rounds left, and the round's `j`.
pub star_loop : ℕ → ℕ → Row → Row
star_loop zero j dp = dp
star_loop (suc rounds) j dp = star_loop rounds (j + 1) (set dp j (at dp j || at dp (j - 1)))

abbrev pub fits : ℕ → ℕ → Bool
fits pc c = pc == b'?' || pc == c

-- `for j in (1..=tlen).rev()`, on `j`.
pub char_loop : ℕ → Text → ℕ → Row → Row
char_loop pc txt zero dp = dp
char_loop pc txt (suc j) dp =
    char_loop pc txt j (set dp (suc j) (at dp j && fits pc (get_or txt j 0)))

pub row_step : Text → ℕ → Row → Row
unfolding star_loop char_loop
row_step txt pc dp =
    if pc == b'*'
    then star_loop (length txt) 1 dp
    else set (char_loop pc txt (length txt) dp) 0 false

pub rows : Text → Text → Row → Row
unfolding row_step
rows txt [] dp = dp
rows txt (pc ∷ pat) dp = rows txt pat (row_step txt pc dp)

unfoldable pub wildcard_match : Text → Text → Bool
unfolding rows
wildcard_match pattern txt =
    at (rows txt pattern (set (replicate (length txt + 1) false) 0 true)) (length txt)

unfoldable pub wildcard_filter : List Text → List Text → List Text
unfolding wildcard_match
wildcard_filter candidates patterns =
    filter (λ c. any (λ p. wildcard_match p c) patterns) candidates
