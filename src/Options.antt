-- ===== src/Options.antt =====
-- risu.c: `setup_options`, the table of long options that getopt is given.
pub mod Table
use risu.Prelude.{ℕ, zero, suc, ◌+◌, List, [], ◌∷◌, ◌++◌, Option, none, some, take}
use risu.Prelude.Outcome.{Outcome, done, overruns, ◌>>=◌}

-- `struct option`: the name as its bytes, `none` for NULL; whether an argument is required; the
-- variable that is set, if there is one; and the value.
pub record LongOption : Type 0 where
  pub name : Option (List ℕ)
  pub required_argument : ℕ
  pub flag : Option ℕ
  pub val : ℕ

-- `{0, 0, 0, 0}`, which calloc leaves as well.
abbrev pub null_option : LongOption
null_option = record { name = none; required_argument = 0; flag = none; val = 0 }

abbrev pub option_of : List ℕ → ℕ → Option ℕ → ℕ → LongOption
option_of name argument flag val = record {
  name = some name;
  required_argument = argument;
  flag = flag;
  val = val;
}

-- `default_longopts` without its last entry; `ismaster` is a variable's address.
abbrev pub default_longopts : ℕ → List LongOption
default_longopts ismaster =
    option_of (b'h' ∷ b'e' ∷ b'l' ∷ b'p' ∷ []) 0 none b'?'
    ∷ option_of (b'm' ∷ b'a' ∷ b's' ∷ b't' ∷ b'e' ∷ b'r' ∷ []) 0 (some ismaster) 1
    ∷ option_of (b'h' ∷ b'o' ∷ b's' ∷ b't' ∷ []) 1 none b'h'
    ∷ option_of (b'p' ∷ b'o' ∷ b'r' ∷ b't' ∷ []) 1 none b'p'
    ∷ option_of (b't' ∷ b'r' ∷ b'a' ∷ b'c' ∷ b'e' ∷ []) 1 none b't'
    ∷ []

-- The loop that counts the entries in front of the one without a name, which reads behind the array
-- where there is none.
unfoldable pub count_from : Option (List ℕ) → Outcome ℕ → Outcome ℕ
count_from none n = done zero
count_from (some name) n = n >>= (λ k. done (suc k))

unfoldable pub arch_count : List LongOption → Outcome ℕ
unfolding count_from
arch_count [] = overruns
arch_count (o ∷ os) = count_from o.name (arch_count os)

-- The table: the default options, the architecture's own if it has some, and an empty entry.
unfoldable pub setup_options : ℕ → Option (List LongOption) → Outcome (List LongOption)
unfolding arch_count
setup_options ismaster none = done (default_longopts ismaster ++ (null_option ∷ []))
setup_options ismaster (some arch_long_opts) = do
  n ← arch_count arch_long_opts
  done (default_longopts ismaster ++ (take n arch_long_opts ++ (null_option ∷ [])))
