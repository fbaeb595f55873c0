-- ===== src/Args.antt =====
-- risu_main.c: `argcargv`, which splits a command line into words in place.
pub mod Passes
pub mod Quoting
use risu.Prelude.{ℕ, ◌+◌, Bool, true, false, ◌||◌, List, [], ◌∷◌, ◌++◌, if◌then◌else◌, ◌==◌, length}

-- Where the loops stand: between words, in a word, in its quotes, behind a backslash, or at
-- `donewords`.
pub data Mode : Type 0 where
  between in_word in_double in_single escaped finished : Mode

-- `argc`, the offsets in the buffer that `argv` holds, the bytes from `buf` to `d`, the number of
-- messages about what is missing, and `s - buf`. The bytes are written over the buffer itself, but
-- never ahead of `s`.
pub record Split : Type 0 where
  pub argc : ℕ
  pub argv : List ℕ
  pub written : List ℕ
  pub missing : ℕ
  pub consumed : ℕ

abbrev pub blank : ℕ → Bool
blank c = c == 9 || c == b' '

abbrev pub newline : ℕ → Bool
newline c = c == 10 || c == 13

-- `case '\\'`, `case 't'`, `case 'n'`, `case 'r'` and the default.
unfoldable pub unescape : ℕ → ℕ
unescape c = if c == b't' then 9 else if c == b'n' then 10 else if c == b'r' then 13 else c

-- `if (p) *d++ = c;`
unfoldable pub put : Bool → ℕ → Split → Split
put p c a = if p then record a { written = a.written ++ (c ∷ []) } else a

-- `if (p) argv[argc] = d; argc++;`
unfoldable pub start : Bool → Split → Split
start p a = record a {
  argc = a.argc + 1;
  argv = if p then a.argv ++ (length a.written ∷ []) else a.argv;
}

unfoldable pub word_step : Bool → ℕ → Split → Mode × Split
unfolding put
word_step p c a =
    if c == b'"'
    then (in_double, a)
    else if c == 39
    then (in_single, a)
    else if c == 92
    then (escaped, a)
    else if blank c
    then (between, put p 0 a)
    else if newline c
    then (finished, put p 0 a)
    else (in_word, put p c a)

-- What one character does.
unfoldable pub step : Bool → Mode → ℕ → Split → Mode × Split
unfolding word_step start put unescape
step p between c a =
    if blank c then (between, a) else if newline c then (finished, a) else word_step p c (start p a)
step p in_word c a = word_step p c a
step p in_double c a = if c == b'"' then (in_word, a) else (in_double, put p c a)
step p in_single c a = if c == 39 then (in_word, a) else (in_single, put p c a)
step p escaped c a = (in_word, put p (unescape c) a)
step p finished c a = (finished, a)

-- At the end of the string.
unfoldable pub stop : Bool → Mode → Split → Split
unfolding put
stop p between a = a
stop p finished a = a
stop p in_word a = put p 0 a
stop p _ a = put p 0 (record a { missing = a.missing + 1 })

-- One pass over the string: what it leaves, and the string behind `s`.
unfoldable pub pass : Bool → Mode → List ℕ → Split → Split × List ℕ
unfolding step stop
pass p finished cs a = (a, cs)
pass p mode [] a = (stop p mode a, [])
pass p mode (c ∷ cs) a =
    let next = step p mode c (record a { consumed = a.consumed + 1 }) in pass p next.0 cs next.1

abbrev pub at_start : Split
at_start = record { argc = 0; argv = []; written = []; missing = 0; consumed = 0 }

-- `argcargv` with both results wanted: the count of the first pass, which `calloc` is given,
-- and what the second pass leaves.
unfoldable pub argcargv : List ℕ → ℕ × Split × List ℕ
unfolding pass
argcargv buf =
    let first = pass false between buf at_start in
    let second = pass true between buf at_start in (first.0.argc, second.0, second.1)
