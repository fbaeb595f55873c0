-- ===== src/Args/Quoting.antt =====
-- risu_main.c: words in single quotes come back from `argcargv`.
use mathlib.Core.List.{append-nil, append_assoc}
use mathlib.Core.Path.{ap₂}
use risu.Prelude.{
  ℕ, ◌+◌, ◌≡◌, ◌≢◌, refl, sym, ap, ◌∙◌, true, List, [], ◌∷◌, ◌++◌, if_false, ==_ne, arith, length,
  length-append,
}
use risu.Args.{
  Mode, between, in_word, in_single, Split, put, start, word_step, step, stop, pass, at_start,
  argcargv,
}

-- A word without a single quote.
abbrev pub Quotable : List ℕ → Type 0
Quotable [] = Unit {0}
Quotable (c ∷ cs) = (c ≢ 39) × Quotable cs

abbrev pub AllQuotable : List (List ℕ) → Type 0
AllQuotable [] = Unit {0}
AllQuotable (w ∷ ws) = Quotable w × AllQuotable ws

-- The words, each in single quotes and with a blank behind it.
abbrev pub quoted : List (List ℕ) → List ℕ
quoted [] = []
quoted (w ∷ ws) = 39 ∷ (w ++ (39 ∷ 32 ∷ quoted ws))

-- The words, each with a terminator.
abbrev pub terminated : List (List ℕ) → List ℕ
terminated [] = []
terminated (w ∷ ws) = (w ++ (0 ∷ [])) ++ terminated ws

-- In quotes, the characters of a word are stored as they are.
quotes-word :
    (w rest : List ℕ) (a : Split)
    → Quotable w
    → pass true in_single (w ++ (39 ∷ rest)) a
      ≡ pass true in_word rest
          (record a { written = a.written ++ w; consumed = a.consumed + length w + 1 })
unfolding pass step put
quotes-word [] rest a q =
    ap₂ (λ xs k. pass true in_word rest (record a { written = xs; consumed = k }))
      (sym (append-nil a.written)) (omega arith)
quotes-word (c ∷ w) rest a (n, q) =
    ap {A = Mode × Split} (λ s. pass true s.0 (w ++ (39 ∷ rest)) s.1)
      (if_false _ _ _ (==_ne c 39 n))
    ∙ quotes-word w rest (record a { written = a.written ++ (c ∷ []); consumed = a.consumed + 1 }) q
    ∙ ap₂ (λ xs k. pass true in_word rest (record a { written = xs; consumed = k }))
        (append_assoc a.written (c ∷ []) w) (omega arith)

-- A quoted word and the blank behind it.
quoted-word :
    (w rest : List ℕ) (a : Split)
    → Quotable w
    → (k : ℕ) × (pass true between (39 ∷ (w ++ (39 ∷ 32 ∷ rest))) a
        ≡ pass true between rest (record a {
          argc = a.argc + 1;
          argv = a.argv ++ (length a.written ∷ []);
          written = (a.written ++ w) ++ (0 ∷ []);
          consumed = k;
        }))
unfolding pass step word_step start put
quoted-word w rest a q =
    let opened = record a {
      argc = a.argc + 1;
      argv = a.argv ++ (length a.written ∷ []);
      consumed = a.consumed + 1;
    } in
    (a.consumed + 1 + length w + 1 + 1, quotes-word w (32 ∷ rest) opened q)

-- The offset of each word in the buffer.
abbrev pub offsets : ℕ → List (List ℕ) → List ℕ
offsets k [] = []
offsets k (w ∷ ws) = k ∷ offsets (k + length w + 1) ws

pass-quoted :
    (ws : List (List ℕ)) (a : Split)
    → AllQuotable ws
    → let after = pass true between (quoted ws) a in
      (after.0.argc ≡ a.argc + length ws)
      × (after.0.argv ≡ a.argv ++ offsets (length a.written) ws)
      × (after.0.written ≡ a.written ++ terminated ws)
      × (after.1 ≡ [])
unfolding pass stop
pass-quoted [] a q = (omega arith, sym (append-nil a.argv), sym (append-nil a.written), refl)
pass-quoted (w ∷ ws) a (q, qs) =
    let (k, e) = quoted-word w (quoted ws) a q in
    let a4 = record a {
      argc = a.argc + 1;
      argv = a.argv ++ (length a.written ∷ []);
      written = (a.written ++ w) ++ (0 ∷ []);
      consumed = k;
    } in
    let (c, v, t, r) = pass-quoted ws a4 qs in
    let l : length ((a.written ++ w) ++ (0 ∷ [])) ≡ length a.written + length w + 1 =
      length-append (a.written ++ w) (0 ∷ []) ∙ ap (λ n. n + 1) (length-append a.written w) in
    (
      ap (λ x. x.0.argc) e ∙ c ∙ omega arith,
      ap (λ x. x.0.argv) e
          ∙ v
          ∙ append_assoc a.argv _ _
          ∙ ap (λ n. a.argv ++ (length a.written ∷ offsets n ws)) l,
      ap (λ x. x.0.written) e
          ∙ t
          ∙ append_assoc (a.written ++ w) (0 ∷ []) (terminated ws)
          ∙ append_assoc a.written w (0 ∷ terminated ws)
          ∙ ap (λ xs. a.written ++ xs) (sym (append_assoc w (0 ∷ []) (terminated ws))),
      ap (λ x. x.1) e ∙ r,
    )

-- Words without a single quote, each put in single quotes and with a blank behind it, come back
-- from argcargv: the count, the offset of each word in the buffer and the bytes of the words with
-- their terminators, and the whole string is read.
pub argcargv-quoted :
    (ws : List (List ℕ))
    → AllQuotable ws
    → let (argc, second, rest) = argcargv (quoted ws) in
      (second.argc ≡ length ws)
      × (second.argv ≡ offsets 0 ws)
      × (second.written ≡ terminated ws)
      × (rest ≡ [])
unfolding argcargv
argcargv-quoted ws q = let (c, v, t, r) = pass-quoted ws at_start q in (c ∙ omega arith, v, t, r)
