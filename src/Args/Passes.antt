-- ===== src/Args/Passes.antt =====
-- risu_main.c: the two passes of `argcargv` agree, and the second one writes behind itself.
use risu.Prelude.{
  ℕ, ◌+◌, ◌≤◌, ◌≡◌, refl, sym, ap, subst, ◌∙◌, Bool, true, false, List, [], ◌∷◌, if◌then◌else◌,
  ◌==◌, arith, length, length-append,
}
use risu.Args.{
  Mode, between, in_word, in_double, in_single, escaped, finished, Split, blank, newline, unescape,
  put, start, word_step, step, stop, pass, at_start, argcargv,
}

-- What the first pass has counted, and what the second pass has done, which has reached byte
-- `reached` and writes `room` bytes behind.
record Together (room reached : ℕ) (a b : Split) : Type 0 where
  argc_eq : a.argc ≡ b.argc
  argv_eq : length b.argv ≡ b.argc
  consumed_eq : b.consumed ≡ reached
  in_place : length b.written + room ≤ b.consumed

put-Together :
    {k : ℕ} (c : ℕ) (a b : Split) → Together 1 k a b → Together 0 k (put false c a) (put true c b)
unfolding put
put-Together c a b t = record {
  argc_eq = t.argc_eq;
  argv_eq = t.argv_eq;
  consumed_eq = t.consumed_eq;
  in_place = omega (arith, t.in_place, length-append b.written (c ∷ []));
}

start-Together :
    {k : ℕ} (a b : Split) → Together 1 k a b → Together 1 k (start false a) (start true b)
unfolding start
start-Together a b t = record {
  argc_eq = ap (λ n. n + 1) t.argc_eq;
  argv_eq = length-append b.argv (length b.written ∷ []) ∙ ap (λ n. n + 1) t.argv_eq;
  consumed_eq = t.consumed_eq;
  in_place = t.in_place;
}

Together-weaken : {k : ℕ} (a b : Split) → Together 1 k a b → Together 0 k a b
Together-weaken a b t = record {
  argc_eq = t.argc_eq;
  argv_eq = t.argv_eq;
  consumed_eq = t.consumed_eq;
  in_place = omega (arith, t.in_place);
}

-- Both passes go on in the same mode.
abbrev Steps : ℕ → Mode × Split → Mode × Split → Type 0
Steps k x y = (x.0 ≡ y.0) × Together 0 k x.1 y.1

Steps-if :
    {k : ℕ} (b : Bool) (x y z w : Mode × Split)
    → Steps k x y
    → Steps k z w
    → Steps k (if b then x else z) (if b then y else w)
Steps-if true x y z w h k = h
Steps-if false x y z w h k = k

word_step-Steps :
    {k : ℕ} (c : ℕ) (a b : Split)
    → Together 1 k a b
    → Steps k (word_step false c a) (word_step true c b)
unfolding word_step
word_step-Steps c a b t =
    let weak = Together-weaken a b t in
    let zeroed = put-Together 0 a b t in
    Steps-if (c == b'"') _ _ _ _ (refl, weak)
      (Steps-if (c == 39) _ _ _ _ (refl, weak)
        (Steps-if (c == 92) _ _ _ _ (refl, weak)
          (Steps-if (blank c) _ _ _ _ (refl, zeroed)
            (Steps-if (newline c) _ _ _ _ (refl, zeroed) (refl, put-Together c a b t)))))

step-Steps :
    {k : ℕ} (m : Mode) (c : ℕ) (a b : Split)
    → Together 1 k a b
    → Steps k (step false m c a) (step true m c b)
unfolding step
step-Steps between c a b t =
    Steps-if (blank c) _ _ _ _ (refl, Together-weaken a b t)
      (Steps-if (newline c) _ _ _ _ (refl, Together-weaken a b t)
        (word_step-Steps c _ _ (start-Together a b t)))
step-Steps in_word c a b t = word_step-Steps c a b t
step-Steps in_double c a b t =
    Steps-if (c == b'"') _ _ _ _ (refl, Together-weaken a b t) (refl, put-Together c a b t)
step-Steps in_single c a b t =
    Steps-if (c == 39) _ _ _ _ (refl, Together-weaken a b t) (refl, put-Together c a b t)
step-Steps escaped c a b t = (refl, put-Together (unescape c) a b t)
step-Steps finished c a b t = (refl, Together-weaken a b t)

-- What a pass over `cs` leaves of two passes that were together.
record Leaves (total : ℕ) (x y : Split × List ℕ) : Type 0 where
  argc_eq : x.0.argc ≡ y.0.argc
  argv_eq : length y.0.argv ≡ y.0.argc
  rest_eq : x.1 ≡ y.1
  fits : length y.0.written ≤ total + 1

stop-Leaves :
    {k : ℕ} (m : Mode) (total : ℕ) (a b : Split)
    → Together 0 k a b
    → b.consumed ≤ total
    → Leaves total (stop false m a, []) (stop true m b, [])
unfolding stop put
stop-Leaves between total a b t le = record {
  argc_eq = t.argc_eq;
  argv_eq = t.argv_eq;
  rest_eq = refl;
  fits = omega (arith, t.in_place);
}
stop-Leaves finished total a b t le = record {
  argc_eq = t.argc_eq;
  argv_eq = t.argv_eq;
  rest_eq = refl;
  fits = omega (arith, t.in_place);
}
stop-Leaves _ total a b t le = record {
  argc_eq = t.argc_eq;
  argv_eq = t.argv_eq;
  rest_eq = refl;
  fits = omega (arith, t.in_place, length-append b.written (0 ∷ []));
}

consume-Together :
    {k : ℕ} (a b : Split)
    → Together 0 k a b
    → Together 1
        (k + 1)
        (record a { consumed = a.consumed + 1 })
        (record b { consumed = b.consumed + 1 })
consume-Together a b t = record {
  argc_eq = t.argc_eq;
  argv_eq = t.argv_eq;
  consumed_eq = ap (λ n. n + 1) t.consumed_eq;
  in_place = omega (arith, t.in_place);
}

pass-Leaves :
    (m : Mode) (cs : List ℕ) (a b : Split) (k total : ℕ)
    → Together 0 k a b
    → k + length cs ≤ total
    → Leaves total (pass false m cs a) (pass true m cs b)
unfolding pass
pass-Leaves finished cs a b k total t le = record {
  argc_eq = t.argc_eq;
  argv_eq = t.argv_eq;
  rest_eq = refl;
  fits = omega (arith, t.in_place, t.consumed_eq);
}
pass-Leaves between [] a b k total t le =
    stop-Leaves between total a b t (omega (arith, t.consumed_eq))
pass-Leaves in_word [] a b k total t le =
    stop-Leaves in_word total a b t (omega (arith, t.consumed_eq))
pass-Leaves in_double [] a b k total t le =
    stop-Leaves in_double total a b t (omega (arith, t.consumed_eq))
pass-Leaves in_single [] a b k total t le =
    stop-Leaves in_single total a b t (omega (arith, t.consumed_eq))
pass-Leaves escaped [] a b k total t le =
    stop-Leaves escaped total a b t (omega (arith, t.consumed_eq))
pass-Leaves m (c ∷ cs) a b k total t le =
    let x = step false m c (record a { consumed = a.consumed + 1 }) in
    let y = step true m c (record b { consumed = b.consumed + 1 }) in
    let (e, g) = step-Steps m c _ _ (consume-Together a b t) in
    subst (λ m'. Leaves total (pass false x.0 cs x.1) (pass true m' cs y.1)) e
      (pass-Leaves x.0 cs x.1 y.1 (k + 1) total g (omega arith))

-- Whatever the string is, the first pass counts the words that the second pass then stores, so
-- argv has an element for each, and the second pass writes no more bytes than the string and its
-- terminator have.
pub argcargv_fits :
    (buf : List ℕ)
    → let (argc, second, rest) = argcargv buf in
      (second.argc ≡ argc) × (length second.argv ≡ argc) × (length second.written ≤ length buf + 1)
unfolding argcargv
argcargv_fits buf =
    let l =
      pass-Leaves between buf at_start at_start 0 (length buf)
        (record { argc_eq = refl; argv_eq = refl; consumed_eq = refl; in_place = omega arith })
        (omega arith) in
    (sym l.argc_eq, l.argv_eq ∙ sym l.argc_eq, l.fits)
