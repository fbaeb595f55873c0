-- ===== src/Options/Table.antt =====
-- risu.c: getopt sees every option of the table.
use risu.Prelude.{ℕ, suc, ◌≡◌, refl, sym, ap, ◌∙◌, List, [], ◌∷◌, ◌++◌, Option, none, some, take}
use risu.Prelude.Outcome.{Outcome, done, exits, aborts, overruns, hangs, ◌>>=◌}
use risu.Options.{LongOption, null_option, default_longopts, count_from, arch_count, setup_options}

-- The options that getopt finds: those in front of the first entry without a name. A table without
-- such an entry is read behind its end.
abbrev pub seen : List LongOption → Outcome (List LongOption)
seen os = arch_count os >>= (λ n. done (take n os))

unnamed : (o : LongOption) (os : List LongOption) → o.name ≡ none → seen (o ∷ os) ≡ done []
unfolding arch_count count_from
unnamed o os h = ap (λ m. count_from m (arch_count os) >>= (λ n. done (take n (o ∷ os)))) h

taken_on :
    (o : LongOption) (os : List LongOption) (c : Outcome ℕ)
    → ((c >>= (λ k. done (suc k))) >>= (λ n. done (take n (o ∷ os))))
      ≡ ((c >>= (λ n. done (take n os))) >>= (λ own. done (o ∷ own)))
taken_on o os (done n) = refl
taken_on o os exits = refl
taken_on o os aborts = refl
taken_on o os overruns = refl
taken_on o os hangs = refl

named :
    (o : LongOption) (os : List LongOption) (name : List ℕ)
    → o.name ≡ some name
    → seen (o ∷ os) ≡ (seen os >>= (λ own. done (o ∷ own)))
unfolding arch_count count_from
named o os name h =
    ap (λ m. count_from m (arch_count os) >>= (λ n. done (take n (o ∷ os)))) h
    ∙ taken_on o os (arch_count os)

-- The table of the entries in front of the end, with a new end, as getopt sees it.
abbrev copied : List LongOption → Outcome ℕ → Outcome (List LongOption)
copied os c = c >>= (λ n. seen (take n os ++ (null_option ∷ [])))

copied_on :
    (o : LongOption) (os : List LongOption) (name : List ℕ) (c : Outcome ℕ)
    → o.name ≡ some name
    → copied os c ≡ seen os
    → copied (o ∷ os) (c >>= (λ k. done (suc k))) ≡ seen (o ∷ os)
copied_on o os name (done n) h e =
    named o (take n os ++ (null_option ∷ [])) name h
    ∙ ap (λ s. s >>= (λ own. done (o ∷ own))) e
    ∙ sym (named o os name h)
copied_on o os name exits h e = ap (λ s. s >>= (λ own. done (o ∷ own))) e ∙ sym (named o os name h)
copied_on o os name aborts h e = ap (λ s. s >>= (λ own. done (o ∷ own))) e ∙ sym (named o os name h)
copied_on o os name overruns h e =
    ap (λ s. s >>= (λ own. done (o ∷ own))) e ∙ sym (named o os name h)
copied_on o os name hangs h e = ap (λ s. s >>= (λ own. done (o ∷ own))) e ∙ sym (named o os name h)

copied_by_name :
    (o : LongOption) (os : List LongOption) (m : Option (List ℕ))
    → o.name ≡ m
    → copied os (arch_count os) ≡ seen os
    → copied (o ∷ os) (count_from m (arch_count os)) ≡ seen (o ∷ os)
unfolding count_from arch_count
copied_by_name o os none h e = sym (unnamed o os h)
copied_by_name o os (some name) h e = copied_on o os name (arch_count os) h e

-- The copy of a table with a new end shows the same options.
seen-copied : (os : List LongOption) → copied os (arch_count os) ≡ seen os
unfolding arch_count
seen-copied [] = refl
seen-copied (o ∷ os) =
    ap (λ m. copied (o ∷ os) (count_from m (arch_count os))) refl
    ∙ copied_by_name o os o.name refl (seen-copied os)

abbrev suc_5 : Outcome ℕ → Outcome ℕ
suc_5 c =
    count_from (some [])
      (count_from (some []) (count_from (some []) (count_from (some []) (count_from (some []) c))))

defaults_on :
    (ismaster : ℕ) (os : List LongOption) (c : Outcome ℕ)
    → (suc_5 c >>= (λ n. done (take n (default_longopts ismaster ++ os))))
      ≡ ((c >>= (λ n. done (take n os))) >>= (λ own. done (default_longopts ismaster ++ own)))
unfolding count_from
defaults_on ismaster os (done n) = refl
defaults_on ismaster os exits = refl
defaults_on ismaster os aborts = refl
defaults_on ismaster os overruns = refl
defaults_on ismaster os hangs = refl

-- The default options stand in front of those of a table behind them.
defaults_seen :
    (ismaster : ℕ) (os : List LongOption)
    → seen (default_longopts ismaster ++ os)
      ≡ (seen os >>= (λ own. done (default_longopts ismaster ++ own)))
unfolding arch_count count_from
defaults_seen ismaster os = defaults_on ismaster os (arch_count os)

table_on :
    (ismaster : ℕ) (os : List LongOption) (c : Outcome ℕ)
    → ((c >>= (λ n. done (default_longopts ismaster ++ (take n os ++ (null_option ∷ [])))))
        >>= seen)
      ≡ (copied os c >>= (λ own. done (default_longopts ismaster ++ own)))
table_on ismaster os (done n) = defaults_seen ismaster (take n os ++ (null_option ∷ []))
table_on ismaster os exits = refl
table_on ismaster os aborts = refl
table_on ismaster os overruns = refl
table_on ismaster os hangs = refl

-- In the table of long options, the entries in front of the first one without a name are the
-- default options and behind them the architecture's own up to its first entry without a name, or
-- the default options alone if the architecture has no table. If the architecture's table has no
-- entry without a name, it is read behind its end, and only then.
pub seen-setup_options :
    (ismaster : ℕ) (os : List LongOption)
    → ((setup_options ismaster (some os) >>= seen)
        ≡ (seen os >>= (λ own. done (default_longopts ismaster ++ own))))
      × ((setup_options ismaster none >>= seen) ≡ done (default_longopts ismaster))
unfolding setup_options
seen-setup_options ismaster os = (
  table_on ismaster os (arch_count os)
      ∙ ap (λ s. s >>= (λ own. done (default_longopts ismaster ++ own))) (seen-copied os),
  ends,
)
  where
    ends : seen (default_longopts ismaster ++ (null_option ∷ [])) ≡ done (default_longopts ismaster)
    ends =
        defaults_seen ismaster (null_option ∷ [])
        ∙ ap (λ s. s >>= (λ own. done (default_longopts ismaster ++ own)))
            (unnamed null_option [] refl)
