-- ===== src/Status/Show.antt =====
-- What `show_one_info` and its callers print.
use yu.Prelude.Calls.{collect-append, collect}
use yu.Prelude.{
  ℕ, zero, suc, ◌≤◌, ◌<◌, ◌≡◌, refl, ap₂, ◌∙◌, ◌↔◌, inl, inr, none, some, List, [], ◌∷◌, ◌++◌,
  append-nil, if◌then◌else◌, length, arith, Bool-cases,
}
use yu.Prelude.Trace.{◌>>◌, Run, done}
use yu.Status.{Event, printf, match_line, show_loop, match_and_print}
use yu.Prelude.CString.{c_string, NoNull, c_string-NoNull}
use yu.Status.Text.{fgets, chunk, contains}
use yu.Status.Lines.{
  lines, All, FirstFits, chunk-append, chunk-lt, NoNull-chunk, lines-chunk, contains_iff,
}

-- The bytes that reach the standard output through `printf ("%s", line)`.
abbrev pub printed_by : Event → List ℕ
printed_by (printf l) = l
printed_by _ = []

abbrev pub printed : List Event → List ℕ
printed = collect printed_by

-- The lines that hold `str`, joined.
unfoldable pub select : List ℕ → List (List ℕ) → List ℕ
select str [] = []
select str (l ∷ ls) = if contains str l then l ++ select str ls else select str ls

-- The run ends, and has printed `bytes`.
pub record Prints (r : Run Event (Unit {0})) (bytes : List ℕ) : Type 0 where
  pub ended : r.outcome ≡ done tt
  pub output : printed r.calls ≡ bytes

pub show_loop-all :
    (fuel : ℕ) (str content : List ℕ)
    → NoNull content
    → length content < fuel
    → Prints (show_loop fuel none str content) content
unfolding show_loop match_and_print fgets
show_loop-all zero str content h lt = absurd (omega arith)
show_loop-all (suc fuel) str [] h lt = record { ended = refl; output = refl }
show_loop-all (suc fuel) str (c ∷ cs) h lt =
    let (front, back) = NoNull-chunk 1023 (c ∷ cs) h in
    let rest =
      show_loop-all fuel str (chunk 1023 (c ∷ cs)).1 back (omega (arith, chunk-lt 1022 c cs)) in
    record {
      ended = rest.ended;
      output = rw (rest.output, c_string-NoNull _ front) (chunk-append 1023 (c ∷ cs));
    }

-- A line that fits the buffer.
abbrev pub IsShort : List ℕ → Type 0
IsShort l = length l ≤ 1023

FirstFits-All : (ls : List (List ℕ)) → All IsShort ls → FirstFits 1023 ls
FirstFits-All [] h = tt
FirstFits-All (l ∷ ls) h = h.0

Prints-match :
    (str l : List ℕ)
    → NoNull l
    → Prints (match_and_print (some match_line) (c_string l) str) (if contains str l then l else [])
unfolding match_and_print match_line
Prints-match str l h = rw (c_string-NoNull l h) (elim (Bool-cases (contains str l)) [
  | inl e ↦ rw e (record { ended = refl; output = append-nil l })
  | inr e ↦ rw e (record { ended = refl; output = refl })
])

-- One run behind another.
pub Prints->> :
    {r s : Run Event (Unit {0})} {a b : List ℕ} → Prints r a → Prints s b → Prints (r >> s) (a ++ b)
Prints->> {r} {s} p q = rw p.ended (record {
  ended = q.ended;
  output = collect-append printed_by r.calls s.calls ∙ ap₂ ◌++◌ p.output q.output;
})

select-cons :
    (str l : List ℕ) (ls : List (List ℕ))
    → (if contains str l then l else []) ++ select str ls ≡ select str (l ∷ ls)
unfolding select
select-cons str l ls = elim (Bool-cases (contains str l)) [ inl e ↦ rw e | inr e ↦ rw e ]

pub show_loop-select :
    (fuel : ℕ) (str content : List ℕ)
    → NoNull content
    → All IsShort (lines content)
    → length content < fuel
    → Prints (show_loop fuel (some match_line) str content) (select str (lines content))
unfolding show_loop fgets
show_loop-select zero str content h short lt = absurd (omega arith)
show_loop-select (suc fuel) str [] h short lt = record {
  ended = refl;
  output = unfold lines select in refl;
}
show_loop-select (suc fuel) str (c ∷ cs) h short lt =
    let (front, back) = NoNull-chunk 1023 (c ∷ cs) h in
    let e = lines-chunk 1022 c cs (FirstFits-All _ short) in
    let rest =
      show_loop-select fuel str (chunk 1023 (c ∷ cs)).1 back (rw e at short).1
        (omega (arith, chunk-lt 1022 c cs)) in
    rw (e, ← select-cons str (chunk 1023 (c ∷ cs)).0 (lines (chunk 1023 (c ∷ cs)).1))
      (Prints->> (Prints-match str (chunk 1023 (c ∷ cs)).0 front) rest)

-- `match_line` returns 1 exactly when the line is something, the string, and something; and else 0.
pub match_line_iff :
    (line str : List ℕ)
    → ((match_line line str ≡ 1)
        ↔ ((pre : List ℕ) × (post : List ℕ) × (line ≡ pre ++ (str ++ post))))
      × (match_line line str ≤ 1)
unfolding match_line
match_line_iff line str =
    let c = contains_iff str line in ((λ e. c.0 (ground arith), λ p. rw (c.1 p)), ground arith)
