-- ===== src/Status/Callers.antt =====
-- The runs of `show_one_info`, of `show_all_info` and of the loop of `thread_func`, over files that may be missing.
use yu.Prelude.{
  ℕ, suc, ◌≡◌, refl, Option, none, some, List, [], ◌∷◌, ◌++◌, length, Option-cases, inl, inr, arith,
}
use yu.Prelude.Trace.{run, done}
use yu.Status.{
  debug_prefix, error, ProcFile, Files, MatchFunc, fopen, perror_fopen, debug_error, stat,
  schedstat, status, match_line, show_one_info, show_all_info, thread_rounds,
}
use yu.Prelude.CString.{NoNull}
use yu.Status.Lines.{lines, All}
use yu.Status.Show.{Prints, IsShort, select, show_loop-all, show_loop-select, Prints->>}

-- The bytes of a file; none, if it is missing.
abbrev pub bytes_of : Option (List ℕ) → List ℕ
bytes_of none = []
bytes_of (some content) = content

abbrev pub IsText : Option (List ℕ) → Type 0
IsText file = NoNull (bytes_of file)

-- Text whose lines all fit the buffer.
abbrev pub HasShortLines : Option (List ℕ) → Type 0
HasShortLines file = NoNull (bytes_of file) × All IsShort (lines (bytes_of file))

abbrev pub selected : List ℕ → Option (List ℕ) → List ℕ
selected str file = select str (lines (bytes_of file))

select-empty : (str : List ℕ) → [] ≡ select str (lines [])
unfolding select lines
select-empty str = refl

module _ (files : Files) (f : ProcFile) where
  -- A missing file is reported, with any match function, and nothing else is done.
  pub show_one_info-missing :
      (match_func : MatchFunc) (str : List ℕ)
      → files f ≡ none
      → show_one_info files f match_func str
        ≡ run (fopen f ∷ perror_fopen ∷ debug_prefix error ∷ debug_error f ∷ []) (done tt)
  unfolding show_one_info
  show_one_info-missing match_func str h = rw (h, show_one_info)

  -- With no match function a file of text is printed whole, however long its lines are.
  pub show_one_info-all :
      (str : List ℕ)
      → IsText (files f)
      → Prints (show_one_info files f none str) (bytes_of (files f))
  unfolding show_one_info
  show_one_info-all str h = elim (Option-cases (files f)) [
    | inl e ↦ rw e (record { ended = refl; output = refl })
    | inr (content, e) ↦
        let p = show_loop-all (suc (length content)) str content (rw e at h) (omega arith) in
        rw e (record { ended = p.ended; output = p.output })
  ]

  -- Of a file that is text with lines of at most 1023 bytes, or that is missing, `show_one_info` with
  -- `match_line` prints, besides the lines of `debug_print`, the lines that hold the string, in order,
  -- and no others; and it ends.
  pub show_one_info-select :
      (str : List ℕ)
      → HasShortLines (files f)
      → Prints (show_one_info files f (some match_line) str) (selected str (files f))
  unfolding show_one_info
  show_one_info-select str h = elim (Option-cases (files f)) [
    | inl e ↦ rw e (record { ended = refl; output = select-empty str })
    | inr (content, e) ↦
        let h' = rw e at h in
        let p = show_loop-select (suc (length content)) str content h'.0 h'.1 (omega arith) in
        rw e (record { ended = p.ended; output = p.output })
  ]

-- `show_all_info` prints the three files of the thread one behind the other.
pub show_all_info-all :
    (files : Files) (tid : ℕ)
    → IsText (files (stat tid))
    → IsText (files (schedstat tid))
    → IsText (files (status tid))
    → Prints (show_all_info files tid) (
        bytes_of (files (stat tid))
        ++ (bytes_of (files (schedstat tid)) ++ bytes_of (files (status tid))))
unfolding show_all_info
show_all_info-all files tid h i j =
    let a = show_one_info-all files (stat tid) [] h in
    let b = show_one_info-all files (schedstat tid) [] i in
    let c = show_one_info-all files (status tid) [] j in
    let p = Prints->> a (Prints->> b c) in record { ended = p.ended; output = p.output }

thread_rounds-suc :
    (left : ℕ) (files : ℕ → Files) (tid : ℕ) (str : List ℕ) {rest : List ℕ}
    → HasShortLines (files left (status tid))
    → Prints (thread_rounds left files tid str) rest
    → Prints
        (thread_rounds (suc left) files tid str)
        (selected str (files left (status tid)) ++ rest)
unfolding thread_rounds
thread_rounds-suc left files tid str h p =
    Prints->> (show_one_info-select (files left) (status tid) str h)
      (record { ended = p.ended; output = p.output })

thread_rounds-zero :
    (files : ℕ → Files) (tid : ℕ) (str : List ℕ) → Prints (thread_rounds 0 files tid str) []
unfolding thread_rounds
thread_rounds-zero files tid str = record { ended = refl; output = refl }

-- The rounds of `thread_func` print the chosen lines of its status file as that stands at each of
-- three times.
pub thread_rounds-select :
    (files : ℕ → Files) (tid : ℕ) (str : List ℕ)
    → ((i : ℕ) → HasShortLines (files i (status tid)))
    → Prints (thread_rounds 3 files tid str) (
        selected str (files 2 (status tid))
        ++ (selected str (files 1 (status tid)) ++ (selected str (files 0 (status tid)) ++ [])))
thread_rounds-select files tid str h =
    let a = thread_rounds-suc 0 files tid str (h 0) (thread_rounds-zero files tid str) in
    thread_rounds-suc 2 files tid str (h 2) (thread_rounds-suc 1 files tid str (h 1) a)
