-- ===== src/Status/Tests.antt =====
-- Runs of pid_status.c on small files.
use yu.Prelude.{ℕ, ◌≡◌, refl, none, some, List, [], ◌∷◌, arith}
use yu.Prelude.Trace.{run, done}
use yu.Status.{
  debug_prefix, error, Files, fopen, perror_fopen, debug_error, stat, schedstat, status, match_line,
  show_one_info,
}
use yu.Status.Text.{contains, starts_with}
use yu.Status.Lines.{lines, extend}
use yu.Status.Show.{Prints, select}
use yu.Status.Callers.{IsText, HasShortLines, selected, show_one_info-missing, show_one_info-select}

-- "ab", "cd" and "ad", a line each.
abbrev text : List ℕ
text = b'a' ∷ b'b' ∷ 10 ∷ b'c' ∷ b'd' ∷ 10 ∷ b'a' ∷ b'd' ∷ []

abbrev files : Files
files (status tid) = some text
files (stat tid) = some (b'7' ∷ 10 ∷ [])
files (schedstat tid) = none

text-HasShortLines : HasShortLines (some text)
unfolding lines extend
text-HasShortLines = ground arith

files-IsText : IsText (files (stat 7)) × IsText (files (schedstat 7)) × IsText (files (status 7))
files-IsText = ground arith

select-d : select (b'd' ∷ []) (lines text) ≡ b'c' ∷ b'd' ∷ 10 ∷ b'a' ∷ b'd' ∷ []
unfolding select lines extend contains starts_with
select-d = refl

show_one_info-missing_example :
    show_one_info files (schedstat 7) (some match_line) (b'd' ∷ [])
    ≡ run
        (fopen (schedstat 7) ∷ perror_fopen ∷ debug_prefix error ∷ debug_error (schedstat 7) ∷ [])
        (done tt)
show_one_info-missing_example =
    show_one_info-missing files (schedstat 7) (some match_line) (b'd' ∷ []) refl

show_one_info-select_example :
    Prints
      (show_one_info files (status 7) (some match_line) (b'd' ∷ []))
      (selected (b'd' ∷ []) (some text))
show_one_info-select_example = show_one_info-select files (status 7) (b'd' ∷ []) text-HasShortLines
